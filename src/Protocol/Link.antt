-- ===== src/Protocol/Link.antt =====
-- Both contracts at the two ends of one channel, with the acknowledgements that are on their way.
pub mod Agreement
use cw_ibc_demo.Prelude.{String, ◌≡◌, List, ◌∷◌, Option, ok, commit}
use cw_ibc_demo.Std.{Binary, CosmosMsg, Env, IbcReceiveResponse}
use cw_ibc_demo.SimpleIca.Types.{dispatch, error}
use cw_ibc_demo.Platform.{Platform, Deps}
use cw_ibc_demo.Controller.State as controller
use cw_ibc_demo.Controller.Ibc.{ibc_packet_ack}
use cw_ibc_demo.Controller.Ibc.Runs.{Call, step}
use cw_ibc_demo.Controller.Ibc.Runs.Known.{Elsewhere}
use cw_ibc_demo.Host.State as host
use cw_ibc_demo.Host.Packet.{ibc_packet_receive}
use cw_ibc_demo.Host.Runs as runs
use cw_ibc_demo.Protocol.{carried, answered}

-- `acks` holds each packet that was acknowledged, with its acknowledgement.
pub record Link (p : Platform) : Type 0 where
  pub controller : controller.State p
  pub host : host.State p
  pub acks : List (Binary × Binary)

pub data Sent (bytes b : Binary) : List (Binary × Binary) → Type 0 where
  first : {l : List (Binary × Binary)} → Sent bytes b ((bytes, b) ∷ l)
  later : {x : Binary × Binary} {l : List (Binary × Binary)} → Sent bytes b l → Sent bytes b (x ∷ l)

-- The steps of the two contracts, where the channel joins `src` of the controller and `dest` of
-- the host. Of the packets nothing is assumed: the host may receive any bytes. Acknowledgements
-- come late, in any order, and more than once.
pub data Step (p : Platform) (src dest : String) (l : Link p) : Link p → Type 0 where
  -- a call of the controller that is no acknowledgement on this channel
  calls :
      (c : Call)
      → Elsewhere src c
      → Step p src dest l (record l { controller = step p l.controller c })
  -- a step of the host that does not close the channel
  hosts :
      {t : host.State p} (st : runs.Step p l.host t)
      → runs.Keeps dest st
      → Step p src dest l (record l { host = t })
  -- the host receives a packet of this channel, and its acknowledgement is sent
  receives :
      (d : Deps) (bytes : Binary) {r : IbcReceiveResponse} {t : host.State p}
      → ibc_packet_receive p d (carried src dest bytes) l.host ≡ (ok r, t)
      → Step p src dest l (record l { host = t; acks = (bytes, r.acknowledgement) ∷ l.acks })
  -- the acknowledgement of a dispatch is what the replies set, whatever that is
  replies :
      {bytes b : Binary} {sender : String} {msgs : List CosmosMsg} {callback_id : Option String}
      → p.packet.from_slice bytes ≡ ok (dispatch sender msgs callback_id)
      → Step p src dest l (record l { acks = (bytes, b) ∷ l.acks })
  -- a packet that fails is acknowledged with an error by the chain
  fails :
      {bytes b : Binary} {text : String}
      → p.ack.from_slice b ≡ ok (error text)
      → Step p src dest l (record l { acks = (bytes, b) ∷ l.acks })
  -- the controller handles an acknowledgement
  handles :
      (now : Env) {bytes b : Binary}
      → Sent bytes b l.acks
      → Step p src dest l (record l {
        controller =
            commit (ibc_packet_ack p now (answered (carried src dest bytes) b)) l.controller;
      })

pub data Reach (p : Platform) (src dest : String) (l : Link p) : Link p → Type 0 where
  here : Reach p src dest l l
  next : {m n : Link p} → Reach p src dest l m → Step p src dest m n → Reach p src dest l n
