-- ===== src/Controller/Contract/Auth.antt =====
-- contract.rs of the controller: who may do what, and the packets that are sent.
use cw_ibc_demo.Prelude.{
  String, ◌≡◌, ◌≢◌, ◌⊎◌, inl, inr, refl, ◌==◌, Option, none, some, [], ◌∷◌, ok, err, arith, commit,
  eq_iff, Outcome-cases, Bool-cases,
}
use cw_ibc_demo.Std.{Binary, Addr, Env, MessageInfo, Response, generic_err, fire, ibc_send_packet}
use cw_ibc_demo.SimpleIca.Types.{PacketMsg, dispatch, balances}
use cw_ibc_demo.SimpleIca.Types as types
use cw_ibc_demo.Platform.{Platform, Deps}
use cw_ibc_demo.Controller.Msg.{
  ExecuteMsg, update_admin, send_msgs, check_remote_balance, ibc_query, send_funds, Config,
}
use cw_ibc_demo.Controller.State.{State}
use cw_ibc_demo.Controller.Contract.{
  execute_update_admin, execute_send_msgs, execute_ibc_query, execute_check_remote_balance,
  execute_send_funds, execute,
}

-- The error that a sender who is not the admin gets, for the messages that are the admin's.
abbrev pub refusal : ExecuteMsg → Option String
refusal (update_admin a) = some "Only admin may set new admin"
refusal (send_msgs c ms i) = some "Only admin may send messages"
refusal (check_remote_balance c) = some "Only admin may send messages"
refusal (ibc_query c ms i) = none
refusal (send_funds c t) = none

-- The channel and the packet of a message that sends one.
abbrev pub packet_of : Addr → ExecuteMsg → Option (String × PacketMsg)
packet_of sender (update_admin a) = none
packet_of sender (send_msgs c ms i) = some (c, dispatch sender ms i)
packet_of sender (check_remote_balance c) = some (c, balances)
packet_of sender (ibc_query c ms i) = some (c, types.ibc_query sender ms i)
packet_of sender (send_funds c t) = none

module _ (p : Platform) (deps : Deps) (env : Env) (info : MessageInfo) (s : State p) where
  -- A message that is the admin's is refused to anybody else, and changes nothing.
  pub execute-refuses :
      (m : ExecuteMsg) (cfg : Config) (text : String)
      → p.item_get s.config ≡ some cfg
      → info.sender ≢ cfg.admin
      → refusal m ≡ some text
      → execute p deps env info m s ≡ (err (generic_err text), s)
  unfolding execute execute_update_admin execute_send_msgs execute_check_remote_balance
  execute-refuses (update_admin a) cfg text e ne h = ground (arith, eq_iff info.sender cfg.admin)
  execute-refuses (send_msgs c ms i) cfg text e ne h = ground (arith, eq_iff info.sender cfg.admin)
  execute-refuses (check_remote_balance c) cfg text e ne h =
      ground (arith, eq_iff info.sender cfg.admin)
  execute-refuses _ cfg text e ne h = cc

  -- No message of a user touches the accounts or the stored query results, and the admin is
  -- changed only by the admin's `UpdateAdmin`, to the address that it names.
  pub execute-keeps :
      (m : ExecuteMsg) (cfg : Config)
      → p.item_get s.config ≡ some cfg
      → let t = commit (execute p deps env info m) s in
        (t.accounts ≡ s.accounts)
        × (t.latest_queries ≡ s.latest_queries)
        × ((p.item_get t.config ≡ some cfg)
            ⊎ ((new : String) × (a : Addr) × (m ≡ update_admin new)
                × (info.sender ≡ cfg.admin)
                × (deps.addr_validate new ≡ ok a)
                × (p.item_get t.config ≡ some (record { admin = a }))))
  unfolding execute execute_update_admin execute_send_msgs execute_check_remote_balance
      execute_ibc_query execute_send_funds
  execute-keeps (update_admin new) cfg e = elim (Outcome-cases (deps.addr_validate new)) [
    | inr failed ↦ ground arith
    | inl (a, valid) ↦ elim (Bool-cases (info.sender == cfg.admin)) [
      | inr other ↦ ground arith
      | inl admin ↦ (
        ground arith,
        ground arith,
        inr (
          new,
          a,
          refl,
          (eq_iff _ _).0 admin,
          valid,
          ground (arith, p.item_get-save s.config (record { admin = a })),
        ),
      )
    ]
  ]
  execute-keeps (send_funds c t) cfg e = ground arith
  execute-keeps _ cfg e = ground arith

  -- A message that sends a packet and succeeds sends that packet alone, on the channel that the
  -- message names, with a timeout 3600 seconds after the time of the block, in a form that the
  -- other side decodes, under the name of the sender, and writes nothing.
  pub execute-sends :
      (m : ExecuteMsg) (channel : String) (packet : PacketMsg) {r : Response}
      → packet_of info.sender m ≡ some (channel, packet)
      → (execute p deps env info m s).0 ≡ ok r
      → (bytes : Binary) × (r.messages
          ≡ fire (ibc_send_packet channel bytes (p.plus_seconds env.time 3600)) ∷ [])
        × (p.packet.from_slice bytes ≡ ok packet)
        × ((execute p deps env info m s).1 ≡ s)
  unfolding execute execute_update_admin execute_send_msgs execute_check_remote_balance
      execute_ibc_query
  execute-sends (send_msgs c ms i) channel packet e h =
      elim (Outcome-cases (p.packet.to_binary (dispatch info.sender ms i))) [
        | inl (bytes, x) ↦
            (bytes, ground arith, ground (arith, p.packet.round_trip _ bytes x), ground arith)
        | inr failed ↦ absurd (ground arith)
      ]
  execute-sends (check_remote_balance c) channel packet e h =
      elim (Outcome-cases (p.packet.to_binary balances)) [
        | inl (bytes, x) ↦
            (bytes, ground arith, ground (arith, p.packet.round_trip _ bytes x), ground arith)
        | inr failed ↦ absurd (ground arith)
      ]
  execute-sends (ibc_query c ms i) channel packet e h =
      elim (Outcome-cases (p.packet.to_binary (types.ibc_query info.sender ms i))) [
        | inl (bytes, x) ↦
            (bytes, ground arith, ground (arith, p.packet.round_trip _ bytes x), ground arith)
        | inr failed ↦ absurd (ground arith)
      ]
  execute-sends _ channel packet e h = cc
