-- ===== src/Controller/Contract/Accepts.antt =====
-- contract.rs of the controller: which messages send a packet.
use cw_ibc_demo.Prelude.{
  String, ◌≡◌, ◌↔◌, some, ok, arith, eq_iff, inl, inr, Outcome-cases, Option-cases, Failed,
}
use cw_ibc_demo.Std.{Binary, Env, MessageInfo, Response}
use cw_ibc_demo.SimpleIca.Types.{PacketMsg}
use cw_ibc_demo.Platform.{Platform, Deps}
use cw_ibc_demo.Controller.Msg.{
  ExecuteMsg, update_admin, send_msgs, check_remote_balance, ibc_query, send_funds, Config,
  AccountData,
}
use cw_ibc_demo.Controller.State.{State}
use cw_ibc_demo.Controller.Contract.{
  execute_send_msgs, execute_check_remote_balance, execute_ibc_query, execute_update_admin, execute,
}
use cw_ibc_demo.Controller.Contract.Auth.{packet_of}

module _ (p : Platform) (deps : Deps) (env : Env) (info : MessageInfo) (s : State p) where
  -- The admin speaks, on a channel that is registered; queries are for everybody and for every
  -- channel.
  abbrev pub Allowed : ExecuteMsg → Type 0
  Allowed (update_admin a) =
      (cfg : Config) × (p.item_get s.config ≡ some cfg) × (info.sender ≡ cfg.admin)
  Allowed (send_msgs c ms i) =
      (cfg : Config) × (a : AccountData) × (p.item_get s.config ≡ some cfg)
      × (info.sender ≡ cfg.admin)
      × (p.get s.accounts c ≡ some a)
  Allowed (check_remote_balance c) =
      (cfg : Config) × (a : AccountData) × (p.item_get s.config ≡ some cfg)
      × (info.sender ≡ cfg.admin)
      × (p.get s.accounts c ≡ some a)
  Allowed (ibc_query c ms i) = Unit {0}
  Allowed (send_funds c t) = Unit {0}

  pub Allowed-of_sent :
      (m : ExecuteMsg) {r : Response} → (execute p deps env info m s).0 ≡ ok r → Allowed m
  unfolding execute execute_update_admin execute_send_msgs execute_check_remote_balance
  Allowed-of_sent (ibc_query c ms i) h = tt
  Allowed-of_sent (send_funds c t) h = tt
  Allowed-of_sent (update_admin new) {r} h = elim (Option-cases (p.item_get s.config)) [
    | inl missing ↦ absurd (ground arith)
    | inr (cfg, e) ↦ (cfg, e, ground (arith, eq_iff info.sender cfg.admin))
  ]
  Allowed-of_sent (send_msgs c ms i) {r} h = elim (Option-cases (p.item_get s.config)) [
    | inl missing ↦ absurd (ground arith)
    | inr (cfg, e) ↦ elim (Option-cases (p.get s.accounts c)) [
      | inl missing ↦ absurd (ground arith)
      | inr (a, known) ↦ (cfg, a, e, ground (arith, eq_iff info.sender cfg.admin), known)
    ]
  ]
  Allowed-of_sent (check_remote_balance c) {r} h = elim (Option-cases (p.item_get s.config)) [
    | inl missing ↦ absurd (ground arith)
    | inr (cfg, e) ↦ elim (Option-cases (p.get s.accounts c)) [
      | inl missing ↦ absurd (ground arith)
      | inr (a, known) ↦ (cfg, a, e, ground (arith, eq_iff info.sender cfg.admin), known)
    ]
  ]

  encoded_of_sent :
      (m : ExecuteMsg) {channel : String} {packet : PacketMsg} {r : Response}
      → packet_of info.sender m ≡ some (channel, packet)
      → (execute p deps env info m s).0 ≡ ok r
      → (bytes : Binary) × (p.packet.to_binary packet ≡ ok bytes)
  unfolding execute execute_update_admin execute_send_msgs execute_check_remote_balance
      execute_ibc_query
  encoded_of_sent m {channel} {packet} {r} e h = elim (Outcome-cases (p.packet.to_binary packet)) [
    | inl encoded ↦ encoded
    | inr failed ↦ absurd (unsent m e failed h)
  ]
    where
      unsent :
          (m : ExecuteMsg)
          → packet_of info.sender m ≡ some (channel, packet)
          → Failed (p.packet.to_binary packet)
          → (execute p deps env info m s).0 ≡ ok r
          → ⊥
      unsent (send_msgs c ms i) e f h = ground arith
      unsent (check_remote_balance c) e f h = ground arith
      unsent (ibc_query c ms i) e f h = ground arith
      unsent _ e f h = cc

  refused_not :
      (m : ExecuteMsg) {channel : String} {packet : PacketMsg} (bytes : Binary)
      → packet_of info.sender m ≡ some (channel, packet)
      → p.packet.to_binary packet ≡ ok bytes
      → Allowed m
      → Failed (execute p deps env info m s).0
      → ⊥
  unfolding execute execute_send_msgs execute_check_remote_balance execute_ibc_query
  refused_not (send_msgs c ms i) bytes e b (cfg, a, found, admin, known) f =
      ground (arith, eq_iff info.sender cfg.admin)
  refused_not (check_remote_balance c) bytes e b (cfg, a, found, admin, known) f =
      ground (arith, eq_iff info.sender cfg.admin)
  refused_not (ibc_query c ms i) bytes e b allowed f = ground arith
  refused_not _ bytes e b allowed f = cc

  -- A message that sends a packet succeeds exactly if the packet can be encoded and the sender may
  -- send it: the admin alone sends messages and asks for balances, on registered channels only;
  -- anybody sends queries, on any channel.
  pub execute-ok_iff :
      (m : ExecuteMsg) (channel : String) (packet : PacketMsg)
      → packet_of info.sender m ≡ some (channel, packet)
      → ((r : Response) × ((execute p deps env info m s).0 ≡ ok r))
        ↔ (Allowed m × ((bytes : Binary) × (p.packet.to_binary packet ≡ ok bytes)))
  execute-ok_iff m channel packet e = (
    λ (r, h). (Allowed-of_sent m {r = r} h, encoded_of_sent m {r = r} e h),
    λ (allowed, (bytes, b)). elim (Outcome-cases (execute p deps env info m s).0) [
      | inl sent ↦ sent
      | inr failed ↦ absurd (refused_not m bytes e b allowed failed)
    ],
  )
