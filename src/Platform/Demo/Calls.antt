-- ===== src/Platform/Demo/Calls.antt =====
-- The messages between the contracts of the running platform.
use cw_ibc_demo.Prelude.{
  String, refl, Bool, false, Option, none, some, List, [], ◌∷◌, inl, inr, arith,
}
use cw_ibc_demo.Std.{Binary, bank_send, QueryRequest, Cw1InstantiateMsg, Cw1ExecuteMsg, execute}
use cw_ibc_demo.SimpleIca.Types.{SimpleIcaReceiverExecuteMsg, receive_ica_response}
use cw_ibc_demo.Platform.{Codec}
use cw_ibc_demo.Host.Msg.{ReflectExecuteMsg, reflect_msg}
use cw_ibc_demo.Controller.Msg as ica
use cw_ibc_demo.Platform.Demo.Texts.{name, unname, name-cases, put_coins, get_coins, coins-cases}
use cw_ibc_demo.Platform.Demo.Coding.{Inverse, codec}
use cw_ibc_demo.Platform.Demo.Packets.{
  put_others, get_others, others-cases, put_ack, get_ack, ack-cases,
}

unfoldable pub put_callback : SimpleIcaReceiverExecuteMsg → Option Binary
put_callback (receive_ica_response r) = elim (name r.id) [
  | none ↦ none
  | some i ↦ elim (put_ack r.msg) [ none ↦ none | some b ↦ some (i ∷ b) ]
]

pub get_callback : Binary → Option SimpleIcaReceiverExecuteMsg
get_callback [] = none
get_callback (i ∷ b) = elim (unname i) [
  | none ↦ none
  | some id ↦ elim (get_ack b) [
    | none ↦ none
    | some a ↦ some (receive_ica_response (record { id = id; msg = a }))
  ]
]

pub callback-cases : (m : SimpleIcaReceiverExecuteMsg) → Inverse put_callback get_callback m
unfolding put_callback get_callback
callback-cases (receive_ica_response r) = elim (name-cases r.id) [
  | inl n ↦ inl (ground arith)
  | inr (i, p, p') ↦ elim (ack-cases r.msg) [
    | inl n ↦ inl (ground arith)
    | inr (b, q, q') ↦ inr (i ∷ b, ground arith, ground arith)
  ]
]

abbrev pub callback_codec : Codec SimpleIcaReceiverExecuteMsg
callback_codec = codec put_callback get_callback callback-cases

unfoldable pub put_request : QueryRequest → Option Binary
put_request r = elim (name r.request) [ none ↦ none | some i ↦ some (i ∷ []) ]

pub get_request : Binary → Option QueryRequest
get_request (i ∷ []) = elim (unname i) [ none ↦ none | some a ↦ some (record { request = a }) ]
get_request _ = none

pub request-cases : (r : QueryRequest) → Inverse put_request get_request r
unfolding put_request get_request
request-cases r = elim (name-cases r.request) [
  | inl n ↦ inl (ground arith)
  | inr (i, p, p') ↦ inr (i ∷ [], ground arith, ground arith)
]

abbrev pub request_codec : Codec QueryRequest
request_codec = codec put_request get_request request-cases

-- Only what the host sends has a form: one admin, not mutable.
abbrev pub put_admins : List String → Bool → Option Binary
put_admins (a ∷ []) false = elim (name a) [ none ↦ none | some i ↦ some (i ∷ []) ]
put_admins _ _ = none

unfoldable pub put_init : Cw1InstantiateMsg → Option Binary
put_init r = put_admins r.admins r.mutable

pub get_init : Binary → Option Cw1InstantiateMsg
get_init (i ∷ []) = elim (unname i) [
  | none ↦ none
  | some a ↦ some (record { admins = a ∷ []; mutable = false })
]
get_init _ = none

pub admins-cases :
    (admins : List String) (mutable : Bool)
    → Inverse put_init get_init (record { admins = admins; mutable = mutable })
unfolding put_init get_init
admins-cases (a ∷ []) false = elim (name-cases a) [
  | inl n ↦ inl (ground arith)
  | inr (i, p, p') ↦ inr (i ∷ [], ground arith, ground arith)
]
admins-cases _ _ = inl refl

abbrev pub init_codec : Codec Cw1InstantiateMsg
init_codec = codec put_init get_init (λ r. admins-cases r.admins r.mutable)

abbrev pub put_exec : Cw1ExecuteMsg → Option Binary
put_exec (execute ms) = put_others ms

abbrev pub get_exec : Binary → Option Cw1ExecuteMsg
get_exec b = elim (get_others b) [ none ↦ none | some ms ↦ some (execute ms) ]

pub exec-cases : (m : Cw1ExecuteMsg) → Inverse put_exec get_exec m
exec-cases (execute ms) = elim (others-cases ms) [
  | inl n ↦ inl n
  | inr (b, p, p') ↦ inr (b, p, ground arith)
]

abbrev pub exec_codec : Codec Cw1ExecuteMsg
exec_codec = codec put_exec get_exec exec-cases

-- Only one bank transfer has a form.
unfoldable pub put_reflect : ReflectExecuteMsg → Option Binary
put_reflect (reflect_msg (bank_send to cs ∷ [])) = elim (name to) [
  | none ↦ none
  | some i ↦ elim (put_coins cs) [ none ↦ none | some b ↦ some (i ∷ b) ]
]
put_reflect _ = none

pub get_reflect : Binary → Option ReflectExecuteMsg
get_reflect [] = none
get_reflect (i ∷ b) = elim (unname i) [
  | none ↦ none
  | some a ↦ elim (get_coins b) [ none ↦ none | some cs ↦ some (reflect_msg (bank_send a cs ∷ [])) ]
]

pub reflect-cases : (m : ReflectExecuteMsg) → Inverse put_reflect get_reflect m
unfolding put_reflect get_reflect
reflect-cases (reflect_msg (bank_send to cs ∷ [])) = elim (name-cases to) [
  | inl n ↦ inl (ground arith)
  | inr (i, p, p') ↦ elim (coins-cases cs) [
    | inl n ↦ inl (ground arith)
    | inr (b, q, q') ↦ inr (i ∷ b, ground arith, ground arith)
  ]
]
reflect-cases _ = inl refl

abbrev pub reflect_codec : Codec ReflectExecuteMsg
reflect_codec = codec put_reflect get_reflect reflect-cases

-- Of the controller's messages the check of a balance has a form.
unfoldable pub put_ica : ica.ExecuteMsg → Option Binary
put_ica (ica.check_remote_balance c) = elim (name c) [ none ↦ none | some i ↦ some (i ∷ []) ]
put_ica _ = none

pub get_ica : Binary → Option ica.ExecuteMsg
get_ica (i ∷ []) = elim (unname i) [ none ↦ none | some c ↦ some (ica.check_remote_balance c) ]
get_ica _ = none

pub ica-cases : (m : ica.ExecuteMsg) → Inverse put_ica get_ica m
unfolding put_ica get_ica
ica-cases (ica.check_remote_balance c) = elim (name-cases c) [
  | inl n ↦ inl (ground arith)
  | inr (i, p, p') ↦ inr (i ∷ [], ground arith, ground arith)
]
ica-cases _ = inl refl

abbrev pub ica_codec : Codec ica.ExecuteMsg
ica_codec = codec put_ica get_ica ica-cases
