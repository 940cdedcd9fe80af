-- ===== src/Host/Contract/Replies.antt =====
-- The replies of the host: the results of a dispatch, in the order in which they come in.
use cw_ibc_demo.Prelude.{
  String, ◌≡◌, refl, ◌∙◌, ap, ◌==ℕ◌, Option, none, some, List, [], ◌∷◌, ◌++◌, ok, inl, inr, arith,
  commit, Outcome-cases, Option-cases, Bool-cases, eq_iff,
}
use mathlib.Core.List.{append_assoc, append-nil}
use cw_ibc_demo.Std.{Addr, Binary, Reply, success}
use cw_ibc_demo.SimpleIca.Ack as ack
use cw_ibc_demo.Platform.{Platform, Deps}
use cw_ibc_demo.Host.Msg.{ContractError}
use cw_ibc_demo.Host.State.{State}
use cw_ibc_demo.Host.Contract.{
  receive_dispatch_id, init_callback_id, reply_dispatch_callback, reply_init_callback, reply,
}

module _ (p : Platform) where
  -- The data of one reply, if it reports a success.
  abbrev pub datum : Option Binary → Binary
  datum none = []
  datum (some b) = b

  abbrev pub data_of : List (Option Binary) → List Binary
  data_of [] = []
  data_of (d ∷ ds) = datum d ∷ data_of ds

  abbrev dispatch_reply : Option Binary → Reply
  dispatch_reply d = record { id = receive_dispatch_id; result = success d }

  -- The replies to a dispatch, one after the other; a failure is rolled back.
  pub replies : Deps → List (Option Binary) → State p → State p
  replies deps [] s = s
  replies deps (d ∷ ds) s = replies deps ds (commit (reply p deps (dispatch_reply d)) s)

  -- Each reply, the results before it being `old`, can put the results into its acknowledgement.
  abbrev pub Encodes : List Binary → List (Option Binary) → Type 0
  Encodes old [] = Unit
  Encodes old (d ∷ ds) =
      ((b : Binary) × (ack.success p {E = ContractError} p.dispatched
            (record { results = old ++ datum d ∷ [] })
          ≡ ok b))
      × Encodes (old ++ datum d ∷ []) ds

  one_reply :
      (deps : Deps) (d : Option Binary) (old : List Binary) (s : State p) (bytes : Binary)
      → ack.success p {E = ContractError} p.dispatched (record { results = old ++ datum d ∷ [] })
        ≡ ok bytes
      → p.item_get s.results ≡ some old
      → p.item_get (commit (reply p deps (dispatch_reply d)) s).results ≡ some (old ++ datum d ∷ [])
  unfolding reply reply_dispatch_callback
  one_reply deps none old s bytes e h = ground (arith, p.item_get-save s.results (old ++ [] ∷ []))
  one_reply deps (some b) old s bytes e h =
      ground (arith, p.item_get-save s.results (old ++ b ∷ []))

  -- The results that are stored after any number of replies, each of which can encode its
  -- acknowledgement, are those before, followed by the data of the replies in their order, empty
  -- where a reply has none.
  pub results-replies :
      (deps : Deps) (ds : List (Option Binary)) (old : List Binary) (s : State p)
      → Encodes old ds
      → p.item_get s.results ≡ some old
      → p.item_get (replies deps ds s).results ≡ some (old ++ data_of ds)
  unfolding replies
  results-replies deps [] old s enc h = rw append-nil h
  results-replies deps (d ∷ ds) old s enc h =
      results-replies deps ds (old ++ datum d ∷ []) _ enc.1
        (one_reply deps d old s enc.0.0 enc.0.1 h)
      ∙ ap some (append_assoc old (datum d ∷ []) (data_of ds))

  init-keeps :
      (deps : Deps) (r : Reply) (s : State p) (k : String) (a : Addr)
      → p.get s.accounts k ≡ some a
      → (p.get (commit (reply_init_callback p deps r) s).accounts k ≡ some a)
        × ((commit (reply_init_callback p deps r) s).config ≡ s.config)
  unfolding reply_init_callback
  init-keeps deps r s k a h = elim (Option-cases (p.item_get s.pending)) [
    | inl missing ↦ ground arith
    | inr (chan, pending) ↦ elim (Outcome-cases (p.parse_reply_instantiate_data r)) [
      | inr failed ↦ ground arith
      | inl (raw, parsed) ↦ elim (Outcome-cases (deps.addr_validate raw)) [
        | inr failed ↦ ground arith
        | inl (addr, valid) ↦ ground (
          arith,
          p.get-save s.accounts chan addr k,
          eq_iff chan k,
          ap (p.get s.accounts) {x = chan} {y = k},
        )
      ]
    ]
  ]

  dispatch-keeps :
      (r : Reply) (s : State p)
      → ((commit (reply_dispatch_callback p r) s).accounts ≡ s.accounts)
        × ((commit (reply_dispatch_callback p r) s).config ≡ s.config)
  unfolding reply_dispatch_callback
  dispatch-keeps r s = ground arith

  -- A reply never changes the account of a channel that has one, and never writes the
  -- configuration.
  pub reply-keeps :
      (deps : Deps) (r : Reply) (s : State p) (k : String) (a : Addr)
      → p.get s.accounts k ≡ some a
      → (p.get (commit (reply p deps r) s).accounts k ≡ some a)
        × ((commit (reply p deps r) s).config ≡ s.config)
  unfolding reply
  reply-keeps deps r s k a h = elim (Bool-cases (r.id ==ℕ receive_dispatch_id)) [
    | inl yes_dispatch ↦ rw yes_dispatch (rw (dispatch-keeps r s).0 h, (dispatch-keeps r s).1)
    | inr other ↦ rw other (elim (Bool-cases (r.id ==ℕ init_callback_id)) [
      | inl yes_init ↦ rw yes_init (init-keeps deps r s k a h)
      | inr unknown ↦ rw unknown (h, refl)
    ])
  ]
