-- ===== src/Controller/Spec/View.antt =====
-- What the ledger sees of the stored state.
use cw_ibc_demo.Prelude.{◌≡◌, Entry, commit}
use cw_ibc_demo.Platform.{Platform}
use cw_ibc_demo.Controller.State.{State}
use cw_ibc_demo.Controller.Spec.{Ledger, Occasion, Does, nothing}

module _ (p : Platform) where
  -- What is stored, by key.
  abbrev pub view : State p → Ledger
  view s = record {
    config = p.item_get s.config;
    accounts = p.get s.accounts;
    latest = p.get s.latest_queries;
  }

  -- The call wrote nothing, or left the state `u`.
  pub stays :
      {E A : Type 0} (m : Entry (State p) E A) (s : State p)
      → commit m s ≡ s
      → {o : Occasion} → Does (view s) o (view (commit m s))
  stays m s e = rw e nothing

  pub becomes :
      {E A : Type 0} (m : Entry (State p) E A) (s u : State p)
      → commit m s ≡ u
      → {o : Occasion} → Does (view s) o (view u)
      → Does (view s) o (view (commit m s))
  becomes m s u e h = rw e h
