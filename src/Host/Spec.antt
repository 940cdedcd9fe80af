-- ===== src/Host/Spec.antt =====
-- What the host promises, without storage, encodings and errors: channels have accounts, at most
-- one waits for its account, and the results of the dispatch that runs are collected.
pub mod Refines
use cw_ibc_demo.Prelude.{String, ◌≡◌, changed, Option, none, some, List, [], ◌∷◌, ◌++◌}
use cw_ibc_demo.Std.{Addr, Binary}

pub record Registry : Type 0 where
  pub pending : Option String
  pub accounts : String → Option Addr
  pub results : Option (List Binary)

-- What happened: a handshake of a channel, a packet on one, the reply to an instantiation or to a
-- dispatch, or nothing of these.
pub data Occasion : Type 0 where
  connected closed received : (channel : String) → Occasion
  created dispatched unrelated : Occasion

-- All that a step may do on an occasion.
pub data Does (r : Registry) : Occasion → Registry → Type 0 where
  nothing : {o : Occasion} → Does r o r
  -- a channel waits for its account
  awaits : (channel : String) → Does r (connected channel) (record r { pending = some channel })
  -- the channel that waits gets its account, if it has none
  registers :
      (channel : String) (account : Addr)
      → r.pending ≡ some channel
      → r.accounts channel ≡ none
      → Does r created
          (record r { pending = none; accounts = changed r.accounts channel (some account) })
  -- an account is given up
  gives_up :
      (channel : String) (account : Addr)
      → r.accounts channel ≡ some account
      → Does r (closed channel) (record r { accounts = changed r.accounts channel none })
  -- a dispatch starts on a channel that has an account
  starts :
      (channel : String) (account : Addr)
      → r.accounts channel ≡ some account
      → Does r (received channel) (record r { results = some [] })
  -- a result is added behind those before
  adds :
      (old : List Binary) (b : Binary)
      → r.results ≡ some old
      → Does r dispatched (record r { results = some (old ++ b ∷ []) })
