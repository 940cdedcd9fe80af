-- ===== src/Controller/Spec.antt =====
-- What the controller promises, without storage, encodings and errors: it has an admin, and keeps
-- for each channel what it knows of the account and the latest answer to its queries.
pub mod View
pub mod Acks
pub mod Refines
use cw_ibc_demo.Prelude.{[], String, ◌≡◌, changed, Option, none, some, List}
use cw_ibc_demo.Std.{Addr, Timestamp, Coin}
use cw_ibc_demo.Controller.Msg.{Config, AccountData, LatestQueryResponse}
use cw_ibc_demo.Controller.Ibc.Updates.{Fits}

pub record Ledger : Type 0 where
  pub config : Option Config
  pub accounts : String → Option AccountData
  pub latest : String → Option LatestQueryResponse

-- What happened: a message of a user, a handshake of a channel, an answer on a channel, or nothing
-- of these.
pub data Occasion : Type 0 where
  asked : (sender : Addr) → Occasion
  opened closed answered : (channel : String) → Occasion
  unrelated : Occasion

-- All that a call may do on an occasion.
pub data Does (r : Ledger) : Occasion → Ledger → Type 0 where
  nothing : {e : Occasion} → Does r e r
  -- the admin is replaced, by the admin
  appoints :
      (sender : Addr) (old new : Config)
      → r.config ≡ some old
      → sender ≡ old.admin
      → Does r (asked sender) (record r { config = some new })
  -- a channel is opened, nothing is known of its account
  opens :
      (channel : String)
      → Does r (opened channel) (record r {
        accounts =
            changed r.accounts channel
              (some (record { last_update_time = 0; remote_addr = none; remote_balance = [] }));
      })
  -- a channel is closed
  forgets :
      (channel : String)
      → Does r (closed channel) (record r { accounts = changed r.accounts channel none })
  -- the account of a channel is learned
  learns :
      (channel addr : String) (a : AccountData)
      → r.accounts channel ≡ some a
      → a.remote_addr ≡ none
      → Does r (answered channel) (record r {
        accounts = changed r.accounts channel (some (record a { remote_addr = some addr }));
      })
  -- the balance of the account is brought up to date
  updates :
      (channel addr : String) (a : AccountData) (now : Timestamp) (coins : List Coin)
      → r.accounts channel ≡ some a
      → Fits addr a
      → Does r (answered channel) (record r {
        accounts = changed r.accounts channel (
            some
              (record { last_update_time = now; remote_addr = some addr; remote_balance = coins }));
      })
  -- an answer to queries is kept
  keeps :
      (channel : String) (answer : LatestQueryResponse)
      → Does r (answered channel) (record r { latest = changed r.latest channel (some answer) })
