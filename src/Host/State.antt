-- ===== src/Host/State.antt =====
-- contracts/simple-ica-host/src/state.rs: the storage and how it is read.
use cw_ibc_demo.Prelude.{String, List, Entry, Outcome, map_err}
use cw_ibc_demo.Std.{Addr, Binary, StdError}
use cw_ibc_demo.Platform.{Platform, StdResult, required}
use cw_ibc_demo.Host.Msg.{Config, ContractError, std}

-- The items `config`, `pending`, `accounts` and `results`.
pub record State (p : Platform) : Type 0 where
  pub config : p.Item Config
  pub pending : p.Item String
  pub accounts : p.Map Addr
  pub results : p.Item (List Binary)

-- `?` on a `StdResult` in a function that returns `ContractError`.
abbrev pub from_std : {A : Type 0} → StdResult A → Outcome ContractError A
from_std r = map_err std r

module _ (p : Platform) where
  -- A contract that was not instantiated.
  abbrev pub blank : State p
  blank = record {
    config = p.item_empty Config;
    pending = p.item_empty String;
    accounts = p.empty Addr;
    results = p.item_empty (List Binary);
  }

  abbrev pub save_config : Config → State p → State p
  save_config cfg s = record s { config = p.item_save s.config cfg }

  -- `PENDING.save` and `PENDING.remove`
  abbrev pub save_pending : String → State p → State p
  save_pending id s = record s { pending = p.item_save s.pending id }

  abbrev pub remove_pending : State p → State p
  remove_pending s = record s { pending = p.item_remove s.pending }

  -- `ACCOUNTS.save` and `ACCOUNTS.remove`
  abbrev pub save_account : String → Addr → State p → State p
  save_account channel_id addr s = record s { accounts = p.save s.accounts channel_id addr }

  abbrev pub remove_account : String → State p → State p
  remove_account channel_id s = record s { accounts = p.remove s.accounts channel_id }

  -- `RESULTS.save`
  abbrev pub save_results : List Binary → State p → State p
  save_results r s = record s { results = p.item_save s.results r }

  -- the `load`s, in a function that returns `StdResult` and in one that returns `ContractError`
  abbrev pub load_config : Entry (State p) StdError Config
  load_config s = (required (p.item_get s.config), s)

  abbrev pub load_account_std : String → Entry (State p) StdError Addr
  load_account_std channel_id s = (required (p.get s.accounts channel_id), s)

  abbrev pub load_account : String → Entry (State p) ContractError Addr
  load_account channel_id s = (from_std (required (p.get s.accounts channel_id)), s)

  abbrev pub load_pending : Entry (State p) ContractError String
  load_pending s = (from_std (required (p.item_get s.pending)), s)

  abbrev pub load_results : Entry (State p) ContractError (List Binary)
  load_results s = (from_std (required (p.item_get s.results)), s)
