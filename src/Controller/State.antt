-- ===== src/Controller/State.antt =====
-- contracts/simple-ica-controller/src/state.rs: the storage and how it is read.
use cw_ibc_demo.Prelude.{String, Entry}
use cw_ibc_demo.Std.{StdError}
use cw_ibc_demo.Platform.{Platform, required}
use cw_ibc_demo.Controller.Msg.{Config, AccountData, LatestQueryResponse}

-- The items `config`, `accounts` and `querys`.
pub record State (p : Platform) : Type 0 where
  pub config : p.Item Config
  pub accounts : p.Map AccountData
  pub latest_queries : p.Map LatestQueryResponse

module _ (p : Platform) where
  -- A contract that was not instantiated.
  abbrev pub blank : State p
  blank = record {
    config = p.item_empty Config;
    accounts = p.empty AccountData;
    latest_queries = p.empty LatestQueryResponse;
  }

  -- `CONFIG.load`, `CONFIG.save`
  abbrev pub load_config : Entry (State p) StdError Config
  load_config s = (required (p.item_get s.config), s)

  abbrev pub save_config : Config → State p → State p
  save_config cfg s = record s { config = p.item_save s.config cfg }

  -- `ACCOUNTS.load`, `ACCOUNTS.save`, `ACCOUNTS.remove`
  abbrev pub load_account : String → Entry (State p) StdError AccountData
  load_account channel_id s = (required (p.get s.accounts channel_id), s)

  abbrev pub save_account : String → AccountData → State p → State p
  save_account channel_id d s = record s { accounts = p.save s.accounts channel_id d }

  abbrev pub remove_account : String → State p → State p
  remove_account channel_id s = record s { accounts = p.remove s.accounts channel_id }

  -- `LATEST_QUERIES.save`
  abbrev pub save_query : String → LatestQueryResponse → State p → State p
  save_query channel_id r s = record s { latest_queries = p.save s.latest_queries channel_id r }
