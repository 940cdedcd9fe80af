-- ===== src/Tests/World.antt =====
-- Concrete states of the three contracts on the running platform, and what their chains answer.
use cw_ibc_demo.Prelude.{String, none, some, List, [], ◌∷◌, ok}
use cw_ibc_demo.Std.{Coin, CosmosMsg, other, Env, MessageInfo, IbcChannelMsg, unordered, value}
use cw_ibc_demo.SimpleIca.Types.{ibc_app_version}
use cw_ibc_demo.Platform.{Deps}
use cw_ibc_demo.Platform.Demo.{demo}
use cw_ibc_demo.Controller.Msg.{AccountData}
use cw_ibc_demo.Controller.State as controller
use cw_ibc_demo.Host.State as host
use cw_ibc_demo.Capturer.Contract as capturer

abbrev pub now : Env
now = record { time = 100; contract = "host" }

abbrev pub atoms : List Coin
atoms = record { denom = "atom"; amount = 5 } ∷ []

-- Every address is accepted and holds the same coins; a query is answered with itself.
abbrev pub deps : Deps
deps = record { addr_validate = ok; query_all_balances = λ a. ok atoms; raw_query = λ b. value b }

abbrev pub sent_by : String → MessageInfo
sent_by a = record { sender = a; funds = [] }

abbrev pub paid_by : String → MessageInfo
paid_by a = record { sender = a; funds = atoms }

abbrev pub channel : String → IbcChannelMsg
channel c = record {
  channel = record { channel_id = c; order = unordered; version = ibc_app_version };
  counterparty_version = some ibc_app_version;
}

abbrev pub votes : List CosmosMsg
votes = other "vote" ∷ []

-- The account that the controller knows for channel-1.
abbrev pub known : AccountData
known = record { last_update_time = 7; remote_addr = some "account"; remote_balance = [] }

abbrev pub of_controller : controller.State demo
of_controller = record {
  config = some (record { admin = "admin" });
  accounts = ("channel-1", known) ∷ [];
  latest_queries = [];
}

-- The host at the other end: channel-2 has its account, and the results of an earlier dispatch are
-- stored.
abbrev pub of_host : host.State demo
of_host = record {
  config = some (record { cw1_code_id = 3 });
  pending = none;
  accounts = ("channel-2", "account") ∷ [];
  results = some ((9 ∷ []) ∷ []);
}

abbrev pub of_capturer : capturer.State demo
of_capturer = record {
  contract_info = none;
  config = some (record { admin = "admin"; simple_ica_controller = "host" });
  results = [];
}
