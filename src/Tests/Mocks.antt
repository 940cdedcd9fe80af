-- ===== src/Tests/Mocks.antt =====
-- What cosmwasm_std::testing gives the unit tests.
use Prim.Native.Char.{code}
use Prim.Native.String as string
use cw_ibc_demo.Prelude.{String, ◌==◌, if◌then◌else◌, none, some, List, [], ◌∷◌, ok}
use cw_ibc_demo.Std.{Binary, Coin, IbcOrder, IbcChannelMsg, Env, value}
use cw_ibc_demo.Platform.{Deps}
use cw_ibc_demo.Platform.Total.Format.{codec, empty}
use cw_ibc_demo.Units.{Mocks}

abbrev pub contract_addr : String
contract_addr = "cosmos2contract"

abbrev pub mock_env : Env
mock_env = record { time = 1571797419879305533; contract = contract_addr }

-- The querier knows the balances of one address.
abbrev holding : String → List Coin → Deps
holding addr coins = record {
  addr_validate = ok;
  query_all_balances = λ a. if a == addr then ok coins else ok [];
  raw_query = λ b. value b;
}

-- The versions of both sides are the same where the other one is known.
abbrev asked_for : String → IbcOrder → String → IbcChannelMsg
asked_for channel_id order version = record {
  channel = record { channel_id = channel_id; order = order; version = version };
  counterparty_version = none;
}

abbrev agreed : String → IbcOrder → String → IbcChannelMsg
agreed channel_id order version = record {
  channel = record { channel_id = channel_id; order = order; version = version };
  counterparty_version = some version;
}

abbrev bytes_of : String → Binary
bytes_of string.[] = []
bytes_of (string.◌∷◌ c s) = code c ∷ bytes_of s

abbrev pub mocks : Mocks
mocks = record {
  env = mock_env;
  info = λ sender funds. record { sender = sender; funds = funds };
  deps = holding contract_addr [];
  contract_addr = contract_addr;
  update_balance = holding;
  channel_open_init = asked_for;
  channel_open_try = agreed;
  channel_connect_ack = agreed;
  channel_close_init = asked_for;
  packet_recv = λ channel_id payload. record {
    payload = payload;
    src_channel = "channel-1234";
    dest_channel = channel_id;
  };
  packet_ack = λ channel_id payload ack. record {
    acknowledgement = ack;
    original_packet = record {
      payload = payload;
      src_channel = channel_id;
      dest_channel = "channel-1234";
    };
  };
  host_instantiate = λ m. ok (m.cw1_code_id ∷ []);
  u32 = λ n. ok (n ∷ []);
  unit = codec empty;
  as_bytes = bytes_of;
}
