-- ===== src/Platform/Demo.antt =====
-- A platform that runs: maps are lists of entries, and a message is written as numbers, its texts
-- as their place in a table. It shows that what the contracts rely on can be met.
pub mod Assoc
pub mod Texts
mod Coding
pub mod Packets
pub mod Calls
use cw_ibc_demo.Prelude.{
  ℕ, ◌+◌, ◌*◌, String, ◌≡◌, refl, Option, none, some, List, [], ◌∷◌, Outcome, ok, err, lookup,
}
use cw_ibc_demo.Std.{StdError, generic_err, Reply, SubMsgResult, success, failure}
use cw_ibc_demo.Platform.{Codec, Storage, Platform}
use Assoc.{entered, dropped, lookup-empty, lookup-entered, lookup-dropped}
use Texts.{unname}
use Coding.{no_codec}
use Packets.{packet_codec, ack_codec, results_codec, queried_codec, who_codec, balance_codec}
use Calls.{callback_codec, request_codec, init_codec, exec_codec, reflect_codec, ica_codec}

abbrev pub storage : Storage
storage = record {
  Item = Option;
  item_empty = λ V. none;
  item_get = λ i. i;
  item_save = λ i v. some v;
  item_remove = λ i. none;
  item_get-save = λ i v. refl;
  item_get-remove = λ i. refl;
  Map = λ V. List (String × V);
  empty = λ V. [];
  get = λ m k. lookup k m;
  save = λ m k v. entered m k v;
  remove = λ m k. dropped m k;
  range = λ m. m;
  get-empty = λ V k. lookup-empty k;
  get-save = λ m k v j. lookup-entered m k v j;
  get-remove = λ m k j. lookup-dropped m k j;
  lookup-range = λ m k. refl;
}

-- The data of the reply is the place of the address in the table of texts.
abbrev pub new_address : SubMsgResult → Outcome String String
new_address (success (some (i ∷ []))) = elim (unname i) [ none ↦ err "no address" | some a ↦ ok a ]
new_address _ = err "no address"

abbrev pub demo : Platform
demo = record {
  storage = storage;
  plus_seconds = λ t s. t + s * 1000000000;
  parse_reply_instantiate_data = λ r. new_address r.result;
  packet = packet_codec;
  ack = ack_codec;
  dispatched = results_codec;
  queried = queried_codec;
  who = who_codec;
  balance = balance_codec;
  callback = callback_codec;
  request = request_codec;
  cw1_init = init_codec;
  cw1_exec = exec_codec;
  reflect = reflect_codec;
  host_account = no_codec;
  host_accounts = no_codec;
  ica_exec = ica_codec;
  ica_admin = no_codec;
  ica_account = no_codec;
  ica_accounts = no_codec;
  ica_latest = no_codec;
  capturer_admin = no_codec;
  capturer_result = no_codec;
}
