-- ===== src/Platform/Total.antt =====
-- A platform on which every encoding succeeds, so that whatever the contracts send can be written
-- and read.
pub mod Format
pub mod Text
pub mod Types
pub mod Answers
use cw_ibc_demo.Prelude.{
  ℕ, ◌+◌, ◌*◌, ◌==ℕ◌, if◌then◌else◌, String, Option, none, some, List, [], ◌∷◌, Outcome, ok, err,
}
use cw_ibc_demo.Std.{Binary, Reply, SubMsgResult, success, failure}
use cw_ibc_demo.Platform.{Platform}
use cw_ibc_demo.Platform.Demo.{storage}
use cw_ibc_demo.Platform.Total.Format.{codec}
use cw_ibc_demo.Platform.Total.Text.{text}
use cw_ibc_demo.Platform.Total.Types as types
use cw_ibc_demo.Platform.Total.Answers as answers

abbrev whole_text : Option (String × Binary) → Outcome String String
whole_text (some (a, [])) = ok a
whole_text _ = err "no address"

-- The data of the reply to an instantiation: field 1 of a protobuf message, a text with its length
-- in front.
abbrev new_address : SubMsgResult → Outcome String String
new_address (success (some (tag ∷ b))) =
    if tag ==ℕ 10 then whole_text (text.get b) else err "no address"
new_address _ = err "no address"

abbrev pub total : Platform
total = record {
  storage = storage;
  plus_seconds = λ t s. t + s * 1000000000;
  parse_reply_instantiate_data = λ r. new_address r.result;
  packet = codec types.packet;
  ack = codec types.ack;
  dispatched = codec types.dispatched;
  queried = codec types.queried;
  who = codec types.who;
  balance = codec types.balance;
  callback = codec types.callback;
  request = codec types.request;
  cw1_init = codec answers.cw1_init;
  cw1_exec = codec answers.cw1_exec;
  reflect = codec answers.reflect;
  host_account = codec answers.host_account;
  host_accounts = codec answers.host_accounts;
  ica_exec = codec answers.ica_exec;
  ica_admin = codec answers.ica_admin;
  ica_account = codec answers.ica_account;
  ica_accounts = codec answers.ica_accounts;
  ica_latest = codec answers.ica_latest;
  capturer_admin = codec answers.capturer_admin;
  capturer_result = codec answers.capturer_result;
}
