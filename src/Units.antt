-- ===== src/Units.antt =====
-- The unit tests of the contracts (`mod tests` in their sources), as programs on the model: what
-- they call, unwrap and assert. A test that fails panics.
pub mod Same
pub mod Host
pub mod Controller
pub mod Capturer
use cw_ibc_demo.Prelude.{
  ℕ, String, Bool, true, false, Option, none, some, List, [], ◌∷◌, Entry, pure, Outcome, ok, err,
  panic, unwrap,
}
use cw_ibc_demo.Std.{
  Addr, Binary, Coin, IbcOrder, IbcChannelMsg, IbcPacket, IbcPacketAckMsg, MessageInfo, Env,
}
use cw_ibc_demo.Platform.{Codec, Deps, StdResult}
use cw_ibc_demo.Host.Msg as host

-- Steps of a test, over the storage of the contract. There is no runtime: what a failing call
-- wrote stays.
abbrev pub Steps : Type 0 → Type 0 → Type 0
Steps S A = Entry S ⊥ A

-- `call.unwrap()`
abbrev pub unwrapped : {S E A : Type 0} → Entry S E A → Steps S A
unwrapped m s = (unwrap "called `Result::unwrap()` on an `Err` value" (m s).0, (m s).1)

-- the same, where the value is not used
abbrev dropped : {E A : Type 0} → Outcome E A → Outcome ⊥ (Unit {0})
dropped (ok a) = ok tt
dropped (err e) = panic "called `Result::unwrap()` on an `Err` value"
dropped (panic t) = panic t

abbrev pub runs : {S E A : Type 0} → Entry S E A → Steps S (Unit {0})
runs m s = (dropped (m s).0, (m s).1)

-- `call.unwrap_err()`
abbrev error_of : {E A : Type 0} → Outcome E A → Outcome ⊥ E
error_of (ok a) = panic "called `Result::unwrap_err()` on an `Ok` value"
error_of (err e) = ok e
error_of (panic t) = panic t

abbrev pub unwrapped_err : {S E A : Type 0} → Entry S E A → Steps S E
unwrapped_err m s = (error_of (m s).0, (m s).1)

abbrev failed : {E A : Type 0} → Outcome E A → Outcome ⊥ (Unit {0})
failed (ok a) = panic "called `Result::unwrap_err()` on an `Ok` value"
failed (err e) = ok tt
failed (panic t) = panic t

abbrev pub fails : {S E A : Type 0} → Entry S E A → Steps S (Unit {0})
fails m s = (failed (m s).0, (m s).1)

-- `unwrap` of what a function that only reads the storage returns.
abbrev pub asked : {S E A : Type 0} → (S → Outcome E A) → Steps S A
asked f s = (unwrap "called `Result::unwrap()` on an `Err` value" (f s), s)

-- `assert!` and `assert_eq!`
abbrev pub assert : {S : Type 0} → Bool → Steps S (Unit {0})
assert true s = (ok tt, s)
assert false s = (panic "assertion failed", s)

-- `list[0]`
abbrev pub first : {A : Type 0} → List A → Outcome ⊥ A
first [] = panic "index out of bounds"
first (x ∷ xs) = ok x

-- `Option::unwrap`
abbrev pub present : {A : Type 0} → Option A → Outcome ⊥ A
present none = panic "called `Option::unwrap()` on a `None` value"
present (some x) = ok x

-- What the tests take from cosmwasm_std::testing, serde and the bytes of a text.
pub record Mocks : Type 0 where
  pub env : Env
  pub info : String → List Coin → MessageInfo
  pub deps : Deps
  pub contract_addr : Addr
  -- the same after `querier.update_balance`
  pub update_balance : Addr → List Coin → Deps
  pub channel_open_init : (channel_id : String) → IbcOrder → (version : String) → IbcChannelMsg
  pub channel_open_try : (channel_id : String) → IbcOrder → (version : String) → IbcChannelMsg
  pub channel_connect_ack : (channel_id : String) → IbcOrder → (version : String) → IbcChannelMsg
  pub channel_close_init : (channel_id : String) → IbcOrder → (version : String) → IbcChannelMsg
  -- a packet that was sent to the channel, and the acknowledgement of one that was sent from it
  pub packet_recv : (channel_id : String) → (payload : Binary) → IbcPacket
  pub packet_ack : (channel_id : String) → (payload ack : Binary) → IbcPacketAckMsg
  -- the JSON of values that no contract sends
  pub host_instantiate : host.InstantiateMsg → StdResult Binary
  pub u32 : ℕ → StdResult Binary
  pub unit : Codec (Unit {0})
  pub as_bytes : String → Binary
