-- ===== src/Lib.antt =====
-- A verification library of the interchain-account demo contracts.
--
-- Two CosmWasm contracts speak over an unordered IBC channel. simple-ica-controller sends packets
-- (`PacketMsg`: dispatch, query, who-am-i, balances) for its users; simple-ica-host keeps one
-- cw1-whitelist account for each channel, executes or answers the packets there, and acknowledges
-- them (`StdAck`); the controller keeps what it learns and calls the sender of a packet back, if it
-- gave a callback id. callback-capturer is such a sender, which stores what it is called with. The
-- types, the acknowledgements and the checks of the handshake are shared by the package simple-ica.
--
-- Files and the code that they model (a definition has the name of the function that it models):
--   SimpleIca/Types, Ack, Checks   packages/simple-ica/src/{ibc_msg,callback,checks,lib}.rs
--   Controller/Msg, State          contracts/simple-ica-controller/src/{msg,error,state}.rs
--   Controller/Contract            contracts/simple-ica-controller/src/contract.rs
--   Controller/Ibc                 contracts/simple-ica-controller/src/ibc.rs
--   Host/Msg, State                contracts/simple-ica-host/src/{msg,error,state}.rs
--   Host/Contract, Packet          contracts/simple-ica-host/src/contract.rs
--   Capturer/Msg, Contract         contracts/callback-capturer/src/*.rs
--   Protocol                       both contracts at the two ends of a channel
--   Protocol/Runtime               the delivery of a packet to the host, and the opening of a channel,
--                                  with the message that it sends and the reply to that, as one
--                                  transaction
--   Protocol/Net                   the step relation of the two contracts with numbered packets
--                                  between them, which are sent, received or expire, and answered;
--                                  what the controller sends on a timeout or acknowledgement is a
--                                  new packet
--   Protocol/Net/Events            the steps of a run that sent, delivered or refused a packet
--   Protocol/Link                  a coarser step relation, with acknowledgements only, that the
--                                  proofs about accounts go through
--   Host/Spec, Controller/Spec     what each contract promises, without storage and encodings
--   Units                          the unit tests of the contracts, `mod tests` in the same files
--   Std                            the value types of cosmwasm_std that the code uses
--   Platform                       everything that the code only calls, as a parameter
--   Platform/Demo                  one such platform, at which all definitions run
--   Platform/Total                 a second one, on which every value has an encoding
--   Tests                          runs of the contracts on these platforms, and of the unit tests
-- The modules below a component (Controller/Ibc/Stable, Host/Packet/Dispatch, ...) hold its proofs
-- and are named for what they are about.
--
-- State and operations. A contract's storage is the record `State` of its module, with one field for
-- each `Item` and `Map`. An entry point is a function from the storage to a result and the new
-- storage (`Entry`), in do blocks that follow the code: `?` is the bind, an early `return Err` is
-- `ensure`, an `unwrap` of an error is `panic`. What a failing call wrote is in its result;
-- `commit` is what the x/wasm runtime keeps of a call, the writes of a call that returned `Ok` and
-- nothing else. A response is the record of what its builder collected. The code has no
-- recursion but iteration over lists, so no fuel is used.
--
-- Parameters. `Platform` is a record of what other crates do and of the documented behaviour that
-- is relied on: cw-storage-plus (`get` after `save` and `remove`; `range` lists what `get` finds;
-- a `save`, which returns a `StdResult` for the encoding of the value, is taken to succeed),
-- serde (decoding inverts encoding, for each type; nothing is assumed of bytes that were not
-- encoded, and encoding may fail: where an entry below needs that something can be encoded, the
-- entry says so), `parse_reply_instantiate_data` of cw-utils, and `plus_seconds`. `Deps` is what the
-- address validation, the bank and the querier answer during one call. The IBC channel carries a
-- packet and its acknowledgement unchanged. In Protocol/Net a packet has a number; it is received
-- at most once, or expires, or the chain of the host answers it with an error where its delivery
-- fails; a handled acknowledgement does not come again; the order is free. The host closes its end
-- of the channel in neither Protocol/Net nor Protocol/Link, other channels as it likes. In
-- Protocol/Link an acknowledgement may come late, in any order and more than once. What the host's
-- chain makes of a fired message is the parameter `Chain`; that its data reaches `reply`, and that
-- what a reply sets takes the place of the acknowledgement, is how cosmwasm_std documents the
-- runtime.
--
-- Not modelled: the schema generators; the TypeScript tests, scripts and configuration; gas; the
-- wasm runtime beyond what is said above; the relayer, whose order of doing things is free.
-- `Uint128` amounts and `u64` ids are only passed on, never computed with. The messages, queries
-- and events of cosmwasm_std that the code only passes on are opaque texts, a `StdError::NotFound`
-- does not carry the name of the type, and the fields of the IBC messages that the code does not
-- read are left out.
mod Prelude
pub mod Std
pub mod SimpleIca
pub mod Controller
pub mod Host
pub mod Capturer
pub mod Platform
pub mod Protocol
pub mod Units
mod Tests
