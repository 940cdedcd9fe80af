-- ===== src/Host/Packet.antt =====
-- contracts/simple-ica-host/src/contract.rs: the packets.
pub mod Queries
pub mod Accounts
pub mod Dispatch
pub mod Accepts
pub mod Acks
use Prim.Native.String.{◌++◌ as ◌++ₛ◌}
use cw_ibc_demo.Prelude.{
  String, List, [], ◌∷◌, Entry, pure, modify, lift, ◌>>=◌, ◌>>◌, Outcome, ok, err, and_then,
}
use cw_ibc_demo.Std.{
  Binary, StdError, generic_err, CosmosMsg, wasm_execute, QueryRequest, reply_on_success, Response,
  respond, IbcReceiveResponse, IbcPacket, QueryResult, system_err, contract_err, value, execute,
}
use cw_ibc_demo.SimpleIca.Types.{PacketMsg, dispatch, ibc_query, who_am_i, balances}
use cw_ibc_demo.SimpleIca.Ack as ack
use cw_ibc_demo.Platform.{Platform, Deps}
use cw_ibc_demo.Host.Msg.{ContractError, std}
use cw_ibc_demo.Host.State.{State, from_std, load_account, save_results}
use cw_ibc_demo.Host.Contract.{receive_dispatch_id}

-- the `match` of `unparsed_query`
abbrev pub query_value : QueryResult → Outcome ContractError Binary
query_value (system_err e) = err (std (generic_err ("Querier system error: " ++ₛ e)))
query_value (contract_err e) = err (std (generic_err ("Querier contract error: " ++ₛ e)))
query_value (value bytes) = ok bytes

module _ (p : Platform) where
  unfoldable pub unparsed_query : Deps → QueryRequest → Outcome ContractError Binary
  unparsed_query deps request =
      and_then (from_std (p.request.to_binary request)) λ raw. query_value (deps.raw_query raw)

  -- the loop of `receive_query`
  unfoldable pub run_queries : Deps → List QueryRequest → Outcome ContractError (List Binary)
  run_queries deps [] = ok []
  run_queries deps (q ∷ qs) =
      and_then (unparsed_query deps q) λ res. and_then (run_queries deps qs) λ rest. ok (res ∷ rest)

  unfoldable pub receive_query : Deps → List QueryRequest → Outcome ContractError IbcReceiveResponse
  receive_query deps msgs = and_then (run_queries deps msgs) λ results.
      and_then (ack.success p p.queried (record { results = results })) λ acknowledgement.
        ok (record {
          acknowledgement = acknowledgement;
          messages = [];
          attributes = ("action", "receive_ibc_query") ∷ [];
        })

  unfoldable pub receive_who_am_i : String → Entry (State p) ContractError IbcReceiveResponse
  receive_who_am_i caller = do
    account ← load_account p caller
    acknowledgement ← lift (ack.success p p.who (record { account = account }))
    pure (record {
      acknowledgement = acknowledgement;
      messages = [];
      attributes = ("action", "receive_who_am_i") ∷ [];
    })

  unfoldable pub receive_balances : Deps → String → Entry (State p) ContractError IbcReceiveResponse
  receive_balances deps caller = do
    account ← load_account p caller
    coins ← lift (from_std (deps.query_all_balances account))
    acknowledgement ←
        lift (ack.success p p.balance (record { account = account; balances = coins }))
    pure (record {
      acknowledgement = acknowledgement;
      messages = [];
      attributes = ("action", "receive_balances") ∷ [];
    })

  unfoldable pub receive_dispatch :
      String → List CosmosMsg → Entry (State p) ContractError IbcReceiveResponse
  receive_dispatch caller msgs = do
    reflect_addr ← load_account p caller
    acknowledgement ← lift (ack.success p p.dispatched (record { results = [] }))
    bytes ← lift (from_std (p.cw1_exec.to_binary (execute msgs)))
    modify (save_results p [])
    pure (record {
      acknowledgement = acknowledgement;
      messages = reply_on_success (wasm_execute reflect_addr bytes []) receive_dispatch_id ∷ [];
      attributes = ("action", "receive_dispatch") ∷ [];
    })

  -- the `match` on the packet
  unfoldable pub receive :
      Deps → String → PacketMsg → Entry (State p) ContractError IbcReceiveResponse
  receive deps caller (dispatch sender msgs callback_id) = receive_dispatch caller msgs
  receive deps caller (ibc_query sender msgs callback_id) = lift (receive_query deps msgs)
  receive deps caller who_am_i = receive_who_am_i caller
  receive deps caller balances = receive_balances deps caller

  unfoldable pub ibc_packet_receive :
      Deps → IbcPacket → Entry (State p) ContractError IbcReceiveResponse
  unfolding receive
  ibc_packet_receive deps packet = do
    m ← lift (from_std (p.packet.from_slice packet.payload))
    receive deps packet.dest_channel m

  unfoldable pub ibc_packet_ack : IbcPacket → Entry (State p) StdError Response
  ibc_packet_ack m = pure (respond [] (("action", "ibc_packet_ack") ∷ []))

  unfoldable pub ibc_packet_timeout : IbcPacket → Entry (State p) StdError Response
  ibc_packet_timeout m = pure (respond [] (("action", "ibc_packet_timeout") ∷ []))
