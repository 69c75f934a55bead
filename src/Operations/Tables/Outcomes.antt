-- ===== src/Operations/Tables/Outcomes.antt =====
-- What the requests of `tables` do with a reply, on every branch.
use thermotrace_production.Common.{◌≡◌, refl, Option, some, none}
use thermotrace_production.Js.Value.{Value, undefined, Completion, ok}
use thermotrace_production.Redux.{Redux, Action}
use thermotrace_production.Store.Tables.Actions
use thermotrace_production.Store.Root.{Slice, table, TableSlice, view}
use thermotrace_production.Session.{World}
use thermotrace_production.Session.Dispatch.{IsReady, table-readable}
use thermotrace_production.Request.{Reply}
use thermotrace_production.Operations.Effects.{token_after, Meets, Settles}
use thermotrace_production.Operations.Tables
use thermotrace_production.Operations.Tables.{with_search, settle_with, nothing}
use thermotrace_production.Operations.Tables.Handler.{Outcome, Delivers, delivery_effect}
use thermotrace_production.Operations.Tables.Settle.{reply_delivers, Follows, settle_with_lem}
use thermotrace_production.Operations.Tables.Calls.{
  TableCall, table_thunk, target, shown, chaincode_list, channels, peer_list, transaction,
  transaction_list, chaincode_meta_data, block_list_search, block_range_search,
}
use thermotrace_production.Operations.Tables.Deliveries.{
  Delivers-chaincode_list, Delivers-channels, Delivers-peer_list, Delivers-transaction,
  Delivers-transaction_list, Delivers-chaincode_meta_data, Delivers-block_list_search,
  Delivers-block_range_search,
}

-- What a settled request leaves behind, where nothing follows its own slice.
pub Alone :
    (n : Slice) (d : Option Value) (s s' : Value)
    → Follows n (λ mid s2. s2 ≡ mid) d s s'
    → Meets (delivery_effect n d) s s'
Alone n none s s' h = h
Alone n (some v) s s' (mid, done, same) = rw same done

module _ (redux : Redux) where
  settles :
      (success : Value → Completion Action) (t : TableSlice) (outcome : Outcome)
      → Delivers success (table t) outcome
      → (reply : Reply) (w : World) → IsReady w.store
      → (w' : World) × (settle_with redux success nothing reply w ≡ (w', ok undefined))
        × (w'.token ≡ token_after reply w.token)
        × Meets
            (delivery_effect (table t) (reply_delivers outcome (view w.store (table t)) reply))
            w.store
            w'.store
  settles success t outcome delivers reply w ready =
      let (w', e, same, done) =
        settle_with_lem redux success (table t) outcome delivers nothing (λ mid s2. s2 ≡ mid)
          (λ w1 _. (w1, refl, refl, refl)) w ready (table-readable w.store ready t) reply in
      (w', e, same, Alone (table t) _ w.store w'.store done)

  -- On a ready store every request of `tables` but the two searches that empty one another and the
  -- paged search over transactions settles with `undefined`. An ordinary answer
  -- sets the slice of the request and no other slice. In every other case the store is as before:
  -- an error, an answer of which no field can be read, status 500, status 400,
  -- and a page of blocks without `rows`. An error with status 401 removes the token, which is kept
  -- otherwise.
  pub table_thunk-Settles :
      (call : TableCall) (reply : Reply) (w : World)
      → IsReady w.store
      → Settles
          (table_thunk redux call)
          reply
          w
          (delivery_effect
            (table (target call))
            (reply_delivers (shown call) (view w.store (table (target call))) reply))
          undefined
  unfolding table_thunk Tables.chaincode_list Tables.channels Tables.peer_list Tables.transaction
      Tables.transaction_list Tables.chaincode_meta_data Tables.block_list_search
      Tables.block_range_search
  table_thunk-Settles (chaincode_list channel) reply w ready =
      settles (λ resp. ok (Actions.get_chaincode_list resp)) TableSlice.chaincode_list
        (shown (chaincode_list channel)) (Delivers-chaincode_list channel) reply w ready
  table_thunk-Settles channels reply w ready =
      settles (λ resp. ok (Actions.get_channels resp)) TableSlice.channels (shown channels)
        Delivers-channels reply w ready
  table_thunk-Settles (peer_list channel) reply w ready =
      settles (λ resp. ok (Actions.get_peer_list resp)) TableSlice.peer_list
        (shown (peer_list channel)) (Delivers-peer_list channel) reply w ready
  table_thunk-Settles (transaction channel transaction_id) reply w ready =
      settles (λ resp. ok (Actions.get_transaction resp)) TableSlice.transaction
        (shown (transaction channel transaction_id)) (Delivers-transaction channel transaction_id)
        reply w ready
  table_thunk-Settles (transaction_list channel params) reply w ready =
      settles (λ resp. ok (Actions.get_transaction_list resp)) TableSlice.transaction_list
        (shown (transaction_list channel params)) (Delivers-transaction_list channel params) reply w
        ready
  table_thunk-Settles (chaincode_meta_data channel query) reply w ready =
      settles Actions.get_chaincode_meta_data TableSlice.chaincode_meta_data
        (shown (chaincode_meta_data channel query)) (Delivers-chaincode_meta_data channel query)
        reply w ready
  table_thunk-Settles (block_list_search channel query page_params) reply w ready =
      settles (λ resp. ok (Actions.get_block_list_search (with_search resp query page_params)))
        TableSlice.block_list_search (shown (block_list_search channel query page_params))
        (Delivers-block_list_search channel query page_params) reply w ready
  table_thunk-Settles (block_range_search channel query1 query2) reply w ready =
      settles Actions.get_block_range_search TableSlice.block_range_search
        (shown (block_range_search channel query1 query2))
        (Delivers-block_range_search channel query1 query2) reply w ready
