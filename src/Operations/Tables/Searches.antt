-- ===== src/Operations/Tables/Searches.antt =====
-- The searches of `tables` by transaction and by block number, which empty one another's slice.
use thermotrace_production.Common.{◌≡◌, refl, arith}
use thermotrace_production.Js.Value.{Value, undefined, obj, end, ok}
use thermotrace_production.Js.Object.{prop}
use thermotrace_production.Js.Object.Laws.{get-readable}
use thermotrace_production.Redux.{Redux, action}
use thermotrace_production.Store.Tables.Actions
use thermotrace_production.Store.Tables.Types
use thermotrace_production.Store.Tables.Reducers.{txn_list_reducer, block_search_reducer}
use thermotrace_production.Store.Root.{table, TableSlice, view, slice_reducer}
use thermotrace_production.Session.{World, lift, dispatch, ◌>>=◌ as ◌>>>=◌}
use thermotrace_production.Session.Dispatch.{IsReady, Sets, table-readable, dispatch-Sets}
use thermotrace_production.Request.{Reply}
use thermotrace_production.Operations.Effects.{token_after}
use thermotrace_production.Operations.Tables
use thermotrace_production.Operations.Tables.{no_data, with_search}
use thermotrace_production.Operations.Tables.Handler.{Outcome, Delivers}
use thermotrace_production.Operations.Tables.Settle.{reply_delivers, Follows, settle_with_lem}
use thermotrace_production.Operations.Tables.Calls.{listed}

-- The slice of a search holds the `data` of the answer.
abbrev pub found : Outcome
found old body = ok (listed "rows" (prop "data" body))

-- The slice of the other search is emptied.
abbrev pub emptied : Value
emptied = listed "rows" (obj end)

Delivers-txn_list : Delivers Actions.get_txn_list (table TableSlice.txn_list) found
unfolding slice_reducer txn_list_reducer Actions.get_txn_list
Delivers-txn_list = record {
  makes = λ body. action Types.txn_list (prop "data" body);
  made = λ body r. rw (get-readable body "data" r) refl;
  mine = λ body. refl;
  reduces = λ old body q r. refl;
  readable = λ old body v h. ground arith;
}

Delivers-block_search : Delivers Actions.get_block_search (table TableSlice.block_search) found
unfolding slice_reducer block_search_reducer Actions.get_block_search
Delivers-block_search = record {
  makes = λ body. action Types.block_search (prop "data" body);
  made = λ body r. rw (get-readable body "data" r) refl;
  mine = λ body. refl;
  reduces = λ old body q r. refl;
  readable = λ old body v h. ground arith;
}

module _ (redux : Redux) where
  empty_blocks :
      (w : World)
      → IsReady w.store
      → (w' : World) × ((lift (Actions.get_block_search no_data) >>>= dispatch redux) w
          ≡ (w', ok tt))
        × (w'.token ≡ w.token)
        × Sets (table TableSlice.block_search) emptied w.store w'.store
  unfolding slice_reducer block_search_reducer Actions.get_block_search
  empty_blocks w ready =
      dispatch-Sets redux w (action Types.block_search (obj end)) (table TableSlice.block_search)
        emptied ready refl refl refl

  empty_transactions :
      (w : World)
      → IsReady w.store
      → (w' : World) × ((lift (Actions.get_txn_list no_data) >>>= dispatch redux) w ≡ (w', ok tt))
        × (w'.token ≡ w.token)
        × Sets (table TableSlice.txn_list) emptied w.store w'.store
  unfolding slice_reducer txn_list_reducer Actions.get_txn_list
  empty_transactions w ready =
      dispatch-Sets redux w (action Types.txn_list (obj end)) (table TableSlice.txn_list) emptied
        ready refl refl refl

  -- On a ready store, a search by transaction that delivers sets its slice to what was found and
  -- empties the slice of the search by block. One that delivers nothing leaves the store as it is,
  -- so the slice of the other search keeps what it showed. Both settle with `undefined`.
  pub txn_list-settles :
      (channel query : Value) (reply : Reply) (w : World)
      → IsReady w.store
      → (w' : World) × ((Tables.txn_list redux channel query).settle reply w ≡ (w', ok undefined))
        × (w'.token ≡ token_after reply w.token)
        × Follows
            (table TableSlice.txn_list)
            (Sets (table TableSlice.block_search) emptied)
            (reply_delivers found (view w.store (table TableSlice.txn_list)) reply)
            w.store
            w'.store
  unfolding Tables.txn_list
  txn_list-settles channel query reply w ready =
      settle_with_lem redux Actions.get_txn_list (table TableSlice.txn_list) found Delivers-txn_list
        (lift (Actions.get_block_search no_data) >>>= dispatch redux)
        (Sets (table TableSlice.block_search) emptied) empty_blocks w ready
        (table-readable w.store ready TableSlice.txn_list) reply

  -- On a ready store, a search by block that delivers sets its slice to what was found and empties
  -- the slice of the search by transaction. One that delivers nothing leaves the store as it is, so
  -- the slice of the other search keeps what it showed. Both settle with `undefined`.
  pub block_search-settles :
      (channel query : Value) (reply : Reply) (w : World)
      → IsReady w.store
      → (w' : World) × ((Tables.block_search redux channel query).settle reply w
          ≡ (w', ok undefined))
        × (w'.token ≡ token_after reply w.token)
        × Follows
            (table TableSlice.block_search)
            (Sets (table TableSlice.txn_list) emptied)
            (reply_delivers found (view w.store (table TableSlice.block_search)) reply)
            w.store
            w'.store
  unfolding Tables.block_search
  block_search-settles channel query reply w ready =
      settle_with_lem redux Actions.get_block_search (table TableSlice.block_search) found
        Delivers-block_search (lift (Actions.get_txn_list no_data) >>>= dispatch redux)
        (Sets (table TableSlice.txn_list) emptied) empty_transactions w ready
        (table-readable w.store ready TableSlice.block_search) reply
