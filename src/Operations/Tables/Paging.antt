-- ===== src/Operations/Tables/Paging.antt =====
-- The search of `tables` over a range of blocks, and the paged search over transactions.
use thermotrace_production.Common.{
  [], ◌∷◌, true, false, ◌≡◌, refl, ap, ◌∙◌, Bool-cases, inl, inr, none,
}
use thermotrace_production.Js.Value.{
  Value, undefined, bool, num, obj, end, field, ok, or_else, truthy,
}
use thermotrace_production.Js.Object.{prop, to_text}
use thermotrace_production.Redux.{Redux}
use thermotrace_production.Store.Tables.Actions
use thermotrace_production.Store.Tables.Reducers.{
  block_range_search_reducer, transaction_list_search_reducer,
}
use thermotrace_production.Store.Root.{table, TableSlice, view, slice_reducer}
use thermotrace_production.Session.{World, dispatch}
use thermotrace_production.Session.Dispatch.{IsReady, Sets, table-readable, dispatch-Sets}
use thermotrace_production.Request.{Reply, get as get_request}
use thermotrace_production.Thunk.{concat}
use thermotrace_production.Operations.Effects.{
  token_after, sets, Settles, reply_effect, callback-failed, callback-body,
}
use thermotrace_production.Operations.Tables
use thermotrace_production.Operations.Tables.{no_data, with_search}
use thermotrace_production.Operations.Tables.Handler.{Outcome}
use thermotrace_production.Operations.Tables.Settle.{reply_delivers}
use thermotrace_production.Operations.Tables.Calls.{
  listed, pages, block_range_search as range_call, table_thunk,
}
use thermotrace_production.Operations.Tables.Deliveries.{
  get-with_search, get-default, get-with_search_rows,
}
use thermotrace_production.Operations.Tables.Outcomes.{table_thunk-Settles}

-- The state of a range search that is under way.
abbrev pub loading : Value
loading = obj (field "loaded" (bool false) end)

-- The slice of a range search holds the `data` of the answer.
abbrev pub range_found : Outcome
range_found old body = ok (listed "rows" (prop "data" body))

module _ (redux : Redux) (channel query1 query2 : Value) where
  -- On a ready store, starting a range search drops the rows of the search before it, marks the
  -- slice as loading and asks the server; no other slice changes, and the token stays.
  pub block_range_search-starts :
      (w : World)
      → IsReady w.store
      → (w' : World) × ((Tables.block_range_search redux channel query1 query2).start w ≡ (
        w',
        ok (
            get_request
              (concat (
                "/api/fetchDataByBlockRange/"
                ∷ to_text channel
                ∷ "/"
                ∷ to_text query1
                ∷ "/"
                ∷ to_text query2
                ∷ []))
              w'),
      ))
        × (w'.token ≡ w.token)
        × Sets (table TableSlice.block_range_search) loading w.store w'.store
  unfolding Tables.block_range_search slice_reducer block_range_search_reducer
  block_range_search-starts w ready =
      let (w', e, t, done) =
        dispatch-Sets redux w (Actions.get_loaded (bool false))
          (table TableSlice.block_range_search) loading ready refl refl refl in
      (w', rw e refl, t, done)

  -- On a ready store, a range search under way whose reply delivers nothing (an error, status 500,
  -- status 400 or an answer of which no field can be read) settles with the slice still marked as
  -- loading.
  pub block_range_search-stays_loading :
      (reply : Reply) (w : World)
      → IsReady w.store
      → view w.store (table TableSlice.block_range_search) ≡ loading
      → reply_delivers range_found loading reply ≡ none
      → (w' : World) × ((Tables.block_range_search redux channel query1 query2).settle reply w
          ≡ (w', ok undefined))
        × (view w'.store (table TableSlice.block_range_search) ≡ loading)
  unfolding table_thunk
  block_range_search-stays_loading reply w ready under_way nothing_found =
      let (w', e, t, done) =
        table_thunk-Settles redux (range_call channel query1 query2) reply w ready in
      let stays = rw nothing_found at done in
      (w', e, ap (λ s. view s (table TableSlice.block_range_search)) stays ∙ under_way)

-- What the slice of the search over transactions holds after an answer.
abbrev pub transaction_page : Value → Value → Value → Value → Value
transaction_page old query page_params body = obj (
    field "rows" (prop "txnsData" (prop "rows" body)) (
      field "noOfpages" (pages (prop "rows" body) old) (
        field "loaded" (bool true) (
          field "errors" undefined (
            field "query" query (
              field "pageParams"
                (obj (
                  field "page" (or_else (prop "page" page_params) (num 1))
                    (field "size" (or_else (prop "size" page_params) (num 10)) end)))
                end))))))

module _ (redux : Redux) (channel query page_params : Value) where
  page-Sets :
      (body : Value) (w : World)
      → IsReady w.store
      → (w' : World) × (dispatch redux
            (Actions.get_transaction_list_search (with_search body query page_params))
            w
          ≡ (w', ok tt))
        × (w'.token ≡ w.token)
        × Sets
            (table TableSlice.transaction_list_search)
            (transaction_page
              (view w.store (table TableSlice.transaction_list_search))
              query
              page_params
              body)
            w.store
            w'.store
  unfolding slice_reducer transaction_list_search_reducer
  page-Sets body w ready =
      let n = table TableSlice.transaction_list_search in
      dispatch-Sets redux w
        (Actions.get_transaction_list_search (with_search body query page_params)) n
        (transaction_page (view w.store n) query page_params body) ready refl
        (rw
          (
            get-with_search_rows body query page_params,
            get-default (view w.store n) "noOfpages"
                (table-readable w.store ready TableSlice.transaction_list_search),
            get-with_search body query page_params "query",
            get-with_search body query page_params "pageParams",
          )
          refl)
        refl

  -- On a ready store, the paged search over transactions settles with `undefined`. It looks at no
  -- status: every answer, one with status 500 or 400 included, sets its slice and no other, to no
  -- rows where the answer has none. An error leaves the store as it is. An error with status 401
  -- removes the token, which is kept otherwise.
  pub transaction_list_search-Settles :
      (reply : Reply) (w : World)
      → IsReady w.store
      → Settles
          (Tables.transaction_list_search redux channel query page_params)
          reply
          w
          (reply_effect
            (λ body. sets (table TableSlice.transaction_list_search) (
              transaction_page
                (view w.store (table TableSlice.transaction_list_search))
                query
                page_params
                body))
            reply)
          undefined
  unfolding Tables.transaction_list_search
  transaction_list_search-Settles reply w ready = elim (Bool-cases (truthy reply.error)) [
    | inl failed ↦ (
      record w { token = token_after reply w.token },
      rw (callback-failed reply w failed),
      refl,
      rw failed refl,
    )
    | inr sound ↦
        let (w', e, t, done) = page-Sets (prop "body" reply.response) w ready in
        (w', rw (callback-body reply w sound, e), rw sound t, rw sound done)
  ]
