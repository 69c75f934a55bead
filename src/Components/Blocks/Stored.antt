-- ===== src/Components/Blocks/Stored.antt =====
-- The query that the list of blocks sends again, from the answer to a search through the store to
-- the next search.
use thermotrace_production.Common.{
  String, true, ◌≡◌, ◌∙◌, ap, sym, some, List, All, inl, inr, arith,
}
use thermotrace_production.Js.Value.{Value, undefined, ok, is_readable}
use thermotrace_production.Js.Object.{prop, field_of, get}
use thermotrace_production.Redux.{Redux}
use thermotrace_production.Request.{Reply}
use thermotrace_production.Store.Root.{view, table, TableSlice}
use thermotrace_production.Store.Tables.Selectors.{block_list_search_query_selector}
use thermotrace_production.Session.{World}
use thermotrace_production.Session.Dispatch.{
  IsReady, Sets, Sets-IsReady, slice_ok-readable, Completion-cases,
}
use thermotrace_production.Session.Selection.{table-selected}
use thermotrace_production.Operations.Tables
use thermotrace_production.Operations.Tables.Handler.{value_of}
use thermotrace_production.Operations.Tables.Settle.{reply_delivers}
use thermotrace_production.Operations.Tables.Calls.{
  shown, block_page, block_list_search, table_thunk,
}
use thermotrace_production.Operations.Tables.Outcomes.{table_thunk-Settles}
use thermotrace_production.Components.Blocks.{fresh, searched, query_of}
use thermotrace_production.Components.Blocks.Update.{Event, run}
use thermotrace_production.Components.Blocks.Query.{is_other, query_of-stored}

module _ (channel query page_params : Value) where
  value-query :
      (old body page : Value)
      → value_of (shown (block_list_search channel query page_params) old body) ≡ some page
      → (prop "query" page ≡ query) × (is_readable page ≡ true)
  unfolding prop field_of
  value-query old body page h = elim (Completion-cases (get (prop "rows" body) "blocksData")) [
    | inl (blocks, listed) ↦
        let given = rw listed at h in
        let same : block_page blocks (prop "rows" body) old query page_params ≡ page = cc in
        (ap (prop "query") (sym same), ap is_readable (sym same))
    | inr (error, failed) ↦ let given = rw failed at h in cc
  ]

  delivers-query :
      (old page : Value) (reply : Reply)
      → reply_delivers (shown (block_list_search channel query page_params)) old reply ≡ some page
      → (prop "query" page ≡ query) × (is_readable page ≡ true)
  delivers-query old page reply h = value-query old (prop "body" reply.response) page (ground arith)

module _ (redux : Redux) (channel query page_params : Value) where
  -- On a ready store, where a search of the list for `query` has been answered with a page of
  -- blocks, the selector of the stored query gives `query`. While the store holds it, every search
  -- that a page sends after its first one is for `query` again, until the next click on `Search`,
  -- whatever dates, organisations, ranges and pages are chosen in between.
  pub query_of-repeats :
      (reply : Reply) (w : World) (page : Value) (now yesterday epoch : String)
      (before after : List Event)
      → IsReady w.store
      → reply_delivers
          (shown (block_list_search channel query page_params))
          (view w.store (table TableSlice.block_list_search))
          reply
        ≡ some page
      → All (λ e. is_other e ≡ true) after
      → (w' : World) × ((Tables.block_list_search redux channel query page_params).settle reply w
          ≡ (w', ok undefined))
        × ((stored : Value) × (block_list_search_query_selector w'.store ≡ ok stored)
            × (query_of epoch stored (run after (searched (run before (fresh now yesterday))))
                ≡ query))
  unfolding table_thunk
  query_of-repeats reply w page now yesterday epoch before after ready given quiet =
      let n = table TableSlice.block_list_search in
      let (w', e, t, done) =
        table_thunk-Settles redux (block_list_search channel query page_params) reply w ready in
      let set : Sets n page w.store w'.store = rw given at done in
      let (asked, readable) = delivers-query channel query page_params _ page reply given in
      let ready' =
        Sets-IsReady n page w.store w'.store ready set (slice_ok-readable n page readable) in
      let stored = prop "query" (view w'.store n) in
      (
        w',
        e,
        (
          stored,
          table-selected w'.store ready' TableSlice.block_list_search "query",
          query_of-stored now yesterday epoch stored before after quiet
              ∙ (ap (prop "query") set.at ∙ asked),
        ),
      )
