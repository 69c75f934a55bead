-- ===== src/Session/Selection.antt =====
-- The selectors of the client on a ready store.
use thermotrace_production.Common.{◌&◌, String, true, false, ◌≡◌, refl, sym, List, [], ◌∷◌, All}
use thermotrace_production.Js.Value.{
  ◌>>=◌, Value, undefined, null, Completion, ok, is_readable, is_undefined,
}
use thermotrace_production.Js.Object.{get, prop}
use thermotrace_production.Js.Object.Laws.{get-readable}
use thermotrace_production.Store.Auth.Selectors as AuthSelectors
use thermotrace_production.Store.Charts.Selectors as ChartSelectors
use thermotrace_production.Store.Tables.Selectors as TableSelectors
use thermotrace_production.Store.Theme
use thermotrace_production.Store.Root.{
  Slice, auth, theme, chart, table, ChartSlice, TableSlice, view, chart_key, table_key,
}
use thermotrace_production.Session.Dispatch.{IsReady, slice_ok, slice_ok-defined, table-readable}

-- The selectors that the components read the state through.
abbrev pub selectors : List (Value → Completion Value)
selectors =
    AuthSelectors.auth_selector ∷ AuthSelectors.error_selector ∷ AuthSelectors.network_selector
    ∷ AuthSelectors.registered_selector ∷ AuthSelectors.userlist_selector
    ∷ AuthSelectors.unregistered_selector ∷ ChartSelectors.block_per_hour_selector
    ∷ ChartSelectors.block_per_min_selector ∷ ChartSelectors.channel_list_selector
    ∷ ChartSelectors.current_channel_selector ∷ ChartSelectors.dash_stats_selector
    ∷ ChartSelectors.notification_selector ∷ ChartSelectors.transaction_by_org_selector
    ∷ ChartSelectors.transaction_per_hour_selector ∷ ChartSelectors.transaction_per_min_selector
    ∷ ChartSelectors.error_message_selector ∷ ChartSelectors.block_activity_selector
    ∷ TableSelectors.chaincode_list_selector ∷ TableSelectors.channels_selector
    ∷ TableSelectors.peer_list_selector ∷ TableSelectors.txn_list_selector
    ∷ TableSelectors.block_search_selector ∷ TableSelectors.chaincode_meta_data_selector
    ∷ TableSelectors.transaction_selector ∷ TableSelectors.transaction_list_selector
    ∷ TableSelectors.transaction_list_search_selector
    ∷ TableSelectors.transaction_list_total_pages_selector
    ∷ TableSelectors.transaction_list_search_total_pages_selector
    ∷ TableSelectors.transaction_list_search_page_param_selector
    ∷ TableSelectors.transaction_list_search_query_selector
    ∷ TableSelectors.block_list_search_selector ∷ TableSelectors.block_range_search_selector
    ∷ TableSelectors.block_list_search_total_pages_selector
    ∷ TableSelectors.block_list_search_page_param_selector
    ∷ TableSelectors.block_list_search_query_selector ∷ TableSelectors.block_range_loaded_selector
    ∷ Theme.mode_selector ∷ []

-- A selector gives a value, with no exception.
abbrev pub Selects : Value → (Value → Completion Value) → Type 0
Selects s selector = (v : Value) × (selector s ≡ ok v)

readable-of_prop : (k : String) (v : Value) → is_undefined (prop k v) ≡ false → is_readable v ≡ true
unfolding prop
readable-of_prop k undefined h = sym h
readable-of_prop k null h = sym h
readable-of_prop k _ h = refl

fit-readable :
    (n : Slice) (v : Value) → slice_ok n null ≡ false → slice_ok n v ≡ true → is_readable v ≡ true
fit-readable n undefined q h = h
fit-readable n null q h = cc
fit-readable n _ q h = refl

module _ (s : Value) (ready : IsReady s) where
  defined : (n : Slice) → is_undefined (view s n) ≡ false
  defined n = slice_ok-defined n (view s n) (ready.slices n)

  whole : is_readable s ≡ true
  unfolding view
  whole = readable-of_prop "auth" s (defined auth)

  charts : is_readable (prop "charts" s) ≡ true
  unfolding view
  charts = readable-of_prop "channel" (prop "charts" s) (defined (chart ChartSlice.channel))

  tables : is_readable (prop "tables" s) ≡ true
  unfolding view
  tables = readable-of_prop "channels" (prop "tables" s) (defined (table TableSlice.channels))

  of_root : (k : String) → get s k ≡ ok (prop k s)
  of_root k = get-readable s k whole

  of_charts : (k : String) → get (prop "charts" s) k ≡ ok (prop k (prop "charts" s))
  of_charts k = get-readable (prop "charts" s) k charts

  of_tables : (k : String) → get (prop "tables" s) k ≡ ok (prop k (prop "tables" s))
  of_tables k = get-readable (prop "tables" s) k tables

  of_auth : (k : String) → get (prop "auth" s) k ≡ ok (prop k (prop "auth" s))
  unfolding view
  of_auth k = get-readable _ k (fit-readable auth _ refl (ready.slices auth))

  of_theme : (k : String) → get (prop "theme" s) k ≡ ok (prop k (prop "theme" s))
  unfolding view
  of_theme k = get-readable _ k (fit-readable theme _ refl (ready.slices theme))

  of_chart :
      (c : ChartSlice) (k : String)
      → slice_ok (chart c) null ≡ false
      → get (prop (chart_key c) (prop "charts" s)) k
        ≡ ok (prop k (prop (chart_key c) (prop "charts" s)))
  unfolding view
  of_chart c k q = get-readable _ k (fit-readable (chart c) _ q (ready.slices (chart c)))

  of_table :
      (t : TableSlice) (k : String)
      → get (prop (table_key t) (prop "tables" s)) k
        ≡ ok (prop k (prop (table_key t) (prop "tables" s)))
  unfolding view
  of_table t k = get-readable _ k (table-readable s ready t)

  from_auth : (k : String) → (v : Value) × ((get s "auth" >>= λ part. get part k) ≡ ok v)
  from_auth k = (prop k (prop "auth" s), rw (of_root "auth", of_auth k) refl)

  from_chart :
      (c : ChartSlice) (k : String)
      → slice_ok (chart c) null ≡ false
      → (v : Value) × ((get s "charts" >>= (λ part. get part (chart_key c)) >>= λ slice.
            get slice k)
          ≡ ok v)
  from_chart c k whole = (
    prop k (prop (chart_key c) (prop "charts" s)),
    rw (of_root "charts", of_charts (chart_key c), of_chart c k whole) refl,
  )

  pub table-selected :
      (t : TableSlice) (k : String)
      → (get s "tables" >>= λ part. (get part (table_key t) >>= λ slice. get slice k))
        ≡ ok (prop k (view s (table t)))
  unfolding view
  table-selected t k = rw (of_root "tables", of_tables (table_key t), of_table t k) refl

  from_table :
      (t : TableSlice) (k : String)
      → (v : Value) × ((get s "tables" >>= λ part.
            (get part (table_key t) >>= λ slice. get slice k))
          ≡ ok v)
  from_table t k = (prop k (view s (table t)), table-selected t k)

  -- On a ready store every selector gives a value: none reads a field of `undefined` or `null`.
  pub selectors-total : All (Selects s) selectors
  unfolding Theme.mode_selector
  selectors-total =
      from_auth "token"
      & from_auth "error"
      & from_auth "networks"
      & from_auth "registered"
      & from_auth "userlists"
      & from_auth "unregistered"
      & from_chart ChartSlice.block_per_hour "rows" refl
      & from_chart ChartSlice.block_per_min "rows" refl
      & from_chart ChartSlice.channel_list "list" refl
      & from_chart ChartSlice.channel "currentChannel" refl
      & (prop "dashStats" (prop "charts" s), rw (of_root "charts", of_charts "dashStats") refl)
      & (
        prop "notification" (prop "charts" s),
        rw (of_root "charts", of_charts "notification") refl,
      )
      & from_chart ChartSlice.transaction_by_org "rows" refl
      & from_chart ChartSlice.transaction_per_hour "rows" refl
      & from_chart ChartSlice.transaction_per_min "rows" refl
      & from_chart ChartSlice.error_message "error" refl
      & from_chart ChartSlice.block_activity "rows" refl
      & from_table TableSlice.chaincode_list "rows"
      & from_table TableSlice.channels "rows"
      & from_table TableSlice.peer_list "rows"
      & from_table TableSlice.txn_list "rows"
      & from_table TableSlice.block_search "rows"
      & from_table TableSlice.chaincode_meta_data "rows"
      & from_table TableSlice.transaction "transaction"
      & from_table TableSlice.transaction_list "rows"
      & from_table TableSlice.transaction_list_search "rows"
      & from_table TableSlice.transaction_list "noOfpages"
      & from_table TableSlice.transaction_list_search "noOfpages"
      & from_table TableSlice.transaction_list_search "pageParams"
      & from_table TableSlice.transaction_list_search "query"
      & from_table TableSlice.block_list_search "rows"
      & from_table TableSlice.block_range_search "rows"
      & from_table TableSlice.block_list_search "noOfpages"
      & from_table TableSlice.block_list_search "pageParams"
      & from_table TableSlice.block_list_search "query"
      & from_table TableSlice.block_range_search "loaded"
      & (prop "mode" (prop "theme" s), rw (of_root "theme", of_theme "mode") refl)
      & tt
