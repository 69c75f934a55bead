-- ===== src/Store/Root/Refinement.antt =====
-- The combined reducers against the 24 slice reducers.
use thermotrace_production.Common.{◌&◌, ◌≡◌, refl, false, some, All-lookup, All, lookup}
use thermotrace_production.Js.Value.{Value, ok, is_undefined, is_null}
use thermotrace_production.Js.Object.{prop}
use thermotrace_production.Redux.{Redux, Action, Advances}
use thermotrace_production.Store.Charts.Reducers.{charts_reducers, charts_reducer}
use thermotrace_production.Store.Tables.Reducers.{tables_reducers, tables_reducer}
use thermotrace_production.Store.Root.{
  Slice, auth, theme, chart, table, ChartSlice, TableSlice, chart_key, table_key, view,
  slice_reducer, chart_slice_reducer, table_slice_reducer, root_reducers, root_reducer,
}

lookup-chart_key :
    (c : ChartSlice) → lookup (chart_key c) charts_reducers ≡ some (chart_slice_reducer c)
lookup-chart_key ChartSlice.block_per_hour = refl
lookup-chart_key _ = refl

lookup-table_key :
    (t : TableSlice) → lookup (table_key t) tables_reducers ≡ some (table_slice_reducer t)
lookup-table_key TableSlice.chaincode_list = refl
lookup-table_key _ = refl

module _ (redux : Redux) where
  -- Where the root reducer gives a state, each of the 24 slices is what its own reducer made of it,
  -- and is defined.
  pub root-slices :
      (s : Value) (a : Action) (s' : Value)
      → root_reducer redux s a ≡ ok s'
      → (n : Slice)
      → (slice_reducer n (view s n) a ≡ ok (view s' n)) × (is_undefined (view s' n) ≡ false)
  unfolding root_reducer view slice_reducer charts_reducer tables_reducer
  root-slices s a s' h n = at n
    where
      roots : All (Advances s a s') (root_reducers redux)
      roots = redux.combine_sound (root_reducers redux) s a s' refl h

      at :
          (n : Slice)
          → (slice_reducer n (view s n) a ≡ ok (view s' n)) × (is_undefined (view s' n) ≡ false)
      at auth = roots.0
      at theme = roots.1.1.1.0
      at (chart c) =
          All-lookup (Advances (prop "charts" s) a (prop "charts" s')) charts_reducers (chart_key c)
            (lookup-chart_key c)
            (redux.combine_sound charts_reducers (prop "charts" s) a (prop "charts" s') refl
              roots.1.0.0)
      at (table t) =
          All-lookup (Advances (prop "tables" s) a (prop "tables" s')) tables_reducers (table_key t)
            (lookup-table_key t)
            (redux.combine_sound tables_reducers (prop "tables" s) a (prop "tables" s') refl
              roots.1.1.0.0)

-- The state and its two combined parts are not `null`: what `combineReducers` gives back.
pub record IsStore (s : Value) : Type 0 where
  pub whole : is_null s ≡ false
  pub charts : is_null (prop "charts" s) ≡ false
  pub tables : is_null (prop "tables" s) ≡ false

-- A slice reducer gives a state that is defined.
abbrev pub SliceAccepts : Value → Action → Slice → Type 0
SliceAccepts s a n = (v : Value) × (slice_reducer n (view s n) a ≡ ok v) × (is_undefined v ≡ false)

module _ (redux : Redux) where
  pub root-IsStore :
      (s : Value) (a : Action) (s' : Value) → root_reducer redux s a ≡ ok s' → IsStore s'
  unfolding root_reducer charts_reducer tables_reducer
  root-IsStore s a s' h =
      let roots : All (Advances s a s') (root_reducers redux) =
        redux.combine_sound (root_reducers redux) s a s' refl h in
      record {
        whole = (redux.combine_defined _ s a s' h).1;
        charts = (redux.combine_defined _ _ a _ roots.1.0.0).1;
        tables = (redux.combine_defined _ _ a _ roots.1.1.0.0).1;
      }

  charts_complete :
      (s : Value) (a : Action)
      → IsStore s
      → ((c : ChartSlice) → SliceAccepts s a (chart c))
      → (v : Value) × (charts_reducer redux (prop "charts" s) a ≡ ok v) × (is_undefined v ≡ false)
  unfolding charts_reducer slice_reducer view
  charts_complete s a store h =
      let (v, e) = redux.combine_complete charts_reducers (prop "charts" s) a refl store.charts (
        h ChartSlice.block_per_hour
        & h ChartSlice.block_per_min
        & h ChartSlice.channel
        & h ChartSlice.channel_list
        & h ChartSlice.dash_stats
        & h ChartSlice.notification
        & h ChartSlice.transaction_by_org
        & h ChartSlice.transaction_per_hour
        & h ChartSlice.transaction_per_min
        & h ChartSlice.error_message
        & h ChartSlice.block_activity
        & tt) in
      (v, e, (redux.combine_defined _ _ a v e).0)

  tables_complete :
      (s : Value) (a : Action)
      → IsStore s
      → ((t : TableSlice) → SliceAccepts s a (table t))
      → (v : Value) × (tables_reducer redux (prop "tables" s) a ≡ ok v) × (is_undefined v ≡ false)
  unfolding tables_reducer slice_reducer view
  tables_complete s a store h =
      let (v, e) = redux.combine_complete tables_reducers (prop "tables" s) a refl store.tables (
        h TableSlice.chaincode_list
        & h TableSlice.channels
        & h TableSlice.peer_list
        & h TableSlice.block_range_search
        & h TableSlice.txn_list
        & h TableSlice.block_search
        & h TableSlice.chaincode_meta_data
        & h TableSlice.transaction
        & h TableSlice.transaction_list
        & h TableSlice.block_list_search
        & h TableSlice.transaction_list_search
        & tt) in
      (v, e, (redux.combine_defined _ _ a v e).0)

  -- Where every slice reducer gives a state that is defined, the root reducer gives one.
  pub root_complete :
      (s : Value) (a : Action)
      → IsStore s
      → ((n : Slice) → SliceAccepts s a n)
      → (s' : Value) × (root_reducer redux s a ≡ ok s')
  unfolding root_reducer slice_reducer view
  root_complete s a store h = redux.combine_complete (root_reducers redux) s a refl store.whole (
    h auth,
    (
      charts_complete s a store (λ c. h (chart c)),
      (tables_complete s a store (λ t. h (table t)), (h theme, tt)),
    ),
  )
