-- ===== src/Store/Root/Frame.antt =====
-- Which slices an action changes.
use thermotrace_production.Common.{
  String, true, false, ◌≡◌, ◌==◌, refl, Option, some, none, eq_iff, arith, Bool-cases, inl, inr,
  sym, [], ◌∷◌, List, if◌then◌else◌, All, subst,
}
use thermotrace_production.Store.Auth.Types
use thermotrace_production.Store.Charts.Types as ChartTypes
use thermotrace_production.Store.Tables.Types as TableTypes
use thermotrace_production.Js.Value.{Value, ok, is_undefined}
use thermotrace_production.Redux.{Redux, Action, default_to}
use thermotrace_production.Store.Auth.Reducers.{auth_reducer}
use thermotrace_production.Store.Charts.Reducers.{
  block_per_hour_reducer, block_per_min_reducer, channel_reducer, channel_list_reducer,
  dash_stats_reducer, notification_reducer, transaction_by_org_reducer,
  transaction_per_hour_reducer, transaction_per_min_reducer, error_message_reducer,
  block_activity_reducer,
}
use thermotrace_production.Store.Tables.Reducers.{
  chaincode_list_reducer, channels_reducer, peer_list_reducer, block_range_search_reducer,
  txn_list_reducer, block_search_reducer, chaincode_meta_data_reducer, transaction_reducer,
  transaction_list_reducer, block_list_search_reducer, transaction_list_search_reducer,
}
use thermotrace_production.Store.Theme.{theme_reducer, change_theme_type}
use thermotrace_production.Store.Root.{
  Slice, auth, theme, chart, table, ChartSlice, TableSlice, view, slice_reducer, root_reducer,
  types_of, is_among, initial,
}
use thermotrace_production.Store.Root.Refinement.{root-slices}

-- A slice reducer passes over the types that are not its own.
pub slice_reducer-silent :
    (n : Slice) (v : Value) (a : Action)
    → is_among a.type (types_of n) ≡ false
    → slice_reducer n v a ≡ ok (default_to (initial n) v)
unfolding slice_reducer auth_reducer theme_reducer block_per_hour_reducer block_per_min_reducer
    channel_reducer channel_list_reducer dash_stats_reducer notification_reducer
    transaction_by_org_reducer transaction_per_hour_reducer transaction_per_min_reducer
    error_message_reducer block_activity_reducer chaincode_list_reducer channels_reducer
    peer_list_reducer block_range_search_reducer txn_list_reducer block_search_reducer
    chaincode_meta_data_reducer transaction_reducer transaction_list_reducer
    block_list_search_reducer transaction_list_search_reducer
slice_reducer-silent auth v a h = ground arith
slice_reducer-silent theme v a h = ground arith
slice_reducer-silent (chart ChartSlice.block_per_hour) v a h = ground arith
slice_reducer-silent (chart c) v a h = ground arith
slice_reducer-silent (table TableSlice.chaincode_list) v a h = ground arith
slice_reducer-silent (table t) v a h = ground arith

-- Where the root reducer gives a state, every slice that was defined and does not react to the type
-- of the action is as before.
pub root-frame :
    (redux : Redux) (s : Value) (a : Action) (s' : Value)
    → root_reducer redux s a ≡ ok s'
    → (n : Slice) → is_among a.type (types_of n) ≡ false
    → is_undefined (view s n) ≡ false
    → view s' n ≡ view s n
root-frame redux s a s' h n silent defined =
    ground (arith, (root-slices redux s a s' h n).0, slice_reducer-silent n (view s n) a silent)

-- The slice that reacts to a type.
owner : String → Option Slice
owner t =
    if t == Types.login
    then some auth
    else if t == Types.error
    then some auth
    else if t == Types.network
    then some auth
    else if t == Types.register
    then some auth
    else if t == Types.userlist
    then some auth
    else if t == Types.unregister
    then some auth
    else if t == change_theme_type
    then some theme
    else if t == ChartTypes.block_chart_hour
    then some (chart ChartSlice.block_per_hour)
    else if t == ChartTypes.block_chart_min
    then some (chart ChartSlice.block_per_min)
    else if t == ChartTypes.channel
    then some (chart ChartSlice.channel)
    else if t == ChartTypes.change_channel
    then some (chart ChartSlice.channel)
    else if t == ChartTypes.channel_list
    then some (chart ChartSlice.channel_list)
    else if t == ChartTypes.dashboard_stats
    then some (chart ChartSlice.dash_stats)
    else if t == ChartTypes.notification_load
    then some (chart ChartSlice.notification)
    else if t == ChartTypes.transaction_chart_org
    then some (chart ChartSlice.transaction_by_org)
    else if t == ChartTypes.transaction_chart_hour
    then some (chart ChartSlice.transaction_per_hour)
    else if t == ChartTypes.transaction_chart_min
    then some (chart ChartSlice.transaction_per_min)
    else if t == ChartTypes.error_message
    then some (chart ChartSlice.error_message)
    else if t == ChartTypes.block_activity
    then some (chart ChartSlice.block_activity)
    else if t == TableTypes.chaincode_list
    then some (table TableSlice.chaincode_list)
    else if t == TableTypes.channels
    then some (table TableSlice.channels)
    else if t == TableTypes.peer_list
    then some (table TableSlice.peer_list)
    else if t == TableTypes.block_range_search
    then some (table TableSlice.block_range_search)
    else if t == TableTypes.block_range_loaded
    then some (table TableSlice.block_range_search)
    else if t == TableTypes.txn_list
    then some (table TableSlice.txn_list)
    else if t == TableTypes.block_search
    then some (table TableSlice.block_search)
    else if t == TableTypes.chaincode_meta_data
    then some (table TableSlice.chaincode_meta_data)
    else if t == TableTypes.transaction
    then some (table TableSlice.transaction)
    else if t == TableTypes.transaction_list
    then some (table TableSlice.transaction_list)
    else if t == TableTypes.block_list_search
    then some (table TableSlice.block_list_search)
    else if t == TableTypes.transaction_list_search
    then some (table TableSlice.transaction_list_search)
    else none

owner-types_of : (n : Slice) → All (λ t. owner t ≡ some n) (types_of n)
unfolding owner
owner-types_of auth = (refl, (refl, (refl, (refl, (refl, (refl, tt))))))
owner-types_of theme = (refl, tt)
owner-types_of (chart ChartSlice.channel) = (refl, (refl, tt))
owner-types_of (chart c) = (refl, tt)
owner-types_of (table TableSlice.block_range_search) = (refl, (refl, tt))
owner-types_of (table t) = (refl, tt)

pub All-is_among :
    (P : String → Type 0) (t : String) (us : List String) → All P us → is_among t us ≡ true → P t
All-is_among P t [] h e = cc
All-is_among P t (u ∷ us) (p, ps) e = elim (Bool-cases (t == u)) [
  | inl same ↦ subst P (sym ((eq_iff t u).0 same)) p
  | inr other ↦ All-is_among P t us ps (ground arith)
]

-- No two slices react to one action type.
pub types_of_unique :
    (n m : Slice) (t : String)
    → is_among t (types_of n) ≡ true
    → is_among t (types_of m) ≡ true
    → n ≡ m
types_of_unique n m t h k = cc (
  All-is_among (λ u. owner u ≡ some n) t (types_of n) (owner-types_of n) h,
  All-is_among (λ u. owner u ≡ some m) t (types_of m) (owner-types_of m) k,
)
