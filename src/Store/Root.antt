-- ===== src/Store/Root.antt =====
-- The root reducer (blockchain-explorer/client/src/state/redux/index.js and store.js) and the 24
-- slices of its state.
pub mod Refinement
pub mod Frame
use thermotrace_production.Common.{
  String, Bool, true, false, ◌==◌, ◌||◌, if◌then◌else◌, List, [], ◌∷◌, Option, some, none,
}
use thermotrace_production.Js.Value.{Value, obj, end, Completion}
use thermotrace_production.Js.Object.{prop}
use thermotrace_production.Redux.{Redux, Reducer}
use thermotrace_production.Store.Auth.Reducers.{auth_reducer}
use thermotrace_production.Store.Auth.Reducers
use thermotrace_production.Store.Auth.Types
use thermotrace_production.Store.Charts.Reducers.{
  charts_reducers, charts_reducer, block_per_hour_reducer, block_per_min_reducer, channel_reducer,
  channel_list_reducer, dash_stats_reducer, notification_reducer, transaction_by_org_reducer,
  transaction_per_hour_reducer, transaction_per_min_reducer, error_message_reducer,
  block_activity_reducer,
}
use thermotrace_production.Store.Charts.Types as ChartTypes
use thermotrace_production.Store.Tables.Reducers.{
  tables_reducers, tables_reducer, chaincode_list_reducer, channels_reducer, peer_list_reducer,
  block_range_search_reducer, txn_list_reducer, block_search_reducer, chaincode_meta_data_reducer,
  transaction_reducer, transaction_list_reducer, block_list_search_reducer,
  transaction_list_search_reducer,
}
use thermotrace_production.Store.Tables.Types as TableTypes
use thermotrace_production.Store.Theme.{theme_reducer, change_theme_type}
use thermotrace_production.Store.Theme

pub data ChartSlice : Type 0 where
  block_per_hour block_per_min channel channel_list dash_stats notification transaction_by_org
        transaction_per_hour transaction_per_min error_message block_activity :
      ChartSlice

pub data TableSlice : Type 0 where
  chaincode_list channels peer_list block_range_search txn_list block_search chaincode_meta_data
        transaction transaction_list block_list_search transaction_list_search :
      TableSlice

pub data Slice : Type 0 where
  auth theme : Slice
  chart : ChartSlice → Slice
  table : TableSlice → Slice

-- The key of a slice of `charts` and of `tables`.
abbrev pub chart_key : ChartSlice → String
chart_key block_per_hour = "blockPerHour"
chart_key block_per_min = "blockPerMin"
chart_key channel = "channel"
chart_key channel_list = "channelList"
chart_key dash_stats = "dashStats"
chart_key notification = "notification"
chart_key transaction_by_org = "transactionByOrg"
chart_key transaction_per_hour = "transactionPerHour"
chart_key transaction_per_min = "transactionPerMin"
chart_key error_message = "errorMessage"
chart_key block_activity = "blockActivity"

abbrev pub table_key : TableSlice → String
table_key chaincode_list = "chaincodeList"
table_key channels = "channels"
table_key peer_list = "peerList"
table_key block_range_search = "blockRangeSearch"
table_key txn_list = "txnList"
table_key block_search = "blockSearch"
table_key chaincode_meta_data = "chaincodeMetaData"
table_key transaction = "transaction"
table_key transaction_list = "transactionList"
table_key block_list_search = "blockListSearch"
table_key transaction_list_search = "transactionListSearch"

-- A slice of the whole state.
unfoldable pub view : Value → Slice → Value
view s auth = prop "auth" s
view s theme = prop "theme" s
view s (chart c) = prop (chart_key c) (prop "charts" s)
view s (table t) = prop (table_key t) (prop "tables" s)

abbrev pub chart_slice_reducer : ChartSlice → Reducer
chart_slice_reducer block_per_hour = block_per_hour_reducer
chart_slice_reducer block_per_min = block_per_min_reducer
chart_slice_reducer channel = channel_reducer
chart_slice_reducer channel_list = channel_list_reducer
chart_slice_reducer dash_stats = dash_stats_reducer
chart_slice_reducer notification = notification_reducer
chart_slice_reducer transaction_by_org = transaction_by_org_reducer
chart_slice_reducer transaction_per_hour = transaction_per_hour_reducer
chart_slice_reducer transaction_per_min = transaction_per_min_reducer
chart_slice_reducer error_message = error_message_reducer
chart_slice_reducer block_activity = block_activity_reducer

abbrev pub table_slice_reducer : TableSlice → Reducer
table_slice_reducer chaincode_list = chaincode_list_reducer
table_slice_reducer channels = channels_reducer
table_slice_reducer peer_list = peer_list_reducer
table_slice_reducer block_range_search = block_range_search_reducer
table_slice_reducer txn_list = txn_list_reducer
table_slice_reducer block_search = block_search_reducer
table_slice_reducer chaincode_meta_data = chaincode_meta_data_reducer
table_slice_reducer transaction = transaction_reducer
table_slice_reducer transaction_list = transaction_list_reducer
table_slice_reducer block_list_search = block_list_search_reducer
table_slice_reducer transaction_list_search = transaction_list_search_reducer

-- The reducer that is responsible for a slice.
unfoldable pub slice_reducer : Slice → Reducer
slice_reducer auth = auth_reducer
slice_reducer theme = theme_reducer
slice_reducer (chart c) = chart_slice_reducer c
slice_reducer (table t) = table_slice_reducer t

abbrev pub root_reducers : Redux → List (String × Reducer)
root_reducers redux =
    ("auth", auth_reducer)
    ∷ ("charts", charts_reducer redux)
    ∷ ("tables", tables_reducer redux)
    ∷ ("theme", theme_reducer)
    ∷ []

unfoldable pub root_reducer : Redux → Reducer
root_reducer redux = redux.combine_reducers (root_reducers redux)

-- The action types to which a slice reacts.
abbrev pub chart_types : ChartSlice → List String
chart_types block_per_hour = ChartTypes.block_chart_hour ∷ []
chart_types block_per_min = ChartTypes.block_chart_min ∷ []
chart_types channel = ChartTypes.channel ∷ ChartTypes.change_channel ∷ []
chart_types channel_list = ChartTypes.channel_list ∷ []
chart_types dash_stats = ChartTypes.dashboard_stats ∷ []
chart_types notification = ChartTypes.notification_load ∷ []
chart_types transaction_by_org = ChartTypes.transaction_chart_org ∷ []
chart_types transaction_per_hour = ChartTypes.transaction_chart_hour ∷ []
chart_types transaction_per_min = ChartTypes.transaction_chart_min ∷ []
chart_types error_message = ChartTypes.error_message ∷ []
chart_types block_activity = ChartTypes.block_activity ∷ []

abbrev pub table_types : TableSlice → List String
table_types chaincode_list = TableTypes.chaincode_list ∷ []
table_types channels = TableTypes.channels ∷ []
table_types peer_list = TableTypes.peer_list ∷ []
table_types block_range_search = TableTypes.block_range_search ∷ TableTypes.block_range_loaded ∷ []
table_types txn_list = TableTypes.txn_list ∷ []
table_types block_search = TableTypes.block_search ∷ []
table_types chaincode_meta_data = TableTypes.chaincode_meta_data ∷ []
table_types transaction = TableTypes.transaction ∷ []
table_types transaction_list = TableTypes.transaction_list ∷ []
table_types block_list_search = TableTypes.block_list_search ∷ []
table_types transaction_list_search = TableTypes.transaction_list_search ∷ []

abbrev pub types_of : Slice → List String
types_of auth =
    Types.login ∷ Types.error ∷ Types.network ∷ Types.register ∷ Types.userlist ∷ Types.unregister
    ∷ []
types_of theme = change_theme_type ∷ []
types_of (chart c) = chart_types c
types_of (table t) = table_types t

abbrev pub is_among : String → List String → Bool
is_among t [] = false
is_among t (u ∷ us) = t == u || is_among t us

-- What a slice starts with where the store has none.
abbrev pub initial : Slice → Value
initial auth = Reducers.initial_state
initial theme = Theme.initial_state
initial _ = obj end
