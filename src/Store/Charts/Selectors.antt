-- ===== src/Store/Charts/Selectors.antt =====
-- blockchain-explorer/client/src/state/redux/charts/selectors.js
use thermotrace_production.Common.{String}
use thermotrace_production.Js.Value.{Value, Completion, ◌>>=◌}
use thermotrace_production.Js.Object.{get}

-- `state.charts.slice` and `state.charts.slice.key`
abbrev slice_of : String → Value → Completion Value
slice_of slice state = do charts ← get state "charts"; get charts slice

abbrev of_slice : String → String → Value → Completion Value
of_slice slice key state = do value ← slice_of slice state; get value key

abbrev pub block_per_hour_selector : Value → Completion Value
block_per_hour_selector state = of_slice "blockPerHour" "rows" state

abbrev pub block_per_min_selector : Value → Completion Value
block_per_min_selector state = of_slice "blockPerMin" "rows" state

abbrev pub channel_list_selector : Value → Completion Value
channel_list_selector state = of_slice "channelList" "list" state

abbrev pub current_channel_selector : Value → Completion Value
current_channel_selector state = of_slice "channel" "currentChannel" state

abbrev pub dash_stats_selector : Value → Completion Value
dash_stats_selector state = slice_of "dashStats" state

abbrev pub notification_selector : Value → Completion Value
notification_selector state = slice_of "notification" state

abbrev pub transaction_by_org_selector : Value → Completion Value
transaction_by_org_selector state = of_slice "transactionByOrg" "rows" state

abbrev pub transaction_per_hour_selector : Value → Completion Value
transaction_per_hour_selector state = of_slice "transactionPerHour" "rows" state

abbrev pub transaction_per_min_selector : Value → Completion Value
transaction_per_min_selector state = of_slice "transactionPerMin" "rows" state

abbrev pub error_message_selector : Value → Completion Value
error_message_selector state = of_slice "errorMessage" "error" state

abbrev pub block_activity_selector : Value → Completion Value
block_activity_selector state = of_slice "blockActivity" "rows" state
