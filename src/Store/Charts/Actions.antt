-- ===== src/Store/Charts/Actions.antt =====
-- blockchain-explorer/client/src/state/redux/charts/actions.js
use thermotrace_production.Js.Value.{Value, obj, end, field}
use thermotrace_production.Redux.{Action, action}
use thermotrace_production.Store.Charts.Types

abbrev pub get_block_per_hour : Value → Action
get_block_per_hour payload = action Types.block_chart_hour (obj (field "blockPerHour" payload end))

abbrev pub get_erro_message : Value → Action
get_erro_message payload = action Types.error_message payload

abbrev pub get_block_per_min : Value → Action
get_block_per_min payload = action Types.block_chart_min (obj (field "blockPerMin" payload end))

abbrev pub get_channel : Value → Action
get_channel payload = action Types.channel (obj (field "channel" payload end))

abbrev pub get_channel_list : Value → Action
get_channel_list payload = action Types.channel_list payload

abbrev pub get_dash_stats : Value → Action
get_dash_stats payload = action Types.dashboard_stats payload

abbrev pub get_notification : Value → Action
get_notification payload = action Types.notification_load (obj (field "notification" payload end))

abbrev pub get_block_activity : Value → Action
get_block_activity payload = action Types.block_activity payload

abbrev pub get_transaction_by_org : Value → Action
get_transaction_by_org payload = action Types.transaction_chart_org payload

abbrev pub get_transaction_per_hour : Value → Action
get_transaction_per_hour payload =
    action Types.transaction_chart_hour (obj (field "transactionPerHour" payload end))

abbrev pub get_transaction_per_min : Value → Action
get_transaction_per_min payload =
    action Types.transaction_chart_min (obj (field "transactionPerMin" payload end))

abbrev pub update_channel : Value → Action
update_channel payload = action Types.change_channel (obj (field "channel" payload end))
