-- ===== src/Store/Charts/Types.antt =====
-- blockchain-explorer/client/src/state/redux/charts/types.js
use thermotrace_production.Common.{String}

abbrev pub block_chart_min : String
block_chart_min = "charts/BLOCK_CHART_MIN"

abbrev pub block_chart_hour : String
block_chart_hour = "charts/BLOCK_CHART_HOUR"

abbrev pub transaction_chart_min : String
transaction_chart_min = "charts/TRANSACTION_CHART_MIN"

abbrev pub transaction_chart_hour : String
transaction_chart_hour = "charts/TRANSACTION_CHART_HOUR"

abbrev pub transaction_chart_org : String
transaction_chart_org = "charts/TRANSACTION_CHART_ORG"

abbrev pub notification_load : String
notification_load = "charts/NOTIFICATION_LOAD"

abbrev pub dashboard_stats : String
dashboard_stats = "charts/DASHBOARD_STATS"

abbrev pub channel : String
channel = "charts/CHANNEL"

abbrev pub change_channel : String
change_channel = "charts/CHANGE_CHANNEL"

abbrev pub channel_list : String
channel_list = "charts/CHANNEL_LIST"

abbrev pub error_message : String
error_message = "ERROR_MESSAGE"

abbrev pub block_activity : String
block_activity = "charts/BLOCK_ACTIVITY"
