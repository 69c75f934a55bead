-- ===== src/Store/Charts/Reducers.antt =====
-- blockchain-explorer/client/src/state/redux/charts/reducers.js: the reducer of each slice of
-- `charts`, and the combined one.
use thermotrace_production.Common.{String, true, ◌==◌, ◌||◌, if◌then◌else◌, [], ◌∷◌, List}
use thermotrace_production.Js.Value.{Value, bool, obj, end, field, ok, ◌>>=◌}
use thermotrace_production.Js.Object.{get}
use thermotrace_production.Redux.{Reducer, Redux, default_to}
use thermotrace_production.Store.Charts.Types

abbrev initial_state : Value
initial_state = obj end

-- The state of a list that has been loaded.
abbrev loaded : String → Value → Value → Value
loaded key rows errors =
    obj (field key rows (field "loaded" (bool true) (field "errors" errors end)))

unfoldable pub block_per_hour_reducer : Reducer
unfolding get
block_per_hour_reducer state a =
    if a.type == Types.block_chart_hour
    then (do
      per ← get a.payload "blockPerHour"
      rows ← get per "rows"
      ok (loaded "rows" rows a.errors))
    else ok (default_to initial_state state)

unfoldable pub error_message_reducer : Reducer
unfolding get
error_message_reducer state a =
    if a.type == Types.error_message
    then ok (obj (field "error" a.payload end))
    else ok (default_to initial_state state)

unfoldable pub block_per_min_reducer : Reducer
unfolding get
block_per_min_reducer state a =
    if a.type == Types.block_chart_min
    then (do
      per ← get a.payload "blockPerMin"
      rows ← get per "rows"
      ok (loaded "rows" rows a.errors))
    else ok (default_to initial_state state)

unfoldable pub channel_list_reducer : Reducer
unfolding get
channel_list_reducer state a =
    if a.type == Types.channel_list
    then (do rows ← get a.payload "channels"; ok (loaded "list" rows a.errors))
    else ok (default_to initial_state state)

unfoldable pub channel_reducer : Reducer
unfolding get
channel_reducer state a =
    if a.type == Types.channel || a.type == Types.change_channel
    then get a.payload "channel"
    else ok (default_to initial_state state)

unfoldable pub dash_stats_reducer : Reducer
unfolding get
dash_stats_reducer state a =
    if a.type == Types.dashboard_stats then ok a.payload else ok (default_to initial_state state)

unfoldable pub block_activity_reducer : Reducer
unfolding get
block_activity_reducer state a =
    if a.type == Types.block_activity
    then (do rows ← get a.payload "row"; ok (loaded "rows" rows a.errors))
    else ok (default_to initial_state state)

unfoldable pub notification_reducer : Reducer
unfolding get
notification_reducer state a =
    if a.type == Types.notification_load
    then get a.payload "notification"
    else ok (default_to initial_state state)

unfoldable pub transaction_by_org_reducer : Reducer
unfolding get
transaction_by_org_reducer state a =
    if a.type == Types.transaction_chart_org
    then (do rows ← get a.payload "rows"; ok (loaded "rows" rows a.errors))
    else ok (default_to initial_state state)

unfoldable pub transaction_per_hour_reducer : Reducer
unfolding get
transaction_per_hour_reducer state a =
    if a.type == Types.transaction_chart_hour
    then (do
      per ← get a.payload "transactionPerHour"
      rows ← get per "rows"
      ok (loaded "rows" rows a.errors))
    else ok (default_to initial_state state)

unfoldable pub transaction_per_min_reducer : Reducer
unfolding get
transaction_per_min_reducer state a =
    if a.type == Types.transaction_chart_min
    then (do
      per ← get a.payload "transactionPerMin"
      rows ← get per "rows"
      ok (loaded "rows" rows a.errors))
    else ok (default_to initial_state state)

abbrev pub charts_reducers : List (String × Reducer)
charts_reducers =
    ("blockPerHour", block_per_hour_reducer)
    ∷ ("blockPerMin", block_per_min_reducer)
    ∷ ("channel", channel_reducer)
    ∷ ("channelList", channel_list_reducer)
    ∷ ("dashStats", dash_stats_reducer)
    ∷ ("notification", notification_reducer)
    ∷ ("transactionByOrg", transaction_by_org_reducer)
    ∷ ("transactionPerHour", transaction_per_hour_reducer)
    ∷ ("transactionPerMin", transaction_per_min_reducer)
    ∷ ("errorMessage", error_message_reducer)
    ∷ ("blockActivity", block_activity_reducer)
    ∷ []

unfoldable pub charts_reducer : Redux → Reducer
charts_reducer redux = redux.combine_reducers charts_reducers
