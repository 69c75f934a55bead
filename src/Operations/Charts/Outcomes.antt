-- ===== src/Operations/Charts/Outcomes.antt =====
-- The operations of `charts` that make a request, and what each does with a reply.
use thermotrace_production.Common.{String, true, false, ◌≡◌, refl, sym}
use thermotrace_production.Js.Value.{
  Value, undefined, bool, obj, end, field, is_readable, is_undefined,
}
use thermotrace_production.Js.Object.{prop}
use thermotrace_production.Js.Object.Laws.{get-readable}
use thermotrace_production.Redux.{Redux}
use thermotrace_production.Store.Charts.Actions
use thermotrace_production.Store.Charts.Reducers.{
  block_activity_reducer, block_per_hour_reducer, block_per_min_reducer, channel_list_reducer,
  channel_reducer, dash_stats_reducer, transaction_by_org_reducer, transaction_per_hour_reducer,
  transaction_per_min_reducer,
}
use thermotrace_production.Store.Root.{chart, ChartSlice, slice_reducer}
use thermotrace_production.Session.{World}
use thermotrace_production.Session.Dispatch.{IsReady}
use thermotrace_production.Request.{Reply}
use thermotrace_production.Thunk.{Thunk}
use thermotrace_production.Operations.Effects.{reply_effect, Settles}
use thermotrace_production.Operations.Charts
use thermotrace_production.Operations.Charts.Handler.{body_effect, Delivers, settle_with_lem}

-- A request of `charts`, with its argument.
pub data ChartCall : Type 0 where
  block_per_hour block_per_min change_channel dash_stats block_activity transaction_by_org
        transaction_per_hour transaction_per_min :
      Value → ChartCall
  channel channel_list : ChartCall

unfoldable pub chart_thunk : Redux → ChartCall → Thunk
chart_thunk redux (block_per_hour name) = Charts.block_per_hour redux name
chart_thunk redux (block_per_min name) = Charts.block_per_min redux name
chart_thunk redux (change_channel name) = Charts.change_channel redux name
chart_thunk redux (dash_stats name) = Charts.dash_stats redux name
chart_thunk redux (block_activity name) = Charts.block_activity redux name
chart_thunk redux (transaction_by_org name) = Charts.transaction_by_org redux name
chart_thunk redux (transaction_per_hour name) = Charts.transaction_per_hour redux name
chart_thunk redux (transaction_per_min name) = Charts.transaction_per_min redux name
chart_thunk redux channel = Charts.channel redux
chart_thunk redux channel_list = Charts.channel_list redux

-- The slice of `charts` that an operation loads.
abbrev pub target : ChartCall → ChartSlice
target (block_per_hour name) = ChartSlice.block_per_hour
target (block_per_min name) = ChartSlice.block_per_min
target (change_channel name) = ChartSlice.channel
target (dash_stats name) = ChartSlice.dash_stats
target (block_activity name) = ChartSlice.block_activity
target (transaction_by_org name) = ChartSlice.transaction_by_org
target (transaction_per_hour name) = ChartSlice.transaction_per_hour
target (transaction_per_min name) = ChartSlice.transaction_per_min
target channel = ChartSlice.channel
target channel_list = ChartSlice.channel_list

-- The state of a slice that shows a list: the list under a key of the slice.
abbrev pub listed : String → Value → Value
listed key rows = obj (field key rows (field "loaded" (bool true) (field "errors" undefined end)))

-- What the slice holds after an answer: a list that the answer carries under a name, or the answer.
abbrev pub shown : ChartCall → Value → Value
shown (block_per_hour name) body = listed "rows" (prop "rows" body)
shown (block_per_min name) body = listed "rows" (prop "rows" body)
shown (change_channel name) body = body
shown (dash_stats name) body = body
shown (block_activity name) body = listed "rows" (prop "row" body)
shown (transaction_by_org name) body = listed "rows" (prop "rows" body)
shown (transaction_per_hour name) body = listed "rows" (prop "rows" body)
shown (transaction_per_min name) body = listed "rows" (prop "rows" body)
shown channel body = body
shown channel_list body = listed "list" (prop "channels" body)

readable-defined : (v : Value) → is_readable v ≡ true → is_undefined v ≡ false
readable-defined undefined h = sym h
readable-defined _ h = refl

Delivers-block_per_hour :
    (name : Value)
    → Delivers Actions.get_block_per_hour
        (chart (target (block_per_hour name)))
        (shown (block_per_hour name))
unfolding slice_reducer block_per_hour_reducer
Delivers-block_per_hour name s body r = (refl, rw (get-readable body "rows" r) refl, refl)

Delivers-block_per_min :
    (name : Value)
    → Delivers Actions.get_block_per_min
        (chart (target (block_per_min name)))
        (shown (block_per_min name))
unfolding slice_reducer block_per_min_reducer
Delivers-block_per_min name s body r = (refl, rw (get-readable body "rows" r) refl, refl)

Delivers-change_channel :
    (name : Value)
    → Delivers Actions.update_channel
        (chart (target (change_channel name)))
        (shown (change_channel name))
unfolding slice_reducer channel_reducer
Delivers-change_channel name s body r = (refl, refl, readable-defined body r)

Delivers-dash_stats :
    (name : Value)
    → Delivers Actions.get_dash_stats (chart (target (dash_stats name))) (shown (dash_stats name))
unfolding slice_reducer dash_stats_reducer
Delivers-dash_stats name s body r = (refl, refl, readable-defined body r)

Delivers-block_activity :
    (name : Value)
    → Delivers Actions.get_block_activity
        (chart (target (block_activity name)))
        (shown (block_activity name))
unfolding slice_reducer block_activity_reducer
Delivers-block_activity name s body r = (refl, rw (get-readable body "row" r) refl, refl)

Delivers-transaction_by_org :
    (name : Value)
    → Delivers Actions.get_transaction_by_org
        (chart (target (transaction_by_org name)))
        (shown (transaction_by_org name))
unfolding slice_reducer transaction_by_org_reducer
Delivers-transaction_by_org name s body r = (refl, rw (get-readable body "rows" r) refl, refl)

Delivers-transaction_per_hour :
    (name : Value)
    → Delivers Actions.get_transaction_per_hour
        (chart (target (transaction_per_hour name)))
        (shown (transaction_per_hour name))
unfolding slice_reducer transaction_per_hour_reducer
Delivers-transaction_per_hour name s body r = (refl, rw (get-readable body "rows" r) refl, refl)

Delivers-transaction_per_min :
    (name : Value)
    → Delivers Actions.get_transaction_per_min
        (chart (target (transaction_per_min name)))
        (shown (transaction_per_min name))
unfolding slice_reducer transaction_per_min_reducer
Delivers-transaction_per_min name s body r = (refl, rw (get-readable body "rows" r) refl, refl)

Delivers-channel : Delivers Actions.get_channel (chart (target channel)) (shown channel)
unfolding slice_reducer channel_reducer
Delivers-channel s body r = (refl, refl, readable-defined body r)

Delivers-channel_list :
    Delivers Actions.get_channel_list (chart (target channel_list)) (shown channel_list)
unfolding slice_reducer channel_list_reducer
Delivers-channel_list s body r = (refl, rw (get-readable body "channels" r) refl, refl)

module _ (redux : Redux) where
  -- On a ready store every request of `charts` settles with `undefined`. An error and an answer of
  -- which no field can be read leave the store as it is; status 500 and status 400 set the error
  -- message; any other answer sets the slice of the request, and no other slice. An error with
  -- status 401 removes the token, which is kept otherwise.
  pub chart_thunk-Settles :
      (call : ChartCall) (reply : Reply) (w : World)
      → IsReady w.store
      → Settles
          (chart_thunk redux call)
          reply
          w
          (reply_effect (body_effect (chart (target call)) (shown call)) reply)
          undefined
  unfolding chart_thunk Charts.block_per_hour Charts.block_per_min Charts.change_channel
      Charts.dash_stats Charts.block_activity Charts.transaction_by_org Charts.transaction_per_hour
      Charts.transaction_per_min Charts.channel Charts.channel_list
  chart_thunk-Settles (block_per_hour name) reply w ready =
      settle_with_lem redux Actions.get_block_per_hour (chart (target (block_per_hour name)))
        (shown (block_per_hour name)) (Delivers-block_per_hour name) reply w ready
  chart_thunk-Settles (block_per_min name) reply w ready =
      settle_with_lem redux Actions.get_block_per_min (chart (target (block_per_min name)))
        (shown (block_per_min name)) (Delivers-block_per_min name) reply w ready
  chart_thunk-Settles (change_channel name) reply w ready =
      settle_with_lem redux Actions.update_channel (chart (target (change_channel name)))
        (shown (change_channel name)) (Delivers-change_channel name) reply w ready
  chart_thunk-Settles (dash_stats name) reply w ready =
      settle_with_lem redux Actions.get_dash_stats (chart (target (dash_stats name)))
        (shown (dash_stats name)) (Delivers-dash_stats name) reply w ready
  chart_thunk-Settles (block_activity name) reply w ready =
      settle_with_lem redux Actions.get_block_activity (chart (target (block_activity name)))
        (shown (block_activity name)) (Delivers-block_activity name) reply w ready
  chart_thunk-Settles (transaction_by_org name) reply w ready =
      settle_with_lem redux Actions.get_transaction_by_org
        (chart (target (transaction_by_org name))) (shown (transaction_by_org name))
        (Delivers-transaction_by_org name) reply w ready
  chart_thunk-Settles (transaction_per_hour name) reply w ready =
      settle_with_lem redux Actions.get_transaction_per_hour
        (chart (target (transaction_per_hour name))) (shown (transaction_per_hour name))
        (Delivers-transaction_per_hour name) reply w ready
  chart_thunk-Settles (transaction_per_min name) reply w ready =
      settle_with_lem redux Actions.get_transaction_per_min
        (chart (target (transaction_per_min name))) (shown (transaction_per_min name))
        (Delivers-transaction_per_min name) reply w ready
  chart_thunk-Settles channel reply w ready =
      settle_with_lem redux Actions.get_channel (chart (target channel)) (shown channel)
        (Delivers-channel) reply w ready
  chart_thunk-Settles channel_list reply w ready =
      settle_with_lem redux Actions.get_channel_list (chart (target channel_list))
        (shown channel_list) (Delivers-channel_list) reply w ready
