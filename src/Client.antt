-- ===== src/Client.antt =====
-- A session of the client as a sequence of events: replies to the requests of the operations, in
-- any order, and the changes that make no request.
pub mod Fit
pub mod Invariant
use thermotrace_production.Common.{
  String, Bool, true, false, ◌≡◌, refl, sym, ap, ◌∙◌, if◌then◌else◌, Bool-cases, inl, inr, Option,
  some, none, arith, subst, List, [], ◌∷◌, Option-cases, All,
}
use thermotrace_production.Js.Value.{
  Value, undefined, null, obj, field, end, Completion, ok, throws, is_readable, is_undefined,
  truthy, is_num,
}
use thermotrace_production.Js.Object.{prop}
use thermotrace_production.Redux.{Redux, Action}
use thermotrace_production.Store.Theme.{change_theme, theme_reducer}
use thermotrace_production.Store.Root.{
  Slice, auth, theme, chart, table, ChartSlice, TableSlice, view, slice_reducer,
}
use thermotrace_production.Session.{World, dispatch}
use thermotrace_production.Session.Dispatch.{
  IsReady, Sets, Sets-IsReady, slice_ok, slice_ok-readable, dispatch-IsReady,
}
use thermotrace_production.Request.{Reply}
use thermotrace_production.Thunk.{Thunk}
use thermotrace_production.Operations.Auth as AuthOperations
use thermotrace_production.Operations.Charts as ChartOperations
use thermotrace_production.Operations.Tables as TableOperations
use thermotrace_production.Operations.Auth.UserCalls.{UserCall, user_thunk}
use thermotrace_production.Operations.Charts.Outcomes.{ChartCall, chart_thunk}
use thermotrace_production.Operations.Tables.Calls.{TableCall, table_thunk}

pub data Event : Type 0 where
  chart_replies : ChartCall → Reply → Event
  table_replies : TableCall → Reply → Event
  txn_list_replies block_search_replies : (channel query : Value) → Reply → Event
  transactions_replies : (channel query page_params : Value) → Reply → Event
  range_search_starts : (channel query1 query2 : Value) → Event
  login_replies : (user password network_obj : Value) → Reply → Event
  logout_replies network_replies : Reply → Event
  user_replies : UserCall → Reply → Event
  notified : String → Event
  theme_changed : Value → Event

-- The world after an event; `stringify` and `parse` are those of `JSON`.
module _ (redux : Redux) (stringify : Value → String) (parse : String → Completion Value) where
  pub step : Event → World → World
  step (chart_replies call reply) w = ((chart_thunk redux call).settle reply w).0
  step (table_replies call reply) w = ((table_thunk redux call).settle reply w).0
  step (txn_list_replies channel query reply) w =
      ((TableOperations.txn_list redux channel query).settle reply w).0
  step (block_search_replies channel query reply) w =
      ((TableOperations.block_search redux channel query).settle reply w).0
  step (transactions_replies channel query page_params reply) w =
      ((TableOperations.transaction_list_search redux channel query page_params).settle reply w).0
  step (range_search_starts channel query1 query2) w =
      ((TableOperations.block_range_search redux channel query1 query2).start w).0
  step (login_replies user password network_obj reply) w =
      ((AuthOperations.login redux stringify user password network_obj).settle reply w).0
  step (logout_replies reply) w = ((AuthOperations.logout redux).settle reply w).0
  step (network_replies reply) w = ((AuthOperations.network redux).settle reply w).0
  step (user_replies call reply) w = ((user_thunk redux call).settle reply w).0
  step (notified text) w = (ChartOperations.notification redux parse text w).0
  step (theme_changed mode) w = (dispatch redux (change_theme mode) w).0

  pub run : List Event → World → World
  run [] w = w
  run (e ∷ es) w = run es (step e w)
