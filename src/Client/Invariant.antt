-- ===== src/Client/Invariant.antt =====
-- Every event keeps the store ready for the selectors.
use thermotrace_production.Common.{
  String, true, false, ◌≡◌, refl, sym, Bool-cases, inl, inr, arith, subst, List, [], ◌∷◌,
  Option-cases, All,
}
use thermotrace_production.Js.Value.{
  Value, undefined, null, obj, field, end, Completion, is_undefined,
}
use thermotrace_production.Js.Object.{get}
use thermotrace_production.Redux.{Redux}
use thermotrace_production.Store.Charts.Actions
use thermotrace_production.Store.Theme.{change_theme, theme_reducer}
use thermotrace_production.Store.Root.{
  auth, theme, chart, table, ChartSlice, TableSlice, view, slice_reducer,
}
use thermotrace_production.Session.{World}
use thermotrace_production.Session.Dispatch.{
  IsReady, Sets, Sets-IsReady, slice_ok, dispatch-fit-IsReady, Completion-cases,
}
use thermotrace_production.Request.{Reply}
use thermotrace_production.Operations.Charts as ChartOperations
use thermotrace_production.Operations.Tables as TableOperations
use thermotrace_production.Operations.Auth.UserCalls.{user_thunk}
use thermotrace_production.Operations.Charts.Outcomes.{chart_thunk}
use thermotrace_production.Operations.Tables.Calls.{table_thunk}
use thermotrace_production.Session.Selection.{selectors, Selects, selectors-total}
use thermotrace_production.Operations.Effects.{sets}
use thermotrace_production.Operations.Charts.Handler.{body_effect}
use thermotrace_production.Operations.Charts.Outcomes.{target, shown, chart_thunk-Settles}
use thermotrace_production.Operations.Tables.Calls.{target as table_target, shown as table_shown}
use thermotrace_production.Operations.Tables.Deliveries.{shown-readable}
use thermotrace_production.Operations.Tables.Settle.{reply_delivers}
use thermotrace_production.Operations.Tables.Outcomes.{table_thunk-Settles}
use thermotrace_production.Operations.Tables.Searches.{
  txn_list-settles, block_search-settles, found, emptied,
}
use thermotrace_production.Operations.Tables.Paging.{
  transaction_list_search-Settles, block_range_search-starts, transaction_page, loading,
}
use thermotrace_production.Operations.Auth.Slice.{answer_of, extended, reason, has_response}
use thermotrace_production.Operations.Auth.Outcomes.{login-accepted, login-refused}
use thermotrace_production.Operations.Auth.Session.{
  logout-accepted, logout-refused, network-answered, network-refused,
}
use thermotrace_production.Operations.Auth.UserCalls.{user_thunk-Settles}
use thermotrace_production.Client.{
  Event, chart_replies, table_replies, txn_list_replies, block_search_replies, transactions_replies,
  range_search_starts, login_replies, logout_replies, network_replies, user_replies, notified,
  theme_changed, step, run,
}
use thermotrace_production.Client.Fit.{
  Settles-IsReady, body_effect-IsFit, reply_effect-IsFit, reply_delivers-readable,
  delivery_effect-IsFit, Follows-IsReady, ending_of-IsFit,
}

-- The state after a call that ended so.
after-IsReady :
    {A : Type 0} (r : World × Completion A) (w' : World) (c : Completion A)
    → r ≡ (w', c)
    → IsReady w'.store
    → IsReady r.0.store
after-IsReady r w' c e ready = subst (λ q. IsReady q.0.store) (sym e) ready

notification_ok :
    (v : Value) → is_undefined v ≡ false → slice_ok (chart ChartSlice.notification) v ≡ true
notification_ok undefined h = sym h
notification_ok null h = refl
notification_ok _ h = refl

module _ (redux : Redux) (stringify : Value → String) (parse : String → Completion Value)
    (w : World) (ready : IsReady w.store) where
  auth-Sets-IsReady :
      (old payload : Value) (s' : Value) → Sets auth (extended old payload) w.store s' → IsReady s'
  auth-Sets-IsReady old payload s' done =
      Sets-IsReady auth (extended old payload) w.store s' ready done refl

  message-Sets-IsReady :
      (message s' : Value)
      → Sets (chart ChartSlice.error_message) (obj (field "error" message end)) w.store s'
      → IsReady s'
  message-Sets-IsReady message s' done =
      Sets-IsReady (chart ChartSlice.error_message) (obj (field "error" message end)) w.store s'
        ready done refl

  login-IsReady :
      (user password network_obj : Value) (reply : Reply)
      → IsReady (step redux stringify parse (login_replies user password network_obj reply) w).store
  unfolding step
  login-IsReady user password network_obj reply = elim (Option-cases (answer_of reply)) [
    | inl nothing ↦
        let (w', e, t, done) =
          login-refused redux stringify user password network_obj reply w ready nothing in
        after-IsReady _ w' _ e (auth-Sets-IsReady _ _ w'.store done)
    | inr (body, given) ↦
        let (w', e, t, done) =
          login-accepted redux stringify user password network_obj reply w ready body given in
        after-IsReady _ w' _ e (auth-Sets-IsReady _ _ w'.store done)
  ]

  logout-IsReady :
      (reply : Reply) → IsReady (step redux stringify parse (logout_replies reply) w).store
  unfolding step
  logout-IsReady reply = elim (Bool-cases (has_response reply)) [
    | inl given ↦
        let (w', e, t, done) = logout-accepted redux reply w ready given in
        after-IsReady _ w' _ e (auth-Sets-IsReady _ _ w'.store done)
    | inr silent ↦
        let (w', e, t, done) = logout-refused redux reply w ready (ground arith) in
        after-IsReady _ w' _ e (message-Sets-IsReady _ w'.store done)
  ]

  network-IsReady :
      (reply : Reply) → IsReady (step redux stringify parse (network_replies reply) w).store
  unfolding step
  network-IsReady reply = elim (Option-cases (answer_of reply)) [
    | inl nothing ↦
        let (w', e, t, done) = network-refused redux reply w ready nothing in
        after-IsReady _ w' _ e (message-Sets-IsReady _ w'.store done)
    | inr (body, given) ↦
        let (w', e, t, done) = network-answered redux reply w ready body given in
        after-IsReady _ w' _ e (auth-Sets-IsReady _ _ w'.store done)
  ]

  notified-IsReady : (text : String) → IsReady (step redux stringify parse (notified text) w).store
  unfolding step ChartOperations.notification
  notified-IsReady text = elim (Completion-cases (parse text)) [
    | inl (notify, parsed) ↦ rw parsed (
        dispatch-fit-IsReady redux w (Actions.get_notification notify)
          (chart ChartSlice.notification) ready refl (λ v made defined. notification_ok v defined))
    | inr (e, failed) ↦ rw failed ready
  ]

  theme-IsReady : (mode : Value) → IsReady (step redux stringify parse (theme_changed mode) w).store
  unfolding step slice_reducer theme_reducer change_theme get
  theme-IsReady mode =
      dispatch-fit-IsReady redux w (change_theme mode) theme ready refl
        (λ v made defined. ground arith)

  -- Every event keeps the store ready.
  pub step-IsReady : (e : Event) → IsReady (step redux stringify parse e w).store
  unfolding step
  step-IsReady (chart_replies call reply) =
      Settles-IsReady (chart_thunk redux call) reply w _ undefined ready
        (chart_thunk-Settles redux call reply w ready)
        (reply_effect-IsFit (body_effect (chart (target call)) (shown call)) reply
          (body_effect-IsFit call))
  step-IsReady (table_replies call reply) =
      let old = view w.store (table (table_target call)) in
      Settles-IsReady (table_thunk redux call) reply w _ undefined ready
        (table_thunk-Settles redux call reply w ready)
        (delivery_effect-IsFit (table (table_target call))
          (reply_delivers (table_shown call) old reply)
          (λ v. reply_delivers-readable (table_shown call) old reply v (shown-readable call old)))
  step-IsReady (txn_list_replies channel query reply) =
      let (w', e, t, done) = txn_list-settles redux channel query reply w ready in
      after-IsReady _ w' _ e (
        Follows-IsReady (table TableSlice.txn_list) (table TableSlice.block_search) _ emptied
          w.store w'.store ready done refl
          (λ v.
            reply_delivers-readable found (view w.store (table TableSlice.txn_list)) reply v
              (λ body u h. ground arith)))
  step-IsReady (block_search_replies channel query reply) =
      let (w', e, t, done) = block_search-settles redux channel query reply w ready in
      after-IsReady _ w' _ e (
        Follows-IsReady (table TableSlice.block_search) (table TableSlice.txn_list) _ emptied
          w.store w'.store ready done refl
          (λ v.
            reply_delivers-readable found (view w.store (table TableSlice.block_search)) reply v
              (λ body u h. ground arith)))
  step-IsReady (transactions_replies channel query page_params reply) =
      Settles-IsReady (TableOperations.transaction_list_search redux channel query page_params)
        reply w _ undefined ready
        (transaction_list_search-Settles redux channel query page_params reply w ready)
        (reply_effect-IsFit
          (λ body. sets (table TableSlice.transaction_list_search) (
            transaction_page (view w.store (table TableSlice.transaction_list_search)) query
              page_params body))
          reply (λ body. refl))
  step-IsReady (range_search_starts channel query1 query2) =
      let (w', e, t, done) = block_range_search-starts redux channel query1 query2 w ready in
      after-IsReady _ w' _ e (
        Sets-IsReady (table TableSlice.block_range_search) loading w.store w'.store ready done refl)
  step-IsReady (login_replies user password network_obj reply) =
      login-IsReady user password network_obj reply
  step-IsReady (logout_replies reply) = logout-IsReady reply
  step-IsReady (network_replies reply) = network-IsReady reply
  step-IsReady (user_replies call reply) =
      Settles-IsReady (user_thunk redux call) reply w _ _ ready
        (user_thunk-Settles redux call reply w ready)
        (ending_of-IsFit call (view w.store auth) (reason reply) (answer_of reply))
  step-IsReady (notified text) = notified-IsReady text
  step-IsReady (theme_changed mode) = theme-IsReady mode

module _ (redux : Redux) (stringify : Value → String) (parse : String → Completion Value) where
  -- After any sequence of replies and changes, in any order, with any answers and failures, a store
  -- that was ready is ready: the state and its two combined parts are objects, every slice is
  -- defined, and all but the notification are not `null`.
  pub run-IsReady :
      (events : List Event) (w : World)
      → IsReady w.store
      → IsReady (run redux stringify parse events w).store
  unfolding run
  run-IsReady [] w ready = ready
  run-IsReady (e ∷ es) w ready =
      run-IsReady es (step redux stringify parse e w) (step-IsReady redux stringify parse w ready e)

  -- From a ready store, after any sequence of replies and changes, in any order, with any answers
  -- and failures, every selector gives a value: no component meets an exception when it reads the
  -- store.
  pub run-selectors :
      (events : List Event) (w : World)
      → IsReady w.store
      → All (Selects (run redux stringify parse events w).store) selectors
  run-selectors events w ready =
      selectors-total (run redux stringify parse events w).store (run-IsReady events w ready)
