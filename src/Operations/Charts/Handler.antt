-- ===== src/Operations/Charts/Handler.antt =====
-- What the operations of `charts` do with a reply, on every branch.
use thermotrace_production.Common.{true, false, ◌≡◌, refl, if◌then◌else◌, Bool-cases, inl, inr}
use thermotrace_production.Js.Value.{
  Value, undefined, str, obj, end, field, ok, truthy, is_num, is_readable, is_undefined,
}
use thermotrace_production.Js.Object.{get, prop}
use thermotrace_production.Js.Object.Laws.{get-readable, get-unreadable}
use thermotrace_production.Redux.{Redux, Action}
use thermotrace_production.Store.Charts.Actions
use thermotrace_production.Store.Charts.Reducers.{error_message_reducer}
use thermotrace_production.Store.Root.{
  Slice, chart, ChartSlice, view, slice_reducer, types_of, is_among,
}
use thermotrace_production.Session.{World, dispatch}
use thermotrace_production.Session.Dispatch.{IsReady, Sets, dispatch-Sets}
use thermotrace_production.Request.{Reply}
use thermotrace_production.Thunk.{internal_error}
use thermotrace_production.Operations.Effects.{
  token_after, callback-failed, callback-answered, reply-responds, Effect, keeps, sets, Meets,
  reply_effect,
}
use thermotrace_production.Operations.Charts.{report_or, settle_with}

-- The state of `errorMessage` that shows a message.
abbrev pub error_shown : Value → Value
error_shown message = obj (field "error" message end)

-- The effect of an answer whose data goes to the slice `n`.
abbrev pub body_effect : Slice → (Value → Value) → Value → Effect
body_effect n data_of body =
    if is_readable body
    then (if is_num 500 (prop "status" body)
        then sets (chart ChartSlice.error_message) (error_shown (str internal_error))
        else if is_num 400 (prop "status" body)
        then sets (chart ChartSlice.error_message) (error_shown (prop "error" body))
        else sets n (data_of body))
    else keeps

-- The action of an answer puts the answer's data into its slice.
abbrev pub Delivers : (Value → Action) → Slice → (Value → Value) → Type 0
Delivers success n data_of =
    (s body : Value)
    → is_readable body ≡ true
    → (is_among (success body).type (types_of n) ≡ true)
      × (slice_reducer n (view s n) (success body) ≡ ok (data_of body))
      × (is_undefined (data_of body) ≡ false)

module _ (redux : Redux) where
  error-Sets :
      (message : Value) (w : World)
      → IsReady w.store
      → (w' : World) × (dispatch redux (Actions.get_erro_message message) w ≡ (w', ok tt))
        × (w'.token ≡ w.token)
        × Sets (chart ChartSlice.error_message) (error_shown message) w.store w'.store
  unfolding slice_reducer error_message_reducer
  error-Sets message w ready =
      dispatch-Sets redux w (Actions.get_erro_message message) (chart ChartSlice.error_message)
        (error_shown message) ready refl refl refl

  module _ (success : Value → Action) (n : Slice) (data_of : Value → Value)
      (delivers : Delivers success n data_of) where
    report_or_lem :
        (body : Value) (w : World)
        → IsReady w.store
        → is_readable body ≡ true
        → (w' : World) × (report_or redux success body w ≡ (w', ok undefined))
          × (w'.token ≡ w.token)
          × Meets (body_effect n data_of body) w.store w'.store
    unfolding report_or
    report_or_lem body w ready r = elim (Bool-cases (is_num 500 (prop "status" body))) [
      | inl e500 ↦
          let (w', e, t, done) = error-Sets (str internal_error) w ready in
          (w', rw (get-readable body "status" r, e500, e), t, rw (r, e500) done)
      | inr n500 ↦ elim (Bool-cases (is_num 400 (prop "status" body))) [
        | inl e400 ↦
            let (w', e, t, done) = error-Sets (prop "error" body) w ready in
            (
              w',
              rw (get-readable body "status" r, n500, e400, get-readable body "error" r, e),
              t,
              rw (r, n500, e400) done,
            )
        | inr n400 ↦
            let (mine, made, defined) = delivers w.store body r in
            let (w', e, t, done) =
              dispatch-Sets redux w (success body) n (data_of body) ready mine made defined in
            (w', rw (get-readable body "status" r, n500, n400, e), t, rw (r, n500, n400) done)
      ]
    ]

    settle_with_answered :
        (body : Value) (reply : Reply) (w : World)
        → IsReady w.store
        → truthy reply.error ≡ false
        → get reply.response "body" ≡ ok body
        → (w' : World) × (settle_with redux success reply w ≡ (w', ok undefined))
          × (w'.token ≡ w.token)
          × Meets (body_effect n data_of body) w.store w'.store
    unfolding settle_with
    settle_with_answered body reply w ready sound there = elim (Bool-cases (is_readable body)) [
      | inl r ↦
          let (w', e, t, done) = report_or_lem body w ready r in
          (w', rw (callback-answered reply w sound, there, e), t, done)
      | inr u ↦ (
        w,
        rw (callback-answered reply w sound, there)
            (unfold report_or in rw (get-unreadable body "status" u)),
        refl,
        rw u refl,
      )
    ]

    -- An operation with this handler settles with `undefined` whatever the reply is.
    pub settle_with_lem :
        (reply : Reply) (w : World)
        → IsReady w.store
        → (w' : World) × (settle_with redux success reply w ≡ (w', ok undefined))
          × (w'.token ≡ token_after reply w.token)
          × Meets (reply_effect (body_effect n data_of) reply) w.store w'.store
    unfolding settle_with
    settle_with_lem reply w ready = elim (Bool-cases (truthy reply.error)) [
      | inl failed ↦ (
        record w { token = token_after reply w.token },
        rw (callback-failed reply w failed),
        refl,
        rw failed refl,
      )
      | inr sound ↦
          let r = reply-responds reply sound in
          let (w', e, t, done) =
            settle_with_answered (prop "body" reply.response) reply w ready sound
              (get-readable reply.response "body" r) in
          (w', e, rw sound t, rw sound done)
    ]
