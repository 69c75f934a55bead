-- ===== src/Operations/Auth/Users.antt =====
-- What registering a user, the list of users and removing a user do with a reply.
use thermotrace_production.Common.{
  Option-cases, true, ◌≡◌, refl, sym, ◌∙◌, if◌then◌else◌, Bool-cases, inl, inr, Option, some, none,
}
use thermotrace_production.Js.Value.{
  Value, undefined, str, Completion, ok, throws, is_readable, is_num,
}
use thermotrace_production.Js.Object.{prop}
use thermotrace_production.Js.Object.Laws.{get-readable, get-unreadable}
use thermotrace_production.Redux.{Redux, Action}
use thermotrace_production.Store.Auth.Types
use thermotrace_production.Store.Root.{auth, chart, ChartSlice, view}
use thermotrace_production.Session.{World, Eff, dispatch, pure, recover, ◌>>◌}
use thermotrace_production.Store.Auth.Actions
use thermotrace_production.Session.Dispatch.{IsReady, Sets, Completion-cases}
use thermotrace_production.Request.{Reply}
use thermotrace_production.Thunk.{internal_error, substr}
use thermotrace_production.Operations.Auth.{result}
use thermotrace_production.Operations.Effects.{token_after, Effect, keeps, sets, Meets}
use thermotrace_production.Operations.Auth.Slice.{
  extended, answer_of, reason, spread-Sets, error_message-Sets, then_catch-answer,
  then_catch-reason,
}
use thermotrace_production.Operations.Auth.{settle_user, report_or}
use thermotrace_production.Operations.Auth.Outcomes.{error_shown}

-- How a request on users ends: its result, and the slice that it sets, if any.
pub record Ending : Type 0 where
  pub result : Value
  pub effect : Effect

-- What status 400 ends in: the message without its first six characters, or, where the message is
-- no text, the exception, which is spread over the slice of `auth`.
abbrev pub bad_request : Value → Completion Value → Ending
bad_request old (ok msg) = record { result = result "error" msg; effect = keeps }
bad_request old (throws e) = record { result = undefined; effect = sets auth (extended old e) }

-- The ending of an answer: `data_of` is what the slice of `auth` is to hold, `done` the result.
abbrev pub ending : (Value → Value → Value) → (Value → Value) → Value → Value → Ending
ending data_of done old body =
    if is_num 500 (prop "status" body)
    then record {
      result = undefined;
      effect = sets (chart ChartSlice.error_message) (error_shown (str internal_error));
    }
    else if is_num 400 (prop "status" body)
    then bad_request old (substr 6 (prop "message" body))
    else record { result = done body; effect = sets auth (data_of old body) }

abbrev pub ending_of :
    (Value → Value → Value) → (Value → Value) → Value → Value → Option Value → Ending
ending_of data_of done old why (some body) = ending data_of done old body
ending_of data_of done old why none = record {
  result = undefined;
  effect = sets auth (extended old why);
}

abbrev pub user_ending : (Value → Value → Value) → (Value → Value) → Value → Reply → Ending
user_ending data_of done old reply = ending_of data_of done old (reason reply) (answer_of reply)

-- The action of an answer brings the slice of `auth` to what it is to hold.
abbrev pub Delivers : Redux → (Value → Action) → (Value → Value → Value) → Type 0
Delivers redux success data_of =
    (body : Value) (w : World)
    → IsReady w.store
    → is_readable body ≡ true
    → (w' : World) × (dispatch redux (success body) w ≡ (w', ok tt))
      × (w'.token ≡ w.token)
      × Sets auth (data_of (view w.store auth) body) w.store w'.store

module _ (redux : Redux) (success : Value → Action) (data_of : Value → Value → Value)
    (done : Value → Value) (delivers : Delivers redux success data_of) where
  caught : Value → Eff Value
  caught error = dispatch redux (Actions.error error) >> pure undefined

  report_or_lem :
      (body : Value) (w : World)
      → IsReady w.store
      → is_readable body ≡ true
      → (w' : World) × (recover
            (report_or redux success done body w).0
            (report_or redux success done body w).1
            caught
          ≡ (w', ok (ending data_of done (view w.store auth) body).result))
        × (w'.token ≡ w.token)
        × Meets (ending data_of done (view w.store auth) body).effect w.store w'.store
  unfolding report_or caught
  report_or_lem body w ready r = elim (Bool-cases (is_num 500 (prop "status" body))) [
    | inl e500 ↦
        let (w', e, t, there) = error_message-Sets redux w ready (str internal_error) in
        (w', rw (get-readable body "status" r, e500, e) refl, t, rw e500 there)
    | inr n500 ↦ elim (Bool-cases (is_num 400 (prop "status" body))) [
      | inl e400 ↦
          let message = prop "message" body in
          elim (Completion-cases (substr 6 message)) [
            | inl (msg, long) ↦ (
              w,
              rw (get-readable body "status" r, n500, e400, get-readable body "message" r, long)
                  refl,
              refl,
              rw (n500, e400, long) refl,
            )
            | inr (error, failed) ↦
                let (w', e, t, there) = spread-Sets redux w ready Types.error error refl refl in
                (
                  w',
                  rw
                      (
                        get-readable body "status" r,
                        n500,
                        e400,
                        get-readable body "message" r,
                        failed,
                        e,
                      )
                      refl,
                  t,
                  rw (n500, e400, failed) there,
                )
          ]
      | inr n400 ↦
          let (w', e, t, there) = delivers body w ready r in
          (w', rw (get-readable body "status" r, n500, n400, e) refl, t, rw (n500, n400) there)
    ]
  ]

  pub settle_user_lem :
      (reply : Reply) (w : World)
      → IsReady w.store
      → (w' : World) × (settle_user redux success done reply w
          ≡ (w', ok (user_ending data_of done (view w.store auth) reply).result))
        × (w'.token ≡ token_after reply w.token)
        × Meets (user_ending data_of done (view w.store auth) reply).effect w.store w'.store
  unfolding settle_user caught
  settle_user_lem reply w ready = elim (Option-cases (answer_of reply)) [
    | inl nothing ↦
        let (w', e, t, there) =
          spread-Sets redux (record w { token = token_after reply w.token }) ready Types.error
            (reason reply) refl refl in
        (
          w',
          then_catch-reason reply (report_or redux success done) caught w
                (λ b w1 u. unfold report_or in rw (get-unreadable b "status" u) refl) nothing
              ∙ rw (e, nothing) refl,
          t,
          rw nothing there,
        )
    | inr (body, given) ↦
        let (runs, kept, r) = then_catch-answer reply _ _ w body given in
        let (w', e, t, there) = report_or_lem body w ready r in
        (w', runs ∙ rw given e, t ∙ sym kept, rw given there)
  ]
