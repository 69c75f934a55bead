-- ===== src/Operations/Auth/Outcomes.antt =====
-- What logging in and out and the list of networks do with a reply.
use thermotrace_production.Common.{String, false, ◌≡◌, refl, ap, ◌∙◌, some, none, arith}
use thermotrace_production.Js.Value.{Value, null, str, obj, end, field, ok}
use thermotrace_production.Js.Object.{prop, spread, has_field, to_text}
use thermotrace_production.Js.Object.Laws.{
  get-readable, get-unreadable, field_of-spread, has_field-text_fields,
}
use thermotrace_production.Redux.{Redux}
use thermotrace_production.Store.Auth.Types
use thermotrace_production.Store.Root.{auth, view}
use thermotrace_production.Session.{World, authenticate_user}
use thermotrace_production.Session.Dispatch.{IsReady, Sets, Sets-IsReady}
use thermotrace_production.Request.{Reply}
use thermotrace_production.Operations.Auth
use thermotrace_production.Operations.Auth.{result, over}
use thermotrace_production.Operations.Effects.{token_after}
use thermotrace_production.Operations.Auth.Slice.{
  extended, prop-extended, answer_of, reason, spread-Sets, then_catch-answer, then_catch-reason,
  Sets-trans,
}

-- The state of `errorMessage` that shows a message.
abbrev pub error_shown : Value → Value
error_shown message = obj (field "error" message end)

has_field-spread_text : (t : String) → has_field "error" (spread (str t)) ≡ false
unfolding spread
has_field-spread_text t = has_field-text_fields "e" "rror" t (omega arith)

module _ (redux : Redux) (stringify : Value → String) (user password network_obj : Value)
    (reply : Reply) (w : World) (ready : IsReady w.store) where
  -- On a ready store, a login that is answered settles with the status Success, keeps the token of
  -- the answer, as a text, and spreads `null`, which brings no field, and then the user under the
  -- answer over the slice of `auth`; no other slice changes.
  pub login-accepted :
      (body : Value)
      → answer_of reply ≡ some body
      → (w' : World) × ((Auth.login redux stringify user password network_obj).settle reply w
          ≡ (w', ok (obj (field "status" (str "Success") end))))
        × (w'.token ≡ some (to_text (prop "token" body)))
        × Sets auth
            (extended (extended (view w.store auth) null) (over (obj (field "user" user end)) body))
            w.store
            w'.store
  unfolding Auth.login authenticate_user
  login-accepted body h =
      let (runs, kept, r) = then_catch-answer reply _ _ w body h in
      let w1 : World = record w { token = some (to_text (prop "token" body)) } in
      let (w2, e2, t2, first) = spread-Sets redux w1 ready Types.error null refl refl in
      let (w3, e3, t3, second) =
        spread-Sets redux w2
          (Sets-IsReady auth (extended (view w.store auth) null) w.store w2.store ready first refl)
          Types.login (over (obj (field "user" user end)) body) refl refl in
      (
        w3,
        runs ∙ rw (get-readable body "token" r, e2, e3) refl,
        t3 ∙ t2,
        rw first.at at (Sets-trans first second),
      )

  -- On a ready store, a login that is not answered, or with nothing to read a token from, settles
  -- with an error. It spreads the text of the reason over the slice of `auth`, and no other slice
  -- changes; an error with status 401 removes the token, which is kept otherwise.
  pub login-refused :
      answer_of reply ≡ none
      → (w' : World) × ((Auth.login redux stringify user password network_obj).settle reply w
          ≡ (w', ok (result "Error" (str "Invalid User, Password"))))
        × (w'.token ≡ token_after reply w.token)
        × Sets auth (extended (view w.store auth) (str (stringify (reason reply)))) w.store w'.store
  unfolding Auth.login
  login-refused h =
      let w1 : World = record w { token = token_after reply w.token } in
      let (w2, e2, t2, done) =
        spread-Sets redux w1 ready Types.error (str (stringify (reason reply))) refl refl in
      (
        w2,
        then_catch-reason reply _ _ w (λ b w0 u. rw (get-unreadable b "token" u) refl) h
            ∙ rw e2 refl,
        t2,
        done,
      )

  -- On a ready store, a refused login settles with an error and never shows it: the field `error`
  -- of the slice of `auth` is as before.
  pub login-refused_error :
      answer_of reply ≡ none
      → (w' : World) × ((Auth.login redux stringify user password network_obj).settle reply w
          ≡ (w', ok (result "Error" (str "Invalid User, Password"))))
        × (prop "error" (view w'.store auth) ≡ prop "error" (view w.store auth))
  login-refused_error h =
      let (w', e, t, done) = login-refused h in
      let text = stringify (reason reply) in
      (
        w',
        e,
        ap (prop "error") done.at
            ∙ prop-extended "error" (view w.store auth) (str text)
            ∙ rw (has_field-spread_text text)
                (field_of-spread "e" "rror" (view w.store auth) (omega arith)),
      )
