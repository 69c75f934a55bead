-- ===== src/Operations/Auth/Session.antt =====
-- What logging out and the list of networks do with a reply.
use thermotrace_production.Common.{true, false, ◌≡◌, refl, ◌∙◌, some, none, arith}
use thermotrace_production.Js.Value.{Value, undefined, null, str, obj, end, field, ok, truthy}
use thermotrace_production.Js.Object.{prop}
use thermotrace_production.Js.Object.Laws.{get-readable, get-unreadable}
use thermotrace_production.Redux.{Redux}
use thermotrace_production.Store.Auth.Types
use thermotrace_production.Store.Root.{auth, chart, ChartSlice, view}
use thermotrace_production.Session.{World, deauthenticate_user}
use thermotrace_production.Session.Dispatch.{IsReady, Sets}
use thermotrace_production.Request.{Reply}
use thermotrace_production.Operations.Auth
use thermotrace_production.Operations.Auth.{result, over}
use thermotrace_production.Operations.Effects.{token_after, callback-body}
use thermotrace_production.Operations.Auth.Slice.{
  extended, answer_of, reason, spread-Sets, error_message-Sets, then_catch-answer,
  then_catch-reason, then_catch-failed, has_response,
}
use thermotrace_production.Operations.Auth.Outcomes.{error_shown}

module _ (redux : Redux) (reply : Reply) (w : World) (ready : IsReady w.store) where
  -- On a ready store, a logout that is answered without an error removes the token and succeeds. It
  -- spreads `null` over the slice of `auth`, which brings no field, and no other slice changes.
  pub logout-accepted :
      has_response reply ≡ true
      → (w' : World) × ((Auth.logout redux).settle reply w
          ≡ (w', ok (obj (field "status" (str "Success") end))))
        × (w'.token ≡ none)
        × Sets auth (extended (view w.store auth) null) w.store w'.store
  unfolding Auth.logout deauthenticate_user
  logout-accepted h =
      let sound : truthy reply.error ≡ false = ground arith in
      let (w2, e, t, done) =
        spread-Sets redux (record w { token = none }) ready Types.error null refl refl in
      (w2, rw (callback-body reply w sound, e) refl, t, done)

  -- On a ready store, a logout whose request ends in an error fails and shows the error; the token
  -- is kept unless the error has status 401, and no other slice changes.
  pub logout-refused :
      truthy reply.error ≡ true
      → (w' : World) × ((Auth.logout redux).settle reply w
          ≡ (w', ok (result "Error" (str "Invalid User token"))))
        × (w'.token ≡ token_after reply w.token)
        × Sets
            (chart ChartSlice.error_message)
            (error_shown (obj (field "error" reply.error end)))
            w.store
            w'.store
  unfolding Auth.logout
  logout-refused h =
      let (w2, e, t, done) =
        error_message-Sets redux (record w { token = token_after reply w.token }) ready
          (obj (field "error" reply.error end)) in
      (w2, then_catch-failed reply _ _ w h ∙ rw e refl, t, done)

  -- On a ready store, the list of networks of an answer goes to the field `networks` of the slice
  -- of `auth`; no other slice changes and the token stays.
  pub network-answered :
      (body : Value)
      → answer_of reply ≡ some body
      → (w' : World) × ((Auth.network redux).settle reply w ≡ (w', ok undefined))
        × (w'.token ≡ w.token)
        × Sets auth
            (extended (view w.store auth) (obj (field "networks" (prop "networkList" body) end)))
            w.store
            w'.store
  unfolding Auth.network
  network-answered body h =
      let (runs, kept, r) = then_catch-answer reply _ _ w body h in
      let (w2, e, t, done) =
        spread-Sets redux w ready Types.network
          (obj (field "networks" (prop "networkList" body) end)) refl refl in
      (w2, runs ∙ rw (get-readable body "networkList" r, e) refl, t, done)

  -- On a ready store, where the request for the networks ends in an error, or in an answer of which
  -- no field can be read, that error or the exception is shown as the error message and no other
  -- slice changes; an error with status 401 removes the token, which is kept otherwise.
  pub network-refused :
      answer_of reply ≡ none
      → (w' : World) × ((Auth.network redux).settle reply w ≡ (w', ok undefined))
        × (w'.token ≡ token_after reply w.token)
        × Sets (chart ChartSlice.error_message) (error_shown (reason reply)) w.store w'.store
  unfolding Auth.network
  network-refused h =
      let (w2, e, t, done) =
        error_message-Sets redux (record w { token = token_after reply w.token }) ready
          (reason reply) in
      (
        w2,
        then_catch-reason reply _ _ w (λ b w0 u. rw (get-unreadable b "networkList" u) refl) h
            ∙ rw e refl,
        t,
        done,
      )
