-- ===== src/Operations/Auth/Slice.antt =====
-- What the actions of `auth` make of its slice, and how its requests end in an answer or a reason.
use thermotrace_production.Common.{
  String, ◌==◌, ◌||◌, Bool, true, false, not, ◌≡◌, refl, ◌∙◌, if◌then◌else◌, Bool-cases, inl, inr,
  Option, some, none, arith,
}
use thermotrace_production.Js.Value.{
  Value, obj, end, field, ok, throws, is_readable, truthy, type_error,
}
use thermotrace_production.Js.Object.{prop, spread, merge, set_field, field_of, has_field}
use thermotrace_production.Js.Object.Laws.{get-readable, field_of-merge}
use thermotrace_production.Redux.{Redux, action, default_to}
use thermotrace_production.Store.Auth.Actions
use thermotrace_production.Store.Auth.Types
use thermotrace_production.Store.Auth.Reducers.{auth_reducer, initial_state}
use thermotrace_production.Store.Charts.Actions as ChartActions
use thermotrace_production.Store.Charts.Reducers.{error_message_reducer}
use thermotrace_production.Store.Root.{
  Slice, auth, chart, ChartSlice, view, slice_reducer, types_of, is_among,
}
use thermotrace_production.Session.{World, Eff, dispatch, then_catch, recover}
use thermotrace_production.Session.Dispatch.{
  IsReady, Sets, dispatch-Sets, slice_ok-defined, default_to-defined,
}
use thermotrace_production.Request.{Reply, with_promise_callback}
use thermotrace_production.Operations.Effects.{token_after, callback-failed, callback-body}

-- `{ ...state, ...payload }`
abbrev pub extended : Value → Value → Value
extended state payload = obj (merge (spread state) (spread payload))

-- A field that the payload does not bring is as before.
pub prop-extended :
    (k : String) (state payload : Value)
    → prop k (extended state payload) ≡ (
        if has_field k (spread payload)
        then field_of k (spread payload)
        else field_of k (spread state))
unfolding prop
prop-extended k state payload = field_of-merge k (spread state) (spread payload)

-- Where an answer comes whose fields can be read, that answer.
abbrev pub answer_of : Reply → Option Value
answer_of reply =
    if truthy reply.error
    then none
    else if is_readable (prop "body" reply.response)
    then some (prop "body" reply.response)
    else none

-- What the handler of `catch` is called with where there is no such answer.
abbrev pub reason : Reply → Value
reason reply = if truthy reply.error then obj (field "error" reply.error end) else type_error

-- The types whose payload is spread over the slice.
abbrev pub is_spread : String → Bool
is_spread t = t == Types.login || t == Types.error || t == Types.network || t == Types.register

auth-defined : (s : Value) → IsReady s → default_to initial_state (view s auth) ≡ view s auth
auth-defined s ready =
    default_to-defined initial_state (view s auth)
      (slice_ok-defined auth (view s auth) (ready.slices auth))

module _ (redux : Redux) (w : World) (ready : IsReady w.store) where
  -- An action of one of these types extends the slice.
  pub spread-Sets :
      (t : String) (payload : Value)
      → is_spread t ≡ true
      → is_among t (types_of auth) ≡ true
      → (w' : World) × (dispatch redux (action t payload) w ≡ (w', ok tt))
        × (w'.token ≡ w.token)
        × Sets auth (extended (view w.store auth) payload) w.store w'.store
  unfolding slice_reducer auth_reducer
  spread-Sets t payload kind mine =
      dispatch-Sets redux w (action t payload) auth (extended (view w.store auth) payload) ready
        mine (rw (auth-defined w.store ready, kind) refl) refl

  -- The two other types set one field to the message of the payload.
  pub userlist-Sets :
      (payload : Value)
      → is_readable payload ≡ true
      → (w' : World) × (dispatch redux (Actions.userlist payload) w ≡ (w', ok tt))
        × (w'.token ≡ w.token)
        × Sets auth
            (obj (set_field "userlists" (prop "message" payload) (spread (view w.store auth))))
            w.store
            w'.store
  unfolding slice_reducer auth_reducer
  userlist-Sets payload r =
      dispatch-Sets redux w (Actions.userlist payload) auth _ ready refl
        (rw (auth-defined w.store ready, get-readable payload "message" r) refl) refl

  pub unregister-Sets :
      (payload : Value)
      → is_readable payload ≡ true
      → (w' : World) × (dispatch redux (Actions.unregister payload) w ≡ (w', ok tt))
        × (w'.token ≡ w.token)
        × Sets auth
            (obj (set_field "unregistered" (prop "message" payload) (spread (view w.store auth))))
            w.store
            w'.store
  unfolding slice_reducer auth_reducer
  unregister-Sets payload r =
      dispatch-Sets redux w (Actions.unregister payload) auth _ ready refl
        (rw (auth-defined w.store ready, get-readable payload "message" r) refl) refl

  pub error_message-Sets :
      (message : Value)
      → (w' : World) × (dispatch redux (ChartActions.get_erro_message message) w ≡ (w', ok tt))
        × (w'.token ≡ w.token)
        × Sets (chart ChartSlice.error_message) (obj (field "error" message end)) w.store w'.store
  unfolding slice_reducer error_message_reducer
  error_message-Sets message =
      dispatch-Sets redux w (ChartActions.get_erro_message message) (chart ChartSlice.error_message)
        (obj (field "error" message end)) ready refl refl refl

-- The request was answered without an error, whatever the answer.
abbrev pub has_response : Reply → Bool
has_response reply = not (truthy reply.error)

module _ (reply : Reply) (f c : Value → Eff Value) (w : World) where
  -- With an answer its handler runs, and what that throws is caught.
  pub then_catch-answer :
      (body : Value)
      → answer_of reply ≡ some body
      → (then_catch (with_promise_callback reply) f c w ≡ recover (f body w).0 (f body w).1 c)
        × (token_after reply w.token ≡ w.token)
        × (is_readable body ≡ true)
  then_catch-answer body h =
      let sound : truthy reply.error ≡ false = ground arith in
      let same : prop "body" reply.response ≡ body = ground arith in
      (rw (callback-body reply w sound, same) refl, rw sound refl, ground arith)

  -- Without one the other handler runs on the reason, if the first reads a field of the body.
  pub then_catch-reason :
      ((b : Value) (w1 : World) → is_readable b ≡ false → f b w1 ≡ (w1, throws type_error))
      → answer_of reply ≡ none
      → then_catch (with_promise_callback reply) f c w
        ≡ c (reason reply) (record w { token = token_after reply w.token })
  then_catch-reason reads h = elim (Bool-cases (truthy reply.error)) [
    | inl failed ↦ rw (callback-failed reply w failed, failed) refl
    | inr sound ↦
        let u : is_readable (prop "body" reply.response) ≡ false = ground arith in
        rw (callback-body reply w sound, reads (prop "body" reply.response) w u, sound) refl
  ]

  -- After an error the other handler runs on it.
  pub then_catch-failed :
      truthy reply.error ≡ true
      → then_catch (with_promise_callback reply) f c w
        ≡ c (obj (field "error" reply.error end)) (record w { token = token_after reply w.token })
  then_catch-failed failed = rw (callback-failed reply w failed) refl

-- Of two changes of one slice the second is what is left.
pub Sets-trans :
    {n : Slice} {v1 v2 s s1 s2 : Value} → Sets n v1 s s1 → Sets n v2 s1 s2 → Sets n v2 s s2
Sets-trans first second = record {
  store = second.store;
  at = second.at;
  rest = λ m other. second.rest m other ∙ first.rest m other;
}
