-- ===== src/Operations/Auth.antt =====
-- blockchain-explorer/client/src/state/redux/auth/operations.js
pub mod Slice
pub mod Outcomes
pub mod Session
pub mod Users
pub mod UserCalls
use thermotrace_production.Common.{String, true, if◌then◌else◌, [], ◌∷◌}
use thermotrace_production.Js.Value.{
  Value, undefined, null, bool, num, str, obj, end, field, Completion, is_num, truthy, or_else,
  type_error, ok,
}
use thermotrace_production.Js.Object.{get as get_property, prop, to_text, merge, spread, set_field}
use thermotrace_production.Redux.{Redux, Action}
use thermotrace_production.Session.{
  World, Eff, pure, raise, lift, dispatch, ◌>>=◌, ◌>>◌, then_catch, authenticate_user,
  deauthenticate_user,
}
use thermotrace_production.Request.{Reply, with_promise_callback}
use thermotrace_production.Thunk.{Thunk, get, post, concat, log_error, internal_error, substr}
use thermotrace_production.Store.Auth.Actions
use thermotrace_production.Store.Charts.Actions as ChartActions

-- `{ status, message }`
abbrev pub result : String → Value → Value
result status message = obj (field "status" (str status) (field "message" message end))

-- `{ ...a, ...b }`
unfoldable pub over : Value → Value → Value
over a b = obj (merge (spread a) (spread b))

module _ (redux : Redux) where
  -- `stringify` is `JSON.stringify`.
  unfoldable pub login : (Value → String) → Value → Value → Value → Thunk
  login stringify user password network_obj = record {
    start =
        post "/auth/login"
          (obj (field "user" user (field "password" password (field "network" network_obj end))));
    settle = λ reply.
        then_catch (with_promise_callback reply)
          (λ resp. do
            token ← lift (get_property resp "token")
            authenticate_user token
            dispatch redux (Actions.error null)
            dispatch redux (Actions.login (over (obj (field "user" user end)) resp))
            pure (obj (field "status" (str "Success") end)))
          (λ error. do
            dispatch redux (Actions.error (str (stringify error)))
            pure (result "Error" (str "Invalid User, Password")));
  }

  unfoldable pub network : Thunk
  network = record {
    start = get "/auth/networklist";
    settle = λ reply.
        then_catch (with_promise_callback reply)
          (λ resp. do
            network_list ← lift (get_property resp "networkList")
            dispatch redux (Actions.network (obj (field "networks" network_list end)))
            pure undefined)
          (λ error. do dispatch redux (ChartActions.get_erro_message error); pure undefined);
  }

  -- The handler of the three operations on users: `success` gives the action, `done` the result.
  unfoldable pub report_or : (Value → Action) → (Value → Value) → Value → Eff Value
  report_or success done resp = do
    status ← lift (get_property resp "status")
    if is_num 500 status
        then (do
          dispatch redux (ChartActions.get_erro_message (str internal_error))
          pure undefined)
        else (if is_num 400 status
            then (do
              message ← lift (get_property resp "message")
              msg ← lift (substr 6 message)
              pure (result "error" msg))
            else (do dispatch redux (success resp); pure (done resp)))

  unfoldable pub settle_user : (Value → Action) → (Value → Value) → Reply → Eff Value
  settle_user success done reply =
      then_catch (with_promise_callback reply) (report_or success done)
        (λ error. do dispatch redux (Actions.error error); pure undefined)

  unfoldable pub register : Value → Thunk
  register user = record {
    start = post "/api/register" (obj (spread user));
    settle =
        settle_user (λ resp. Actions.register (over user resp))
          (λ resp. result "success" (str "registered successfully!"));
  }

  unfoldable pub userlist : Thunk
  userlist = record {
    start = get "/api/userlist";
    settle =
        settle_user (λ resp. Actions.userlist (obj (spread resp))) (λ resp. result "success" resp);
  }

  unfoldable pub unregister : Value → Thunk
  unregister user = record {
    start = post "/api/unregister" (obj (spread user));
    settle =
        settle_user (λ resp. Actions.unregister (over user resp))
          (λ resp. result "success" (str "Unregistered successfully!"));
  }

  unfoldable pub logout : Thunk
  logout = record {
    start = post "/auth/logout" (obj end);
    settle = λ reply.
        then_catch (with_promise_callback reply)
          (λ resp. do
            deauthenticate_user
            dispatch redux (Actions.error null)
            pure (obj (field "status" (str "Success") end)))
          (λ error. do
            dispatch redux (ChartActions.get_erro_message error)
            pure (result "Error" (str "Invalid User token")));
  }
