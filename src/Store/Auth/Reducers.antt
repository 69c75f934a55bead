-- ===== src/Store/Auth/Reducers.antt =====
-- blockchain-explorer/client/src/state/redux/auth/reducers.js
use thermotrace_production.Common.{◌==◌, ◌||◌, if◌then◌else◌}
use thermotrace_production.Js.Value.{
  Value, null, str, arr, nil, obj, end, field, Completion, ok, ◌>>=◌,
}
use thermotrace_production.Js.Object.{get, merge, set_field, spread}
use thermotrace_production.Redux.{Action, Reducer, default_to}
use thermotrace_production.Store.Auth.Types

abbrev pub initial_state : Value
initial_state = obj (
    field "user" (str "") (
      field "token" null (
        field "error" (str "") (
          field "networks" (arr nil)
            (field "registered" (str "") (field "userlists" (arr nil) end))))))

-- The body of the reducer, where `state` has its default.
auth_step : Value → Action → Completion Value
unfolding get spread
auth_step state a =
    if a.type == Types.login
      || a.type == Types.error
      || a.type == Types.network
      || a.type == Types.register
    then ok (obj (merge (spread state) (spread a.payload)))
    else if a.type == Types.userlist
    then (do
      message ← get a.payload "message"
      ok (obj (set_field "userlists" message (spread state))))
    else if a.type == Types.unregister
    then (do
      message ← get a.payload "message"
      ok (obj (set_field "unregistered" message (spread state))))
    else ok state

unfoldable pub auth_reducer : Reducer
unfolding auth_step
auth_reducer state a = auth_step (default_to initial_state state) a
