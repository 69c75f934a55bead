-- ===== src/Store/Theme.antt =====
-- blockchain-explorer/client/src/state/redux/theme: the type, the action, the reducer and the
-- selector of the theme.
use thermotrace_production.Common.{String, ◌==◌, if◌then◌else◌}
use thermotrace_production.Js.Value.{Value, str, obj, end, field, Completion, ok, ◌>>=◌}
use thermotrace_production.Js.Object.{get, set_field, spread}
use thermotrace_production.Redux.{Action, Reducer, action, default_to}

abbrev pub change_theme_type : String
change_theme_type = "theme/CHANGE_THEME"

unfoldable pub change_theme : Value → Action
change_theme mode = action change_theme_type (obj (field "mode" mode end))

abbrev pub initial_state : Value
initial_state = obj (field "mode" (str "light") end)

unfoldable pub theme_reducer : Reducer
unfolding get spread
theme_reducer state a =
    if a.type == change_theme_type
    then (do
      mode ← get a.payload "mode"
      ok (obj (set_field "mode" mode (spread (default_to initial_state state)))))
    else ok (default_to initial_state state)

-- `state => state.theme.mode`
unfoldable pub mode_selector : Value → Completion Value
unfolding get
mode_selector state = do theme ← get state "theme"; get theme "mode"
