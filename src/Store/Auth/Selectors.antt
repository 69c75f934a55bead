-- ===== src/Store/Auth/Selectors.antt =====
-- blockchain-explorer/client/src/state/redux/auth/selectors.js
use thermotrace_production.Common.{String}
use thermotrace_production.Js.Value.{Value, Completion, ◌>>=◌}
use thermotrace_production.Js.Object.{get}

abbrev of_auth : String → Value → Completion Value
of_auth key state = do slice ← get state "auth"; get slice key

abbrev pub auth_selector : Value → Completion Value
auth_selector state = of_auth "token" state

abbrev pub error_selector : Value → Completion Value
error_selector state = of_auth "error" state

abbrev pub network_selector : Value → Completion Value
network_selector state = of_auth "networks" state

abbrev pub registered_selector : Value → Completion Value
registered_selector state = of_auth "registered" state

abbrev pub userlist_selector : Value → Completion Value
userlist_selector state = of_auth "userlists" state

abbrev pub unregistered_selector : Value → Completion Value
unregistered_selector state = of_auth "unregistered" state
