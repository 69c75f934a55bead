-- ===== src/Store/Auth/Actions.antt =====
-- blockchain-explorer/client/src/state/redux/auth/actions.js
use thermotrace_production.Js.Value.{Value}
use thermotrace_production.Redux.{Action, action}
use thermotrace_production.Store.Auth.Types

abbrev pub login : Value → Action
login payload = action Types.login payload

abbrev pub network : Value → Action
network payload = action Types.network payload

abbrev pub error : Value → Action
error payload = action Types.error payload

abbrev pub register : Value → Action
register payload = action Types.register payload

abbrev pub unregister : Value → Action
unregister payload = action Types.unregister payload

abbrev pub userlist : Value → Action
userlist payload = action Types.userlist payload
