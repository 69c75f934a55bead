-- ===== src/Store/Auth/Types.antt =====
-- blockchain-explorer/client/src/state/redux/auth/types.js
use thermotrace_production.Common.{String}

abbrev pub login : String
login = "auth/LOGIN"

abbrev pub network : String
network = "auth/NETWORK"

abbrev pub error : String
error = "auth/ERROR"

abbrev pub register : String
register = "auth/REGISTER"

abbrev pub unregister : String
unregister = "auth/UNREGISTER"

abbrev pub userlist : String
userlist = "auth/USERLIST"
