-- ===== src/Server/Users.antt =====
-- The users of the networks: blockchain-explorer/app/platform/fabric/service/UserService.ts and
-- persistence/fabric/UserDataService.ts. The table is that of the package sequelize, and the hash
-- that of the package bcrypt: both are parameters.
pub mod Model
pub mod Outcomes
pub mod SignIn
pub mod Safety
use Prim.Native.String
use thermotrace_production.Common.{
  String, Bool, true, false, not, ◌&&◌, ◌||◌, if◌then◌else◌, Option, some, none, List, [], ◌∷◌, map,
}
use thermotrace_production.Js.Value.{
  Value, undefined, null, num, str, obj, arr, Items, nil, cons, end, field, Completion, ok, throws,
  ◌>>=◌, ◌>>◌, truthy, is_str,
}
use thermotrace_production.Js.Object.{prop, get, to_text}
use thermotrace_production.Thunk.{concat}
use thermotrace_production.Server.Exceptions.{fail, refuse_if, strict_eq}
use thermotrace_production.Server.Users.Model.{Entry, UserModel}

-- A network of the platform: its name and the JSON of its connection profile.
pub record Network : Type 0 where
  pub name : Value
  pub config : Value

abbrev pub is_some {ℓ} : {A : Type ℓ} → Option A → Bool
is_some none = false
is_some (some a) = true

-- `FabricConfig.getEnableAuthentication`
unfoldable pub get_enable_authentication : Value → Completion Value
get_enable_authentication config = do
  client ← get config "client"
  get client "enableAuthentication"

-- `FabricConfig.getAdminUser`, of a configuration that has been read
unfoldable pub get_admin_user_of : Value → Value
get_admin_user_of config =
    if truthy (prop "client" config)
      && (truthy (prop "adminCredential" (prop "client" config))
          && truthy (prop "id" (prop "adminCredential" (prop "client" config))))
    then prop "id" (prop "adminCredential" (prop "client" config))
    else null

-- The row of `registerUser`
abbrev pub entry_of : Value → Value → Value → Entry
entry_of salt user hashed = record {
  username = prop "user" user;
  salt = salt;
  password = hashed;
  network_name = prop "network" user;
  first_name = prop "firstname" user;
  last_name = prop "lastname" user;
  email = (if truthy (prop "email" user) then prop "email" user else null);
  roles = prop "roles" user;
}

-- `{ status: 400, message: error.toString() }`
abbrev pub refused : Value → Value
refused error = obj (field "status" (num 400) (field "message" (str (to_text error)) end))

abbrev pub unregistered : Value
unregistered =
    obj (field "status" (num 200) (field "message" (str "Unregistered successfully!") end))

-- The text of the error that `catch` throws for one of the table.
abbrev pub error_text : String → Value → Value → String
error_text what user error =
    concat ("Error: " ∷ what ∷ to_text (prop "user" user) ∷ " : " ∷ to_text error ∷ [])

abbrev failure : String → Value → Value → Value
failure what user error = refused (str (error_text what user error))

-- A user of a request is an object, so its properties can be read.
module _ (model : UserModel) (hash_sync : Value → Value → Completion Value)
    (networks : Value → Option Network) where
  abbrev matches : Value → Option Entry → Completion Bool
  matches password none = ok false
  matches password (some entry) = do
    hashed ← hash_sync password entry.salt
    ok (strict_eq entry.password hashed)

  abbrev authenticate_in : Value → Option Network → model.Table → Completion Bool
  authenticate_in user none t = ok false
  authenticate_in user (some network) t = do
    enabled ← get_enable_authentication network.config
    if truthy enabled
        then (do
          entry ← model.find_one (prop "user" user) (prop "network" user) t
          matches (prop "password" user) entry)
        else ok true

  unfoldable pub authenticate : Value → model.Table → Completion Bool
  authenticate user t =
      if not (truthy (prop "user" user))
        || (not (truthy (prop "password" user)) || not (truthy (prop "network" user)))
      then ok false
      else authenticate_in user (networks (prop "network" user)) t

  abbrev admin_user_in : Value → Option Network → Completion Value
  admin_user_in user none =
      fail (String.◌++◌ "Failed to get client object for " (to_text (prop "network" user)))
  admin_user_in user (some network) = ok (get_admin_user_of network.config)

  unfoldable pub get_admin_user : Value → Completion Value
  get_admin_user user = admin_user_in user (networks (prop "network" user))

  abbrev has_admin_role : Value → Option Entry → Completion Bool
  has_admin_role user none =
      fail (String.◌++◌ "User who requests doesn't exist : " (to_text (prop "requestUserId" user)))
  has_admin_role user (some entry) = ok (is_str "admin" entry.roles)

  unfoldable pub is_admin_role : Value → model.Table → Completion Bool
  is_admin_role user t =
      if truthy (prop "requestUserId" user)
      then (do
        entry ← model.find_one (prop "requestUserId" user) (prop "network" user) t
        has_admin_role user entry)
      else ok true

  -- What `register` does before it writes; `salt` is what `genSaltSync` gives.
  unfoldable pub new_user : Value → Value → model.Table → Completion Entry
  new_user salt user t = do
    refuse_if
        (not (truthy (prop "user" user))
          || (not (truthy (prop "password" user)) || not (truthy (prop "network" user))))
        "Invalid parameters"
    admin ← is_admin_role user t
    refuse_if (not admin) "Permission error : can't register user"
    entry ← model.find_one (prop "user" user) (prop "network" user) t
    refuse_if (is_some entry) "already exists"
    hashed ← hash_sync (prop "password" user) salt
    ok (entry_of salt user hashed)

  abbrev pub written :
      (Value → Value) → Value → model.Table × Completion (Unit {0}) → model.Table × Value
  written failed done (t, ok tt) = (t, done)
  written failed done (t, throws error) = (t, failed error)

  abbrev register_with : Value → model.Table → Completion Entry → model.Table × Value
  register_with user t (throws error) = (t, refused error)
  register_with user t (ok entry) =
      written (failure "Failed to register user : " user) (obj (field "status" (num 200) end))
        (model.create entry t)

  unfoldable pub register : Value → Value → model.Table → model.Table × Value
  register salt user t = register_with user t (new_user salt user t)

  -- What `unregister` does before it writes.
  unfoldable pub old_user : Value → model.Table → Completion (Unit {0})
  old_user user t = do
    refuse_if (not (truthy (prop "user" user)) || not (truthy (prop "network" user)))
        "Invalid parameters"
    admin ← is_admin_role user t
    refuse_if (not admin) "Permission error : can't unregister user"
    refuse_if (strict_eq (prop "user" user) (prop "requestUserId" user))
        "Permission error : can't unregister by yourself"
    root ← get_admin_user user
    refuse_if (strict_eq (prop "user" user) root)
        "Permission error : can't unregister root admin user"
    entry ← model.find_one (prop "user" user) (prop "network" user) t
    refuse_if (not (is_some entry)) (String.◌++◌ (to_text (prop "user" user)) " does not exists")

  abbrev unregister_with : Value → model.Table → Completion (Unit {0}) → model.Table × Value
  unregister_with user t (throws error) = (t, refused error)
  unregister_with user t (ok tt) =
      written (failure "Failed to unRegister user : " user) unregistered
        (model.destroy (prop "user" user) (prop "network" user) t)

  unfoldable pub unregister : Value → model.Table → model.Table × Value
  unregister user t = unregister_with user t (old_user user t)

  -- The fields of a user that the list shows.
  unfoldable pub shown_user : Entry → Value
  shown_user entry = obj (
      field "username" entry.username (
        field "email" entry.email (
          field "networkName" entry.network_name (
            field "firstName" entry.first_name
              (field "lastName" entry.last_name (field "roles" entry.roles end))))))

  abbrev items : List Value → Items
  items [] = nil
  items (v ∷ vs) = cons v (items vs)

  abbrev listed : Completion (List Entry) → Value
  listed (ok entries) =
      obj (field "status" (num 200) (field "message" (arr (items (map shown_user entries))) end))
  listed (throws error) = refused error

  unfoldable pub userlist : Value → model.Table → Value
  userlist user t = listed (model.find_all (prop "network" user) t)
