-- ===== src/Tests/Users.antt =====
-- The theorems on the users at concrete inputs.
use Prim.Native.String
use thermotrace_production.Common.{
  String, true, false, Option, some, List, [], ◌∷◌, ◌++◌, ◌≡◌, ◌==◌, refl, sym,
}
use thermotrace_production.Js.Value.{
  Value, undefined, null, bool, str, num, obj, end, field, Completion, ok, throws, type_error,
  is_str,
}
use thermotrace_production.Js.Object.{prop, get}
use thermotrace_production.Server.Exceptions.{strict_eq}
use thermotrace_production.Server.Users.Model.{Entry}
use thermotrace_production.Server.Users.{
  Network, get_enable_authentication, get_admin_user_of, get_admin_user, is_admin_role, new_user,
  old_user, authenticate, register, unregister, unregistered,
}
use thermotrace_production.Server.Users.Outcomes.{Refused}
use thermotrace_production.Server.Users.SignIn.{
  credentials, Checks, IsTextUser, register-authenticate, unregister-authenticate,
}
use thermotrace_production.Server.Users.Safety.{
  UserRequest, registration, removal, handle, serve, handle-admin_only, serve-root,
}
use thermotrace_production.Tests.UserTable.{table, find, without}

-- A hash that appends the salt.
abbrev pub salted : Value → Value → Completion Value
salted (str p) (str s) = ok (str (String.◌++◌ p s))
salted password salt = throws type_error

abbrev pub net : Network
net = record {
  name = str "Net";
  config = obj (
      field "client"
        (obj (
          field "enableAuthentication" (bool true)
            (field "adminCredential" (obj (field "id" (str "root") end)) end)))
        end);
}

abbrev pub networks : Value → Option Network
networks v = some net

abbrev pub row : String → String → Entry
row name role = record {
  username = str name;
  salt = str "s";
  password = str (String.◌++◌ "pw" "s");
  network_name = str "net";
  first_name = undefined;
  last_name = undefined;
  email = null;
  roles = str role;
}

abbrev pub before : List Entry
before = row "root" "admin" ∷ row "bob" "user" ∷ []

abbrev asks : String → String → Value
asks who for = obj (
    field "user" (str for) (
      field "password" (str "pw") (
        field "network" (str "net")
          (field "requestUserId" (str who) (field "roles" (str "user") end)))))

checks : Checks networks "net"
unfolding get_enable_authentication prop get
checks = record { network = net; known = refl; setting = bool true; is_set = refl; enabled = refl }

texts : IsTextUser (asks "root" "ann") "ann" "net" "user" "pw"
unfolding prop
texts = record { named = refl; placed = refl; roled = refl; secured = refl }

added :
    register table salted networks (str "s") (asks "root" "ann") before
    ≡ (before ++ (row "ann" "user" ∷ []), obj (field "status" (num 200) end))
unfolding register new_user is_admin_role prop find strict_eq
added = refl

register-authenticate_example :
    authenticate table salted networks
      (credentials "ann" "net" "pv")
      (before ++ (row "ann" "user" ∷ []))
    ≡ ok (String.◌++◌ "pv" "s" == String.◌++◌ "pw" "s")
register-authenticate_example =
    register-authenticate table salted networks (asks "root" "ann") "s" "ann" "net" "user" "pw" "pv"
      before (before ++ (row "ann" "user" ∷ [])) (λ p. String.◌++◌ p "s") texts checks (λ p. refl)
      added refl

removed :
    unregister table salted networks (asks "root" "bob") before
    ≡ (row "root" "admin" ∷ [], unregistered)
unfolding unregister old_user is_admin_role get_admin_user get_admin_user_of prop find without
    strict_eq
removed = refl

unregister-authenticate_example :
    ((password : String)
      → authenticate table salted networks
          (credentials "bob" "net" password)
          (row "root" "admin" ∷ [])
        ≡ ok false)
    × ((other elsewhere password : String)
        → ¬ (("bob" ≡ other) × ("net" ≡ elsewhere))
        → authenticate table salted networks
            (credentials other elsewhere password)
            (row "root" "admin" ∷ [])
          ≡ authenticate table salted networks (credentials other elsewhere password) before)
unfolding prop
unregister-authenticate_example =
    unregister-authenticate table salted networks (asks "root" "bob") "bob" "net" before
      (row "root" "admin" ∷ []) refl refl checks removed

bob_is_plain :
    (e : Entry)
    → table.find_one (str "bob") (str "net") before ≡ ok (some e)
    → is_str "admin" e.roles ≡ false
unfolding find strict_eq
bob_is_plain e found = let same : row "bob" "user" ≡ e = cc in rw (sym same) refl

handle-admin_only_example :
    Refused table salted networks before
      (handle table salted networks (removal (asks "bob" "bob")) before)
unfolding prop find strict_eq
handle-admin_only_example =
    handle-admin_only table salted networks (removal (asks "bob" "bob")) before refl
      λ e found. bob_is_plain e found

abbrev requests : List UserRequest
requests =
    removal (asks "root" "bob")
    ∷ removal (asks "root" "root")
    ∷ registration (str "s") (asks "root" "ann")
    ∷ removal (asks "ann" "root")
    ∷ []

serve-root_example :
    table.find_one (str "root") (str "net") (serve table salted networks requests before)
    ≡ ok (some (row "root" "admin"))
unfolding get_admin_user_of prop find strict_eq
serve-root_example =
    serve-root table salted networks "net" "root" net refl refl requests before (row "root" "admin")
      (
        (("bob", refl), ("net", refl)),
        (
          (("root", refl), ("net", refl)),
          ((("ann", refl), ("net", refl)), ((("root", refl), ("net", refl)), tt)),
        ),
      )
      refl
