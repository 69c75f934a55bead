-- ===== src/Tests/Sessioned.antt =====
-- A session from the login on, at concrete inputs.
use thermotrace_production.Common.{true, some, ◌≡◌, refl}
use thermotrace_production.Js.Value.{Value, str, obj, end, field, ok}
use thermotrace_production.Js.Object.{prop, field_of, get}
use thermotrace_production.Session.{World}
use thermotrace_production.Request.{Reply, authorization, post}
use thermotrace_production.Operations.Auth as Auth
use thermotrace_production.Server.Exceptions.{strict_eq}
use thermotrace_production.Server.Users.{authenticate, get_enable_authentication}
use thermotrace_production.Server.Users.SignIn.{credentials}
use thermotrace_production.Server.Sessions.{Jwt, Recovers, Passport, login_route, auth_check}
use thermotrace_production.Server.Sessions.RoundTrip.{login-auth_check}
use thermotrace_production.Tests.Reference.{reference}
use thermotrace_production.Tests.Sample.{home, home-IsReady}
use thermotrace_production.Tests.UserTable.{table, find}
use thermotrace_production.Tests.Users.{salted, networks, before}
use thermotrace_production.Tests.Routes.{express}

abbrev payload : Value
payload = obj (field "user" (str "bob") (field "network" (str "net") end))

abbrev tokens : Jwt
tokens = record {
  sign = λ at v. "t.o.k";
  verify = λ now v. ok payload;
  sign_given = λ at v. refl;
  sign_unspaced = λ at v. refl;
}

abbrev passport : Passport
passport = record {
  authenticate_with = λ strategy body. strategy (prop "user" body) (prop "password" body);
  given = λ strategy body u p. refl;
}

bob-Recovers : Recovers tokens 5 9 "bob" "net"
unfolding prop field_of
bob-Recovers = record { decoded = payload; verified = refl; user_kept = refl; network_kept = refl }

bob_accepted : authenticate table salted networks (credentials "bob" "net" "pw") before ≡ ok true
unfolding authenticate get_enable_authentication prop field_of get find strict_eq
bob_accepted = refl

login-auth_check_example :
    ((Auth.login reference (λ v. "[object]") (str "bob") (str "pw") (str "net")).start home
      ≡ (home, ok (post "/auth/login" (credentials "bob" "net" "pw") home)))
    × ((reply : Reply) × (w' : World) × (login_route tokens passport express table salted networks 5
            (credentials "bob" "net" "pw")
            before
          ≡ ok reply)
        × ((Auth.login reference (λ v. "[object]") (str "bob") (str "pw") (str "net")).settle reply
              home
            ≡ (w', ok (obj (field "status" (str "Success") end))))
        × (auth_check tokens passport express table salted networks 9 (authorization w').1
            ≡ some (record { network = str "net"; request_user_id = str "bob" })))
login-auth_check_example =
    login-auth_check tokens passport express table salted networks 5 "bob" "net" "pw" reference
      (λ v. "[object]") home before 9 home-IsReady refl refl bob_accepted bob-Recovers
