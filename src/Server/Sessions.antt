-- ===== src/Server/Sessions.antt =====
-- The session of a user: blockchain-explorer/app/passport/local-login.ts, the login of
-- rest/authroutes.ts, and middleware/auth-check.ts. The packages passport and jsonwebtoken are
-- parameters.
pub mod RoundTrip
use Prim.Native.Char.{Char, code}
use Prim.Native.String
use thermotrace_production.Common.{
  ℕ, ◌+◌, ◌<◌, String, Bool, true, false, not, ◌&&◌, ◌||◌, ◌==◌, if◌then◌else◌, nat_eq, leb, Option,
  some, none, ◌≡◌, List, [], ◌∷◌,
}
use thermotrace_production.Js.Value.{
  Value, undefined, bool, num, str, obj, end, field, Completion, ok, throws, ◌>>=◌, ◌>>◌, truthy,
  type_error,
}
use thermotrace_production.Js.Object.{get, prop, spread}
use thermotrace_production.Request.{Reply}
use thermotrace_production.Server.Http.{Http}
use thermotrace_production.Server.Users.Model.{UserModel}
use thermotrace_production.Server.Users.{Network, authenticate}
use thermotrace_production.Server.Routes.{Requester, as_json}

abbrev pub is_space : Char → Bool
is_space c = nat_eq (code c) 32

-- `s.split(' ')[1]`: what stands between the first space and the next.
unfoldable pub word : String → String
word String.[] = ""
word (String.◌∷◌ c s) = let rest = word s in if is_space c then "" else String.◌∷◌ c rest

unfoldable pub second_word : String → Value
unfolding word
second_word String.[] = undefined
second_word (String.◌∷◌ c s) = let rest = second_word s in if is_space c then str (word s) else rest

abbrev pub unspaced : String → Bool
unspaced String.[] = true
unspaced (String.◌∷◌ c s) = not (is_space c) && unspaced s

-- The white space and the ends of lines that `trim` removes.
abbrev is_blank : ℕ → Bool
is_blank n =
    (leb 9 n && leb n 13)
    || (nat_eq n 32
        || (nat_eq n 160
            || (nat_eq n 5760
                || ((leb 8192 n && leb n 8202)
                    || (nat_eq n 8232
                        || (nat_eq n 8233
                            || (nat_eq n 8239
                                || (nat_eq n 8287 || (nat_eq n 12288 || nat_eq n 65279)))))))))

unfoldable pub trim_start : String → String
trim_start String.[] = ""
trim_start (String.◌∷◌ c s) =
    let rest = trim_start s in if is_blank (code c) then rest else String.◌∷◌ c s

unfoldable pub trim_end : String → String
trim_end String.[] = ""
trim_end (String.◌∷◌ c s) =
    let rest = trim_end s in if is_blank (code c) && rest == "" then "" else String.◌∷◌ c rest

unfoldable pub trim : Value → Completion Value
unfolding trim_start trim_end
trim (str s) = ok (str (trim_end (trim_start s)))
trim _ = throws type_error

-- The package jsonwebtoken: a token of a payload at a time, and what it gives at a later time.
pub record Jwt : Type 0 where
  pub sign : ℕ → Value → String
  pub verify : ℕ → Value → Completion Value
  pub sign_given : (at : ℕ) (payload : Value) → truthy (str (sign at payload)) ≡ true
  pub sign_unspaced : (at : ℕ) (payload : Value) → unspaced (sign at payload) ≡ true

-- The token that is made at a time has not expired at another: its payload is given back.
pub record Recovers (jwt : Jwt) (at now : ℕ) (user network : String) : Type 0 where
  pub decoded : Value
  pub verified :
      jwt.verify now
        (str (jwt.sign at (obj (field "user" (str user) (field "network" (str network) end)))))
      ≡ ok decoded
  pub user_kept : prop "user" decoded ≡ str user
  pub network_kept : prop "network" decoded ≡ str network

-- The package passport with the strategy of passport-local: a strategy gives a token or `false`,
-- and what is to be told. It is called with the two credentials of the body where both are there.
abbrev pub Strategy : Type 0
Strategy = Value → Value → Completion (Value × Value)

pub record Passport : Type 0 where
  pub authenticate_with : Strategy → Value → Completion (Value × Value)
  pub given :
      (strategy : Strategy) (body : Value)
      → truthy (prop "user" body) ≡ true
      → truthy (prop "password" body) ≡ true
      → authenticate_with strategy body ≡ strategy (prop "user" body) (prop "password" body)

module _ (jwt : Jwt) (passport : Passport) (http : Http) (model : UserModel)
    (hash_sync : Value → Value → Completion Value) (networks : Value → Option Network) where
  abbrev logged_in : ℕ → Value → Value → Bool → Value × Value
  logged_in now req_user name false =
      (bool false, obj (field "message" (str "Incorrect credentials") end))
  logged_in now req_user name true = (
    str (
        jwt.sign now (
          obj
            (field "user" (prop "user" req_user) (field "network" (prop "network" req_user) end)))),
    obj (field "message" (str "logged in") (field "name" name end)),
  )

  -- `localLoginStrategy`, for a request with the body
  unfoldable pub local_login : ℕ → Value → model.Table → Strategy
  local_login now body t user password = do
    name ← trim user
    secret ← trim password
    req_user ← as_json body
    auth_result ← authenticate model hash_sync networks req_user t
    ok (logged_in now req_user name auth_result)

  -- The callback of the route.
  unfoldable pub login_answer : Value → Value → Reply
  login_answer token user_data =
      if not (truthy token)
      then http.deliver 400
          (obj (field "success" (bool false) (field "message" (prop "message" user_data) end)))
      else http.deliver 200 (
          obj (
            field "success" (bool true) (
              field "message" (str "You have successfully logged in!")
                (field "token" token (field "user" user_data end)))))

  -- `POST /login`; an exception is one of the request, which express answers.
  unfoldable pub login_route : ℕ → Value → model.Table → Completion Reply
  login_route now body t = do
    outcome ← passport.authenticate_with (local_login now body t) body
    ok (login_answer outcome.0 outcome.1)

  abbrev decoded_requester : Completion Value → Option Requester
  decoded_requester (throws e) = none
  decoded_requester (ok decoded) =
      some (record { network = prop "network" decoded; request_user_id = prop "user" decoded })

  -- `authCheckMiddleware`: what it leaves in the request, or the status 401.
  unfoldable pub auth_check : ℕ → String → Option Requester
  unfolding second_word
  auth_check now authorization =
      if authorization == ""
      then none
      else decoded_requester (jwt.verify now (second_word authorization))
