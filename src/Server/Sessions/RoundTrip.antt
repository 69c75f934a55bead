-- ===== src/Server/Sessions/RoundTrip.antt =====
-- From a login to the requests of the session.
use Prim.Native.Char.{Char}
use Prim.Native.String
use Prim.Native.String.append
use thermotrace_production.Common.{
  ℕ, String, true, false, ◌==◌, ◌≡◌, ◌∙◌, refl, ap, Option, some, Bool-cases, inl, inr, eq_iff,
}
use thermotrace_production.Js.Value.{Value, str, bool, obj, end, field, Completion, ok, truthy}
use thermotrace_production.Js.Object.{prop, field_of, get, spread, to_text}
use thermotrace_production.Redux.{Redux}
use thermotrace_production.Session.{World, get_token}
use thermotrace_production.Session.Dispatch.{IsReady}
use thermotrace_production.Request.{Reply, authorization, post}
use thermotrace_production.Operations.Auth as Auth
use thermotrace_production.Operations.Auth.Outcomes.{login-accepted}
use thermotrace_production.Server.Http.{Http, is_json, has_json}
use thermotrace_production.Server.Users.Model.{UserModel}
use thermotrace_production.Server.Users.{Network, authenticate}
use thermotrace_production.Server.Users.SignIn.{credentials}
use thermotrace_production.Server.Routes.Users.{delivered-answer}
use thermotrace_production.Server.Sessions.{
  trim, trim_start, trim_end, login_route, login_answer, local_login, is_space, word, second_word,
  unspaced, Jwt, Recovers, Passport, auth_check,
}

word-unspaced : (s : String) → unspaced s ≡ true → word s ≡ s
unfolding word
word-unspaced String.[] h = refl
word-unspaced (String.◌∷◌ c s) h = elim (Bool-cases (is_space c)) [
  | inl e ↦ let spaced = rw e at h in cc
  | inr e ↦ rw e (ap (String.◌∷◌ c) (word-unspaced s (rw e at h)))
]

second_word-skip :
    (c : Char) (w s : String)
    → is_space c ≡ false
    → second_word (String.◌++◌ (String.◌∷◌ c w) s) ≡ second_word (String.◌++◌ w s)
unfolding second_word
second_word-skip c w s h = rw (append.cons c w s, h) refl

second_word-take :
    (c : Char) (s : String)
    → is_space c ≡ true
    → second_word (String.◌++◌ (String.◌∷◌ c "") s) ≡ str (word s)
unfolding second_word
second_word-take c s h = rw (append.cons c "" s, append.nil s, h) refl

second_word-bearer : (s : String) → second_word (String.◌++◌ "bearer " s) ≡ str (word s)
second_word-bearer s =
    second_word-skip "b" "earer " s refl
    ∙ second_word-skip "e" "arer " s refl
    ∙ second_word-skip "a" "rer " s refl
    ∙ second_word-skip "r" "er " s refl
    ∙ second_word-skip "e" "r " s refl
    ∙ second_word-skip "r" " " s refl
    ∙ second_word-take " " s refl

bearer-given : (s : String) → (String.◌++◌ "bearer " s == "") ≡ false
bearer-given s = elim (Bool-cases (String.◌++◌ "bearer " s == "")) [
  | inr h ↦ h
  | inl h ↦
      let empty : String.◌++◌ "bearer " s ≡ "" = (eq_iff (String.◌++◌ "bearer " s) "").0 h in
      let starts : String.◌++◌ "bearer " s ≡ String.◌∷◌ "b" (String.◌++◌ "earer " s) =
        append.cons "b" "earer " s in
      cc
]

header-token :
    (w : World) (token : String)
    → w.token ≡ some token
    → (authorization w).1 ≡ String.◌++◌ "bearer " token
unfolding authorization get_token to_text
header-token w token h = rw h refl

module _ (jwt : Jwt) (passport : Passport) (http : Http) (model : UserModel)
    (hash_sync : Value → Value → Completion Value) (networks : Value → Option Network) (at : ℕ)
    (name place secret : String) where
  abbrev pub issued : String
  issued = jwt.sign at (obj (field "user" (str name) (field "network" (str place) end)))

  abbrev told_user : Value
  told_user =
      obj (field "message" (str "logged in") (field "name" (str (trim_end (trim_start name))) end))

  abbrev answered : Value
  answered = obj (
      field "success" (bool true) (
        field "message" (str "You have successfully logged in!")
          (field "token" (str issued) (field "user" told_user end))))

  login_route-accepted :
      (t : model.Table)
      → truthy (str name) ≡ true
      → truthy (str secret) ≡ true
      → authenticate model hash_sync networks (credentials name place secret) t ≡ ok true
      → login_route jwt passport http model hash_sync networks at (credentials name place secret) t
        ≡ ok (http.deliver 200 answered)
  unfolding login_route login_answer local_login trim prop field_of get spread
  login_route-accepted t n p accepted =
      rw
        (
          passport.given
              (local_login jwt passport http model hash_sync networks at
                (credentials name place secret) t)
              (credentials name place secret) n p,
          accepted,
          jwt.sign_given at (obj (field "user" (str name) (field "network" (str place) end))),
        )
        refl

  auth_check-issued :
      (now : ℕ)
      → Recovers jwt at now name place
      → auth_check jwt passport http model hash_sync networks now (String.◌++◌ "bearer " issued)
        ≡ some (record { network = str place; request_user_id = str name })
  unfolding auth_check
  auth_check-issued now fresh =
      let payload = obj (field "user" (str name) (field "network" (str place) end)) in
      rw
        (
          bearer-given issued,
          second_word-bearer issued,
          word-unspaced issued (jwt.sign_unspaced at payload),
          fresh.verified,
          fresh.user_kept,
          fresh.network_kept,
        )
        refl

  -- A client that logs in with a name, a password and a network posts the three to /auth/login.
  -- Where the server accepts that body, the client settles with Success on its answer, and at every
  -- time at which the token has not expired the middleware of the server makes of the header of its
  -- requests just that name and that network.
  pub login-auth_check :
      (redux : Redux) (stringify : Value → String) (w : World) (t : model.Table) (now : ℕ)
      → IsReady w.store
      → truthy (str name) ≡ true
      → truthy (str secret) ≡ true
      → authenticate model hash_sync networks (credentials name place secret) t ≡ ok true
      → Recovers jwt at now name place
      → ((Auth.login redux stringify (str name) (str secret) (str place)).start w
          ≡ (w, ok (post "/auth/login" (credentials name place secret) w)))
        × ((reply : Reply) × (w' : World) × (login_route jwt passport http model hash_sync networks
                at
                (credentials name place secret)
                t
              ≡ ok reply)
            × ((Auth.login redux stringify (str name) (str secret) (str place)).settle reply w
                ≡ (w', ok (obj (field "status" (str "Success") end))))
            × (auth_check jwt passport http model hash_sync networks now (authorization w').1
                ≡ some (record { network = str place; request_user_id = str name })))
  unfolding Auth.login to_text is_json has_json prop field_of
  login-auth_check redux stringify w t now ready n p accepted fresh =
      let (w', settled, kept, changed) =
        login-accepted redux stringify (str name) (str secret) (str place)
          (http.deliver 200 answered) w ready answered (delivered-answer http answered refl refl) in
      (
        refl,
        (
          http.deliver 200 answered,
          w',
          login_route-accepted t n p accepted,
          settled,
          ap (auth_check jwt passport http model hash_sync networks now)
                (header-token w' issued kept)
              ∙ auth_check-issued now fresh,
        ),
      )
