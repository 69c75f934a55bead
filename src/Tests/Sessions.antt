-- ===== src/Tests/Sessions.antt =====
-- The theorems on the session's operations at concrete replies.
use thermotrace_production.Common.{String, some, none, ◌≡◌, refl}
use thermotrace_production.Js.Value.{Value, undefined, null, obj, end, field, num, str, ok}
use thermotrace_production.Js.Object.{prop, field_of, to_text}
use thermotrace_production.Store.Root.{auth, chart, ChartSlice, view}
use thermotrace_production.Session.{World}
use thermotrace_production.Session.Dispatch.{Sets}
use thermotrace_production.Operations.Effects.{token_after, Settles}
use thermotrace_production.Operations.Auth as Auth
use thermotrace_production.Operations.Auth.{result, over}
use thermotrace_production.Operations.Auth.Slice.{extended, reason}
use thermotrace_production.Operations.Auth.Users.{user_ending}
use thermotrace_production.Operations.Auth.UserCalls.{
  UserCall, user_thunk, registered, success_of, user_thunk-Settles,
}
use thermotrace_production.Operations.Auth.Outcomes.{
  error_shown, login-accepted, login-refused, login-refused_error,
}
use thermotrace_production.Operations.Auth.Session.{
  logout-accepted, logout-refused, network-answered, network-refused,
}
use thermotrace_production.Tests.Reference.{reference}
use thermotrace_production.Tests.Sample.{home, home-IsReady, rows, answer, answers, unauthorized}

-- `JSON.stringify`, where the text does not matter.
abbrev stringify : Value → String
stringify v = "[object]"

abbrev token_answer : Value
token_answer = answer (num 200) "token" (str "xyz")

abbrev networks : Value
networks = answer (num 200) "networkList" rows

abbrev user : Value
user = obj (field "user" (str "ann") end)

login-accepted_example :
    (w' : World) × ((Auth.login reference stringify (str "ann") (str "pw") (str "net")).settle
        (answers token_answer)
        home
      ≡ (w', ok (obj (field "status" (str "Success") end))))
    × (w'.token ≡ some (to_text (prop "token" token_answer)))
    × Sets auth
        (extended
          (extended (view home.store auth) null)
          (over (obj (field "user" (str "ann") end)) token_answer))
        home.store
        w'.store
unfolding prop field_of
login-accepted_example =
    login-accepted reference stringify (str "ann") (str "pw") (str "net") (answers token_answer)
      home home-IsReady token_answer refl

login-refused_example :
    (w' : World) × ((Auth.login reference stringify (str "ann") (str "pw") (str "net")).settle
        unauthorized home
      ≡ (w', ok (result "Error" (str "Invalid User, Password"))))
    × (w'.token ≡ token_after unauthorized home.token)
    × Sets auth
        (extended (view home.store auth) (str (stringify (reason unauthorized))))
        home.store
        w'.store
unfolding prop field_of
login-refused_example =
    login-refused reference stringify (str "ann") (str "pw") (str "net") unauthorized home
      home-IsReady refl

login-refused_error_example :
    (w' : World) × ((Auth.login reference stringify (str "ann") (str "pw") (str "net")).settle
        unauthorized home
      ≡ (w', ok (result "Error" (str "Invalid User, Password"))))
    × (prop "error" (view w'.store auth) ≡ prop "error" (view home.store auth))
unfolding prop field_of
login-refused_error_example =
    login-refused_error reference stringify (str "ann") (str "pw") (str "net") unauthorized home
      home-IsReady refl

logout-accepted_example :
    (w' : World) × ((Auth.logout reference).settle (answers token_answer) home
      ≡ (w', ok (obj (field "status" (str "Success") end))))
    × (w'.token ≡ none)
    × Sets auth (extended (view home.store auth) null) home.store w'.store
unfolding prop field_of
logout-accepted_example = logout-accepted reference (answers token_answer) home home-IsReady refl

logout-refused_example :
    (w' : World) × ((Auth.logout reference).settle unauthorized home
      ≡ (w', ok (result "Error" (str "Invalid User token"))))
    × (w'.token ≡ token_after unauthorized home.token)
    × Sets (chart ChartSlice.error_message) (error_shown (reason unauthorized)) home.store w'.store
unfolding prop field_of
logout-refused_example = logout-refused reference unauthorized home home-IsReady refl

network-answered_example :
    (w' : World) × ((Auth.network reference).settle (answers networks) home ≡ (w', ok undefined))
    × (w'.token ≡ home.token)
    × Sets auth
        (extended (view home.store auth) (obj (field "networks" (prop "networkList" networks) end)))
        home.store
        w'.store
unfolding prop field_of
network-answered_example =
    network-answered reference (answers networks) home home-IsReady networks refl

network-refused_example :
    (w' : World) × ((Auth.network reference).settle unauthorized home ≡ (w', ok undefined))
    × (w'.token ≡ token_after unauthorized home.token)
    × Sets (chart ChartSlice.error_message) (error_shown (reason unauthorized)) home.store w'.store
unfolding prop field_of
network-refused_example = network-refused reference unauthorized home home-IsReady refl

user_thunk-Settles_example :
    Settles
      (user_thunk reference (UserCall.register user))
      (answers (answer (num 400) "message" (str "Error: taken")))
      home
      (user_ending
        (registered (UserCall.register user))
        (success_of (UserCall.register user))
        (view home.store auth)
        (answers (answer (num 400) "message" (str "Error: taken")))).effect
      (user_ending
        (registered (UserCall.register user))
        (success_of (UserCall.register user))
        (view home.store auth)
        (answers (answer (num 400) "message" (str "Error: taken")))).result
user_thunk-Settles_example =
    user_thunk-Settles reference (UserCall.register user)
      (answers (answer (num 400) "message" (str "Error: taken"))) home home-IsReady
