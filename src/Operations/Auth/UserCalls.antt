-- ===== src/Operations/Auth/UserCalls.antt =====
-- The requests of `auth` on users, and what each does with a reply.
use thermotrace_production.Common.{true, ◌≡◌, refl, arith}
use thermotrace_production.Js.Value.{Value, str, obj, is_readable}
use thermotrace_production.Js.Object.{prop, spread, set_field}
use thermotrace_production.Js.Object.Laws.{field_of-spread}
use thermotrace_production.Redux.{Redux}
use thermotrace_production.Store.Auth.Types
use thermotrace_production.Store.Root.{auth, view}
use thermotrace_production.Session.{World}
use thermotrace_production.Store.Auth.Actions
use thermotrace_production.Session.Dispatch.{IsReady}
use thermotrace_production.Request.{Reply}
use thermotrace_production.Thunk.{Thunk}
use thermotrace_production.Operations.Auth
use thermotrace_production.Operations.Auth.{result, over}
use thermotrace_production.Operations.Effects.{Settles}
use thermotrace_production.Operations.Auth.Slice.{
  extended, spread-Sets, userlist-Sets, unregister-Sets,
}
use thermotrace_production.Operations.Auth.{settle_user, report_or}
use thermotrace_production.Operations.Auth.Users.{user_ending, Delivers, settle_user_lem}

pub data UserCall : Type 0 where
  register unregister : Value → UserCall
  userlist : UserCall

unfoldable pub user_thunk : Redux → UserCall → Thunk
user_thunk redux (register user) = Auth.register redux user
user_thunk redux (unregister user) = Auth.unregister redux user
user_thunk redux userlist = Auth.userlist redux

-- What the slice of `auth` holds after an ordinary answer: the user and the answer spread over it,
-- or the message of the answer under a key.
abbrev pub registered : UserCall → Value → Value → Value
registered (register user) old body = extended old (over user body)
registered (unregister user) old body =
    obj (set_field "unregistered" (prop "message" (over user body)) (spread old))
registered userlist old body = obj (set_field "userlists" (prop "message" body) (spread old))

-- The result of an ordinary answer.
abbrev pub success_of : UserCall → Value → Value
success_of (register user) body = result "success" (str "registered successfully!")
success_of (unregister user) body = result "success" (str "Unregistered successfully!")
success_of userlist body = result "success" body

over-readable : (a b : Value) → is_readable (over a b) ≡ true
unfolding over
over-readable a b = refl

message-spread : (body : Value) → prop "message" (obj (spread body)) ≡ prop "message" body
unfolding prop
message-spread body = field_of-spread "m" "essage" body (omega arith)

module _ (redux : Redux) where
  Delivers-register :
      (user : Value)
      → Delivers redux (λ resp. Actions.register (over user resp)) (registered (register user))
  Delivers-register user body w ready r =
      spread-Sets redux w ready Types.register (over user body) refl refl

  Delivers-unregister :
      (user : Value)
      → Delivers redux (λ resp. Actions.unregister (over user resp)) (registered (unregister user))
  Delivers-unregister user body w ready r =
      unregister-Sets redux w ready (over user body) (over-readable user body)

  Delivers-userlist :
      Delivers redux (λ resp. Actions.userlist (obj (spread resp))) (registered userlist)
  Delivers-userlist body w ready r =
      let (w', e, t, done) = userlist-Sets redux w ready (obj (spread body)) refl in
      (w', e, t, rw (message-spread body) at done)

  -- On a ready store every request on users ends as `user_ending` says: status 500 sets the error
  -- message of `charts` and gives no result; status 400 with a message that is a text gives the
  -- result `error` with the message less its first six characters and leaves the store, and with
  -- any other message, or none, it gives no result and spreads the exception over the slice of
  -- `auth`; an ordinary answer sets the slice of `auth` and gives the result `success`; without an
  -- answer the reason is spread over the slice of `auth` and there is no result. No other slice
  -- changes, and only an error with status 401 removes the token.
  pub user_thunk-Settles :
      (call : UserCall) (reply : Reply) (w : World)
      → IsReady w.store
      → Settles
          (user_thunk redux call)
          reply
          w
          (user_ending (registered call) (success_of call) (view w.store auth) reply).effect
          (user_ending (registered call) (success_of call) (view w.store auth) reply).result
  unfolding user_thunk Auth.register Auth.unregister Auth.userlist
  user_thunk-Settles (register user) reply w ready =
      settle_user_lem redux (λ resp. Actions.register (over user resp)) (registered (register user))
        (success_of (register user)) (Delivers-register user) reply w ready
  user_thunk-Settles (unregister user) reply w ready =
      settle_user_lem redux (λ resp. Actions.unregister (over user resp))
        (registered (unregister user)) (success_of (unregister user)) (Delivers-unregister user)
        reply w ready
  user_thunk-Settles userlist reply w ready =
      settle_user_lem redux (λ resp. Actions.userlist (obj (spread resp))) (registered userlist)
        (success_of userlist) Delivers-userlist reply w ready
