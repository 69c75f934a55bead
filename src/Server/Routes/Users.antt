-- ===== src/Server/Routes/Users.antt =====
-- An operation of the client on users, answered by the server: what the client tells, and what the
-- table of users holds.
use thermotrace_production.Common.{String, true, ◌≡◌, refl, Option, some}
use thermotrace_production.Js.Value.{Value, str, num, obj, end, field, Completion, ok, is_readable}
use thermotrace_production.Js.Object.{spread}
use thermotrace_production.Redux.{Redux}
use thermotrace_production.Store.Root.{auth, view}
use thermotrace_production.Session.{World}
use thermotrace_production.Session.Dispatch.{IsReady}
use thermotrace_production.Request.{Reply, post}
use thermotrace_production.Thunk.{drop}
use thermotrace_production.Operations.Auth
use thermotrace_production.Operations.Auth.{result}
use thermotrace_production.Operations.Auth.Slice.{answer_of}
use thermotrace_production.Operations.Auth.UserCalls.{UserCall, user_thunk, registered, success_of}
use thermotrace_production.Operations.Effects.{Settles, keeps, sets}
use thermotrace_production.Server.Http.{Http, is_json}
use thermotrace_production.Server.Users.Model.{UserModel}
use thermotrace_production.Server.Users.{Network}
use thermotrace_production.Server.Routes.{Requester, stamped}

module _ (http : Http) where
  pub delivered-answer :
      (body : Value)
      → is_json body ≡ true
      → is_readable body ≡ true
      → answer_of (http.deliver 200 body) ≡ some body
  delivered-answer body plain readable =
      let (sound, same) = http.deliver_ok body plain in rw (sound, same, readable) refl

module _ (http : Http) (redux : Redux) (w : World) (ready : IsReady w.store) (model : UserModel)
    (hash_sync : Value → Value → Completion Value) (networks : Value → Option Network)
    (who : Requester) (user : Value) (t : model.Table) where
  -- What the client sends, and the user that the route makes of it.
  abbrev pub sent_body : Value
  sent_body = obj (spread user)

  abbrev pub asked : Value
  asked = stamped who sent_body

  -- The request that the client makes.
  abbrev pub Sends : UserCall → String → Type 0
  Sends call uri = (user_thunk redux call).start w ≡ (w, ok (post uri sent_body w))

  -- The answer of the server to a refusal.
  abbrev pub refusal : String → Value
  refusal message = obj (field "status" (num 400) (field "message" (str message) end))

  -- The server answers with a refusal, the client tells of an error with the text of that answer,
  -- and the table is as before.
  abbrev pub Declined : UserCall → model.Table × Reply → Type 0
  Declined call served =
      (served.0 ≡ t)
      × ((message : String) × (served.1 ≡ http.deliver 200 (refusal message))
          × Settles (user_thunk redux call) served.1 w keeps
              (result "error" (str (drop 6 message))))

  -- The client tells of a success, and the slice of `auth` holds the answer.
  abbrev pub Accepted : UserCall → Value → Reply → Type 0
  Accepted call body reply =
      Settles (user_thunk redux call) reply w (sets auth (registered call (view w.store auth) body))
        (success_of call body)
