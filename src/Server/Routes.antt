-- ===== src/Server/Routes.antt =====
-- The routes on users, blockchain-explorer/app/platform/fabric/rest/adminroutes.ts: what the
-- session says of the requester goes over what the body says.
pub mod Users
use thermotrace_production.Common.{Option}
use thermotrace_production.Js.Value.{Value, obj, end, field, Completion, ok, throws, ◌>>=◌}
use thermotrace_production.Js.Object.{get, spread, set_field}
use thermotrace_production.Request.{Reply}
use thermotrace_production.Server.Http.{Http, respond}
use thermotrace_production.Server.Users.Model.{UserModel}
use thermotrace_production.Server.Users.{Network, register, unregister, userlist}

-- Who asks, as the middleware for the session leaves it in the request.
pub record Requester : Type 0 where
  pub network : Value
  pub request_user_id : Value

-- `reqUser`: a copy of the body, whose field `user` the constructor of `User` reads first.
abbrev pub as_json : Value → Completion Value
as_json body = do user ← get body "user"; ok (obj (spread body))

abbrev pub stamped : Requester → Value → Value
stamped who user =
    obj (
      set_field "requestUserId" who.request_user_id (set_field "network" who.network (spread user)))

module _ (http : Http) (model : UserModel) (hash_sync : Value → Value → Completion Value)
    (networks : Value → Option Network) where
  -- `responder(action)`, for an action on the table of users
  abbrev pub respond_with :
      model.Table → Completion Value → (Value → model.Table × Value) → model.Table × Reply
  respond_with t (ok user) action = ((action user).0, respond http (ok (action user).1))
  respond_with t (throws error) action = (t, respond http (throws error))

  unfoldable pub register_route : Value → Requester → Value → model.Table → model.Table × Reply
  register_route salt who body t =
      respond_with t (as_json body)
        (λ user. register model hash_sync networks salt (stamped who user) t)

  unfoldable pub unregister_route : Requester → Value → model.Table → model.Table × Reply
  unregister_route who body t =
      respond_with t (as_json body)
        (λ user. unregister model hash_sync networks (stamped who user) t)

  unfoldable pub userlist_route : Requester → model.Table → Reply
  userlist_route who t =
      respond http
        (ok (userlist model hash_sync networks (obj (field "network" who.network end)) t))
