-- ===== src/Request.antt =====
-- blockchain-explorer/client/src/services/request.js. The package `superagent` sends a request and
-- calls back with an error and a response: what it calls back with is an argument, a `Reply`.
use Prim.Native.String
use thermotrace_production.Common.{String, true, ◌≡◌, ◌&&◌, ◌||◌, if◌then◌else◌, List, [], ◌∷◌}
use thermotrace_production.Js.Value.{Value, undefined, obj, end, field, truthy, is_num, is_readable}
use thermotrace_production.Js.Object.{get as get_property, prop, to_text}
use thermotrace_production.Session.{
  World, Eff, raise, lift, ◌>>◌, deauthenticate_user, get_token, pure,
}

pub record Request : Type 0 where
  pub method : String
  pub uri : String
  pub body : Value
  pub headers : List (String × String)

-- What `superagent` calls back with: an error or a response, or both.
pub record Reply : Type 0 where
  pub error : Value
  pub response : Value
  pub arrives : (truthy error || is_readable response) ≡ true

-- `bearer ${Auth.getToken()}`
unfoldable pub authorization : World → String × String
unfolding get_token to_text
authorization w = ("Authorization", String.◌++◌ "bearer " (to_text (get_token w)))

abbrev accept : String × String
accept = ("Accept", "application/json")

abbrev sending : String → String → Value → World → Request
sending method uri payload w = record {
  method = method;
  uri = uri;
  body = payload;
  headers = accept ∷ authorization w ∷ [];
}

unfoldable pub post : String → Value → World → Request
unfolding authorization
post uri payload w = sending "POST" uri payload w

unfoldable pub get : String → World → Request
unfolding authorization
get uri w = record {
  method = "GET";
  uri = uri;
  body = undefined;
  headers = accept ∷ authorization w ∷ ("Cache-Control", "no-cache") ∷ [];
}

unfoldable pub put : String → Value → World → Request
unfolding authorization
put uri payload w = sending "PUT" uri payload w

unfoldable pub delete_request : String → Value → World → Request
unfolding authorization
delete_request uri payload w = sending "DELETE" uri payload w

-- How the promise settles. Where there is no error there is a response, so `response.body` is read.
unfoldable pub with_promise_callback : Reply → Eff Value
with_promise_callback reply =
    if truthy reply.error
    then (do
      if truthy reply.response && is_num 401 (prop "status" reply.response)
          then deauthenticate_user
          else pure tt
      raise (obj (field "error" reply.error end)))
    else lift (get_property reply.response "body")
