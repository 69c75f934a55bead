-- ===== src/Operations/Effects.antt =====
-- How a request's promise settles, and what an operation does to the store.
use thermotrace_production.Common.{
  String, true, false, ◌≡◌, ◌&&◌, if◌then◌else◌, Option, none, arith, ap, ◌∙◌,
}
use thermotrace_production.Js.Value.{
  Value, obj, end, field, ok, throws, truthy, is_num, is_readable,
}
use thermotrace_production.Js.Object.{get, prop}
use thermotrace_production.Js.Object.Laws.{get-readable}
use thermotrace_production.Store.Root.{Slice}
use thermotrace_production.Session.{World, deauthenticate_user}
use thermotrace_production.Session.Dispatch.{Sets}
use thermotrace_production.Request.{Reply, with_promise_callback}
use thermotrace_production.Thunk.{Thunk}

-- The token after a reply: an error with status 401 ends the session.
abbrev pub token_after : Reply → Option String → Option String
token_after reply token =
    if truthy reply.error && (truthy reply.response && is_num 401 (prop "status" reply.response))
    then none
    else token

pub callback-failed :
    (reply : Reply) (w : World)
    → truthy reply.error ≡ true
    → with_promise_callback reply w ≡ (
      record w { token = token_after reply w.token },
      throws (obj (field "error" reply.error end)),
    )
unfolding with_promise_callback deauthenticate_user
callback-failed reply w h = ground arith

pub callback-answered :
    (reply : Reply) (w : World)
    → truthy reply.error ≡ false
    → with_promise_callback reply w ≡ (w, get reply.response "body")
unfolding with_promise_callback
callback-answered reply w h = ground arith

-- A reply without an error has a response.
pub reply-responds :
    (reply : Reply) → truthy reply.error ≡ false → is_readable reply.response ≡ true
reply-responds reply sound = let there = reply.arrives in ground arith

pub callback-body :
    (reply : Reply) (w : World)
    → truthy reply.error ≡ false
    → with_promise_callback reply w ≡ (w, ok (prop "body" reply.response))
callback-body reply w sound =
    callback-answered reply w sound
    ∙ ap (λ c. (w, c)) (get-readable reply.response "body" (reply-responds reply sound))

-- What an operation does to the store: nothing, or it sets one slice.
pub data Effect : Type 0 where
  keeps : Effect
  sets : Slice → Value → Effect

abbrev pub Meets : Effect → Value → Value → Type 0
Meets keeps s s' = s' ≡ s
Meets (sets n v) s s' = Sets n v s s'

-- The effect of a reply: none on an error, else that of the body.
abbrev pub reply_effect : (Value → Effect) → Reply → Effect
reply_effect body_effect reply =
    if truthy reply.error then keeps else body_effect (prop "body" reply.response)

-- The operation settles with `result`, changes the store as `effect` says and the token as the
-- reply demands.
abbrev pub Settles : Thunk → Reply → World → Effect → Value → Type 0
Settles thunk reply w effect result =
    (w' : World) × (thunk.settle reply w ≡ (w', ok result))
    × (w'.token ≡ token_after reply w.token)
    × Meets effect w.store w'.store
