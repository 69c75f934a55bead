-- ===== src/Server/Http.antt =====
-- How an answer of the server reaches the client: express sends it, superagent receives it.
use thermotrace_production.Common.{ℕ, ◌≤◌, Bool, true, false, ◌&&◌, ◌≡◌}
use thermotrace_production.Js.Value.{
  Value, undefined, null, bool, num, str, arr, obj, Items, nil, cons, Fields, end, field,
  Completion, ok, throws, truthy,
}
use thermotrace_production.Js.Object.{prop, to_text}
use thermotrace_production.Request.{Reply}

-- A value that JSON carries as it is: it holds no `undefined`.
unfoldable mutual
  pub is_json : Value → Bool
  is_json undefined = false
  is_json null = true
  is_json (bool b) = true
  is_json (num n) = true
  is_json (str s) = true
  is_json (arr xs) = are_json xs
  is_json (obj fs) = has_json fs

  pub are_json : Items → Bool
  are_json nil = true
  are_json (cons v vs) = is_json v && are_json vs

  pub has_json : Fields → Bool
  has_json end = true
  has_json (field k v fs) = is_json v && has_json fs

-- `res.status(code).json(body)` at the server, as the reply that the client's request gets: an
-- error for the codes from 400 on.
pub record Http : Type 0 where
  pub deliver : ℕ → Value → Reply
  pub deliver_ok :
      (body : Value)
      → is_json body ≡ true
      → (truthy (deliver 200 body).error ≡ false) × (prop "body" (deliver 200 body).response ≡ body)
  pub deliver_error :
      (code : ℕ) (body : Value)
      → 400 ≤ code
      → (truthy (deliver code body).error ≡ true)
        × (truthy (deliver code body).response ≡ true)
        × (prop "status" (deliver code body).response ≡ num code)

module _ (http : Http) where
  -- `respond`: what an action gives, or the text of what it throws.
  unfoldable pub respond : Completion Value → Reply
  respond (ok value) = http.deliver 200 value
  respond (throws error) =
      http.deliver 200 (obj (field "status" (num 400) (field "message" (str (to_text error)) end)))
