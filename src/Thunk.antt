-- ===== src/Thunk.antt =====
-- The two halves of an operation of the store: what it does when it is called, and what it does
-- with the reply to its request. Other operations may run in between.
use Prim.Native.String
use thermotrace_production.Common.{ℕ, zero, suc, String, List, [], ◌∷◌}
use thermotrace_production.Js.Value.{Value, undefined, str, Completion, ok, throws, type_error}
use thermotrace_production.Session.{Eff, pure}
use thermotrace_production.Request.{Request, Reply, get as get_request, post as post_request}

pub record Thunk : Type 0 where
  pub start : Eff Request
  pub settle : Reply → Eff Value

-- `get(uri)` and `post(uri, payload)` as the start of an operation
abbrev pub get : String → Eff Request
get uri w = (w, ok (get_request uri w))

abbrev pub post : String → Value → Eff Request
post uri payload w = (w, ok (post_request uri payload w))

-- The text of a template literal.
abbrev pub concat : List String → String
concat [] = ""
concat (s ∷ ss) = String.◌++◌ s (concat ss)

-- `console.error(error)`, the body of most handlers
abbrev pub log_error : Value → Eff Value
log_error error = pure undefined

abbrev pub internal_error : String
internal_error =
    "500 Internal Server Error: The server has encountered an internal error and unable to complete your request"

-- `v.substr(n)`, a method of texts; characters are counted by code points.
abbrev pub drop : ℕ → String → String
drop zero s = s
drop (suc n) String.[] = ""
drop (suc n) (String.◌∷◌ c s) = drop n s

abbrev pub substr : ℕ → Value → Completion Value
substr n (str s) = ok (str (drop n s))
substr n _ = throws type_error
