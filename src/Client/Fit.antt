-- ===== src/Client/Fit.antt =====
-- The effects of the operations are fit for the selectors.
use thermotrace_production.Common.{true, ◌≡◌, refl, sym, Option, some, none, arith, subst}
use thermotrace_production.Js.Value.{Value, Completion, ok, throws, is_readable}
use thermotrace_production.Js.Object.{prop}
use thermotrace_production.Store.Root.{Slice, chart}
use thermotrace_production.Session.{World}
use thermotrace_production.Session.Dispatch.{IsReady, Sets, Sets-IsReady, slice_ok-readable}
use thermotrace_production.Request.{Reply}
use thermotrace_production.Thunk.{Thunk, substr}
use thermotrace_production.Operations.Auth.UserCalls.{UserCall}
use thermotrace_production.Operations.Charts.Outcomes.{ChartCall}
use thermotrace_production.Operations.Effects.{Effect, keeps, sets, Meets, reply_effect, Settles}
use thermotrace_production.Operations.Charts.Handler.{body_effect}
use thermotrace_production.Operations.Charts.Outcomes.{target, shown}
use thermotrace_production.Operations.Tables.Handler.{delivery_effect, Outcome}
use thermotrace_production.Operations.Tables.Settle.{reply_delivers, Follows}
use thermotrace_production.Operations.Auth.Users.{bad_request, ending, ending_of}
use thermotrace_production.Operations.Auth.UserCalls.{registered, success_of}

-- The effect sets a slice to nothing unfit for the selectors.
abbrev pub IsFit : Effect → Type 0
IsFit keeps = Unit
IsFit (sets n v) = is_readable v ≡ true

pub Meets-IsReady : (f : Effect) (s s' : Value) → IsReady s → Meets f s s' → IsFit f → IsReady s'
Meets-IsReady keeps s s' ready same fit = rw same ready
Meets-IsReady (sets n v) s s' ready done fit =
    Sets-IsReady n v s s' ready done (slice_ok-readable n v fit)

pub Settles-IsReady :
    (thunk : Thunk) (reply : Reply) (w : World) (f : Effect) (v : Value)
    → IsReady w.store
    → Settles thunk reply w f v
    → IsFit f
    → IsReady (thunk.settle reply w).0.store
Settles-IsReady thunk reply w f v ready (w', e, t, done) fit =
    subst (λ (r : World × Completion Value). IsReady r.0.store) (sym e)
      (Meets-IsReady f w.store w'.store ready done fit)

chart-shown-readable :
    (call : ChartCall) (body : Value)
    → is_readable body ≡ true
    → is_readable (shown call body) ≡ true
chart-shown-readable ChartCall.channel body r = r
chart-shown-readable (ChartCall.change_channel name) body r = r
chart-shown-readable (ChartCall.dash_stats name) body r = r
chart-shown-readable call body r = refl

pub body_effect-IsFit :
    (call : ChartCall) (body : Value) → IsFit (body_effect (chart (target call)) (shown call) body)
body_effect-IsFit call body = ground (arith, chart-shown-readable call body)

pub reply_effect-IsFit :
    (f : Value → Effect) (reply : Reply)
    → ((body : Value) → IsFit (f body))
    → IsFit (reply_effect f reply)
reply_effect-IsFit f reply fit = ground (arith, fit (prop "body" reply.response))

pub reply_delivers-readable :
    (outcome : Outcome) (old : Value) (reply : Reply) (v : Value)
    → ((body u : Value) → outcome old body ≡ ok u → is_readable u ≡ true)
    → reply_delivers outcome old reply ≡ some v
    → is_readable v ≡ true
reply_delivers-readable outcome old reply v fit h =
    ground (arith, fit (prop "body" reply.response) v)

pub delivery_effect-IsFit :
    (n : Slice) (d : Option Value)
    → ((v : Value) → d ≡ some v → is_readable v ≡ true)
    → IsFit (delivery_effect n d)
delivery_effect-IsFit n none fit = tt
delivery_effect-IsFit n (some v) fit = fit v refl

pub Follows-IsReady :
    (n m : Slice) (d : Option Value) (u s s' : Value)
    → IsReady s
    → Follows n (Sets m u) d s s'
    → is_readable u ≡ true
    → ((v : Value) → d ≡ some v → is_readable v ≡ true)
    → IsReady s'
Follows-IsReady n m none u s s' ready same fit fits = rw same ready
Follows-IsReady n m (some v) u s s' ready (mid, first, second) fit fits =
    Sets-IsReady m u mid s'
      (Sets-IsReady n v s mid ready first (slice_ok-readable n v (fits v refl))) second
      (slice_ok-readable m u fit)

bad_request-IsFit : (old : Value) (c : Completion Value) → IsFit (bad_request old c).effect
bad_request-IsFit old (ok msg) = tt
bad_request-IsFit old (throws e) = refl

registered-readable :
    (call : UserCall) (old body : Value) → is_readable (registered call old body) ≡ true
registered-readable (UserCall.register user) old body = refl
registered-readable call old body = refl

ending-IsFit :
    (call : UserCall) (old body : Value)
    → IsFit (ending (registered call) (success_of call) old body).effect
ending-IsFit call old body = ground (
  arith,
  bad_request-IsFit old (substr 6 (prop "message" body)),
  registered-readable call old body,
)

pub ending_of-IsFit :
    (call : UserCall) (old why : Value) (answer : Option Value)
    → IsFit (ending_of (registered call) (success_of call) old why answer).effect
ending_of-IsFit call old why (some body) = ending-IsFit call old body
ending_of-IsFit call old why none = refl
