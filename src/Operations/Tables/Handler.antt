-- ===== src/Operations/Tables/Handler.antt =====
-- How the handlers of `tables` treat an answer: what is delivered to a slice, and what is dropped.
use thermotrace_production.Common.{
  true, false, ◌≡◌, refl, if◌then◌else◌, Bool-cases, inl, inr, Option, some, none, arith, sym, ◌∙◌,
}
use thermotrace_production.Js.Value.{
  Value, undefined, Completion, ok, throws, is_num, is_readable, is_undefined, type_error,
}
use thermotrace_production.Js.Object.{prop}
use thermotrace_production.Js.Object.Laws.{get-readable, get-unreadable}
use thermotrace_production.Redux.{Redux, Action}
use thermotrace_production.Store.Root.{Slice, view, slice_reducer, types_of, is_among}
use thermotrace_production.Session.{World, dispatch}
use thermotrace_production.Session.Dispatch.{IsReady, Sets, dispatch-Sets, dispatch-refused}
use thermotrace_production.Operations.Effects.{Effect, keeps, sets}
use thermotrace_production.Operations.Tables.{report_or, get_erro_message}

-- What the slice is to hold, from what it holds and the answer: an exception if the reducer has
-- one.
abbrev pub Outcome : Type 0
Outcome = Value → Value → Completion Value

abbrev pub value_of : Completion Value → Option Value
value_of (ok v) = some v
value_of (throws e) = none

-- What an answer delivers: nothing with status 500 or 400, or where the reducer throws.
abbrev pub delivered : Outcome → Value → Value → Option Value
delivered outcome old body =
    if is_readable body
    then (if is_num 500 (prop "status" body)
        then none
        else if is_num 400 (prop "status" body)
        then none
        else value_of (outcome old body))
    else none

abbrev pub delivery_effect : Slice → Option Value → Effect
delivery_effect n none = keeps
delivery_effect n (some v) = sets n v

pub record Delivers (success : Value → Completion Action) (n : Slice) (outcome : Outcome)
    : Type 0 where
  pub makes : Value → Action
  pub made : (body : Value) → is_readable body ≡ true → success body ≡ ok (makes body)
  pub mine : (body : Value) → is_among (makes body).type (types_of n) ≡ true
  pub reduces :
      (old body : Value)
      → is_readable old ≡ true
      → is_readable body ≡ true
      → slice_reducer n old (makes body) ≡ outcome old body
  pub readable : (old body v : Value) → outcome old body ≡ ok v → is_readable v ≡ true

readable-defined : (v : Value) → is_readable v ≡ true → is_undefined v ≡ false
readable-defined undefined h = sym h
readable-defined _ h = refl

module _ (redux : Redux) (success : Value → Completion Action) (n : Slice) (outcome : Outcome)
    (delivers : Delivers success n outcome) (body : Value) (w : World) (ready : IsReady w.store)
    (old_readable : is_readable (view w.store n) ≡ true) where
  -- With an ordinary status the answer's action is dispatched.
  report_or-ordinary :
      is_readable body ≡ true
      → is_num 500 (prop "status" body) ≡ false
      → is_num 400 (prop "status" body) ≡ false
      → report_or redux success body w ≡ dispatch redux (delivers.makes body) w
  unfolding report_or
  report_or-ordinary r n500 n400 =
      rw (get-readable body "status" r, n500, n400, delivers.made body r)

  pub report_or-delivered :
      (v : Value)
      → delivered outcome (view w.store n) body ≡ some v
      → (w' : World) × (report_or redux success body w ≡ (w', ok tt))
        × (w'.token ≡ w.token)
        × Sets n v w.store w'.store
        × (is_readable v ≡ true)
  report_or-delivered v h =
      let r : is_readable body ≡ true = ground arith in
      let n500 : is_num 500 (prop "status" body) ≡ false = ground arith in
      let n400 : is_num 400 (prop "status" body) ≡ false = ground arith in
      let holds : outcome (view w.store n) body ≡ ok v = ground arith in
      let (w', e, t, done) =
        dispatch-Sets redux w (delivers.makes body) n v ready (delivers.mine body)
          (delivers.reduces (view w.store n) body old_readable r ∙ holds)
          (readable-defined v (delivers.readable (view w.store n) body v holds)) in
      (
        w',
        report_or-ordinary r n500 n400 ∙ e,
        t,
        done,
        delivers.readable (view w.store n) body v holds,
      )

  pub report_or-dropped :
      delivered outcome (view w.store n) body ≡ none
      → (e : Value) × (report_or redux success body w ≡ (w, throws e))
  unfolding report_or get_erro_message
  report_or-dropped h = elim (Bool-cases (is_readable body)) [
    | inr u ↦ (type_error, rw (get-unreadable body "status" u))
    | inl r ↦ elim (Bool-cases (is_num 500 (prop "status" body))) [
      | inl e500 ↦ (type_error, rw (get-readable body "status" r, e500))
      | inr n500 ↦ elim (Bool-cases (is_num 400 (prop "status" body))) [
        | inl e400 ↦
            (type_error, rw (get-readable body "status" r, n500, e400, get-readable body "error" r))
        | inr n400 ↦
            let (e, refused) = dispatch-refused redux w (delivers.makes body) n (λ v made.
              let holds : outcome (view w.store n) body ≡ ok v =
                sym (delivers.reduces (view w.store n) body old_readable r) ∙ made in
              cc (rw (r, n500, n400, holds) at h)) in
            (e, report_or-ordinary r n500 n400 ∙ refused)
      ]
    ]
  ]
