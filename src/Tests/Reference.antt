-- ===== src/Tests/Reference.antt =====
-- One way to meet the interface of `redux`, for the examples: the assumptions can hold together.
use text.Mathlib.Text.{starts_with}
use thermotrace_production.Common.{
  String, true, false, ◌≡◌, refl, sym, if◌then◌else◌, Bool-cases, inl, inr, List, [], ◌∷◌, All,
  distinct_keys, subst, eq_refl, has_key, ◌==◌, eq_iff, arith,
}
use thermotrace_production.Js.Value.{
  Value, undefined, obj, Fields, end, field, Completion, ok, throws, ◌>>=◌, is_undefined, is_null,
  type_error,
}
use thermotrace_production.Js.Object.{prop, field_of}
use thermotrace_production.Redux.{Redux, Action, action, Reducer, Accepts, Advances}
use thermotrace_production.Session.Dispatch.{Completion-cases}

-- The fields that the reducers make.
abbrev pub keep : String → Value → Completion Fields → Completion Fields
keep k v rest = if is_undefined v then throws type_error else (rest >>= λ fs. ok (field k v fs))

unfoldable pub advance : List (String × Reducer) → Value → Action → Completion Fields
advance [] s a = ok end
advance ((k, f) ∷ rs) s a = let rest = advance rs s a in f (prop k s) a >>= λ v. keep k v rest

unfoldable pub combine : List (String × Reducer) → Reducer
combine rs s a = if is_null s then throws type_error else (advance rs s a >>= λ fs. ok (obj fs))

-- The parts of a state that could be made.
kept :
    (k : String) (v : Value) (rest : Completion Fields) (fs : Fields)
    → keep k v rest ≡ ok fs
    → (fs0 : Fields) × (rest ≡ ok fs0) × (fs ≡ field k v fs0) × (is_undefined v ≡ false)
kept k v (throws x) fs e = elim (Bool-cases (is_undefined v)) [
  | inl bad ↦ absurd (cc (bad, e))
  | inr good ↦ absurd (cc (good, e))
]
kept k v (ok fs0) fs e = elim (Bool-cases (is_undefined v)) [
  | inl bad ↦ absurd (cc (bad, e))
  | inr good ↦ (fs0, refl, cc (good, e), good)
]

abbrev Holds : Value → Action → Fields → String × Reducer → Type 0
Holds s a fs (k, f) = (f (prop k s) a ≡ ok (field_of k fs)) × (is_undefined (field_of k fs) ≡ false)

Holds-field :
    (s : Value) (a : Action) (k : String) (v : Value) (fs : Fields) (rs : List (String × Reducer))
    → has_key k rs ≡ false
    → All (Holds s a fs) rs
    → All (Holds s a (field k v fs)) rs
unfolding field_of
Holds-field s a k v fs [] h all = tt
Holds-field s a k v fs ((j, f) ∷ rs) h (here, later) =
    let other : (k == j) ≡ false = ground (arith, eq_iff k j, eq_iff j k) in
    (rw other here, Holds-field s a k v fs rs (ground arith) later)

module _ (s : Value) (a : Action) where
  advance-Holds :
      (rs : List (String × Reducer)) (fs : Fields)
      → distinct_keys rs ≡ true
      → advance rs s a ≡ ok fs
      → All (Holds s a fs) rs
  unfolding advance field_of
  advance-Holds [] fs d e = tt
  advance-Holds ((k, f) ∷ rs) fs d e = elim (Completion-cases (f (prop k s) a)) [
    | inl (v, made) ↦
        let moved : keep k v (advance rs s a) ≡ ok fs =
          subst (λ (c : Completion Value). (c >>= λ x. keep k x (advance rs s a)) ≡ ok fs) made e in
        let (fs0, rest, same, good) = kept k v (advance rs s a) fs moved in
        subst (λ (gs : Fields). All (Holds s a gs) ((k, f) ∷ rs)) (sym same)
          (
            (rw (eq_refl k) (made, good)),
            Holds-field s a k v fs0 rs (ground arith) (advance-Holds rs fs0 (ground arith) rest),
          )
    | inr (x, thrown) ↦ absurd (cc (thrown, e))
  ]

combine-ok :
    (rs : List (String × Reducer)) (s : Value) (a : Action) (s' : Value)
    → combine rs s a ≡ ok s'
    → (fs : Fields) × (advance rs s a ≡ ok fs) × (s' ≡ obj fs)
unfolding combine
combine-ok rs s a s' e = elim (Bool-cases (is_null s)) [
  | inl bad ↦ absurd (cc (bad, e))
  | inr good ↦ elim (Completion-cases (advance rs s a)) [
    | inl (fs, made) ↦ (fs, made, cc (good, made, e))
    | inr (x, thrown) ↦ absurd (cc (good, thrown, e))
  ]
]

Holds-Advances :
    (rs : List (String × Reducer)) (s : Value) (a : Action) (fs : Fields)
    → All (Holds s a fs) rs
    → All (Advances s a (obj fs)) rs
unfolding prop
Holds-Advances [] s a fs all = tt
Holds-Advances ((k, f) ∷ rs) s a fs (here, later) = (here, Holds-Advances rs s a fs later)

advance_complete :
    (rs : List (String × Reducer)) (s : Value) (a : Action)
    → All (Accepts s a) rs
    → (fs : Fields) × (advance rs s a ≡ ok fs)
unfolding advance
advance_complete [] s a all = (end, refl)
advance_complete ((k, f) ∷ rs) s a ((v, made, defined), later) =
    let (fs, rest) = advance_complete rs s a later in (field k v fs, rw (made, rest, defined) refl)

pub combine_sound :
    (rs : List (String × Reducer)) (s : Value) (a : Action) (s' : Value)
    → distinct_keys rs ≡ true
    → combine rs s a ≡ ok s'
    → All (Advances s a s') rs
combine_sound rs s a s' d e =
    let (fs, made, same) = combine-ok rs s a s' e in
    subst (λ (t : Value). All (Advances s a t) rs) (sym same)
      (Holds-Advances rs s a fs (advance-Holds s a rs fs d made))

pub combine_complete :
    (rs : List (String × Reducer)) (s : Value) (a : Action)
    → distinct_keys rs ≡ true
    → is_null s ≡ false
    → All (Accepts s a) rs
    → (s' : Value) × (combine rs s a ≡ ok s')
unfolding combine
combine_complete rs s a d good all =
    let (fs, made) = advance_complete rs s a all in (obj fs, rw (good, made) refl)

pub combine-defined :
    (rs : List (String × Reducer)) (s : Value) (a : Action) (s' : Value)
    → combine rs s a ≡ ok s'
    → (is_undefined s' ≡ false) × (is_null s' ≡ false)
combine-defined rs s a s' e =
    let (fs, made, same) = combine-ok rs s a s' e in (rw same refl, rw same refl)

abbrev pub after : Value → Completion Value → Value × Completion (Unit {0})
after s (ok s') = (s', ok tt)
after s (throws e) = (s, throws e)

unfoldable pub send : Reducer → Action → Value → Value × Completion (Unit {0})
send r a s = after s (r s a)

abbrev pub first_action : Action
first_action = action "@@redux/INIT" undefined

pub first_action-private : starts_with first_action.type "@@redux/" ≡ true
first_action-private = refl

pub send-ok : (r : Reducer) (a : Action) (s s' : Value) → r s a ≡ ok s' → send r a s ≡ (s', ok tt)
unfolding send
send-ok r a s s' h = rw (h, send) refl

pub send-throws :
    (r : Reducer) (a : Action) (s e : Value) → r s a ≡ throws e → send r a s ≡ (s, throws e)
unfolding send
send-throws r a s e h = rw (h, send) refl

unfoldable pub reference : Redux
reference = record {
  combine_reducers = combine;
  combine_sound = combine_sound;
  combine_complete = combine_complete;
  combine_defined = combine-defined;
  dispatch = send;
  dispatch_ok = send-ok;
  dispatch_throws = send-throws;
  init = first_action;
  init_private = first_action-private;
  create_store = λ r s. r s first_action;
  create_store_lem = λ r s. refl;
}
