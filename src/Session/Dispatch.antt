-- ===== src/Session/Dispatch.antt =====
-- What a dispatch does to the slices of the store.
use thermotrace_production.Common.{
  Bool, true, false, ◌≡◌, ◌≢◌, refl, sym, ◌∙◌, ap, Bool-cases, inl, inr, ◌⊎◌, subst,
}
use thermotrace_production.Js.Value.{
  Value, undefined, null, Completion, ok, throws, is_undefined, is_readable,
}
use thermotrace_production.Redux.{Redux, Action, default_to}
use thermotrace_production.Store.Root.{
  Slice, chart, table, ChartSlice, TableSlice, view, slice_reducer, root_reducer, types_of,
  is_among, initial,
}
use thermotrace_production.Store.Root.Refinement.{
  root-slices, root-IsStore, root_complete, IsStore, SliceAccepts,
}
use thermotrace_production.Store.Root.Frame.{slice_reducer-silent, root-frame, types_of_unique}
use thermotrace_production.Session.{World, dispatch}

-- What the selectors need of a slice: it is defined, and all but the notification are also not
-- `null`, since the selectors read a field of them.
abbrev is_notification : Slice → Bool
is_notification (chart ChartSlice.notification) = true
is_notification _ = false

abbrev pub slice_ok : Slice → Value → Bool
slice_ok n undefined = false
slice_ok n null = is_notification n
slice_ok n _ = true

pub record IsReady (s : Value) : Type 0 where
  pub store : IsStore s
  pub slices : (n : Slice) → slice_ok n (view s n) ≡ true

-- `s'` is `s` with the slice `n` set to `v`.
pub record Sets (n : Slice) (v : Value) (s s' : Value) : Type 0 where
  pub store : IsStore s'
  pub at : view s' n ≡ v
  pub rest : (m : Slice) → m ≢ n → view s' m ≡ view s m

-- How a call of a completion-valued function ends.
pub Completion-cases {ℓ} :
    {A : Type ℓ} (c : Completion A) → ((a : A) × (c ≡ ok a)) ⊎ ((e : Value) × (c ≡ throws e))
Completion-cases (ok a) = inl (a, refl)
Completion-cases (throws e) = inr (e, refl)

pub slice_ok-defined : (n : Slice) (v : Value) → slice_ok n v ≡ true → is_undefined v ≡ false
slice_ok-defined n undefined h = cc
slice_ok-defined n _ h = refl

pub default_to-defined : (d v : Value) → is_undefined v ≡ false → default_to d v ≡ v
default_to-defined d undefined h = cc
default_to-defined d _ h = refl

module _ (redux : Redux) (w : World) (a : Action) where
  pub dispatch-ok :
      (s' : Value)
      → root_reducer redux w.store a ≡ ok s'
      → dispatch redux a w ≡ (record w { store = s' }, ok tt)
  unfolding dispatch
  dispatch-ok s' h = rw (redux.dispatch_ok (root_reducer redux) a w.store s' h)

  pub dispatch-throws :
      (e : Value) → root_reducer redux w.store a ≡ throws e → dispatch redux a w ≡ (w, throws e)
  unfolding dispatch
  dispatch-throws e h = rw (redux.dispatch_throws (root_reducer redux) a w.store e h)

  module _ (n : Slice) (v : Value) (ready : IsReady w.store)
      (mine : is_among a.type (types_of n) ≡ true)
      (made : slice_reducer n (view w.store n) a ≡ ok v) (defined : is_undefined v ≡ false) where
    foreign : (m : Slice) → m ≢ n → is_among a.type (types_of m) ≡ false
    foreign m other = elim (Bool-cases (is_among a.type (types_of m))) [
      | inl h ↦ absurd (other (types_of_unique m n a.type h mine))
      | inr h ↦ h
    ]

    defined_before : (m : Slice) → is_undefined (view w.store m) ≡ false
    defined_before m = slice_ok-defined m (view w.store m) (ready.slices m)

    pub accepts : (m : Slice) → SliceAccepts w.store a m
    accepts m = elim (Bool-cases (is_among a.type (types_of m))) [
      | inl h ↦
          subst (SliceAccepts w.store a) (types_of_unique n m a.type mine h) (v, made, defined)
      | inr h ↦ (
        view w.store m,
        slice_reducer-silent m (view w.store m) a h
            ∙ ap ok (default_to-defined (initial m) (view w.store m) (defined_before m)),
        defined_before m,
      )
    ]

    -- On a ready store, the dispatch of an action that belongs to a slice, whose reducer gives a
    -- defined state for it, ends normally. It sets that slice to the state, changes no other slice
    -- and keeps the token.
    pub dispatch-Sets :
        (w' : World) × (dispatch redux a w ≡ (w', ok tt))
        × (w'.token ≡ w.token)
        × Sets n v w.store w'.store
    dispatch-Sets =
        let (s', done) = root_complete redux w.store a ready.store accepts in
        (
          record w { store = s' },
          dispatch-ok s' done,
          refl,
          record {
            store = root-IsStore redux w.store a s' done;
            at = cc (made, (root-slices redux w.store a s' done n).0);
            rest = λ m other.
                root-frame redux w.store a s' done m (foreign m other) (defined_before m);
          },
        )

  -- An action whose slice reducer gives none leaves the world as it is, and the call throws.
  pub dispatch-refused :
      (n : Slice)
      → ((v : Value) → slice_reducer n (view w.store n) a ≡ ok v → is_undefined v ≡ true)
      → (e : Value) × (dispatch redux a w ≡ (w, throws e))
  dispatch-refused n none = elim (Completion-cases (root_reducer redux w.store a)) [
    | inl (s', done) ↦
        let (made, defined) = root-slices redux w.store a s' done n in
        absurd (cc (none (view s' n) made, defined))
    | inr (e, failed) ↦ (e, dispatch-throws e failed)
  ]

  -- What holds of every slice that a reducer makes holds after the dispatch, however it ends.
  pub dispatch-IsReady :
      IsReady w.store
      → ((n : Slice) (v : Value)
          → slice_reducer n (view w.store n) a ≡ ok v
          → is_undefined v ≡ false
          → slice_ok n v ≡ true)
      → IsReady (dispatch redux a w).0.store
  dispatch-IsReady ready keeps = elim (Completion-cases (root_reducer redux w.store a)) [
    | inl (s', done) ↦
        subst (λ (r : World × Completion (Unit {0})). IsReady r.0.store) (sym (dispatch-ok s' done))
          (record {
            store = root-IsStore redux w.store a s' done;
            slices = λ n.
                let (made, defined) = root-slices redux w.store a s' done n in
                keeps n (view s' n) made defined;
          })
    | inr (e, failed) ↦
        subst (λ (r : World × Completion (Unit {0})). IsReady r.0.store)
          (sym (dispatch-throws e failed)) ready
  ]

Slice-discrete : Discrete Slice
Slice-discrete = hlevel

pub slice_ok-readable : (n : Slice) (v : Value) → is_readable v ≡ true → slice_ok n v ≡ true
slice_ok-readable n undefined h = h
slice_ok-readable n null h = cc
slice_ok-readable n _ h = refl

-- Setting a slice to a state that is fit for the selectors keeps the store ready.
pub Sets-IsReady :
    (n : Slice) (v s s' : Value) → IsReady s → Sets n v s s' → slice_ok n v ≡ true → IsReady s'
Sets-IsReady n v s s' ready sets fit = record {
  store = sets.store;
  slices = λ m. elim (Slice-discrete m n) [
    | yes here ↦ rw (here, sets.at) fit
    | no other ↦ rw (sets.rest m other) (ready.slices m)
  ];
}

table_ok-readable :
    (t : TableSlice) (v : Value) → slice_ok (table t) v ≡ true → is_readable v ≡ true
table_ok-readable t undefined h = h
table_ok-readable t null h = h
table_ok-readable t _ h = refl

-- Every slice of `tables` of a ready store has fields that can be read.
pub table-readable :
    (s : Value) → IsReady s → (t : TableSlice) → is_readable (view s (table t)) ≡ true
table-readable s ready t = table_ok-readable t (view s (table t)) (ready.slices (table t))

-- An action whose own slice stays fit keeps the store ready, however the dispatch ends.
pub dispatch-fit-IsReady :
    (redux : Redux) (w : World) (a : Action) (n : Slice)
    → IsReady w.store
    → is_among a.type (types_of n) ≡ true
    → ((v : Value)
        → slice_reducer n (view w.store n) a ≡ ok v
        → is_undefined v ≡ false
        → slice_ok n v ≡ true)
    → IsReady (dispatch redux a w).0.store
dispatch-fit-IsReady redux w a n ready mine fit =
    dispatch-IsReady redux w a ready λ m v made defined.
      elim (Bool-cases (is_among a.type (types_of m))) [
        | inl h ↦
            subst (λ k. slice_reducer k (view w.store k) a ≡ ok v → slice_ok k v ≡ true)
              (types_of_unique n m a.type mine h) (λ same. fit v same defined) made
        | inr h ↦
            let before = slice_ok-defined m (view w.store m) (ready.slices m) in
            let same : ok v ≡ ok (view w.store m) =
              sym made
              ∙ slice_reducer-silent m (view w.store m) a h
              ∙ ap ok (default_to-defined (initial m) (view w.store m) before) in
            let kept : v ≡ view w.store m = cc in rw kept (ready.slices m)
      ]
