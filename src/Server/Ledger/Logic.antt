-- ===== src/Server/Ledger/Logic.antt =====
-- What a program brings about from a state with a property, whether it returns or throws, and how
-- this is put together from its parts.
use thermotrace_production.Common.{
  ℕ, Bool, true, false, if◌then◌else◌, List, [], ◌∷◌, Option, some, none, ◌≡◌, refl, sym, subst,
}
use thermotrace_production.Js.Value.{Value, Completion, ok, throws}
use thermotrace_production.Server.Ledger.{
  Tables, Service, Program, lift, pure, modify, when, continue, caught, try_log, ◌>>=◌, ◌>>◌,
  statement, query, execute, answer,
}

-- `Q` where a value is returned, `X` where an exception is thrown.
abbrev pub Ends {ℓ} :
    {A : Type ℓ} → (A → Service → Type 0) → (Service → Type 0) → Service × Completion A → Type 0
Ends Q X (s, ok a) = Q a s
Ends Q X (s, throws e) = X s

pub record Leads {ℓ} {A : Type ℓ} (P : Service → Type 0) (m : Program A) (Q : A → Service → Type 0)
    (X : Service → Type 0) : Type 0 where
  pub run : (s : Service) → P s → Ends Q X (m s)

Ends-continue {ℓ κ} :
    {A : Type ℓ} {B : Type κ} (Q : A → Service → Type 0) (R : B → Service → Type 0)
    (X : Service → Type 0) (r : Service × Completion A) (f : A → Program B)
    → Ends Q X r
    → ((a : A) → Leads (Q a) (f a) R X)
    → Ends R X (continue r f)
Ends-continue Q R X (s, ok a) f h k = (k a).run s h
Ends-continue Q R X (s, throws e) f h k = h

Ends-either {ℓ} :
    {A : Type ℓ} (I : Service → Type 0) (r : Service × Completion A) → Ends (λ _. I) I r → I r.0
Ends-either I (s, ok a) h = h
Ends-either I (s, throws e) h = h

Ends-returned {ℓ} :
    {A : Type ℓ} (Q : A → Service → Type 0) (r : Service × Completion A)
    → Ends Q (λ _. ⊥) r
    → (a : A) × (r.1 ≡ ok a) × Q a r.0
Ends-returned Q (s, ok a) h = (a, refl, h)
Ends-returned Q (s, throws e) h = absurd h

-- Kept on both ends: kept by the program.
pub Leads-keeps {ℓ} :
    {A : Type ℓ} {I : Service → Type 0} {m : Program A}
    → Leads I m (λ _. I) I
    → (s : Service) → I s
    → I (m s).0
Leads-keeps {I = I} {m = m} h s p = Ends-either I (m s) (h.run s p)

-- No exception is possible: the program returns.
pub Leads-returns {ℓ} :
    {A : Type ℓ} {P : Service → Type 0} {m : Program A} {Q : A → Service → Type 0}
    → Leads P m Q (λ _. ⊥)
    → (s : Service) → P s
    → (a : A) × ((m s).1 ≡ ok a) × Q a (m s).0
Leads-returns {m = m} {Q = Q} h s p = Ends-returned Q (m s) (h.run s p)

module _ {ℓ κ} {A : Type ℓ} {B : Type κ} {P : Service → Type 0} {m : Program A}
    {Q : A → Service → Type 0} {R : B → Service → Type 0} {X : Service → Type 0} where
  pub Leads-bind :
      {f : A → Program B}
      → Leads P m Q X
      → ((a : A) → Leads (Q a) (f a) R X)
      → Leads P (m >>= f) R X
  unfolding ◌>>=◌
  Leads-bind {f} h k = record { run = λ s p. Ends-continue Q R X (m s) f (h.run s p) k }

pub Leads-then {ℓ κ} :
    {A : Type ℓ} {B : Type κ} {P : Service → Type 0} {m : Program A} {k : Program B}
    {R : B → Service → Type 0} {X : Service → Type 0} (Q : Service → Type 0)
    → Leads P m (λ _. Q) X
    → Leads Q k R X
    → Leads P (m >> k) R X
unfolding ◌>>◌
Leads-then {m = m} {k = k} {R = R} {X = X} Q h g = record {
  run = λ s p. Ends-continue (λ _. Q) R X (m s) (λ _. k) (h.run s p) (λ _. g);
}

pub Leads-if {ℓ} :
    {A : Type ℓ} {P : Service → Type 0} {m n : Program A} {Q : A → Service → Type 0}
    {X : Service → Type 0} (b : Bool)
    → (b ≡ true → Leads P m Q X)
    → (b ≡ false → Leads P n Q X)
    → Leads P (if b then m else n) Q X
Leads-if true h k = h refl
Leads-if false h k = k refl

Ends-lift :
    {A : Type 0} (P X : Service → Type 0) (c : Completion A) (s : Service)
    → P s
    → (P s → X s)
    → Ends (λ a s. (c ≡ ok a) × P s) X (s, c)
Ends-lift P X (ok a) s p h = (refl, p)
Ends-lift P X (throws e) s p h = h p

pub Leads-lift :
    {A : Type 0} {P X : Service → Type 0} (c : Completion A)
    → ((s : Service) → P s → X s)
    → Leads P (lift c) (λ a s. (c ≡ ok a) × P s) X
unfolding lift
Leads-lift {P = P} {X = X} c h = record { run = λ s p. Ends-lift P X c s p (h s) }

Ends-weaken {ℓ} :
    {A : Type ℓ} (Q : A → Service → Type 0) (X : Service → Type 0) (r : Service × Completion A)
    → Ends Q (λ _. ⊥) r
    → Ends Q X r
Ends-weaken Q X (s, ok a) h = h
Ends-weaken Q X (s, throws e) h = absurd h

-- A computation that gives a value.
pub Leads-value {ℓ κ} :
    {A : Type ℓ} {B : Type κ} {P X : Service → Type 0} {Q : B → Service → Type 0} (c : Completion A)
    (f : A → Program B) (a : A)
    → c ≡ ok a
    → Leads P (f a) Q X
    → Leads P (lift c >>= f) Q X
unfolding lift ◌>>=◌
Leads-value {X = X} {Q = Q} c f a made h = record {
  run = λ s p. subst (λ d. Ends Q X (continue (s, d) f)) (sym made) (h.run s p);
}

-- What the states from which the program runs tell of its parts.
pub Leads-assume {ℓ} :
    {A : Type ℓ} {B : Type 0} {P X : Service → Type 0} {m : Program A} {Q : A → Service → Type 0}
    → ((s : Service) → P s → B)
    → (B → Leads P m Q X)
    → Leads P m Q X
Leads-assume get h = record { run = λ s p. (h (get s p)).run s p }

pub Leads-throws {ℓ} :
    {A : Type ℓ} {P X : Service → Type 0} {Q : A → Service → Type 0} (e : Value)
    → ((s : Service) → P s → X s)
    → Leads P (lift (throws e)) Q X
unfolding lift
Leads-throws e h = record { run = h }

-- A test of the state.
pub Ends-if {ℓ} :
    {A : Type ℓ} (Q : A → Service → Type 0) (X : Service → Type 0) (r r' : Service × Completion A)
    (b : Bool)
    → (b ≡ true → Ends Q X r)
    → (b ≡ false → Ends Q X r')
    → Ends Q X (if b then r else r')
Ends-if Q X r r' true h k = h refl
Ends-if Q X r r' false h k = k refl

pub Leads-pure {ℓ} :
    {A : Type ℓ} {P X : Service → Type 0} {Q : A → Service → Type 0} (a : A)
    → ((s : Service) → P s → Q a s)
    → Leads P (pure a) Q X
unfolding pure
Leads-pure a h = record { run = h }

pub Leads-modify :
    {P Q X : Service → Type 0} (f : Service → Service)
    → ((s : Service) → P s → Q (f s))
    → Leads P (modify f) (λ _. Q) X
unfolding modify
Leads-modify f h = record { run = h }

pub Leads-weaken {ℓ} :
    {A : Type ℓ} {P X : Service → Type 0} {m : Program A} {Q : A → Service → Type 0}
    → Leads P m Q (λ _. ⊥)
    → Leads P m Q X
Leads-weaken {X = X} {m = m} {Q = Q} h = record { run = λ s p. Ends-weaken Q X (m s) (h.run s p) }

pub Leads-when :
    {P X : Service → Type 0} (test : Bool) (f : Service → Service)
    → ((s : Service) → P s → P (f s))
    → Leads P (when test (modify f)) (λ _. P) X
unfolding when
Leads-when test f h = Leads-if test (λ _. Leads-modify f h) (λ _. Leads-pure tt λ s p. p)

pub Leads-from {ℓ} :
    {A : Type ℓ} {P P' X : Service → Type 0} {m : Program A} {Q : A → Service → Type 0}
    → ((s : Service) → P s → P' s)
    → Leads P' m Q X
    → Leads P m Q X
Leads-from h g = record { run = λ s p. g.run s (h s p) }

-- `try { m } catch {}` ends as `m` does, in one way.
Ends-caught {ℓ} :
    {A : Type ℓ} (I X : Service → Type 0) (r : Service × Completion A)
    → Ends (λ _. I) I r
    → Ends (λ (u : Unit {0}). I) X (caught r)
Ends-caught I X (s, ok a) h = h
Ends-caught I X (s, throws e) h = h

pub Leads-try {ℓ} :
    {A : Type ℓ} {P I X : Service → Type 0} {m : Program A}
    → Leads P m (λ _. I) I
    → Leads P (try_log m) (λ _. I) X
unfolding try_log
Leads-try {I = I} {X = X} {m = m} h = record { run = λ s p. Ends-caught I X (m s) (h.run s p) }

-- A statement that is answered, and one that is refused.
Ends-answer {ℓ} :
    {A : Type ℓ} (Q : A → Service → Type 0) (X : Service → Type 0) (f : Tables → Tables × A)
    (s : Service) (refusals : List (Option Value))
    → ((rest : List (Option Value))
        → (refusals ≡ [] → rest ≡ [])
        → Q (f s.tables).1 (record s { tables = (f s.tables).0; refusals = rest }))
    → ((e : Value) (rest : List (Option Value))
        → refusals ≡ some e ∷ rest
        → X (record s { refusals = rest }))
    → Ends Q X (answer f s refusals)
Ends-answer Q X f s [] h k = h [] λ _. refl
Ends-answer Q X f s (none ∷ rest) h k = h rest λ e. cc
Ends-answer Q X f s (some e ∷ rest) h k = k e rest refl

module _ {P X : Service → Type 0} where
  pub Leads-execute :
      {Q : Service → Type 0} (f : Tables → Tables)
      → ((s : Service) (rest : List (Option Value))
          → (s.refusals ≡ [] → rest ≡ [])
          → P s
          → Q (record s { tables = f s.tables; refusals = rest }))
      → ((s : Service) (e : Value) (rest : List (Option Value))
          → s.refusals ≡ some e ∷ rest
          → P s
          → X (record s { refusals = rest }))
      → Leads P (execute f) (λ _. Q) X
  unfolding execute statement
  Leads-execute {Q} f h k = record {
    run = λ s p.
        Ends-answer (λ _. Q) X (λ t. (f t, tt)) s s.refusals (λ rest e. h s rest e p)
          (λ e rest r. k s e rest r p);
  }

  pub Leads-query {ℓ} :
      {A : Type ℓ} {Q : A → Service → Type 0} (f : Tables → A)
      → ((s : Service) (rest : List (Option Value))
          → (s.refusals ≡ [] → rest ≡ [])
          → P s
          → Q (f s.tables) (record s { refusals = rest }))
      → ((s : Service) (e : Value) (rest : List (Option Value))
          → s.refusals ≡ some e ∷ rest
          → P s
          → X (record s { refusals = rest }))
      → Leads P (query f) Q X
  unfolding query statement
  Leads-query {Q = Q} f h k = record {
    run = λ s p.
        Ends-answer Q X (λ t. (t, f t)) s s.refusals (λ rest e. h s rest e p)
          (λ e rest r. k s e rest r p);
  }

-- The same for properties of the tables alone.
module _ (p q x : Tables → Type 0) where
  pub Leads-tables :
      (f : Tables → Tables)
      → ((t : Tables) → p t → q (f t))
      → ((t : Tables) → p t → x t)
      → Leads (λ s. p s.tables) (execute f) (λ _ s. q s.tables) (λ s. x s.tables)
  Leads-tables f h k = Leads-execute f (λ s rest e. h s.tables) (λ s e rest r. k s.tables)

  pub Leads-count :
      (f : Tables → ℕ)
      → ((t : Tables) → p t → x t)
      → Leads (λ s. p s.tables) (query f) (λ n s. (n ≡ f s.tables) × p s.tables) (λ s. x s.tables)
  Leads-count f k = Leads-query f (λ s rest e h. (refl, h)) (λ s e rest r. k s.tables)

-- A state in which no statement is refused.
module _ {P : Service → Type 0} (quiet : (s : Service) → P s → s.refusals ≡ []) where
  refused_never :
      (s : Service) (e : Value) (rest : List (Option Value)) → s.refusals ≡ some e ∷ rest → P s → ⊥
  refused_never s e rest r p = let none_left = quiet s p in absurd cc

  pub Leads-answered :
      {Q : Service → Type 0} (f : Tables → Tables)
      → ((s : Service) → P s → Q (record s { tables = f s.tables; refusals = [] }))
      → Leads P (execute f) (λ _. Q) (λ _. ⊥)
  Leads-answered {Q} f h =
      Leads-execute f
        (λ s rest e p.
          subst (λ r. Q (record s { tables = f s.tables; refusals = r })) (sym (e (quiet s p)))
            (h s p))
        refused_never

  pub Leads-asked {ℓ} :
      {A : Type ℓ} {Q : A → Service → Type 0} (f : Tables → A)
      → ((s : Service) → P s → Q (f s.tables) (record s { refusals = [] }))
      → Leads P (query f) Q (λ _. ⊥)
  Leads-asked {Q = Q} f h =
      Leads-query f
        (λ s rest e p.
          subst (λ r. Q (f s.tables) (record s { refusals = r })) (sym (e (quiet s p))) (h s p))
        refused_never

-- A query that is refused.
pub Leads-refused {ℓ} :
    {A : Type ℓ} {P X : Service → Type 0} {Q : A → Service → Type 0} (f : Tables → A) (e : Value)
    (rest : List (Option Value))
    → ((s : Service) → P s → s.refusals ≡ some e ∷ rest)
    → ((s : Service) → P s → X (record s { refusals = rest }))
    → Leads P (query f) Q X
unfolding query statement
Leads-refused {X = X} {Q = Q} f e rest get h = record {
  run = λ s p. subst (λ r. Ends Q X (answer (λ t. (t, f t)) s r)) (sym (get s p)) (h s p);
}

Ends-thrown {ℓ} :
    {A : Type ℓ} (X : Service → Type 0) (r : Service × Completion A)
    → Ends (λ _ _. ⊥) X r
    → (e : Value) × (r.1 ≡ throws e) × X r.0
Ends-thrown X (s, ok a) h = absurd h
Ends-thrown X (s, throws e) h = (e, refl, h)

-- No value is possible: the program throws.
pub Leads-throw {ℓ} :
    {A : Type ℓ} {P : Service → Type 0} {m : Program A} {X : Service → Type 0}
    → Leads P m (λ _ _. ⊥) X
    → (s : Service) → P s
    → (e : Value) × ((m s).1 ≡ throws e) × X (m s).0
Leads-throw {m = m} {X = X} h s p = Ends-thrown X (m s) (h.run s p)

pub Leads-never {ℓ} :
    {A : Type ℓ} {m : Program A} {Q : A → Service → Type 0} {X : Service → Type 0}
    → Leads (λ _. ⊥) m Q X
Leads-never = record { run = λ s p. absurd p }
