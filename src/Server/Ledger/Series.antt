-- ===== src/Server/Ledger/Series.antt =====
-- The numbers of the blocks that are missing.
use thermotrace_production.Common.{
  ℕ, zero, suc, ◌<◌, Bool, true, false, not, ◌||◌, if◌then◌else◌, nat_eq, ltb, List, [], ◌∷◌, All,
  ◌≡◌, refl, ap, Bool-cases, inl, inr, arith,
}
use thermotrace_production.Server.Ledger.Crud.{series_without}

abbrev pub among : ℕ → List ℕ → Bool
among m [] = false
among m (n ∷ ns) = nat_eq n m || among m ns

pub or-false : (a : Bool) → (a || false) ≡ a
or-false true = refl
or-false false = refl

pub or-or : (a b c : Bool) → ((a || b) || c) ≡ (a || (b || c))
or-or true b c = refl
or-or false b c = refl

All-if {κ} :
    (P : ℕ → Type κ) (b : Bool) (n : ℕ) (rest : List ℕ)
    → P n
    → All P rest
    → All P (if b then rest else n ∷ rest)
All-if P true n rest h all = all
All-if P false n rest h all = (h, all)

-- The numbers of the series are below its end, and one below it that is left out has the property.
pub series_without-All {κ} :
    (P : ℕ → Type κ) (p : ℕ → Bool) (n : ℕ) (rest : List ℕ)
    → ((k : ℕ) → k < n → P k)
    → All P rest
    → All P (series_without p n rest)
unfolding series_without
series_without-All P p zero rest h all = all
series_without-All P p (suc n) rest h all =
    series_without-All P p n (if p n then rest else n ∷ rest) (λ k l. h k (omega arith))
      (All-if P (p n) n rest (h n (omega arith)) all)

among-series :
    (p : ℕ → Bool) (n m : ℕ) (rest : List ℕ)
    → p m ≡ false
    → (ltb m n || among m rest) ≡ true
    → among m (series_without p n rest) ≡ true
unfolding series_without
among-series p zero m rest h there = ground arith
among-series p (suc n) m rest h there =
    among-series p n m (if p n then rest else n ∷ rest) h (elim (Bool-cases (p n)) [
      | inl inside ↦
          let apart : ¬ (n ≡ m) = λ e. absurd (let same = ap p e in cc) in rw inside (ground arith)
      | inr outside ↦ rw outside (ground arith)
    ])

pub found_before :
    (p : ℕ → Bool) (n : ℕ) {m : ℕ}
    → m < n
    → not (among m (series_without p n [])) ≡ true
    → p m ≡ true
found_before p n {m} below left_out = elim (Bool-cases (p m)) [
  | inl h ↦ h
  | inr h ↦ let listed = among-series p n m [] h (ground arith) in cc
]

pub not-or : (a : Bool) → (not a || a) ≡ true
not-or true = refl
not-or false = refl
