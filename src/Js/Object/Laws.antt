-- ===== src/Js/Object/Laws.antt =====
-- Laws of fields, spread and decimal text.
use Prim.Native.Char.{Char, code}
use thermotrace_production.Common.{
  ℕ, zero, suc, ◌/◌, ◌%◌, String, List, [], ◌∷◌, All, true, false, nat_eq, ◌==◌, if◌then◌else◌, ◌≡◌,
  ◌≢◌, refl, ap, ◌<◌, Bool-cases, eq_iff, arith, inl, inr,
}
use thermotrace_production.Js.Value.{
  Value, undefined, null, str, arr, obj, Items, nil, cons, Fields, end, field, ok, throws,
  type_error, is_readable,
}
use thermotrace_production.Js.Object.{
  field_of, has_field, set_field, merge, get, prop, spread, item_fields, decimal, digits, pick,
  digit, decimal_from, text_fields,
}

pub field_of-set_field :
    (k j : String) (v : Value) (fs : Fields)
    → field_of j (set_field k v fs) ≡ (if k == j then v else field_of j fs)
unfolding field_of set_field
field_of-set_field k j v end = refl
field_of-set_field k j v (field i w fs) =
    ground (arith, eq_iff k j, eq_iff i k, eq_iff i j, field_of-set_field k j v fs)

-- What a spread brings hides what was there, and the rest stays.
pub field_of-merge :
    (k : String) (fs gs : Fields)
    → field_of k (merge fs gs) ≡ (if has_field k gs then field_of k gs else field_of k fs)
unfolding field_of has_field merge
field_of-merge k fs end = refl
field_of-merge k fs (field j v gs) =
    ground (arith, field_of-set_field j k v (merge fs gs), field_of-merge k fs gs)

-- A text is a numeral's if it starts with a digit.
StartsWithDigit : String → Type 0
StartsWithDigit s = (d : ℕ) × (t : String) × (s ≡ String.◌∷◌ (digit d) t)

decimal_from-StartsWithDigit : (f n : ℕ) (t : String) → StartsWithDigit (decimal_from f n t)
unfolding decimal_from StartsWithDigit
decimal_from-StartsWithDigit zero n t = (n % 10, t, refl)
decimal_from-StartsWithDigit (suc f) n t = elim (Bool-cases (nat_eq (n / 10) 0)) [
  | inl done ↦ (n % 10, t, rw done)
  | inr more ↦ rw more (decimal_from-StartsWithDigit f (n / 10) (String.◌∷◌ (digit (n % 10)) t))
]

-- A word that starts with a letter is no index.
decimal-ne-word :
    (c : Char) (s : String) → ((d : ℕ) → digit d ≢ c) → (n : ℕ) → decimal n ≢ String.◌∷◌ c s
unfolding decimal StartsWithDigit
decimal-ne-word c s letter n e =
    let (d, t, starts) = decimal_from-StartsWithDigit n n "" in letter d (cc)

text_fields-word :
    (c : Char) (s : String)
    → ((d : ℕ) → digit d ≢ c)
    → (n : ℕ) (t : String) → has_field (String.◌∷◌ c s) (text_fields n t) ≡ false
unfolding has_field text_fields
text_fields-word c s letter n String.[] = refl
text_fields-word c s letter n (String.◌∷◌ b t) = ground (
  arith,
  eq_iff (decimal n) (String.◌∷◌ c s),
  decimal-ne-word c s letter n,
  text_fields-word c s letter (suc n) t,
)

code-pick : (n : ℕ) (cs : List Char) → All (λ c. code c < 58) cs → code (pick n cs) < 58
unfolding pick
code-pick n [] h = omega arith
code-pick zero (c ∷ cs) h = h.0
code-pick (suc n) (c ∷ cs) h = code-pick n cs h.1

code-digit : (d : ℕ) → code (digit d) < 58
unfolding digit
code-digit d = code-pick d digits (omega arith)

digit-ne-letter : (c : Char) → 57 < code c → (d : ℕ) → digit d ≢ c
digit-ne-letter c letter d e = omega (arith, code-digit d, ap code e)

-- Spreading a text brings no field whose name starts with a letter.
pub has_field-text_fields :
    (c : Char) (s t : String) → 57 < code c → has_field (String.◌∷◌ c s) (text_fields 0 t) ≡ false
has_field-text_fields c s t letter = text_fields-word c s (digit-ne-letter c letter) 0 t

field_of-absent : (k : String) (fs : Fields) → has_field k fs ≡ false → field_of k fs ≡ undefined
unfolding has_field field_of
field_of-absent k end h = refl
field_of-absent k (field j v fs) h = ground (arith, field_of-absent k fs)

item_fields-word :
    (c : Char) (s : String)
    → ((d : ℕ) → digit d ≢ c)
    → (n : ℕ) (vs : Items) → has_field (String.◌∷◌ c s) (item_fields n vs) ≡ false
unfolding has_field item_fields
item_fields-word c s letter n nil = refl
item_fields-word c s letter n (cons v vs) = ground (
  arith,
  eq_iff (decimal n) (String.◌∷◌ c s),
  decimal-ne-word c s letter n,
  item_fields-word c s letter (suc n) vs,
)

-- A field whose name starts with a letter is spread from objects only.
pub field_of-spread :
    (c : Char) (s : String) (v : Value)
    → 57 < code c
    → field_of (String.◌∷◌ c s) (spread v) ≡ prop (String.◌∷◌ c s) v
unfolding spread prop
field_of-spread c s (obj fs) letter = refl
field_of-spread c s (str t) letter =
    field_of-absent _ (text_fields 0 t) (text_fields-word c s (digit-ne-letter c letter) 0 t)
field_of-spread c s (arr vs) letter =
    field_of-absent _ (item_fields 0 vs) (item_fields-word c s (digit-ne-letter c letter) 0 vs)
field_of-spread c s undefined letter = unfold field_of in refl
field_of-spread c s _ letter = unfold field_of in refl

-- A property of a value that is neither `undefined` nor `null`.
pub get-readable : (v : Value) (k : String) → is_readable v ≡ true → get v k ≡ ok (prop k v)
unfolding get prop
get-readable undefined k h = cc
get-readable null k h = cc
get-readable (obj fs) k h = refl
get-readable _ k h = refl

pub get-unreadable : (v : Value) (k : String) → is_readable v ≡ false → get v k ≡ throws type_error
unfolding get
get-unreadable undefined k h = refl
get-unreadable null k h = refl
get-unreadable _ k h = cc
