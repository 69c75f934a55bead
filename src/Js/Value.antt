-- ===== src/Js/Value.antt =====
-- JavaScript values, their truth, and the completion of an expression: a value or an exception.
-- A number is a natural number: the code reads status codes, page numbers and block numbers. An
-- object is the list of its own enumerable fields; the order of the fields is not observed.
use thermotrace_production.Common.{ℕ, String, Bool, true, false, not, nat_eq, ◌==◌, if◌then◌else◌}

mutual
  pub data Value : Type 0 where
    undefined null : Value
    bool : Bool → Value
    num : ℕ → Value
    str : String → Value
    arr : Items → Value
    obj : Fields → Value

  pub data Fields : Type 0 where
    end : Fields
    field : String → Value → Fields → Fields

  pub data Items : Type 0 where
    nil : Items
    cons : Value → Items → Items

-- How an expression ends: with a value, or by an exception that carries one.
pub data Completion {ℓ} (A : Type ℓ) : Type ℓ where
  ok : A → Completion A
  throws : Value → Completion A

infixl 5 ◌>>=◌ ◌>>◌
abbrev pub ◌>>=◌ {ℓ κ} :
    {A : Type ℓ} {B : Type κ} → Completion A → (A → Completion B) → Completion B
ok a >>= f = f a
throws e >>= f = throws e

abbrev pub ◌>>◌ {ℓ κ} : {A : Type ℓ} {B : Type κ} → Completion A → Completion B → Completion B
m >> k = m >>= λ _. k

-- A `TypeError`: an object with no enumerable field.
abbrev pub type_error : Value
type_error = obj end

-- `if (v)`
abbrev pub truthy : Value → Bool
truthy undefined = false
truthy null = false
truthy (bool b) = b
truthy (num n) = not (nat_eq n 0)
truthy (str s) = not (s == "")
truthy (arr xs) = true
truthy (obj fs) = true

-- `a || b`
abbrev pub or_else : Value → Value → Value
or_else a b = if truthy a then a else b

-- `v === n` and `v === s`, for a number and for a text
abbrev pub is_num : ℕ → Value → Bool
is_num k (num n) = nat_eq n k
is_num k _ = false

abbrev pub is_str : String → Value → Bool
is_str k (str s) = s == k
is_str k _ = false

-- `v === undefined`, `v === null`
abbrev pub is_undefined : Value → Bool
is_undefined undefined = true
is_undefined _ = false

abbrev pub is_null : Value → Bool
is_null null = true
is_null _ = false

-- Neither `undefined` nor `null`: a property of it can be read.
abbrev pub is_readable : Value → Bool
is_readable undefined = false
is_readable null = false
is_readable _ = true
