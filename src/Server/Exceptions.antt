-- ===== src/Server/Exceptions.antt =====
-- Exceptions of the server. A thrown `Error` stands as its text, which `toString` and template
-- literals give.
use Prim.Native.String
use thermotrace_production.Common.{String, Bool, true, false, ◌≡◌, refl}
use thermotrace_production.Js.Value.{
  Value, undefined, null, bool, num, str, Completion, ok, throws, is_str, is_num, is_undefined,
  is_null, ◌>>=◌, ◌>>◌,
}

-- `throw new Error(message)`
abbrev pub fail {ℓ} : {A : Type ℓ} → String → Completion A
fail message = throws (str (String.◌++◌ "Error: " message))

-- `if (b) throw new Error(message)`
abbrev pub refuse_if : Bool → String → Completion (Unit {0})
refuse_if true message = fail message
refuse_if false message = ok tt

-- `a === b`, where an object or an array of `a` is another than that of `b`
unfoldable pub strict_eq : Value → Value → Bool
strict_eq undefined b = is_undefined b
strict_eq null b = is_null b
strict_eq (bool true) (bool b) = b
strict_eq (bool false) (bool true) = false
strict_eq (bool false) (bool false) = true
strict_eq (num n) b = is_num n b
strict_eq (str s) b = is_str s b
strict_eq _ b = false

pub >>=-eq-ok {ℓ κ} :
    {A : Type ℓ} {B : Type κ} (m : Completion A) (f : A → Completion B) (b : B)
    → (m >>= f) ≡ ok b
    → (a : A) × (m ≡ ok a) × (f a ≡ ok b)
>>=-eq-ok (ok a) f b h = (a, refl, h)
>>=-eq-ok (throws e) f b h = cc

-- A guard that lets pass.
pub guard-ok {κ} :
    {B : Type κ} (test : Bool) (message : String) (m : Completion B) (b : B)
    → (refuse_if test message >> m) ≡ ok b
    → (test ≡ false) × (m ≡ ok b)
guard-ok true message m b h = cc
guard-ok false message m b h = (refl, h)
