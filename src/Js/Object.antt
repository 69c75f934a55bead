-- ===== src/Js/Object.antt =====
-- Property access, spread and update of objects, and text made from values.
pub mod Laws
use Prim.Native.Char.{Char}
use Prim.Native.String
use thermotrace_production.Common.{
  ℕ, zero, suc, ◌/◌, ◌%◌, String, Bool, false, nat_eq, ◌==◌, if◌then◌else◌, ◌||◌, List, [], ◌∷◌,
}
use thermotrace_production.Js.Value.{
  Value, undefined, null, bool, num, str, arr, obj, Items, nil, cons, Fields, end, field,
  Completion, ok, throws, type_error, is_readable,
}

-- The field `k` of a list of fields.
unfoldable pub field_of : String → Fields → Value
field_of k end = undefined
field_of k (field j v fs) = if j == k then v else field_of k fs

unfoldable pub has_field : String → Fields → Bool
has_field k end = false
has_field k (field j v fs) = j == k || has_field k fs

unfoldable pub set_field : String → Value → Fields → Fields
set_field k v end = field k v end
set_field k v (field j w fs) = if j == k then field k v fs else field j w (set_field k v fs)

-- The fields of the second list over those of the first.
unfoldable pub merge : Fields → Fields → Fields
merge fs end = fs
merge fs (field k v gs) = set_field k v (merge fs gs)

-- `v.k`: reading a property of `undefined` or `null` is a TypeError.
unfoldable pub get : Value → String → Completion Value
unfolding field_of
get undefined k = throws type_error
get null k = throws type_error
get (obj fs) k = ok (field_of k fs)
get _ k = ok undefined

-- `v?.k`, and what `v.k` is where `v` is an object
unfoldable pub prop : String → Value → Value
unfolding field_of
prop k (obj fs) = field_of k fs
prop k _ = undefined

abbrev digits : List Char
digits = "0" ∷ "1" ∷ "2" ∷ "3" ∷ "4" ∷ "5" ∷ "6" ∷ "7" ∷ "8" ∷ []

pick : ℕ → List Char → Char
pick n [] = "9"
pick zero (c ∷ cs) = c
pick (suc n) (c ∷ cs) = pick n cs

digit : ℕ → Char
unfolding pick
digit d = pick d digits

-- The digits of `n` before `rest`; one unit of fuel for each digit, so `suc n` is enough.
decimal_from : ℕ → ℕ → String → String
decimal_from zero n rest = String.◌∷◌ (digit (n % 10)) rest
decimal_from (suc f) n rest =
    let here = String.◌∷◌ (digit (n % 10)) rest in
    let more = decimal_from f (n / 10) here in if nat_eq (n / 10) 0 then here else more

unfoldable pub decimal : ℕ → String
unfolding decimal_from digit
decimal n = decimal_from n n ""

-- The own fields of a text or an array: its elements under their indices.
unfoldable pub text_fields : ℕ → String → Fields
text_fields n String.[] = end
text_fields n (String.◌∷◌ c s) = field (decimal n) (str (String.◌∷◌ c "")) (text_fields (suc n) s)

unfoldable pub item_fields : ℕ → Items → Fields
item_fields n nil = end
item_fields n (cons v vs) = field (decimal n) v (item_fields (suc n) vs)

-- What `...v` puts into an object.
unfoldable pub spread : Value → Fields
unfolding text_fields item_fields
spread (obj fs) = fs
spread (str s) = text_fields 0 s
spread (arr xs) = item_fields 0 xs
spread _ = end

-- `String(v)`, which template literals use.
unfoldable mutual
  pub to_text : Value → String
  to_text undefined = "undefined"
  to_text null = "null"
  to_text (bool b) = if b then "true" else "false"
  to_text (num n) = decimal n
  to_text (str s) = s
  to_text (arr xs) = join xs
  to_text (obj fs) = "[object Object]"

  -- an array's elements between commas, `undefined` and `null` as nothing
  pub join : Items → String
  join nil = ""
  join (cons v nil) = if is_readable v then to_text v else ""
  join (cons v (cons w vs)) =
      String.◌++◌ (if is_readable v then to_text v else "") (String.◌++◌ "," (join (cons w vs)))
