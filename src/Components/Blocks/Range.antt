-- ===== src/Components/Blocks/Range.antt =====
-- Which ranges of blocks are asked for.
use Prim.Native.String
use text.Mathlib.TextPositions.{len-append}
use thermotrace_production.Js.Object.{decimal}
use thermotrace_production.Common.{
  eq_iff, ℕ, ◌+◌, ◌-◌, ◌≤◌, ltb, leb, String, true, false, ◌||◌, ◌==◌, Option, some, none, ◌≡◌,
  refl, arith, ◌⊎◌, Bool-cases, inl, inr, ap,
}
use thermotrace_production.Components.Blocks.{
  Blocks, handle_range_submit, number, e001, e002, e003, e004,
}

-- Both ends are given, and the range from the first to the last counts at least one block and no
-- more than the limit.
abbrev pub InRange : Blocks → Type 0
InRange s =
    ((s.start_block == "") ≡ false)
    × ((s.end_block == "") ≡ false)
    × (number s.start_block ≤ number s.end_block)
    × (number s.end_block + 1 ≤ number s.start_block + s.range_limit)

-- A range that is not asked for leaves the form as it is, but for a message.
abbrev pub Refused : Blocks → Blocks × Option (String × String) → Type 0
Refused s r =
    (message : String) × ((message == "") ≡ false) × (r ≡ (record s { range_err = message }, none))

-- The list shows the range that is asked for from its first page on.
abbrev pub asked : Blocks → Blocks × Option (String × String)
asked s = (record s { search = true; brs = true; page = 0 }, some (s.start_block, s.end_block))

e004-present : (limit : ℕ) → (e004 limit == "") ≡ false
unfolding e004
e004-present limit = elim (Bool-cases (e004 limit == "")) [
  | inl empty ↦
      let nothing : e004 limit ≡ "" = (eq_iff (e004 limit) "").0 empty in
      let rest = String.◌++◌ (decimal limit) ". Increase it to search for higher range." in
      let long = len-append "No of Block(s) is set to " rest in
      let same = ap String.len nothing in absurd (omega arith)
  | inr present ↦ present
]

-- Either both ends of the range are given and it counts at least one block and at most the limit:
-- then the range form asks for the range of its two fields and shows it from its first page on. Or
-- not: then nothing is asked for, a message is shown and nothing else changes.
pub handle_range_submit-InRange :
    (s : Blocks)
    → (InRange s × (handle_range_submit s ≡ asked s))
      ⊎ ((¬ InRange s) × Refused s (handle_range_submit s))
unfolding handle_range_submit
handle_range_submit-InRange s = elim (Bool-cases (s.end_block == "" || s.start_block == "")) [
  | inl missing ↦ inr (λ ok. ground arith, (e001, refl, rw missing refl))
  | inr given ↦ elim (Bool-cases (ltb (number s.end_block) (number s.start_block))) [
    | inl empty ↦ inr (λ ok. ground arith, (e002, refl, rw (given, empty) refl))
    | inr ordered ↦
        elim (Bool-cases (leb s.range_limit (number s.end_block - number s.start_block))) [
          | inl long ↦ elim (Bool-cases (ltb s.range_limit 100)) [
            | inl low ↦ inr (
              λ ok. ground arith,
              (e004 s.range_limit, e004-present s.range_limit, rw (given, ordered, long, low) refl),
            )
            | inr high ↦
                inr (λ ok. ground arith, (e003, refl, rw (given, ordered, long, high) refl))
          ]
          | inr short ↦ inl (
            (ground arith, ground arith, ground arith, ground arith),
            rw (given, ordered, short) refl,
          )
        ]
  ]
]
