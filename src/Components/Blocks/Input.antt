-- ===== src/Components/Blocks/Input.antt =====
-- What the two fields of the range form can hold.
use Prim.Native.Char.{code}
use native.Mathlib.Nat.{mul-le-mul_left, mul-le-mul_right, mul_assoc}
use thermotrace_production.Common.{
  ℕ, Bool, Option, zero, suc, ◌+◌, ◌-◌, ◌*◌, ◌≤◌, ◌<◌, String, true, List, [], ◌∷◌, ◌++◌, ◌≡◌, refl,
  arith, Bool-cases, inl, inr,
}
use thermotrace_production.Components.Blocks.{
  Blocks, handle_range_submit, number, number_from, digits_only, reg, fresh, RangeName, start_block,
  end_block, handle_range_change, handle_clear_search, handle_page_change, handle_rows_change,
  handle_multi_select, handle_dialog_close, click_search, choose_limit, searched, choose_from,
  choose_to, handle_dialog_open, handle_dialog_open_block_hash, handle_dialog_close_block_hash,
}
use thermotrace_production.Components.Blocks.Update.{
  step, run, Event, range_changed, range_submitted, cleared, page_changed, rows_changed,
  limit_chosen, orgs_selected, search_clicked, list_searched, updated, did_update, Props, Effect,
  page_effects, channel_effects, range_message, after_effects, click_after, dialog_closed,
  search_answered, search_done, from_chosen, to_chosen, dialog_opened, block_hash_opened,
  block_hash_closed,
}
use thermotrace_production.Components.Blocks.Range.{handle_range_submit-InRange}

-- The power of ten, as the numbers of `k` digits are below it.
abbrev ten_to : ℕ → ℕ
ten_to zero = 1
ten_to (suc k) = 10 * ten_to k

ten_to-positive : (k : ℕ) → 1 ≤ ten_to k
ten_to-positive zero = omega arith
ten_to-positive (suc k) = let rest = ten_to-positive k in omega arith

number_from-bound :
    (k n : ℕ) (s : String) → digits_only k s ≡ true → number_from n s + 1 ≤ (n + 1) * ten_to k
unfolding digits_only number_from
number_from-bound k n String.[] h =
    let grown = mul-le-mul_left (n + 1) (ten_to-positive k) in omega arith
number_from-bound zero n (String.◌∷◌ c s) h = cc
number_from-bound (suc k) n (String.◌∷◌ c s) h =
    let next = n * 10 + (code c - 48) in
    let digit : next + 1 ≤ (n + 1) * 10 = ground arith in
    let later = number_from-bound k next s (ground arith) in
    let grown = mul-le-mul_right (ten_to k) digit in
    let same = mul_assoc (n + 1) 10 (ten_to k) in omega arith

-- Both fields hold at most nine digits.
abbrev pub Typed : Blocks → Type 0
Typed s = (reg s.start_block ≡ true) × (reg s.end_block ≡ true)

submit-Typed : (s : Blocks) → Typed s → Typed (handle_range_submit s).0
submit-Typed s h = elim (handle_range_submit-InRange s) [
  | inl (fits, done) ↦ rw done h
  | inr (bad, (message, shown, done)) ↦ rw done h
]

change-Typed :
    (name : RangeName) (v : String) (s : Blocks) → Typed s → Typed (handle_range_change name v s)
unfolding handle_range_change
change-Typed start_block v s h = elim (Bool-cases (reg v)) [
  | inl digits ↦ rw digits (digits, h.1)
  | inr other ↦ rw other h
]
change-Typed end_block v s h = elim (Bool-cases (reg v)) [
  | inl digits ↦ rw digits (h.0, digits)
  | inr other ↦ rw other h
]

searched-Typed : (s : Blocks) → Typed s → Typed (searched s)
unfolding searched
searched-Typed s h = elim (Bool-cases s.query_flag) [
  | inl on ↦ rw on h
  | inr off ↦ elim (Bool-cases s.default_query) [
    | inl first ↦ rw (off, first) h
    | inr later ↦ rw (off, later) h
  ]
]

after-Typed : (es : List Effect) (s : Blocks) → Typed s → Typed (after_effects es s)
after-Typed [] s h = h
after-Typed (e ∷ es) s h = searched-Typed s h

updated-Typed :
    (before props : Props) (old s : Blocks) → Typed s → Typed (did_update before old props s).0
unfolding did_update
updated-Typed before props old s h =
    let paged = page_effects old s in
    let click = click_after paged s.search_click in
    after-Typed (channel_effects before props s ++ paged)
      (record s { search_click = click; range_err = range_message before props s }) h

from-Typed :
    (after : Option String → Option String → Bool) (date : Option String) (s : Blocks)
    → Typed s
    → Typed (choose_from after date s)
unfolding choose_from
from-Typed after date s h = elim (Bool-cases (after date s.to)) [
  | inl late ↦ rw late h
  | inr early ↦ rw early h
]

to-Typed :
    (before : Option String → Option String → Bool) (date : Option String) (s : Blocks)
    → Typed s
    → Typed (choose_to before date s)
unfolding choose_to
to-Typed before date s h = elim (Bool-cases (before date s.from)) [
  | inl early ↦ rw early h
  | inr late ↦ rw late h
]

step-Typed : (e : Event) (s : Blocks) → Typed s → Typed (step e s)
unfolding step search_done handle_clear_search handle_page_change handle_rows_change
    handle_multi_select handle_dialog_close handle_dialog_open handle_dialog_open_block_hash
    handle_dialog_close_block_hash click_search choose_limit digits_only
step-Typed (range_changed name v) s h = change-Typed name v s h
step-Typed range_submitted s h = submit-Typed s h
step-Typed (cleared now yesterday) s h = (refl, refl)
step-Typed (page_changed page) s h = h
step-Typed (rows_changed rows) s h = h
step-Typed (limit_chosen limit) s h = h
step-Typed (orgs_selected orgs) s h = h
step-Typed search_clicked s h = h
step-Typed list_searched s h = searched-Typed s h
step-Typed (updated before old props) s h = updated-Typed before props old s h
step-Typed search_answered s h = h
step-Typed (from_chosen after date) s h = from-Typed after date s h
step-Typed (to_chosen before date) s h = to-Typed before date s h
step-Typed dialog_opened s h = h
step-Typed dialog_closed s h = h
step-Typed block_hash_opened s h = h
step-Typed block_hash_closed s h = h

run-Typed : (events : List Event) (s : Blocks) → Typed s → Typed (run events s)
unfolding run
run-Typed [] s h = h
run-Typed (e ∷ es) s h = run-Typed es (step e s) (step-Typed e s h)

-- After any events of the page, the numbers in the two fields of the range are below 10 ^ 9.
pub run-number :
    (now yesterday : String) (events : List Event)
    → (number (run events (fresh now yesterday)).start_block < 1000000000)
      × (number (run events (fresh now yesterday)).end_block < 1000000000)
unfolding fresh digits_only
run-number now yesterday events =
    let (low, high) = run-Typed events (fresh now yesterday) (refl, refl) in
    let below = number_from-bound 9 0 (run events (fresh now yesterday)).start_block low in
    let below2 = number_from-bound 9 0 (run events (fresh now yesterday)).end_block high in
    (omega arith, omega arith)
