-- ===== src/Components/Blocks/Query.antt =====
-- Which query a search of the list of blocks sends.
use thermotrace_production.Common.{
  String, Bool, Option, true, false, ◌&&◌, List, [], ◌∷◌, ◌++◌, ◌≡◌, refl, arith, Bool-cases, inl,
  inr, All,
}
use thermotrace_production.Js.Value.{Value}
use thermotrace_production.Components.Blocks.{
  Blocks, handle_range_submit, fresh, RangeName, start_block, end_block, reg, handle_range_change,
  handle_clear_search, handle_page_change, handle_rows_change, handle_multi_select,
  handle_dialog_close, click_search, choose_limit, searched, choose_from, choose_to,
  handle_dialog_open, handle_dialog_open_block_hash, handle_dialog_close_block_hash, query_of,
}
use thermotrace_production.Components.Blocks.Update.{
  step, run, Event, range_changed, range_submitted, cleared, page_changed, rows_changed,
  limit_chosen, orgs_selected, search_clicked, list_searched, updated, did_update, Props, Effect,
  page_effects, channel_effects, range_message, after_effects, click_after, dialog_closed,
  search_answered, search_done, from_chosen, to_chosen, dialog_opened, block_hash_opened,
  block_hash_closed,
}
use thermotrace_production.Components.Blocks.Range.{handle_range_submit-InRange}

-- An event other than a click on `Search`.
abbrev pub is_other : Event → Bool
is_other search_clicked = false
is_other e = true

abbrev is_quiet : Event → Bool
is_quiet search_clicked = false
is_quiet list_searched = false
is_quiet (updated before old props) = false
is_quiet e = true

abbrev Flags : Bool → Bool → Blocks → Type 0
Flags q d s = (s.query_flag ≡ q) × (s.default_query ≡ d)

submit-Flags : (q d : Bool) (s : Blocks) → Flags q d s → Flags q d (handle_range_submit s).0
submit-Flags q d s h = elim (handle_range_submit-InRange s) [
  | inl (fits, done) ↦ rw done h
  | inr (bad, (message, shown, done)) ↦ rw done h
]

change-Flags :
    (q d : Bool) (name : RangeName) (v : String) (s : Blocks)
    → Flags q d s
    → Flags q d (handle_range_change name v s)
unfolding handle_range_change
change-Flags q d start_block v s h = elim (Bool-cases (reg v)) [
  | inl typed ↦ rw typed h
  | inr other ↦ rw other h
]
change-Flags q d end_block v s h = elim (Bool-cases (reg v)) [
  | inl typed ↦ rw typed h
  | inr other ↦ rw other h
]

from-Flags :
    (q d : Bool) (after : Option String → Option String → Bool) (date : Option String) (s : Blocks)
    → Flags q d s
    → Flags q d (choose_from after date s)
unfolding choose_from
from-Flags q d after date s h = elim (Bool-cases (after date s.to)) [
  | inl late ↦ rw late h
  | inr early ↦ rw early h
]

to-Flags :
    (q d : Bool) (before : Option String → Option String → Bool) (date : Option String) (s : Blocks)
    → Flags q d s
    → Flags q d (choose_to before date s)
unfolding choose_to
to-Flags q d before date s h = elim (Bool-cases (before date s.from)) [
  | inl early ↦ rw early h
  | inr late ↦ rw late h
]

-- A search leaves no flag but the two at once.
abbrev Single : Blocks → Type 0
Single s = (s.query_flag && s.default_query) ≡ false

searched-Flags : (s : Blocks) → Single s → Flags false false (searched s)
unfolding searched
searched-Flags s h = elim (Bool-cases s.query_flag) [
  | inl on ↦ rw on (refl, ground arith)
  | inr off ↦ elim (Bool-cases s.default_query) [
    | inl first ↦ rw (off, first) (refl, refl)
    | inr later ↦ rw (off, later) (refl, refl)
  ]
]

module _ (q d : Bool) where
  keeps-Flags : (e : Event) (s : Blocks) → is_quiet e ≡ true → Flags q d s → Flags q d (step e s)
  unfolding step search_done handle_clear_search handle_page_change handle_rows_change
      handle_multi_select handle_dialog_close handle_dialog_open handle_dialog_open_block_hash
      handle_dialog_close_block_hash choose_limit
  keeps-Flags (range_changed name v) s o h = change-Flags q d name v s h
  keeps-Flags range_submitted s o h = submit-Flags q d s h
  keeps-Flags (cleared now yesterday) s o h = h
  keeps-Flags (page_changed page) s o h = h
  keeps-Flags (rows_changed rows) s o h = h
  keeps-Flags (limit_chosen limit) s o h = h
  keeps-Flags (orgs_selected orgs) s o h = h
  keeps-Flags search_clicked s o h = cc
  keeps-Flags list_searched s o h = cc
  keeps-Flags (updated before old props) s o h = cc
  keeps-Flags search_answered s o h = h
  keeps-Flags (from_chosen after date) s o h = from-Flags q d after date s h
  keeps-Flags (to_chosen before date) s o h = to-Flags q d before date s h
  keeps-Flags dialog_opened s o h = h
  keeps-Flags dialog_closed s o h = h
  keeps-Flags block_hash_opened s o h = h
  keeps-Flags block_hash_closed s o h = h

off-searched : (s : Blocks) → Flags false false s → searched s ≡ s
unfolding searched
off-searched s (q, d) = rw (q, d) refl

after-off :
    (es : List Effect) (s : Blocks) → Flags false false s → Flags false false (after_effects es s)
after-off [] s h = h
after-off (e ∷ es) s h = rw (off-searched s h) h

updated-off :
    (before props : Props) (old s : Blocks)
    → Flags false false s
    → Flags false false (did_update before old props s).0
unfolding did_update
updated-off before props old s h =
    let paged = page_effects old s in
    let click = click_after paged s.search_click in
    after-off (channel_effects before props s ++ paged)
      (record s { search_click = click; range_err = range_message before props s }) h

step-off :
    (e : Event) (s : Blocks)
    → is_other e ≡ true
    → Flags false false s
    → Flags false false (step e s)
unfolding step
step-off search_clicked s o h = cc
step-off list_searched s o h = rw (off-searched s h) h
step-off (updated before old props) s o h = updated-off before props old s h
step-off e s o h = keeps-Flags false false e s refl h

run-off :
    (events : List Event) (s : Blocks)
    → All (λ e. is_other e ≡ true) events
    → Flags false false s
    → Flags false false (run events s)
unfolding run
run-off [] s o h = h
run-off (e ∷ es) s (o, os) h = run-off es (step e s) os (step-off e s o h)

Flags-Single : (q d : Bool) (s : Blocks) → (q && d) ≡ false → Flags q d s → Single s
Flags-Single q d s h (same, same2) = rw (same, same2) h

after-Single : (es : List Effect) (s : Blocks) → Single s → Single (after_effects es s)
after-Single [] s h = h
after-Single (e ∷ es) s h = Flags-Single false false (searched s) refl (searched-Flags s h)

updated-Single :
    (before props : Props) (old s : Blocks) → Single s → Single (did_update before old props s).0
unfolding did_update
updated-Single before props old s h =
    let paged = page_effects old s in
    let click = click_after paged s.search_click in
    after-Single (channel_effects before props s ++ paged)
      (record s { search_click = click; range_err = range_message before props s }) h

step-Single : (e : Event) (s : Blocks) → Single s → Single (step e s)
unfolding step click_search
step-Single search_clicked s h = refl
step-Single list_searched s h = Flags-Single false false (searched s) refl (searched-Flags s h)
step-Single (updated before old props) s h = updated-Single before props old s h
step-Single e s h =
    Flags-Single s.query_flag s.default_query (step e s) h
      (keeps-Flags s.query_flag s.default_query e s refl (refl, refl))

run-Single : (events : List Event) (s : Blocks) → Single s → Single (run events s)
unfolding run
run-Single [] s h = h
run-Single (e ∷ es) s h = run-Single es (step e s) (step-Single e s h)

-- After the list has been searched, every search until the next click on `Search` sends the query
-- that the store holds, whatever is typed, chosen and paged in between.
pub query_of-stored :
    (now yesterday epoch : String) (stored : Value) (before after : List Event)
    → All (λ e. is_other e ≡ true) after
    → query_of epoch stored (run after (searched (run before (fresh now yesterday)))) ≡ stored
unfolding query_of fresh
query_of-stored now yesterday epoch stored before after quiet =
    let (q, d) = run-off after (searched (run before (fresh now yesterday))) quiet (
      searched-Flags (run before (fresh now yesterday))
        (run-Single before (fresh now yesterday) refl)) in
    rw (q, d) refl
