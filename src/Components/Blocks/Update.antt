-- ===== src/Components/Blocks/Update.antt =====
-- The update of the list of blocks, and the events of its page in any order:
-- blockchain-explorer/client/src/components/Lists/Blocks.js.
use thermotrace_production.Common.{
  ℕ, String, Bool, true, false, not, ◌&&◌, ◌||◌, ◌==◌, if◌then◌else◌, nat_eq, Option, some, none,
  List, [], ◌∷◌, ◌++◌,
}
use thermotrace_production.Js.Value.{Value, undefined, str}
use thermotrace_production.Components.Blocks.{
  Blocks, channel_of, RangeName, handle_range_change, handle_range_submit, handle_clear_search,
  handle_page_change, handle_rows_change, handle_multi_select, handle_dialog_close, click_search,
  choose_limit, searched, choose_from, choose_to, handle_dialog_open, handle_dialog_open_block_hash,
  handle_dialog_close_block_hash,
}

-- The properties that an update reads; the search of a range is `undefined` before the first.
pub record Props : Type 0 where
  pub current_channel : String
  pub block_range_loaded : Option Bool
  pub block_range_search : Value

-- The arguments of `getBlockRangeSearch`.
unfoldable pub search_block_range : Value → Props → Blocks → Value × String × String
search_block_range channel props s =
    (channel_of channel (str props.current_channel), s.start_block, s.end_block)

-- What an update starts: an interval that searches, and a search, each with its channel.
pub data Effect : Type 0 where
  restarts searches : Value → Effect

unfoldable pub handle_search : List Effect
handle_search = restarts undefined ∷ searches undefined ∷ []

-- The end of `handleSearch`, when the search has been answered.
unfoldable pub search_done : Blocks → Blocks
search_done s = record s { search = true }

abbrev same_flag : Option Bool → Option Bool → Bool
same_flag none none = true
same_flag (some true) (some true) = true
same_flag (some false) (some false) = true
same_flag _ _ = false

abbrev is_loaded : Option Bool → Bool
is_loaded (some b) = b
is_loaded none = false

unfoldable pub channel_effects : Props → Props → Blocks → List Effect
channel_effects before props s =
    if s.search && not (props.current_channel == before.current_channel)
    then restarts (str props.current_channel) ∷ searches (str props.current_channel) ∷ []
    else []

unfoldable pub page_effects : Blocks → Blocks → List Effect
page_effects old s =
    if (not s.brs && not (nat_eq old.page s.page))
      || (not (nat_eq old.rows_per_page s.rows_per_page) || s.search_click)
    then handle_search
    else []

abbrev text_or : String → Value → String
text_or other (str message) = message
text_or other _ = other

-- The message of the range after an update.
unfoldable pub range_message : Props → Props → Blocks → String
range_message before props s =
    if same_flag before.block_range_loaded props.block_range_loaded
    then s.range_err
    else if is_loaded props.block_range_loaded
    then text_or s.range_err props.block_range_search
    else ""

abbrev pub after_effects : List Effect → Blocks → Blocks
after_effects [] s = s
after_effects (e ∷ es) s = searched s

abbrev pub click_after : List Effect → Bool → Bool
click_after [] click = click
click_after (e ∷ es) click = false

-- `componentDidUpdate`, with the properties and the state before.
unfoldable pub did_update : Props → Blocks → Props → Blocks → Blocks × List Effect
did_update before old props s =
    let paged = page_effects old s in
    let effects = channel_effects before props s ++ paged in
    let message = range_message before props s in
    let click = click_after paged s.search_click in
    (after_effects effects (record s { search_click = click; range_err = message }), effects)

-- The events of the page. `list_searched` is the search of `componentDidMount` and of the interval.
pub data Event : Type 0 where
  updated : Props → Blocks → Props → Event
  range_changed : RangeName → String → Event
  range_submitted : Event
  cleared : String → String → Event
  page_changed rows_changed limit_chosen : ℕ → Event
  orgs_selected : List String → Event
  search_clicked : Event
  list_searched : Event
  search_answered : Event
  from_chosen to_chosen : (Option String → Option String → Bool) → Option String → Event
  dialog_opened dialog_closed block_hash_opened block_hash_closed : Event

unfoldable pub step : Event → Blocks → Blocks
step (range_changed name v) s = handle_range_change name v s
step range_submitted s = (handle_range_submit s).0
step (cleared now yesterday) s = handle_clear_search now yesterday s
step (page_changed page) s = handle_page_change page s
step (rows_changed rows) s = handle_rows_change rows s
step (limit_chosen limit) s = choose_limit limit s
step (orgs_selected orgs) s = handle_multi_select orgs s
step search_clicked s = click_search s
step list_searched s = searched s
step (updated before old props) s = (did_update before old props s).0
step search_answered s = search_done s
step (from_chosen after date) s = choose_from after date s
step (to_chosen before date) s = choose_to before date s
step dialog_opened s = handle_dialog_open s
step dialog_closed s = handle_dialog_close s
step block_hash_opened s = handle_dialog_open_block_hash s
step block_hash_closed s = handle_dialog_close_block_hash s

unfoldable pub run : List Event → Blocks → Blocks
run [] s = s
run (e ∷ es) s = run es (step e s)
