-- ===== src/Components/Blocks.antt =====
-- The list of blocks: blockchain-explorer/client/src/components/Lists/Blocks.js, with the limits
-- and messages of constants.js. A moment is the text of its date. Calls of `setState` in a handler
-- are applied together after it, so a handler reads the old state.
pub mod Range
pub mod Input
pub mod Query
pub mod Stored
pub mod Update
use Prim.Native.Char.{Char, code}
use Prim.Native.String
use thermotrace_production.Common.{
  ℕ, zero, suc, ◌+◌, ◌-◌, ◌*◌, ltb, leb, String, Bool, true, false, not, ◌&&◌, ◌||◌, ◌==◌,
  if◌then◌else◌, nat_eq, Option, some, none, List, [], ◌∷◌, ◌++◌, length,
}
use thermotrace_production.Js.Value.{Value, undefined, str, obj, end, field, num, is_undefined}
use thermotrace_production.Js.Object.{to_text, decimal}

-- `reg`: at most nine digits.
abbrev is_digit : Char → Bool
is_digit c = leb 48 (code c) && leb (code c) 57

unfoldable pub digits_only : ℕ → String → Bool
digits_only n String.[] = true
digits_only zero (String.◌∷◌ c s) = false
digits_only (suc n) (String.◌∷◌ c s) = is_digit c && digits_only n s

abbrev pub reg : String → Bool
reg s = digits_only 9 s

-- `Number(s)` of a text of digits; that of the empty text is 0.
unfoldable pub number_from : ℕ → String → ℕ
number_from n String.[] = n
number_from n (String.◌∷◌ c s) = number_from (n * 10 + (code c - 48)) s

abbrev pub number : String → ℕ
number s = number_from 0 s

abbrev pub default_range_limit : ℕ
default_range_limit = 10

abbrev pub e001 : String
e001 = "Please enter From and To fields"

abbrev pub e002 : String
e002 = "\"To\" Block should be less than or equal to \"From\" Block"

abbrev pub e003 : String
e003 = "Maximum allowed No of Block(s) is 100"

unfoldable pub e004 : ℕ → String
e004 limit =
    String.◌++◌ "No of Block(s) is set to "
      (String.◌++◌ (decimal limit) ". Increase it to search for higher range.")

pub record Blocks : Type 0 where
  pub dialog_open : Bool
  pub dialog_open_block_hash : Bool
  pub err : Bool
  pub search : Bool
  pub to : Option String
  pub orgs : List String
  pub from : Option String
  pub page : ℕ
  pub rows_per_page : ℕ
  pub search_click : Bool
  pub query_flag : Bool
  pub default_query : Bool
  pub start_block : String
  pub end_block : String
  pub range_err : String
  pub brs : Bool
  pub range_limit : ℕ

-- `now` and `yesterday` are the moments of the call.
unfoldable pub fresh : String → String → Blocks
fresh now yesterday = record {
  dialog_open = false;
  dialog_open_block_hash = false;
  err = false;
  search = false;
  to = some now;
  orgs = [];
  from = some yesterday;
  page = 0;
  rows_per_page = 10;
  search_click = false;
  query_flag = false;
  default_query = true;
  start_block = "";
  end_block = "";
  range_err = "";
  brs = false;
  range_limit = default_range_limit;
}

-- `&orgs=` for each organisation
unfoldable pub with_orgs : List String → String → String
with_orgs [] query = query
with_orgs (o ∷ os) query = with_orgs os (String.◌++◌ query (String.◌++◌ "&orgs=" o))

-- `new Date(null)` is the start of 1970, a text that depends on the time zone.
module _ (epoch : String) where
  abbrev date_text : Option String → String
  date_text none = epoch
  date_text (some date) = date

  unfoldable pub dates : Option String → Option String → String
  dates none to = ""
  dates (some from) to = String.◌++◌ "from=" (String.◌++◌ from (String.◌++◌ "&to=" (date_text to)))

  -- The query of a search; `stored` is the property `blockListSearchQuery`, which the selector
  -- reads from the store.
  unfoldable pub query_of : Value → Blocks → Value
  query_of stored s =
      if s.query_flag
      then str (with_orgs s.orgs (dates s.from s.to))
      else if s.default_query
      then str ""
      else stored

-- The state after a search has read it.
unfoldable pub searched : Blocks → Blocks
searched s =
    if s.query_flag
    then record s { query_flag = false }
    else if s.default_query
    then record s { default_query = false }
    else s

unfoldable pub page_params : Blocks → Value
page_params s = obj (field "page" (num (s.page + 1)) (field "size" (num s.rows_per_page) end))

-- The channel of a search: the argument, or that of the properties.
unfoldable pub channel_of : Value → Value → Value
channel_of channel current = if is_undefined channel then current else channel

pub data RangeName : Type 0 where
  start_block end_block : RangeName

unfoldable pub handle_range_change : RangeName → String → Blocks → Blocks
handle_range_change start_block v s =
    if reg v then record s { start_block = v; range_err = "" } else s
handle_range_change end_block v s = if reg v then record s { end_block = v; range_err = "" } else s

abbrev refuse : String → Blocks → Blocks × Option (String × String)
refuse message s = (record s { range_err = message }, none)

-- The state, and the two ends of the range that is asked for. A difference below zero is less than
-- every limit, and is refused before.
unfoldable pub handle_range_submit : Blocks → Blocks × Option (String × String)
handle_range_submit s =
    if s.end_block == "" || s.start_block == ""
    then refuse e001 s
    else if ltb (number s.end_block) (number s.start_block)
    then refuse e002 s
    else if leb s.range_limit (number s.end_block - number s.start_block)
    then refuse (if ltb s.range_limit 100 then e004 s.range_limit else e003) s
    else (record s { search = true; brs = true; page = 0 }, some (s.start_block, s.end_block))

unfoldable pub handle_clear_search : String → String → Blocks → Blocks
handle_clear_search now yesterday s = record s {
  to = some now;
  orgs = [];
  err = false;
  from = some yesterday;
  start_block = "";
  end_block = "";
}

unfoldable pub handle_page_change : ℕ → Blocks → Blocks
handle_page_change page s = record s { page = page }

unfoldable pub handle_rows_change : ℕ → Blocks → Blocks
handle_rows_change rows s = record s { page = 0; rows_per_page = rows }

unfoldable pub handle_multi_select : List String → Blocks → Blocks
handle_multi_select orgs s = record s { orgs = orgs }

-- The two date pickers. How moments compare is up to the package moment: `after` stands for `>` and
-- `before` for `<`; a picker gives `null` where its field is emptied.
unfoldable pub choose_from :
    (Option String → Option String → Bool) → Option String → Blocks → Blocks
choose_from after date s =
    if after date s.to
    then record s { err = true; from = date }
    else record s { from = date; err = false }

unfoldable pub choose_to : (Option String → Option String → Bool) → Option String → Blocks → Blocks
choose_to before date s =
    if before date s.from
    then record s { err = true; to = date }
    else record s { to = date; err = false }

-- What opens the dialog of a transaction once its request has been answered, and that of a block.
unfoldable pub handle_dialog_open : Blocks → Blocks
handle_dialog_open s = record s { dialog_open = true }

unfoldable pub handle_dialog_open_block_hash : Blocks → Blocks
handle_dialog_open_block_hash s = record s { dialog_open_block_hash = true }

unfoldable pub handle_dialog_close : Blocks → Blocks
handle_dialog_close s = record s { dialog_open = false }

unfoldable pub handle_dialog_close_block_hash : Blocks → Blocks
handle_dialog_close_block_hash s = record s { dialog_open_block_hash = false }

-- The button `Search`, and the list of limits.
unfoldable pub click_search : Blocks → Blocks
click_search s = record s {
  page = 0;
  search_click = true;
  query_flag = true;
  default_query = false;
  brs = false;
}

unfoldable pub choose_limit : ℕ → Blocks → Blocks
choose_limit limit s = record s { range_limit = limit }

-- `selected.join(',')`
unfoldable pub join_with : String → List String → String
join_with o [] = o
join_with o (p ∷ ps) = String.◌++◌ o (String.◌++◌ "," (join_with p ps))

-- `handleCustomRender`: the text of a choice of organisations among the options.
unfoldable pub handle_custom_render : List String → List String → String
handle_custom_render [] options = "Select Orgs"
handle_custom_render (o ∷ os) options =
    if nat_eq (length (o ∷ os)) (length options) then "All Orgs Selected" else join_with o os
