-- ===== src/Tests/Forms.antt =====
-- The theorems on the components at concrete inputs.
use thermotrace_production.Common.{
  true, false, some, ◌≡◌, ◌⊎◌, ◌≤◌, ◌<◌, refl, All, List, [], ◌∷◌, length,
}
use thermotrace_production.Js.Value.{Value, undefined, null, num, str, bool, obj, field, end, ok}
use thermotrace_production.Components.Register as Register
use thermotrace_production.Components.Register.Validity.{
  IsEmpty, acceptable, handle_change-all_valid, submit_form-all_valid,
}
use thermotrace_production.Components.Login as Login
use thermotrace_production.Components.Login.AutoLogin.{Anonymous, logins-once, logins-Anonymous}
use thermotrace_production.Components.Blocks as Blocks
use thermotrace_production.Components.Blocks.Update as Update
use thermotrace_production.Components.Blocks.Range.{
  InRange, Refused, asked, handle_range_submit-InRange,
}
use thermotrace_production.Components.Blocks.Input.{run-number}
use thermotrace_production.Components.Blocks.Stored.{query_of-repeats}
use thermotrace_production.Js.Object.{prop, field_of, get}
use thermotrace_production.Operations.Tables
use thermotrace_production.Operations.Tables.Calls.{block_list_search, block_page, shown}
use thermotrace_production.Operations.Tables.Settle.{reply_delivers}
use thermotrace_production.Request.{Reply}
use thermotrace_production.Session.{World}
use thermotrace_production.Store.Root.{table, TableSlice, view}
use thermotrace_production.Store.Tables.Selectors.{block_list_search_query_selector}
use thermotrace_production.Tests.Reference.{reference}
use thermotrace_production.Tests.Sample.{home, home-IsReady, rows, answer, answers}

abbrev entries : List Register.Event
entries =
    Register.changed Register.user "ann"
    ∷ Register.changed Register.roles "admin"
    ∷ Register.changed Register.password "pw"
    ∷ []

abbrev filled : Register.Form
filled = Register.handle_change Register.password2 "pw" (Register.run entries (Register.fresh null))

handle_change-all_valid_example : filled.all_valid ≡ acceptable filled
handle_change-all_valid_example = handle_change-all_valid null entries Register.password2 "pw"

filled-acceptable : acceptable filled ≡ true
unfolding Register.handle_change Register.run Register.fresh Register.step Register.validate
    Register.set_value Register.confirmation
filled-acceptable = refl

submit_form-all_valid_example :
    ((Register.submit_form "ann" null filled).all_valid ≡ true)
    × IsEmpty (Register.submit_form "ann" null filled)
    × (acceptable (Register.submit_form "ann" null filled) ≡ false)
    × ((Register.submit_form "ann" null filled).last_saved ≡ "ann")
submit_form-all_valid_example =
    submit_form-all_valid null null entries Register.password2 "pw" "ann" filled-acceptable

abbrev public_network : Login.Network
public_network = record { id = str "net"; name = "Net"; auth_enabled = bool false }

abbrev arrivals : List Login.Event
arrivals =
    Login.updated
    ∷ Login.received (public_network ∷ [])
    ∷ Login.updated
    ∷ Login.answered undefined
    ∷ Login.updated
    ∷ []

logins-once_example : length (Login.logins arrivals (Login.fresh [])) ≤ 1
logins-once_example = logins-once [] arrivals

logins-Anonymous_example : All Anonymous (Login.logins arrivals (Login.fresh []))
logins-Anonymous_example = logins-Anonymous [] arrivals

-- A range of nine blocks has been typed.
abbrev typed : List Update.Event
typed =
    Update.range_changed Blocks.start_block "12"
    ∷ Update.range_changed Blocks.end_block "20"
    ∷ Update.range_changed Blocks.end_block "2x"
    ∷ []

abbrev ranged : Blocks.Blocks
ranged = Update.run typed (Blocks.fresh "now" "yesterday")

handle_range_submit-InRange_example :
    (InRange ranged × (Blocks.handle_range_submit ranged ≡ asked ranged))
    ⊎ ((¬ InRange ranged) × Refused ranged (Blocks.handle_range_submit ranged))
handle_range_submit-InRange_example = handle_range_submit-InRange ranged

ranged-sent : (Blocks.handle_range_submit ranged).1 ≡ some ("12", "20")
unfolding Blocks.handle_range_submit Update.run Update.step Blocks.fresh Blocks.handle_range_change
    Blocks.digits_only Blocks.number_from
ranged-sent = refl

run-number_example :
    (Blocks.number (Update.run typed (Blocks.fresh "now" "yesterday")).start_block < 1000000000)
    × (Blocks.number (Update.run typed (Blocks.fresh "now" "yesterday")).end_block < 1000000000)
run-number_example = run-number "now" "yesterday" typed

abbrev found : Reply
found = answers (answer (num 200) "rows" (obj (field "blocksData" rows end)))

found-delivered :
    reply_delivers
      (shown (block_list_search (str "ch") (str "from=a&to=b") undefined))
      (view home.store (table TableSlice.block_list_search))
      found
    ≡ some (
        block_page rows
          (obj (field "blocksData" rows end))
          (view home.store (table TableSlice.block_list_search))
          (str "from=a&to=b")
          undefined)
unfolding prop field_of get view
found-delivered = refl

query_of-repeats_example :
    (w' : World) × ((Tables.block_list_search reference
          (str "ch")
          (str "from=a&to=b")
          undefined).settle
        found home
      ≡ (w', ok undefined))
    × ((stored : Value) × (block_list_search_query_selector w'.store ≡ ok stored)
        × (Blocks.query_of "epoch" stored (
              Update.run typed (
                Blocks.searched
                  (Update.run (Update.search_clicked ∷ []) (Blocks.fresh "now" "yesterday"))))
            ≡ str "from=a&to=b"))
query_of-repeats_example =
    query_of-repeats reference (str "ch") (str "from=a&to=b") undefined found home
      (block_page rows (obj (field "blocksData" rows end))
        (view home.store (table TableSlice.block_list_search)) (str "from=a&to=b") undefined)
      "now" "yesterday" "epoch" (Update.search_clicked ∷ []) typed home-IsReady found-delivered
      (refl, (refl, (refl, tt)))
