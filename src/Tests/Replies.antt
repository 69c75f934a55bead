-- ===== src/Tests/Replies.antt =====
-- The theorems on the operations at concrete replies.
use thermotrace_production.Common.{String, ◌≡◌, refl, All, List, [], ◌∷◌}
use thermotrace_production.Js.Value.{Value, undefined, obj, end, field, num, str, Completion, ok}
use thermotrace_production.Js.Object.{prop, field_of, to_text}
use thermotrace_production.Store.Root.{chart, table, TableSlice, view}
use thermotrace_production.Session.{World}
use thermotrace_production.Session.Dispatch.{IsReady, Sets}
use thermotrace_production.Session.Selection.{selectors, Selects}
use thermotrace_production.Request.{get as get_request}
use thermotrace_production.Thunk.{concat}
use thermotrace_production.Operations.Effects.{token_after, reply_effect, sets, Settles}
use thermotrace_production.Operations.Charts.Handler.{body_effect}
use thermotrace_production.Operations.Charts.Outcomes as ChartOutcomes
use thermotrace_production.Operations.Charts.Outcomes.{ChartCall, chart_thunk, chart_thunk-Settles}
use thermotrace_production.Operations.Tables as Tables
use thermotrace_production.Operations.Tables.Handler.{delivery_effect}
use thermotrace_production.Operations.Tables.Settle.{reply_delivers, Follows}
use thermotrace_production.Operations.Tables.Calls as TableCalls
use thermotrace_production.Operations.Tables.Calls.{TableCall, table_thunk}
use thermotrace_production.Operations.Tables.Outcomes.{table_thunk-Settles}
use thermotrace_production.Operations.Tables.Searches.{
  found, emptied, txn_list-settles, block_search-settles,
}
use thermotrace_production.Operations.Tables.Paging.{
  loading, transaction_page, block_range_search-starts, block_range_search-stays_loading,
  transaction_list_search-Settles,
}
use thermotrace_production.Client.{
  Event, run, chart_replies, table_replies, login_replies, range_search_starts,
}
use thermotrace_production.Client.Invariant.{run-IsReady, run-selectors}
use thermotrace_production.Tests.Reference.{reference}
use thermotrace_production.Tests.Sample.{home, home-IsReady, rows, answer, answers, unauthorized}

-- `JSON.stringify` and `JSON.parse`, where the text does not matter.
abbrev stringify : Value → String
stringify v = "[object]"

abbrev parse : String → Completion Value
parse text = ok (str text)

abbrev channel : Value
channel = str "mychannel"

abbrev failing : Value
failing = answer (num 500) "message" (str "no peers")

abbrev token_answer : Value
token_answer = answer (num 200) "token" (str "xyz")

abbrev params : Value
params = obj (field "page" (num 2) end)

abbrev events : List Event
events =
    login_replies (str "ann") (str "pw") (str "net") (answers token_answer)
    ∷ range_search_starts channel (num 1) (num 9)
    ∷ chart_replies ChartCall.channel_list (answers failing)
    ∷ table_replies (TableCall.peer_list channel) unauthorized
    ∷ []

run-IsReady_example : IsReady (run reference stringify parse events home).store
run-IsReady_example = run-IsReady reference stringify parse events home home-IsReady

run-selectors_example : All (Selects (run reference stringify parse events home).store) selectors
run-selectors_example = run-selectors reference stringify parse events home home-IsReady

chart_thunk-Settles_example :
    Settles
      (chart_thunk reference (ChartCall.block_per_hour channel))
      (answers failing)
      home
      (reply_effect
        (body_effect
          (chart (ChartOutcomes.target (ChartCall.block_per_hour channel)))
          (ChartOutcomes.shown (ChartCall.block_per_hour channel)))
        (answers failing))
      undefined
chart_thunk-Settles_example =
    chart_thunk-Settles reference (ChartCall.block_per_hour channel) (answers failing) home
      home-IsReady

table_thunk-Settles_example :
    Settles
      (table_thunk reference (TableCall.peer_list channel))
      unauthorized
      home
      (delivery_effect (table (TableCalls.target (TableCall.peer_list channel))) (
        reply_delivers
          (TableCalls.shown (TableCall.peer_list channel))
          (view home.store (table (TableCalls.target (TableCall.peer_list channel))))
          unauthorized))
      undefined
table_thunk-Settles_example =
    table_thunk-Settles reference (TableCall.peer_list channel) unauthorized home home-IsReady

txn_list-settles_example :
    (w' : World) × ((Tables.txn_list reference channel (num 7)).settle
        (answers (answer (num 200) "data" rows))
        home
      ≡ (w', ok undefined))
    × (w'.token ≡ token_after (answers (answer (num 200) "data" rows)) home.token)
    × Follows
        (table TableSlice.txn_list)
        (Sets (table TableSlice.block_search) emptied)
        (reply_delivers found
          (view home.store (table TableSlice.txn_list))
          (answers (answer (num 200) "data" rows)))
        home.store
        w'.store
txn_list-settles_example =
    txn_list-settles reference channel (num 7) (answers (answer (num 200) "data" rows)) home
      home-IsReady

block_search-settles_example :
    (w' : World) × ((Tables.block_search reference channel (num 7)).settle
        (answers (answer (num 200) "data" rows))
        home
      ≡ (w', ok undefined))
    × (w'.token ≡ token_after (answers (answer (num 200) "data" rows)) home.token)
    × Follows
        (table TableSlice.block_search)
        (Sets (table TableSlice.txn_list) emptied)
        (reply_delivers found
          (view home.store (table TableSlice.block_search))
          (answers (answer (num 200) "data" rows)))
        home.store
        w'.store
block_search-settles_example =
    block_search-settles reference channel (num 7) (answers (answer (num 200) "data" rows)) home
      home-IsReady

transaction_list_search-Settles_example :
    Settles
      (Tables.transaction_list_search reference channel (str "?q") params)
      (answers failing)
      home
      (reply_effect
        (λ body. sets (table TableSlice.transaction_list_search) (
          transaction_page
            (view home.store (table TableSlice.transaction_list_search))
            (str "?q")
            params
            body))
        (answers failing))
      undefined
transaction_list_search-Settles_example =
    transaction_list_search-Settles reference channel (str "?q") params (answers failing) home
      home-IsReady

block_range_search-starts_example :
    (w' : World) × ((Tables.block_range_search reference channel (num 1) (num 9)).start home ≡ (
      w',
      ok (
          get_request
            (concat (
              "/api/fetchDataByBlockRange/"
              ∷ to_text channel
              ∷ "/"
              ∷ to_text (num 1)
              ∷ "/"
              ∷ to_text (num 9)
              ∷ []))
            w'),
    ))
    × (w'.token ≡ home.token)
    × Sets (table TableSlice.block_range_search) loading home.store w'.store
block_range_search-starts_example =
    block_range_search-starts reference channel (num 1) (num 9) home home-IsReady

block_range_search-stays_loading_example :
    (w' : World) × ((Tables.block_range_search reference channel (num 1) (num 9)).settle
        unauthorized home
      ≡ (w', ok undefined))
    × (view w'.store (table TableSlice.block_range_search) ≡ loading)
unfolding view prop field_of
block_range_search-stays_loading_example =
    block_range_search-stays_loading reference channel (num 1) (num 9) unauthorized home
      home-IsReady refl refl
