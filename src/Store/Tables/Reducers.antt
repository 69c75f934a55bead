-- ===== src/Store/Tables/Reducers.antt =====
-- blockchain-explorer/client/src/state/redux/tables/reducers.js: the reducer of each slice of
-- `tables`, and the combined one.
use thermotrace_production.Common.{String, true, ◌==◌, if◌then◌else◌, [], ◌∷◌, List}
use thermotrace_production.Js.Value.{Value, bool, obj, end, field, Completion, ok, ◌>>=◌, or_else}
use thermotrace_production.Js.Object.{get, prop}
use thermotrace_production.Redux.{Reducer, Redux, default_to}
use thermotrace_production.Store.Tables.Types

abbrev initial_state : Value
initial_state = obj end

-- The state of a list that has been loaded.
abbrev loaded : String → Value → Value → Value
loaded key rows errors =
    obj (field key rows (field "loaded" (bool true) (field "errors" errors end)))

-- `state.noOfpages`, where `state` has its default
abbrev pages_of : Value → Completion Value
pages_of state = get (default_to initial_state state) "noOfpages"

unfoldable pub block_list_search_reducer : Reducer
unfolding get prop
block_list_search_reducer state a =
    if a.type == Types.block_list_search
    then (do
      rows ← get a.payload "rows"
      blocks ← get rows "blocksData"
      before ← pages_of state
      query ← get a.payload "query"
      params ← get a.payload "pageParams"
      ok (
          obj (
            field "rows" blocks (
              field "loaded" (bool true) (
                field "errors" a.error (
                  field "noOfpages" (or_else (prop "noOfpages" rows) before)
                    (field "query" query (field "pageParams" params end))))))))
    else ok (default_to initial_state state)

unfoldable pub chaincode_list_reducer : Reducer
unfolding get
chaincode_list_reducer state a =
    if a.type == Types.chaincode_list
    then (do rows ← get a.payload "chaincode"; ok (loaded "rows" rows a.error))
    else ok (default_to initial_state state)

unfoldable pub channels_reducer : Reducer
unfolding get
channels_reducer state a =
    if a.type == Types.channels
    then (do rows ← get a.payload "channels"; ok (loaded "rows" rows a.error))
    else ok (default_to initial_state state)

unfoldable pub peer_list_reducer : Reducer
unfolding get
peer_list_reducer state a =
    if a.type == Types.peer_list
    then (do rows ← get a.payload "peers"; ok (loaded "rows" rows a.error))
    else ok (default_to initial_state state)

unfoldable pub block_range_search_reducer : Reducer
block_range_search_reducer state a =
    if a.type == Types.block_range_search
    then ok (loaded "rows" a.payload a.error)
    else if a.type == Types.block_range_loaded
    then ok (obj (field "loaded" a.payload end))
    else ok (default_to initial_state state)

unfoldable pub txn_list_reducer : Reducer
txn_list_reducer state a =
    if a.type == Types.txn_list
    then ok (loaded "rows" a.payload a.error)
    else ok (default_to initial_state state)

unfoldable pub block_search_reducer : Reducer
block_search_reducer state a =
    if a.type == Types.block_search
    then ok (loaded "rows" a.payload a.error)
    else ok (default_to initial_state state)

unfoldable pub chaincode_meta_data_reducer : Reducer
chaincode_meta_data_reducer state a =
    if a.type == Types.chaincode_meta_data
    then ok (loaded "rows" a.payload a.error)
    else ok (default_to initial_state state)

unfoldable pub transaction_reducer : Reducer
unfolding get
transaction_reducer state a =
    if a.type == Types.transaction
    then (do rows ← get a.payload "row"; ok (loaded "transaction" rows a.error))
    else ok (default_to initial_state state)

unfoldable pub transaction_list_reducer : Reducer
unfolding get prop
transaction_list_reducer state a =
    if a.type == Types.transaction_list
    then (do
      rows ← get a.payload "rows"
      before ← pages_of state
      ok (
          obj (
            field "rows" (prop "txnsData" rows) (
              field "noOfpages" (or_else (prop "noOfpages" rows) before)
                (field "loaded" (bool true) (field "errors" a.error end))))))
    else ok (default_to initial_state state)

unfoldable pub transaction_list_search_reducer : Reducer
unfolding get prop
transaction_list_search_reducer state a =
    if a.type == Types.transaction_list_search
    then (do
      rows ← get a.payload "rows"
      before ← pages_of state
      query ← get a.payload "query"
      params ← get a.payload "pageParams"
      ok (
          obj (
            field "rows" (prop "txnsData" rows) (
              field "noOfpages" (or_else (prop "noOfpages" rows) before) (
                field "loaded" (bool true) (
                  field "errors" a.error (field "query" query (field "pageParams" params end))))))))
    else ok (default_to initial_state state)

abbrev pub tables_reducers : List (String × Reducer)
tables_reducers =
    ("chaincodeList", chaincode_list_reducer)
    ∷ ("channels", channels_reducer)
    ∷ ("peerList", peer_list_reducer)
    ∷ ("blockRangeSearch", block_range_search_reducer)
    ∷ ("txnList", txn_list_reducer)
    ∷ ("blockSearch", block_search_reducer)
    ∷ ("chaincodeMetaData", chaincode_meta_data_reducer)
    ∷ ("transaction", transaction_reducer)
    ∷ ("transactionList", transaction_list_reducer)
    ∷ ("blockListSearch", block_list_search_reducer)
    ∷ ("transactionListSearch", transaction_list_search_reducer)
    ∷ []

unfoldable pub tables_reducer : Redux → Reducer
tables_reducer redux = redux.combine_reducers tables_reducers
