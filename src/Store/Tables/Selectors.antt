-- ===== src/Store/Tables/Selectors.antt =====
-- blockchain-explorer/client/src/state/redux/tables/selectors.js
use thermotrace_production.Common.{String}
use thermotrace_production.Js.Value.{Value, Completion, ◌>>=◌}
use thermotrace_production.Js.Object.{get}

-- `state.tables.slice.key`
abbrev of_slice : String → String → Value → Completion Value
of_slice slice key state = do tables ← get state "tables"; value ← get tables slice; get value key

abbrev pub chaincode_list_selector : Value → Completion Value
chaincode_list_selector state = of_slice "chaincodeList" "rows" state

abbrev pub channels_selector : Value → Completion Value
channels_selector state = of_slice "channels" "rows" state

abbrev pub peer_list_selector : Value → Completion Value
peer_list_selector state = of_slice "peerList" "rows" state

abbrev pub txn_list_selector : Value → Completion Value
txn_list_selector state = of_slice "txnList" "rows" state

abbrev pub block_search_selector : Value → Completion Value
block_search_selector state = of_slice "blockSearch" "rows" state

abbrev pub chaincode_meta_data_selector : Value → Completion Value
chaincode_meta_data_selector state = of_slice "chaincodeMetaData" "rows" state

abbrev pub transaction_selector : Value → Completion Value
transaction_selector state = of_slice "transaction" "transaction" state

abbrev pub transaction_list_selector : Value → Completion Value
transaction_list_selector state = of_slice "transactionList" "rows" state

abbrev pub transaction_list_search_selector : Value → Completion Value
transaction_list_search_selector state = of_slice "transactionListSearch" "rows" state

abbrev pub transaction_list_total_pages_selector : Value → Completion Value
transaction_list_total_pages_selector state = of_slice "transactionList" "noOfpages" state

abbrev pub transaction_list_search_total_pages_selector : Value → Completion Value
transaction_list_search_total_pages_selector state =
    of_slice "transactionListSearch" "noOfpages" state

abbrev pub transaction_list_search_page_param_selector : Value → Completion Value
transaction_list_search_page_param_selector state =
    of_slice "transactionListSearch" "pageParams" state

abbrev pub transaction_list_search_query_selector : Value → Completion Value
transaction_list_search_query_selector state = of_slice "transactionListSearch" "query" state

abbrev pub block_list_search_selector : Value → Completion Value
block_list_search_selector state = of_slice "blockListSearch" "rows" state

abbrev pub block_range_search_selector : Value → Completion Value
block_range_search_selector state = of_slice "blockRangeSearch" "rows" state

abbrev pub block_list_search_total_pages_selector : Value → Completion Value
block_list_search_total_pages_selector state = of_slice "blockListSearch" "noOfpages" state

abbrev pub block_list_search_page_param_selector : Value → Completion Value
block_list_search_page_param_selector state = of_slice "blockListSearch" "pageParams" state

abbrev pub block_list_search_query_selector : Value → Completion Value
block_list_search_query_selector state = of_slice "blockListSearch" "query" state

abbrev pub block_range_loaded_selector : Value → Completion Value
block_range_loaded_selector state = of_slice "blockRangeSearch" "loaded" state
