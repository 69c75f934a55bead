-- ===== src/Store/Tables/Types.antt =====
-- blockchain-explorer/client/src/state/redux/tables/types.js
use thermotrace_production.Common.{String}

abbrev pub block_list : String
block_list = "tables/BLOCK_LIST"

abbrev pub chaincode_list : String
chaincode_list = "tables/CHAINCODE_LIST"

abbrev pub channels : String
channels = "tables/CHANNELS"

abbrev pub peer_list : String
peer_list = "tables/PEER_LIST"

abbrev pub txn_list : String
txn_list = "TXN_LIST"

abbrev pub block_search : String
block_search = "BLOCK_SEARCH"

abbrev pub chaincode_meta_data : String
chaincode_meta_data = "CHAINCODE_META_DATA"

abbrev pub transaction : String
transaction = "tables/TRANSACTION"

abbrev pub transaction_list : String
transaction_list = "tables/TRANSACTION_LIST"

abbrev pub block_list_search : String
block_list_search = "tables/BLOCK_LIST_SEARCH"

abbrev pub block_range_search : String
block_range_search = "BLOCK_RANGE_SEARCH"

abbrev pub block_range_loaded : String
block_range_loaded = "tables/BLOCK_RANGE_LOADED"

abbrev pub transaction_list_search : String
transaction_list_search = "tables/TRANSACTION_LIST_SEARCH"

abbrev pub orgs : String
orgs = "tables/ORGS"
