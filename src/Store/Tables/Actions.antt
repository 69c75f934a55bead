-- ===== src/Store/Tables/Actions.antt =====
-- blockchain-explorer/client/src/state/redux/tables/actions.js. There is no creator
-- `getErroMessage` here: the call of it in the operations is a TypeError.
use thermotrace_production.Js.Value.{Value, Completion, ok, ◌>>=◌}
use thermotrace_production.Js.Object.{get}
use thermotrace_production.Redux.{Action, action}
use thermotrace_production.Store.Tables.Types

abbrev pub get_block_list_search : Value → Action
get_block_list_search payload = action Types.block_list_search payload

abbrev pub get_loaded : Value → Action
get_loaded payload = action Types.block_range_loaded payload

abbrev pub get_chaincode_list : Value → Action
get_chaincode_list payload = action Types.chaincode_list payload

abbrev pub get_channels : Value → Action
get_channels payload = action Types.channels payload

abbrev pub get_peer_list : Value → Action
get_peer_list payload = action Types.peer_list payload

unfoldable pub get_block_range_search : Value → Completion Action
unfolding get
get_block_range_search resp = do
  payload ← get resp "data"
  ok (action Types.block_range_search payload)

unfoldable pub get_txn_list : Value → Completion Action
unfolding get
get_txn_list resp = do payload ← get resp "data"; ok (action Types.txn_list payload)

unfoldable pub get_block_search : Value → Completion Action
unfolding get
get_block_search resp = do payload ← get resp "data"; ok (action Types.block_search payload)

unfoldable pub get_chaincode_meta_data : Value → Completion Action
unfolding get
get_chaincode_meta_data resp = do
  payload ← get resp "data"
  ok (action Types.chaincode_meta_data payload)

abbrev pub get_transaction : Value → Action
get_transaction payload = action Types.transaction payload

abbrev pub get_transaction_list : Value → Action
get_transaction_list payload = action Types.transaction_list payload

abbrev pub get_transaction_list_search : Value → Action
get_transaction_list_search payload = action Types.transaction_list_search payload
