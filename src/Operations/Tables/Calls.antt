-- ===== src/Operations/Tables/Calls.antt =====
-- The requests of `tables` that look at the status, with their slices and what these are to show.
use thermotrace_production.Common.{String, true}
use thermotrace_production.Js.Value.{
  Value, undefined, bool, num, obj, end, field, ok, ◌>>=◌, or_else,
}
use thermotrace_production.Js.Object.{get, prop}
use thermotrace_production.Redux.{Redux}
use thermotrace_production.Store.Root.{TableSlice}
use thermotrace_production.Thunk.{Thunk}
use thermotrace_production.Operations.Tables
use thermotrace_production.Operations.Tables.{with_search, page_of, size_of}
use thermotrace_production.Operations.Tables.Handler.{Outcome}

pub data TableCall : Type 0 where
  chaincode_list : Value → TableCall
  channels : TableCall
  peer_list : Value → TableCall
  transaction : Value → Value → TableCall
  transaction_list : Value → Value → TableCall
  chaincode_meta_data : Value → Value → TableCall
  block_list_search : Value → Value → Value → TableCall
  block_range_search : Value → Value → Value → TableCall

unfoldable pub table_thunk : Redux → TableCall → Thunk
table_thunk redux (chaincode_list channel) = Tables.chaincode_list redux channel
table_thunk redux channels = Tables.channels redux
table_thunk redux (peer_list channel) = Tables.peer_list redux channel
table_thunk redux (transaction channel transaction_id) =
    Tables.transaction redux channel transaction_id
table_thunk redux (transaction_list channel params) = Tables.transaction_list redux channel params
table_thunk redux (chaincode_meta_data channel query) =
    Tables.chaincode_meta_data redux channel query
table_thunk redux (block_list_search channel query page_params) =
    Tables.block_list_search redux channel query page_params
table_thunk redux (block_range_search channel query1 query2) =
    Tables.block_range_search redux channel query1 query2

-- The slice of `tables` that a request loads.
abbrev pub target : TableCall → TableSlice
target (chaincode_list channel) = TableSlice.chaincode_list
target channels = TableSlice.channels
target (peer_list channel) = TableSlice.peer_list
target (transaction channel transaction_id) = TableSlice.transaction
target (transaction_list channel params) = TableSlice.transaction_list
target (chaincode_meta_data channel query) = TableSlice.chaincode_meta_data
target (block_list_search channel query page_params) = TableSlice.block_list_search
target (block_range_search channel query1 query2) = TableSlice.block_range_search

-- The state of a slice that shows a list: the list under a key of the slice.
abbrev pub listed : String → Value → Value
listed key rows = obj (field key rows (field "loaded" (bool true) (field "errors" undefined end)))

-- The number of pages that an answer gives, or else the one that the slice had.
abbrev pub pages : Value → Value → Value
pages rows old = or_else (prop "noOfpages" rows) (prop "noOfpages" old)

-- What the slice of a search over blocks holds, with the list, the pages, and what was asked for.
abbrev pub block_page : Value → Value → Value → Value → Value → Value
block_page blocks rows old query page_params = obj (
    field "rows" blocks (
      field "loaded" (bool true) (
        field "errors" undefined (
          field "noOfpages" (pages rows old) (
            field "query" query (
              field "pageParams"
                (obj (
                  field "page" (or_else (prop "page" page_params) (num 1))
                    (field "size" (or_else (prop "size" page_params) (num 10)) end)))
                end))))))

-- What a slice holds after an answer, given what it held. A search over blocks whose answer has no
-- `rows` ends in an exception.
abbrev pub shown : TableCall → Outcome
shown (chaincode_list channel) old body = ok (listed "rows" (prop "chaincode" body))
shown channels old body = ok (listed "rows" (prop "channels" body))
shown (peer_list channel) old body = ok (listed "rows" (prop "peers" body))
shown (transaction channel transaction_id) old body = ok (listed "transaction" (prop "row" body))
shown (transaction_list channel params) old body = ok (
    obj (
      field "rows" (prop "txnsData" (prop "rows" body)) (
        field "noOfpages" (pages (prop "rows" body) old)
          (field "loaded" (bool true) (field "errors" undefined end)))))
shown (chaincode_meta_data channel query) old body = ok (listed "rows" (prop "data" body))
shown (block_list_search channel query page_params) old body =
    get (prop "rows" body) "blocksData" >>= λ blocks.
    ok (block_page blocks (prop "rows" body) old query page_params)
shown (block_range_search channel query1 query2) old body = ok (listed "rows" (prop "data" body))
