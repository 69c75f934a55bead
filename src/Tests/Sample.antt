-- ===== src/Tests/Sample.antt =====
-- A store and replies for the examples.
use thermotrace_production.Common.{String, true, false, some, ◌≡◌, refl}
use thermotrace_production.Js.Value.{
  Value, undefined, obj, arr, nil, cons, end, field, num, str, bool,
}
use thermotrace_production.Js.Object.{prop, field_of}
use thermotrace_production.Store.Root.{
  Slice, auth, theme, chart, table, ChartSlice, TableSlice, view,
}
use thermotrace_production.Session.{World}
use thermotrace_production.Session.Dispatch.{IsReady, slice_ok}
use thermotrace_production.Request.{Reply}

abbrev empty : Value
empty = obj end

abbrev charts : Value
charts = obj (
    field "blockPerHour" empty (
      field "blockPerMin" empty (
        field "channel" empty (
          field "channelList" empty (
            field "dashStats" empty (
              field "notification" empty (
                field "transactionByOrg" empty (
                  field "transactionPerHour" empty (
                    field "transactionPerMin" empty
                      (field "errorMessage" empty (field "blockActivity" empty end)))))))))))

abbrev tables : Value
tables = obj (
    field "chaincodeList" empty (
      field "channels" empty (
        field "peerList" empty (
          field "blockRangeSearch" (obj (field "loaded" (bool false) end)) (
            field "txnList" empty (
              field "blockSearch" empty (
                field "chaincodeMetaData" empty (
                  field "transaction" empty (
                    field "transactionList" empty (
                      field "blockListSearch" empty
                        (field "transactionListSearch" empty end)))))))))))

-- The state of a user who is logged in, with a range search under way.
abbrev pub state : Value
state = obj (
    field "auth" (obj (field "token" (str "abc") end)) (
      field "theme" (obj (field "mode" (str "light") end))
        (field "charts" charts (field "tables" tables end))))

abbrev pub home : World
home = record { store = state; token = some "abc" }

home-slice_ok : (n : Slice) → slice_ok n (view state n) ≡ true
unfolding view prop field_of
home-slice_ok auth = refl
home-slice_ok theme = refl
home-slice_ok (chart ChartSlice.block_per_hour) = refl
home-slice_ok (chart ChartSlice.block_per_min) = refl
home-slice_ok (chart ChartSlice.channel) = refl
home-slice_ok (chart ChartSlice.channel_list) = refl
home-slice_ok (chart ChartSlice.dash_stats) = refl
home-slice_ok (chart ChartSlice.notification) = refl
home-slice_ok (chart ChartSlice.transaction_by_org) = refl
home-slice_ok (chart ChartSlice.transaction_per_hour) = refl
home-slice_ok (chart ChartSlice.transaction_per_min) = refl
home-slice_ok (chart ChartSlice.error_message) = refl
home-slice_ok (chart ChartSlice.block_activity) = refl
home-slice_ok (table TableSlice.chaincode_list) = refl
home-slice_ok (table TableSlice.channels) = refl
home-slice_ok (table TableSlice.peer_list) = refl
home-slice_ok (table TableSlice.block_range_search) = refl
home-slice_ok (table TableSlice.txn_list) = refl
home-slice_ok (table TableSlice.block_search) = refl
home-slice_ok (table TableSlice.chaincode_meta_data) = refl
home-slice_ok (table TableSlice.transaction) = refl
home-slice_ok (table TableSlice.transaction_list) = refl
home-slice_ok (table TableSlice.block_list_search) = refl
home-slice_ok (table TableSlice.transaction_list_search) = refl

pub home-IsReady : IsReady home.store
unfolding prop field_of
home-IsReady = record {
  store = record { whole = refl; charts = refl; tables = refl };
  slices = home-slice_ok;
}

-- An answer with a status and one more field.
abbrev pub answer : Value → String → Value → Value
answer status key v = obj (field "status" status (field key v end))

abbrev pub answers : Value → Reply
answers body = record { error = undefined; response = obj (field "body" body end); arrives = refl }

-- `superagent` reports status 401 as an error with a response.
abbrev pub unauthorized : Reply
unauthorized = record {
  error = obj (field "status" (num 401) end);
  response = obj (field "status" (num 401) (field "body" empty end));
  arrives = refl;
}

abbrev pub rows : Value
rows = arr (cons (num 7) (cons (num 8) nil))
