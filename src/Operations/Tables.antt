-- ===== src/Operations/Tables.antt =====
-- blockchain-explorer/client/src/state/redux/tables/operations.js. The error branches call
-- `actions.getErroMessage`, which the actions of `tables` do not have: the call of `undefined` is a
-- TypeError.
pub mod Handler
pub mod Settle
pub mod Calls
pub mod Deliveries
pub mod Outcomes
pub mod Searches
pub mod Paging
use thermotrace_production.Common.{String, true, false, if◌then◌else◌, [], ◌∷◌}
use thermotrace_production.Js.Value.{
  Value, undefined, null, bool, num, str, obj, end, field, Completion, throws, is_num, truthy,
  or_else, type_error, ok,
}
use thermotrace_production.Js.Object.{get as get_property, prop, to_text, merge, spread, set_field}
use thermotrace_production.Redux.{Redux, Action}
use thermotrace_production.Session.{
  World, Eff, pure, raise, lift, dispatch, ◌>>=◌, ◌>>◌, then_catch, authenticate_user,
  deauthenticate_user,
}
use thermotrace_production.Request.{Reply, with_promise_callback}
use thermotrace_production.Thunk.{Thunk, get, post, concat, log_error, internal_error, substr}
use thermotrace_production.Store.Tables.Actions

-- `actions.getErroMessage(message)`
unfoldable pub get_erro_message : Value → Completion Action
get_erro_message message = throws type_error

-- `pageParams?.page || 1` and `pageParams?.size || 10`
abbrev page_of : Value → Value
page_of page_params = or_else (prop "page" page_params) (num 1)

abbrev size_of : Value → Value
size_of page_params = or_else (prop "size" page_params) (num 10)

-- `query ? query : ''`
abbrev query_text : Value → String
query_text query = to_text (if truthy query then query else str "")

-- `{ ...resp, query, pageParams: params }`
unfoldable pub with_search : Value → Value → Value → Value
with_search resp query page_params =
    let params =
      obj (field "page" (page_of page_params) (field "size" (size_of page_params) end)) in
    obj (set_field "pageParams" params (set_field "query" query (spread resp)))

abbrev pub nothing : Eff (Unit {0})
nothing = pure tt

-- `{ data: {} }`
abbrev pub no_data : Value
no_data = obj (field "data" (obj end) end)

module _ (redux : Redux) where
  -- The handler that most operations share.
  unfoldable pub report_or : (Value → Completion Action) → Value → Eff (Unit {0})
  report_or success resp = do
    status ← lift (get_property resp "status")
    if is_num 500 status
        then (do action ← lift (get_erro_message (str internal_error)); dispatch redux action)
        else (if is_num 400 status
            then (do
              error ← lift (get_property resp "error")
              action ← lift (get_erro_message error)
              dispatch redux action)
            else (do action ← lift (success resp); dispatch redux action))

  -- `.then(resp => { report; after })` and `.catch(log)`
  unfoldable pub settle_with : (Value → Completion Action) → Eff (Unit {0}) → Reply → Eff Value
  settle_with success after reply =
      then_catch (with_promise_callback reply)
        (λ resp. do report_or success resp; after; pure undefined) log_error

  unfoldable pub block_list_search : Value → Value → Value → Thunk
  block_list_search channel query page_params = record {
    start = get (
        concat (
          "/api/blockAndTxList/"
          ∷ to_text channel
          ∷ "/0?"
          ∷ query_text query
          ∷ "&page="
          ∷ to_text (page_of page_params)
          ∷ "&size="
          ∷ to_text (size_of page_params)
          ∷ []));
    settle =
        settle_with
          (λ resp. ok (Actions.get_block_list_search (with_search resp query page_params))) nothing;
  }

  unfoldable pub chaincode_list : Value → Thunk
  chaincode_list channel = record {
    start = get (concat ("/api/chaincode/" ∷ to_text channel ∷ []));
    settle = settle_with (λ resp. ok (Actions.get_chaincode_list resp)) nothing;
  }

  unfoldable pub channels : Thunk
  channels = record {
    start = get "/api/channels/info";
    settle = settle_with (λ resp. ok (Actions.get_channels resp)) nothing;
  }

  unfoldable pub peer_list : Value → Thunk
  peer_list channel = record {
    start = get (concat ("/api/peersStatus/" ∷ to_text channel ∷ []));
    settle = settle_with (λ resp. ok (Actions.get_peer_list resp)) nothing;
  }

  unfoldable pub txn_list : Value → Value → Thunk
  txn_list channel query = record {
    start = get (concat ("/api/fetchDataByTxnId/" ∷ to_text channel ∷ "/" ∷ to_text query ∷ []));
    settle =
        settle_with Actions.get_txn_list
          (lift (Actions.get_block_search no_data) >>= dispatch redux);
  }

  unfoldable pub block_search : Value → Value → Thunk
  block_search channel query = record {
    start = get (concat ("/api/fetchDataByBlockNo/" ∷ to_text channel ∷ "/" ∷ to_text query ∷ []));
    settle =
        settle_with Actions.get_block_search
          (lift (Actions.get_txn_list no_data) >>= dispatch redux);
  }

  unfoldable pub transaction : Value → Value → Thunk
  transaction channel transaction_id = record {
    start =
        get (concat ("/api/transaction/" ∷ to_text channel ∷ "/" ∷ to_text transaction_id ∷ []));
    settle = settle_with (λ resp. ok (Actions.get_transaction resp)) nothing;
  }

  -- This operation looks at no status.
  unfoldable pub transaction_list_search : Value → Value → Value → Thunk
  transaction_list_search channel query page_params = record {
    start = get (
        concat (
          "/api/txList/"
          ∷ to_text channel
          ∷ "/0/0?"
          ∷ query_text query
          ∷ "&page="
          ∷ to_text (page_of page_params)
          ∷ "&size="
          ∷ to_text (size_of page_params)
          ∷ []));
    settle = λ reply.
        then_catch (with_promise_callback reply)
          (λ resp. do
            dispatch redux
                (Actions.get_transaction_list_search (with_search resp query page_params))
            pure undefined)
          log_error;
  }

  -- The last step of this chain, `finally`, makes the action `getLoaded(true)` and does not
  -- dispatch it.
  unfoldable pub block_range_search : Value → Value → Value → Thunk
  block_range_search channel query1 query2 = record {
    start = do
      dispatch redux (Actions.get_loaded (bool false))
      get (
          concat (
            "/api/fetchDataByBlockRange/"
            ∷ to_text channel
            ∷ "/"
            ∷ to_text query1
            ∷ "/"
            ∷ to_text query2
            ∷ []));
    settle = settle_with Actions.get_block_range_search nothing;
  }

  unfoldable pub transaction_list : Value → Value → Thunk
  transaction_list channel params = record {
    start = do
      page ← lift (get_property params "page")
      size ← lift (get_property params "size")
      get (
          concat (
            "/api/txList/"
            ∷ to_text channel
            ∷ "/0/0/?page="
            ∷ to_text page
            ∷ "&size="
            ∷ to_text size
            ∷ []));
    settle = settle_with (λ resp. ok (Actions.get_transaction_list resp)) nothing;
  }

  unfoldable pub chaincode_meta_data : Value → Value → Thunk
  chaincode_meta_data channel query = record {
    start = get (concat ("/api/metadata/" ∷ to_text channel ∷ "/" ∷ to_text query ∷ []));
    settle = settle_with Actions.get_chaincode_meta_data nothing;
  }
