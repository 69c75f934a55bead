-- ===== src/Operations/Tables/Deliveries.antt =====
-- The actions of the requests of `tables` bring about what the slices are to show.
use thermotrace_production.Common.{String, true, ◌≡◌, refl, ap, ◌∙◌, arith, if◌then◌else◌, ◌==◌}
use thermotrace_production.Js.Value.{Value, undefined, null, obj, end, field, ok, is_readable}
use thermotrace_production.Js.Object.{get, prop, spread, field_of}
use thermotrace_production.Js.Object.Laws.{get-readable, field_of-spread, field_of-set_field}
use thermotrace_production.Redux.{action, default_to}
use thermotrace_production.Store.Tables.Actions
use thermotrace_production.Store.Tables.Types
use thermotrace_production.Store.Tables.Reducers.{
  block_list_search_reducer, block_range_search_reducer, chaincode_list_reducer,
  chaincode_meta_data_reducer, channels_reducer, peer_list_reducer, transaction_list_reducer,
  transaction_reducer,
}
use thermotrace_production.Store.Root.{table, slice_reducer}
use thermotrace_production.Operations.Tables.{with_search, page_of, size_of}
use thermotrace_production.Operations.Tables.Handler.{Delivers}
use thermotrace_production.Operations.Tables.Calls.{
  TableCall, target, shown, chaincode_list, channels, peer_list, transaction, transaction_list,
  chaincode_meta_data, block_list_search, block_range_search,
}

pub shown-readable :
    (call : TableCall) (old body v : Value) → shown call old body ≡ ok v → is_readable v ≡ true
shown-readable (chaincode_list channel) old body v h = ground arith
shown-readable call old body v h = ground arith

pub get-default :
    (v : Value) (k : String) → is_readable v ≡ true → get (default_to (obj end) v) k ≡ ok (prop k v)
unfolding get prop
get-default undefined k h = cc
get-default null k h = cc
get-default (obj fs) k h = refl
get-default _ k h = refl

-- The fields of `{ ...resp, query, pageParams }`.
pub get-with_search :
    (resp query page_params : Value) (k : String)
    → get (with_search resp query page_params) k
      ≡ ok (
          if "pageParams" == k
          then obj (field "page" (page_of page_params) (field "size" (size_of page_params) end))
          else if "query" == k
          then query
          else field_of k (spread resp))
unfolding get with_search
get-with_search resp query page_params k = simp field_of-set_field

pub get-with_search_rows :
    (resp query page_params : Value)
    → get (with_search resp query page_params) "rows" ≡ ok (prop "rows" resp)
get-with_search_rows resp query page_params =
    get-with_search resp query page_params "rows"
    ∙ ap ok (field_of-spread "r" "ows" resp (omega arith))

pub Delivers-chaincode_list :
    (channel : Value)
    → Delivers
        (λ resp. ok (Actions.get_chaincode_list resp))
        (table (target (chaincode_list channel)))
        (shown (chaincode_list channel))
unfolding slice_reducer chaincode_list_reducer
Delivers-chaincode_list channel = record {
  makes = Actions.get_chaincode_list;
  made = λ body r. refl;
  mine = λ body. refl;
  reduces = λ old body q r. rw (get-readable body "chaincode" r) refl;
  readable = shown-readable (chaincode_list channel);
}

pub Delivers-channels :
    Delivers (λ resp. ok (Actions.get_channels resp)) (table (target channels)) (shown channels)
unfolding slice_reducer channels_reducer
Delivers-channels = record {
  makes = Actions.get_channels;
  made = λ body r. refl;
  mine = λ body. refl;
  reduces = λ old body q r. rw (get-readable body "channels" r) refl;
  readable = shown-readable channels;
}

pub Delivers-peer_list :
    (channel : Value)
    → Delivers
        (λ resp. ok (Actions.get_peer_list resp))
        (table (target (peer_list channel)))
        (shown (peer_list channel))
unfolding slice_reducer peer_list_reducer
Delivers-peer_list channel = record {
  makes = Actions.get_peer_list;
  made = λ body r. refl;
  mine = λ body. refl;
  reduces = λ old body q r. rw (get-readable body "peers" r) refl;
  readable = shown-readable (peer_list channel);
}

pub Delivers-transaction :
    (channel transaction_id : Value)
    → Delivers
        (λ resp. ok (Actions.get_transaction resp))
        (table (target (transaction channel transaction_id)))
        (shown (transaction channel transaction_id))
unfolding slice_reducer transaction_reducer
Delivers-transaction channel transaction_id = record {
  makes = Actions.get_transaction;
  made = λ body r. refl;
  mine = λ body. refl;
  reduces = λ old body q r. rw (get-readable body "row" r) refl;
  readable = shown-readable (transaction channel transaction_id);
}

pub Delivers-transaction_list :
    (channel params : Value)
    → Delivers
        (λ resp. ok (Actions.get_transaction_list resp))
        (table (target (transaction_list channel params)))
        (shown (transaction_list channel params))
unfolding slice_reducer transaction_list_reducer
Delivers-transaction_list channel params = record {
  makes = Actions.get_transaction_list;
  made = λ body r. refl;
  mine = λ body. refl;
  reduces = λ old body q r. rw (get-readable body "rows" r, get-default old "noOfpages" q) refl;
  readable = shown-readable (transaction_list channel params);
}

pub Delivers-chaincode_meta_data :
    (channel query : Value)
    → Delivers Actions.get_chaincode_meta_data
        (table (target (chaincode_meta_data channel query)))
        (shown (chaincode_meta_data channel query))
unfolding slice_reducer chaincode_meta_data_reducer Actions.get_chaincode_meta_data
Delivers-chaincode_meta_data channel query = record {
  makes = λ body. action Types.chaincode_meta_data (prop "data" body);
  made = λ body r. rw (get-readable body "data" r) refl;
  mine = λ body. refl;
  reduces = λ old body q r. refl;
  readable = shown-readable (chaincode_meta_data channel query);
}

pub Delivers-block_list_search :
    (channel query page_params : Value)
    → Delivers
        (λ resp. ok (Actions.get_block_list_search (with_search resp query page_params)))
        (table (target (block_list_search channel query page_params)))
        (shown (block_list_search channel query page_params))
unfolding slice_reducer block_list_search_reducer
Delivers-block_list_search channel query page_params = record {
  makes = λ body. Actions.get_block_list_search (with_search body query page_params);
  made = λ body r. refl;
  mine = λ body. refl;
  reduces = λ old body q r.
      rw
        (
          get-with_search_rows body query page_params,
          get-default old "noOfpages" q,
          get-with_search body query page_params "query",
          get-with_search body query page_params "pageParams",
        )
        refl;
  readable = shown-readable (block_list_search channel query page_params);
}

pub Delivers-block_range_search :
    (channel query1 query2 : Value)
    → Delivers Actions.get_block_range_search
        (table (target (block_range_search channel query1 query2)))
        (shown (block_range_search channel query1 query2))
unfolding slice_reducer block_range_search_reducer Actions.get_block_range_search
Delivers-block_range_search channel query1 query2 = record {
  makes = λ body. action Types.block_range_search (prop "data" body);
  made = λ body r. rw (get-readable body "data" r) refl;
  mine = λ body. refl;
  reduces = λ old body q r. refl;
  readable = shown-readable (block_range_search channel query1 query2);
}
