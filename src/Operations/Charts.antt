-- ===== src/Operations/Charts.antt =====
-- blockchain-explorer/client/src/state/redux/charts/operations.js
pub mod Handler
pub mod Outcomes
use thermotrace_production.Common.{String, true, if◌then◌else◌, [], ◌∷◌}
use thermotrace_production.Js.Value.{
  Value, undefined, null, bool, num, str, obj, end, field, Completion, is_num, truthy, or_else,
  type_error, ok,
}
use thermotrace_production.Js.Object.{get as get_property, prop, to_text, merge, spread, set_field}
use thermotrace_production.Redux.{Redux, Action}
use thermotrace_production.Session.{
  World, Eff, pure, raise, lift, dispatch, ◌>>=◌, ◌>>◌, then_catch, authenticate_user,
  deauthenticate_user,
}
use thermotrace_production.Request.{Reply, with_promise_callback}
use thermotrace_production.Thunk.{Thunk, get, post, concat, log_error, internal_error, substr}
use thermotrace_production.Store.Charts.Actions

module _ (redux : Redux) where
  -- The handler that the operations share: the status first, then the data.
  unfoldable pub report_or : (Value → Action) → Value → Eff Value
  report_or success resp = do
    status ← lift (get_property resp "status")
    if is_num 500 status
        then dispatch redux (Actions.get_erro_message (str internal_error))
        else (if is_num 400 status
            then (do
              error ← lift (get_property resp "error")
              dispatch redux (Actions.get_erro_message error))
            else dispatch redux (success resp))
    pure undefined

  -- `.then(report).catch(log)`
  unfoldable pub settle_with : (Value → Action) → Reply → Eff Value
  settle_with success reply = then_catch (with_promise_callback reply) (report_or success) log_error

  unfoldable pub block_per_hour : Value → Thunk
  block_per_hour channel_name = record {
    start = get (concat ("/api/blocksByHour/" ∷ to_text channel_name ∷ "/1" ∷ []));
    settle = settle_with Actions.get_block_per_hour;
  }

  unfoldable pub block_per_min : Value → Thunk
  block_per_min channel_name = record {
    start = get (concat ("/api/blocksByMinute/" ∷ to_text channel_name ∷ "/1" ∷ []));
    settle = settle_with Actions.get_block_per_min;
  }

  unfoldable pub change_channel : Value → Thunk
  change_channel channel_name = record {
    start = get (concat ("/api/changeChannel/" ∷ to_text channel_name ∷ []));
    settle = settle_with Actions.update_channel;
  }

  unfoldable pub channel : Thunk
  channel = record { start = get "/api/curChannel"; settle = settle_with Actions.get_channel }

  unfoldable pub channel_list : Thunk
  channel_list = record {
    start = get "/api/channels";
    settle = settle_with Actions.get_channel_list;
  }

  unfoldable pub dash_stats : Value → Thunk
  dash_stats channel_name = record {
    start = get (concat ("/api/status/" ∷ to_text channel_name ∷ []));
    settle = settle_with Actions.get_dash_stats;
  }

  unfoldable pub block_activity : Value → Thunk
  block_activity channel_name = record {
    start = get (concat ("/api/blockActivity/" ∷ to_text channel_name ∷ []));
    settle = settle_with Actions.get_block_activity;
  }

  unfoldable pub transaction_by_org : Value → Thunk
  transaction_by_org channel_name = record {
    start = get (concat ("/api/txByOrg/" ∷ to_text channel_name ∷ []));
    settle = settle_with Actions.get_transaction_by_org;
  }

  unfoldable pub transaction_per_hour : Value → Thunk
  transaction_per_hour channel_name = record {
    start = get (concat ("/api/txByHour/" ∷ to_text channel_name ∷ "/1" ∷ []));
    settle = settle_with Actions.get_transaction_per_hour;
  }

  unfoldable pub transaction_per_min : Value → Thunk
  transaction_per_min channel_name = record {
    start = get (concat ("/api/txByMinute/" ∷ to_text channel_name ∷ "/1" ∷ []));
    settle = settle_with Actions.get_transaction_per_min;
  }

  -- `notification` is no request: it parses a message of the server, by `JSON.parse`.
  unfoldable pub notification : (String → Completion Value) → String → Eff (Unit {0})
  notification parse notification_obj = do
    notify ← lift (parse notification_obj)
    dispatch redux (Actions.get_notification notify)
