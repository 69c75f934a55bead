-- ===== src/Tests/Ledger.antt =====
-- The theorems on the ledger at concrete inputs.
use thermotrace_production.Common.{
  ℕ, ◌<◌, String, true, false, Option, some, none, List, [], ◌∷◌, ◌≡◌, refl, arith,
}
use thermotrace_production.Js.Value.{Value, undefined, str, num, ok, throws}
use thermotrace_production.Server.Exceptions.{fail}
use thermotrace_production.Server.Ledger.{Channel, Service, Transaction}
use thermotrace_production.Server.Ledger.Crud.{count, has_block}
use thermotrace_production.Server.Ledger.Envelopes.{
  BlockData, Envelope, Encoding, transaction_row, endorsed, convert_validation_code,
}
use thermotrace_production.Server.Ledger.Logic.{Ends}
use thermotrace_production.Server.Ledger.Sync.{Client, process_block_event, sync_blocks}
use thermotrace_production.Server.Ledger.Counters.{Tally}
use thermotrace_production.Server.Ledger.Repeats.{Unrepeated}
use thermotrace_production.Server.Ledger.Events.{
  LedgerEvent, arrival, synchronisation, serve, serve-IsLedger, process_block_event-Tally,
}
use thermotrace_production.Server.Ledger.Missing.{Gives, sync_blocks_complete}
use thermotrace_production.Server.Ledger.Stuck.{process-refused_again}

abbrev encoding : Encoding
encoding = record {
  stringify = λ v. "json";
  pretty = λ v. v;
  date = λ v. v;
  hex = λ s. s;
  sha256 = λ s. s;
  char_codes = λ v. "";
  validation_codes = λ v. v;
  generate_block_hash = λ b. "hash";
  json_obj_size = λ b. "1";
}

abbrev endorsing : Envelope
endorsing = record {
  json = undefined;
  channel_header = record {
    channel_id = "ch";
    type_string = "ENDORSER_TRANSACTION";
    timestamp = num 5;
    tx_id = "t";
    extension = undefined;
  };
  signature = undefined;
  nonce = undefined;
  mspid = str "Org1";
  id_bytes = undefined;
  actions = none;
  last_update = undefined;
}

abbrev sample : ℕ → BlockData
sample n = record {
  number = n;
  data_hash = "d";
  previous_hash = "p";
  transactions = endorsing ∷ [];
  transactions_filter = str "VALID" ∷ [];
}

abbrev client : Client
client = record {
  network_id = "net";
  get_channel_gen_hash = λ c. "g";
  query_chain_info = λ c. ok (some 2);
  query_block = λ c n. ok (some (sample n));
}

abbrev channel_row : Channel
channel_row = record {
  name = "ch";
  createdt = num 1;
  blocks = 0;
  trans = 0;
  channel_hash = "";
  channel_genesis_hash = "g";
  network_name = "net";
}

abbrev service : List (Option Value) → Service
service refusals = record {
  tables = record { blocks = []; transactions = []; chaincodes = []; channels = channel_row ∷ [] };
  refusals = refusals;
  synch_in_process = [];
  blocks_in_process = [];
  sent = [];
  timers = [];
}

sample-decodes :
    (n : ℕ)
    → (row : Transaction × Option String) × (transaction_row encoding (sample n) "g" 0 endorsing
        ≡ ok row)
unfolding transaction_row endorsed convert_validation_code
sample-decodes n = (_, refl)

abbrev outages : List (Option Value)
outages = none ∷ none ∷ some (str "lost") ∷ none ∷ []

abbrev events : List LedgerEvent
events = arrival true (sample 0) ∷ synchronisation "ch" true ∷ arrival false (sample 0) ∷ []

serve-IsLedger_example :
    Tally false (serve encoding client events (service outages)).tables
    × Unrepeated (serve encoding client events (service outages)).tables
serve-IsLedger_example =
    serve-IsLedger encoding client events (service outages) ((omega arith, omega arith), tt)
      (tt, tt)

process_block_event-Tally_example :
    Ends
      (λ _ s'. Tally true s'.tables)
      (λ s'. Tally false s'.tables)
      (process_block_event encoding client false (sample 0) (service []))
unfolding count
process_block_event-Tally_example =
    process_block_event-Tally encoding client true false (sample 0) (service []) ((refl, refl), tt)

sample-Gives : (n : ℕ) → n < 2 → Gives encoding client "ch" n
sample-Gives n below = record {
  block = sample n;
  given = refl;
  numbered = refl;
  start = endorsing;
  starts = refl;
  placed = refl;
  decodes = (sample-decodes n, tt);
}

sync_blocks_complete_example :
    ((sync_blocks encoding client "ch" true (service [])).1 ≡ ok tt)
    × (has_block "net" "g" (sync_blocks encoding client "ch" true (service [])).0.tables.blocks 1
        ≡ true)
sync_blocks_complete_example =
    sync_blocks_complete encoding client "ch" 2 1 true (service []) refl refl sample-Gives refl refl
      refl (omega arith)

process-refused_again_example :
    (s' : Service) × (error : Value) × (process_block_event encoding client true
        (sample 0)
        (service (some (str "lost") ∷ []))
      ≡ (s', throws error))
    × (s'.tables ≡ (service []).tables)
    × (process_block_event encoding client true (sample 0) (serve encoding client events s')
        ≡ (serve encoding client events s', fail "Block already in processing"))
process-refused_again_example =
    process-refused_again encoding client true true (sample 0) endorsing []
      (service (some (str "lost") ∷ [])) (str "lost") [] (sample-decodes 0).0 events refl refl refl
      (sample-decodes 0).1 refl
