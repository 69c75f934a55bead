-- ===== src/Server/Ledger/Sync.antt =====
-- blockchain-explorer/app/platform/fabric/sync/SyncService.ts: a block that arrives, and the blocks
-- that are missing. The gateway of the package fabric-network is a parameter.
use thermotrace_production.Common.{
  ℕ, suc, String, Bool, false, not, ◌&&◌, ◌||◌, ◌==◌, if◌then◌else◌, List, [], ◌∷◌, ◌++◌, Option,
  some, none, length,
}
use thermotrace_production.Js.Value.{Value, str, num, obj, end, field, Completion, ok}
use thermotrace_production.Js.Object.{decimal}
use thermotrace_production.Thunk.{concat}
use thermotrace_production.Server.Exceptions.{fail}
use thermotrace_production.Server.Ledger.{
  Block, Timer, discover_channel, update_channel, update_chaincodes, Program, pure, lift, modify,
  try_log, when, ◌>>=◌, ◌>>◌,
}
use thermotrace_production.Server.Ledger.Crud.{
  save_block, save_transaction, find_missing_block_number,
}
use thermotrace_production.Server.Ledger.Envelopes.{
  BlockData, Envelope, ChannelHeader, Encoding, first, transaction_row,
}

-- The client of a network: `get_channel_gen_hash` gives the empty text where the client knows no
-- genesis hash, and `query_chain_info` gives `height.low`, the lower 32 bits of the height.
pub record Client : Type 0 where
  pub network_id : String
  pub get_channel_gen_hash : String → String
  pub query_chain_info : String → Completion (Option ℕ)
  pub query_block : String → ℕ → Completion (Option BlockData)

abbrev pub includes : List String → String → Bool
includes [] key = false
includes (k ∷ ks) key = k == key || includes ks key

-- `list.splice(list.indexOf(key), 1)`, where the key is in the list
abbrev pub remove_key : String → List String → List String
remove_key key [] = []
remove_key key (k ∷ ks) = if k == key then ks else k ∷ remove_key key ks

abbrev pub start_timer : Timer → Program (Unit {0})
start_timer timer = modify (λ s. record s { timers = s.timers ++ (timer ∷ []) })

module _ (encoding : Encoding) (client : Client) where
  -- `${channel_name}_${block.header.number}`
  abbrev pub block_key : String → BlockData → String
  block_key channel_name block = concat (channel_name ∷ "_" ∷ decimal block.number ∷ [])

  abbrev pub block_row : BlockData → Value → String → Block
  block_row block createdt channel_genesis_hash = record {
    blocknum = block.number;
    datahash = block.data_hash;
    prehash = block.previous_hash;
    txcount = length block.transactions;
    createdt = createdt;
    prev_blockhash = "";
    blockhash = encoding.generate_block_hash block;
    channel_genesis_hash = channel_genesis_hash;
    blksize = encoding.json_obj_size block;
    network_name = "";
  }

  abbrev pub block_notice : String → BlockData → Value → Value
  block_notice channel_name block createdt = obj (
      field "notify_type" (str "4") (
        field "network_id" (str client.network_id) (
          field "channel_name" (str channel_name) (
            field "title"
              (str (
                concat
                  ("Block " ∷ decimal block.number ∷ " added to Channel: " ∷ channel_name ∷ [])))
              (field "type" (str "block") (
                field "message"
                  (str (
                    concat (
                      "Block "
                      ∷ decimal block.number
                      ∷ " established with "
                      ∷ decimal (length block.transactions)
                      ∷ " tx"
                      ∷ [])))
                  (field "time" createdt (
                    field "txcount" (num (length block.transactions)) (
                      field "datahash" (str block.data_hash)
                        (field "blksize" (str (encoding.json_obj_size block)) end))))))))))

  module _ (no_discovery : Bool) (header : ChannelHeader) (block : BlockData)
      (channel_genesis_hash : String) where
    -- The body of the loop over the transactions.
    unfoldable pub process_transaction : ℕ → Envelope → Program (Unit {0})
    process_transaction index tx = do
      row ← lift (transaction_row encoding block channel_genesis_hash index tx)
      when
          (not no_discovery
            && (header.type_string == "ENDORSER_TRANSACTION"
                && (row.0.chaincodename == "lscc" || row.0.chaincodename == "_lifecycle")))
          (start_timer (update_chaincodes header.channel_id channel_genesis_hash))
      save_transaction client.network_id row.0 row.1
      pure tt

    unfoldable pub process_transactions : ℕ → List Envelope → Program (Unit {0})
    unfolding process_transaction
    process_transactions index [] = pure tt
    process_transactions index (tx ∷ txs) = do
      process_transaction index tx
      process_transactions (suc index) txs

    -- What follows once the key of the block is in `blocksInProcess`.
    unfoldable pub insert_all : String → Program (Unit {0})
    insert_all key = do
      when (not no_discovery && header.type_string == "CONFIG")
          (start_timer (update_channel header.channel_id channel_genesis_hash))
      process_transactions 0 block.transactions
      saved ←
          save_block client.network_id
            (block_row block (encoding.date header.timestamp) channel_genesis_hash)
      when saved (
          modify λ s. record s {
            sent =
                s.sent
                ++ (block_notice header.channel_id block (encoding.date header.timestamp) ∷ []);
          })
      modify (λ s. record s { blocks_in_process = remove_key key s.blocks_in_process })

  abbrev pub begin_block : String → Program (Unit {0})
  begin_block key s =
      if includes s.blocks_in_process key
      then (s, fail "Block already in processing")
      else (record s { blocks_in_process = s.blocks_in_process ++ (key ∷ []) }, ok tt)

  abbrev pub unknown_channel : String → Program (Unit {0})
  unknown_channel channel_name = do
    start_timer (discover_channel channel_name)
    lift (fail (concat (channel_name ∷ " has not been inserted yet" ∷ [])))

  -- What follows once the header of the first transaction has been read.
  unfoldable pub process_with : Bool → BlockData → ChannelHeader → String → Program (Unit {0})
  process_with no_discovery block header hash =
      if hash == "" then unknown_channel header.channel_id else (do
        begin_block (block_key header.channel_id block)
        insert_all no_discovery header block hash (block_key header.channel_id block))

  unfoldable pub process_block_event : Bool → BlockData → Program (Unit {0})
  unfolding process_with
  process_block_event no_discovery block = do
    first_tx ← lift (first block.transactions)
    process_with no_discovery block first_tx.channel_header
        (client.get_channel_gen_hash first_tx.channel_header.channel_id)

  abbrev pub process_found : Bool → Option BlockData → Program (Unit {0})
  process_found no_discovery none = pure tt
  process_found no_discovery (some block) = process_block_event no_discovery block

  -- The loop over the missing numbers.
  unfoldable pub process_missing : String → Bool → List ℕ → Program (Unit {0})
  process_missing channel_name no_discovery [] = pure tt
  process_missing channel_name no_discovery (n ∷ ns) = do
    try_log (do block ← lift (client.query_block channel_name n); process_found no_discovery block)
    process_missing channel_name no_discovery ns

  abbrev pub synch_key : String → String
  synch_key channel_name = concat (client.network_id ∷ "_" ∷ channel_name ∷ [])

  abbrev pub sync_missing : String → Bool → ℕ → Program (Unit {0})
  sync_missing channel_name no_discovery height = do
    modify
        (λ s. record s { synch_in_process = s.synch_in_process ++ (synch_key channel_name ∷ []) })
    numbers ←
        find_missing_block_number client.network_id (client.get_channel_gen_hash channel_name)
          height
    process_missing channel_name no_discovery numbers
    modify
        λ s. record s { synch_in_process = remove_key (synch_key channel_name) s.synch_in_process }

  abbrev pub sync_from : String → Bool → Option ℕ → Program (Unit {0})
  sync_from channel_name no_discovery none s = (s, ok tt)
  sync_from channel_name no_discovery (some height) s =
      if includes s.synch_in_process (synch_key channel_name)
      then (s, ok tt)
      else sync_missing channel_name no_discovery height s

  unfoldable pub sync_blocks : String → Bool → Program (Unit {0})
  sync_blocks channel_name no_discovery = do
    info ← lift (client.query_chain_info channel_name)
    sync_from channel_name no_discovery info
