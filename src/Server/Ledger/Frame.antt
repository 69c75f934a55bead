-- ===== src/Server/Ledger/Frame.antt =====
-- What saving blocks and transactions keeps of the tables, a block that arrives and a
-- synchronisation keep.
use thermotrace_production.Common.{
  ℕ, suc, String, Bool, List, [], ◌∷◌, Option, some, none, ◌≡◌, refl, sym, subst, ◌==◌,
}
use thermotrace_production.Server.Ledger.{Block, Transaction, Tables, Service, modify}
use thermotrace_production.Server.Ledger.Crud.{
  save_block, save_transaction, find_missing_block_number,
}
use thermotrace_production.Server.Ledger.Envelopes.{
  BlockData, Envelope, ChannelHeader, Encoding, transaction_row, first,
}
use thermotrace_production.Server.Ledger.Logic.{
  Leads, Leads-bind, Leads-then, Leads-if, Leads-when, Leads-pure, Leads-from, Leads-lift,
  Leads-modify, Leads-throws, Ends-if, Leads-query, Leads-try,
}
use thermotrace_production.Server.Ledger.Sync.{
  begin_block, block_key, synch_key, sync_missing, sync_from, includes, Client, process_transaction,
  process_transactions, insert_all, process_with, process_block_event, process_missing, sync_blocks,
  process_found,
}

module _ (encoding : Encoding) (client : Client) (p x : Tables → Type 0)
    (weaken : (t : Tables) → p t → x t)
    (saves_block : (network : String) (b : Block)
      → Leads (λ s. p s.tables) (save_block network b) (λ _ s. p s.tables) (λ s. x s.tables))
    (saves_transaction : (network : String) (y : Transaction) (version : Option String)
      → Leads
          (λ s. p s.tables)
          (save_transaction network y version)
          (λ _ s. p s.tables)
          (λ s. x s.tables)) where
  -- What leaves the tables alone.
  quiet :
      {X : Service → Type 0} (f : Service → Service)
      → ((s : Service) → (f s).tables ≡ s.tables)
      → Leads (λ s. p s.tables) (modify f) (λ _ s. p s.tables) X
  quiet f same = Leads-modify f (λ s h. subst p (sym (same s)) h)

  module _ (no_discovery : Bool) (header : ChannelHeader) (block : BlockData) (hash : String) where
    process_transaction-Leads :
        (index : ℕ) (tx : Envelope)
        → Leads
            (λ s. p s.tables)
            (process_transaction encoding client no_discovery header block hash index tx)
            (λ _ s. p s.tables)
            (λ s. x s.tables)
    unfolding process_transaction
    process_transaction-Leads index tx =
        Leads-bind
          (Leads-lift (transaction_row encoding block hash index tx) (λ s. weaken s.tables))
          λ row.
            Leads-from (λ s h. h.1)
              (Leads-then (λ s. p s.tables) (Leads-when _ _ λ s h. h)
                (Leads-then (λ s. p s.tables) (saves_transaction client.network_id row.0 row.1)
                  (Leads-pure tt λ s h. h)))

    process_transactions-Leads :
        (index : ℕ) (txs : List Envelope)
        → Leads
            (λ s. p s.tables)
            (process_transactions encoding client no_discovery header block hash index txs)
            (λ _ s. p s.tables)
            (λ s. x s.tables)
    unfolding process_transactions
    process_transactions-Leads index [] = Leads-pure tt λ s h. h
    process_transactions-Leads index (tx ∷ txs) =
        Leads-then (λ s. p s.tables) (process_transaction-Leads index tx)
          (process_transactions-Leads (suc index) txs)

    insert_all-Leads :
        (key : String)
        → Leads
            (λ s. p s.tables)
            (insert_all encoding client no_discovery header block hash key)
            (λ _ s. p s.tables)
            (λ s. x s.tables)
    unfolding insert_all
    insert_all-Leads key =
        Leads-then (λ s. p s.tables) (Leads-when _ _ λ s h. h)
          (Leads-then (λ s. p s.tables) (process_transactions-Leads 0 block.transactions)
            (Leads-bind (saves_block client.network_id _) λ saved.
              Leads-then (λ s. p s.tables) (Leads-when saved _ λ s h. h) (quiet _ λ s. refl)))

    begin_block-Leads :
        (key : String)
        → Leads
            (λ s. p s.tables)
            (begin_block encoding client key)
            (λ _ s. p s.tables)
            (λ s. x s.tables)
    begin_block-Leads key = record {
      run = λ s h.
          Ends-if (λ _ s. p s.tables) (λ s. x s.tables) _ _ (includes s.blocks_in_process key)
            (λ _. weaken s.tables h) (λ _. h);
    }

  process_with-Leads :
      (no_discovery : Bool) (block : BlockData) (header : ChannelHeader) (hash : String)
      → Leads
          (λ s. p s.tables)
          (process_with encoding client no_discovery block header hash)
          (λ _ s. p s.tables)
          (λ s. x s.tables)
  unfolding process_with
  process_with-Leads no_discovery block header hash =
      Leads-if (hash == "")
        (λ _.
          Leads-then (λ s. p s.tables) (quiet _ λ s. refl) (Leads-throws _ λ s. weaken s.tables))
        (λ _.
          Leads-then (λ s. p s.tables)
            (begin_block-Leads no_discovery header block hash
              (block_key encoding client header.channel_id block))
            (insert_all-Leads no_discovery header block hash _))

  pub process_block_event-Leads :
      (no_discovery : Bool) (block : BlockData)
      → Leads
          (λ s. p s.tables)
          (process_block_event encoding client no_discovery block)
          (λ _ s. p s.tables)
          (λ s. x s.tables)
  unfolding process_block_event
  process_block_event-Leads no_discovery block =
      Leads-bind (Leads-lift (first block.transactions) (λ s. weaken s.tables))
        λ tx. Leads-from (λ s h. h.1) (process_with-Leads no_discovery block tx.channel_header _)

module _ (encoding : Encoding) (client : Client) (x : Tables → Type 0)
    (saves_block : (network : String) (b : Block)
      → Leads (λ s. x s.tables) (save_block network b) (λ _ s. x s.tables) (λ s. x s.tables))
    (saves_transaction : (network : String) (y : Transaction) (version : Option String)
      → Leads
          (λ s. x s.tables)
          (save_transaction network y version)
          (λ _ s. x s.tables)
          (λ s. x s.tables)) where
  process_found-Leads :
      (no_discovery : Bool) (found : Option BlockData)
      → Leads
          (λ s. x s.tables)
          (process_found encoding client no_discovery found)
          (λ _ s. x s.tables)
          (λ s. x s.tables)
  process_found-Leads no_discovery none = Leads-pure tt λ s h. h
  process_found-Leads no_discovery (some block) =
      process_block_event-Leads encoding client x x (λ t h. h) saves_block saves_transaction
        no_discovery block

  process_missing-Leads :
      (channel_name : String) (no_discovery : Bool) (numbers : List ℕ)
      → Leads
          (λ s. x s.tables)
          (process_missing encoding client channel_name no_discovery numbers)
          (λ _ s. x s.tables)
          (λ s. x s.tables)
  unfolding process_missing
  process_missing-Leads channel_name no_discovery [] = Leads-pure tt λ s h. h
  process_missing-Leads channel_name no_discovery (n ∷ ns) =
      Leads-then (λ s. x s.tables)
        (Leads-try (
          Leads-bind (Leads-lift (client.query_block channel_name n) (λ s h. h))
            λ found. Leads-from (λ s h. h.1) (process_found-Leads no_discovery found)))
        (process_missing-Leads channel_name no_discovery ns)

  sync_missing-Leads :
      (channel_name : String) (no_discovery : Bool) (height : ℕ)
      → Leads
          (λ s. x s.tables)
          (sync_missing encoding client channel_name no_discovery height)
          (λ _ s. x s.tables)
          (λ s. x s.tables)
  unfolding find_missing_block_number
  sync_missing-Leads channel_name no_discovery height =
      Leads-then (λ s. x s.tables) (Leads-modify _ λ s h. h)
        (Leads-bind (Leads-query {Q = λ _ s. x s.tables} _ (λ s rest e h. h) (λ s e rest r h. h))
          λ numbers.
            Leads-then (λ s. x s.tables) (process_missing-Leads channel_name no_discovery numbers)
              (Leads-modify _ λ s h. h))

  sync_from-Leads :
      (channel_name : String) (no_discovery : Bool) (height : Option ℕ)
      → Leads
          (λ s. x s.tables)
          (sync_from encoding client channel_name no_discovery height)
          (λ _ s. x s.tables)
          (λ s. x s.tables)
  sync_from-Leads channel_name no_discovery none = record { run = λ s h. h }
  sync_from-Leads channel_name no_discovery (some height) = record {
    run = λ s h.
        Ends-if (λ _ s. x s.tables) (λ s. x s.tables) _ _
          (includes s.synch_in_process (synch_key encoding client channel_name)) (λ _. h)
          (λ _. (sync_missing-Leads channel_name no_discovery height).run s h);
  }

  pub sync_blocks-Leads :
      (channel_name : String) (no_discovery : Bool)
      → Leads
          (λ s. x s.tables)
          (sync_blocks encoding client channel_name no_discovery)
          (λ _ s. x s.tables)
          (λ s. x s.tables)
  unfolding sync_blocks
  sync_blocks-Leads channel_name no_discovery =
      Leads-bind (Leads-lift (client.query_chain_info channel_name) (λ s h. h))
        λ info. Leads-from (λ s h. h.1) (sync_from-Leads channel_name no_discovery info)
