-- ===== src/Server/Ledger/Marked.antt =====
-- A key in `blocksInProcess` stays there, whatever else arrives and is synchronised.
use thermotrace_production.Common.{
  ℕ, suc, String, Bool, true, false, ◌==◌, List, [], ◌∷◌, ◌++◌, Option, some, none, ◌≡◌, refl,
  Bool-cases, inl, inr, eq_iff,
}
use thermotrace_production.Server.Ledger.{
  Block, Tables, Transaction, Service, Program, query, execute,
}
use thermotrace_production.Server.Ledger.Crud.{
  save_block, save_transaction, is_valid_row, find_missing_block_number,
}
use thermotrace_production.Server.Ledger.Envelopes.{
  BlockData, Envelope, ChannelHeader, Encoding, first, transaction_row,
}
use thermotrace_production.Server.Ledger.Events.{
  LedgerEvent, arrival, synchronisation, handle, serve,
}
use thermotrace_production.Server.Ledger.Logic.{
  Leads, Leads-bind, Leads-then, Leads-if, Leads-when, Leads-pure, Leads-from, Leads-lift,
  Leads-modify, Leads-throws, Leads-execute, Leads-query, Leads-try, Leads-keeps, Leads-never,
  Ends-if,
}
use thermotrace_production.Server.Ledger.Sync.{
  Client, includes, remove_key, block_key, synch_key, begin_block, process_transaction,
  process_transactions, insert_all, process_with, process_block_event, process_found,
  process_missing, sync_missing, sync_from, sync_blocks,
}

includes-append :
    (keys : List String) (key other : String)
    → includes keys key ≡ true
    → includes (keys ++ (other ∷ [])) key ≡ true
includes-append [] key other h = cc
includes-append (k ∷ ks) key other h = elim (Bool-cases (k == key)) [
  | inl same ↦ rw same refl
  | inr differs ↦ rw differs (includes-append ks key other (rw differs at h))
]

includes-remove_key :
    (keys : List String) (key other : String)
    → (other == key) ≡ false
    → includes keys key ≡ true
    → includes (remove_key other keys) key ≡ true
includes-remove_key [] key other apart h = cc
includes-remove_key (k ∷ ks) key other apart h = elim (Bool-cases (k == other)) [
  | inl removed ↦
      let same : k ≡ other = (eq_iff k other).0 removed in
      let differs : (k == key) ≡ false = rw same apart in rw removed (rw differs at h)
  | inr kept ↦ elim (Bool-cases (k == key)) [
    | inl found ↦ rw (kept, found) refl
    | inr differs ↦ rw (kept, differs) (includes-remove_key ks key other apart (rw differs at h))
  ]
]

module _ (key : String) where
  abbrev pub Marked : Service → Type 0
  Marked s = includes s.blocks_in_process key ≡ true

  abbrev Keeps {ℓ} : {A : Type ℓ} → Program A → Type 0
  Keeps m = Leads Marked m (λ _. Marked) Marked

  query-Marked {ℓ} : {A : Type ℓ} (f : Tables → A) → Keeps (query f)
  query-Marked f = Leads-query {Q = λ _. Marked} f (λ s rest e p. p) (λ s e rest r p. p)

  execute-Marked : (f : Tables → Tables) → Keeps (execute f)
  execute-Marked f = Leads-execute {Q = Marked} f (λ s rest e p. p) (λ s e rest r p. p)

  save_transaction-Marked :
      (network : String) (x : Transaction) (version : Option String)
      → Keeps (save_transaction network x version)
  unfolding save_transaction
  save_transaction-Marked network x version = Leads-bind (query-Marked _) λ c.
      Leads-if (is_valid_row c)
        (λ _. Leads-then Marked (execute-Marked _) (
          Leads-then Marked (execute-Marked _)
            (Leads-then Marked (execute-Marked _) (Leads-pure true λ s p. p))))
        (λ _. Leads-pure false λ s p. p)

  save_block-Marked : (network : String) (b : Block) → Keeps (save_block network b)
  unfolding save_block
  save_block-Marked network b = Leads-bind (query-Marked _) λ c.
      Leads-if (is_valid_row c)
        (λ _.
          Leads-then Marked (execute-Marked _)
            (Leads-then Marked (execute-Marked _) (Leads-pure true λ s p. p)))
        (λ _. Leads-pure false λ s p. p)

  module _ (encoding : Encoding) (client : Client) where
    module _ (no_discovery : Bool) (header : ChannelHeader) (block : BlockData)
        (hash : String) where
      process_transaction-Marked :
          (index : ℕ) (tx : Envelope)
          → Keeps (process_transaction encoding client no_discovery header block hash index tx)
      unfolding process_transaction
      process_transaction-Marked index tx =
          Leads-bind (Leads-lift (transaction_row encoding block hash index tx) (λ s p. p)) λ row.
            Leads-from (λ s h. h.1)
              (Leads-then Marked (Leads-when _ _ λ s h. h) (
                Leads-then Marked (save_transaction-Marked client.network_id row.0 row.1)
                  (Leads-pure tt λ s h. h)))

      process_transactions-Marked :
          (index : ℕ) (txs : List Envelope)
          → Keeps (process_transactions encoding client no_discovery header block hash index txs)
      unfolding process_transactions
      process_transactions-Marked index [] = Leads-pure tt λ s h. h
      process_transactions-Marked index (tx ∷ txs) =
          Leads-then Marked (process_transaction-Marked index tx)
            (process_transactions-Marked (suc index) txs)

      insert_all-Marked :
          (other : String)
          → (other == key) ≡ false
          → Keeps (insert_all encoding client no_discovery header block hash other)
      unfolding insert_all
      insert_all-Marked other apart = Leads-then Marked (Leads-when _ _ λ s h. h) (
          Leads-then Marked (process_transactions-Marked 0 block.transactions) (
            Leads-bind (save_block-Marked client.network_id _) λ saved.
              Leads-then Marked (Leads-when saved _ λ s h. h)
                (Leads-modify _ λ s h. includes-remove_key s.blocks_in_process key other apart h)))

    begin_block-Marked : (other : String) → Keeps (begin_block encoding client other)
    begin_block-Marked other = record {
      run = λ s h.
          Ends-if (λ _. Marked) Marked _ _ (includes s.blocks_in_process other) (λ _. h)
            (λ _. includes-append s.blocks_in_process key other h);
    }

    -- The block of the key itself is not begun.
    begin_block-never :
        (other : String)
        → (other == key) ≡ true
        → Leads Marked (begin_block encoding client other) (λ _ _. ⊥) Marked
    begin_block-never other same = record {
      run = λ s h.
          Ends-if (λ _ _. ⊥) Marked _ _ (includes s.blocks_in_process other) (λ _. h)
            (λ free.
              let equal : other ≡ key = (eq_iff other key).0 same in
              let absent = rw equal at free in cc);
    }

    process_with-Marked :
        (no_discovery : Bool) (block : BlockData) (header : ChannelHeader) (hash : String)
        → Keeps (process_with encoding client no_discovery block header hash)
    unfolding process_with
    process_with-Marked no_discovery block header hash =
        let other = block_key encoding client header.channel_id block in
        Leads-if (hash == "")
          (λ _. Leads-then Marked (Leads-modify _ λ s h. h) (Leads-throws _ λ s h. h))
          (λ _. elim (Bool-cases (other == key)) [
            | inl same ↦ Leads-then (λ _. ⊥) (begin_block-never other same) Leads-never
            | inr apart ↦
                Leads-then Marked (begin_block-Marked other)
                  (insert_all-Marked no_discovery header block hash other apart)
          ])

    process_block_event-Marked :
        (no_discovery : Bool) (block : BlockData)
        → Keeps (process_block_event encoding client no_discovery block)
    unfolding process_block_event
    process_block_event-Marked no_discovery block =
        Leads-bind (Leads-lift (first block.transactions) (λ s h. h))
          λ tx. Leads-from (λ s h. h.1) (process_with-Marked no_discovery block tx.channel_header _)

    process_found-Marked :
        (no_discovery : Bool) (found : Option BlockData)
        → Keeps (process_found encoding client no_discovery found)
    process_found-Marked no_discovery none = Leads-pure tt λ s h. h
    process_found-Marked no_discovery (some block) = process_block_event-Marked no_discovery block

    process_missing-Marked :
        (channel_name : String) (no_discovery : Bool) (numbers : List ℕ)
        → Keeps (process_missing encoding client channel_name no_discovery numbers)
    unfolding process_missing
    process_missing-Marked channel_name no_discovery [] = Leads-pure tt λ s h. h
    process_missing-Marked channel_name no_discovery (n ∷ ns) =
        Leads-then Marked
          (Leads-try (
            Leads-bind (Leads-lift (client.query_block channel_name n) (λ s h. h))
              λ found. Leads-from (λ s h. h.1) (process_found-Marked no_discovery found)))
          (process_missing-Marked channel_name no_discovery ns)

    sync_missing-Marked :
        (channel_name : String) (no_discovery : Bool) (height : ℕ)
        → Keeps (sync_missing encoding client channel_name no_discovery height)
    unfolding find_missing_block_number
    sync_missing-Marked channel_name no_discovery height =
        Leads-then Marked (Leads-modify _ λ s h. h) (
          Leads-bind (query-Marked _) λ numbers.
            Leads-then Marked (process_missing-Marked channel_name no_discovery numbers)
              (Leads-modify _ λ s h. h))

    sync_from-Marked :
        (channel_name : String) (no_discovery : Bool) (height : Option ℕ)
        → Keeps (sync_from encoding client channel_name no_discovery height)
    sync_from-Marked channel_name no_discovery none = record { run = λ s h. h }
    sync_from-Marked channel_name no_discovery (some height) = record {
      run = λ s h.
          Ends-if (λ _. Marked) Marked _ _
            (includes s.synch_in_process (synch_key encoding client channel_name)) (λ _. h)
            (λ _. (sync_missing-Marked channel_name no_discovery height).run s h);
    }

    sync_blocks-Marked :
        (channel_name : String) (no_discovery : Bool)
        → Keeps (sync_blocks encoding client channel_name no_discovery)
    unfolding sync_blocks
    sync_blocks-Marked channel_name no_discovery =
        Leads-bind (Leads-lift (client.query_chain_info channel_name) (λ s h. h))
          λ info. Leads-from (λ s h. h.1) (sync_from-Marked channel_name no_discovery info)

    handle-Marked : (e : LedgerEvent) (s : Service) → Marked s → Marked (handle encoding client e s)
    handle-Marked (arrival no_discovery block) s h =
        Leads-keeps (process_block_event-Marked no_discovery block) s h
    handle-Marked (synchronisation channel_name no_discovery) s h =
        Leads-keeps (sync_blocks-Marked channel_name no_discovery) s h

    pub serve-Marked :
        (events : List LedgerEvent) (s : Service)
        → Marked s
        → Marked (serve encoding client events s)
    serve-Marked [] s h = h
    serve-Marked (e ∷ es) s h = serve-Marked es (handle encoding client e s) (handle-Marked e s h)
