-- ===== src/Server/Ledger/Missing.antt =====
-- A synchronisation finds the blocks that are missing and saves them.
use thermotrace_production.Common.{
  ℕ, suc, ◌<◌, String, Bool, true, false, not, ◌||◌, ◌==◌, nat_eq, List, [], ◌∷◌, ◌++◌, ◌≡◌, ◌∙◌,
  refl, sym, ap, subst, Option, some, eq_refl, All,
}
use thermotrace_production.Js.Value.{ok}
use thermotrace_production.Server.Ledger.{Transaction, Tables, Service, ◌>>=◌, lift, try_log}
use thermotrace_production.Server.Ledger.Crud.{has_block, series_without, find_missing_block_number}
use thermotrace_production.Server.Ledger.Envelopes.{
  BlockData, Envelope, ChannelHeader, Encoding, transaction_row, first,
}
use thermotrace_production.Server.Ledger.Logic.{
  Ends-if, Leads, Leads-bind, Leads-then, Leads-if, Leads-when, Leads-pure, Leads-from, Leads-asked,
  Leads-modify, Leads-weaken, Leads-returns, Leads-try, Leads-value, Leads-assume,
}
use thermotrace_production.Server.Ledger.Presence.{
  Holds, implied, save_transaction-Holds, save_block-Holds,
}
use thermotrace_production.Server.Ledger.Series.{
  among, or-false, or-or, not-or, series_without-All, found_before,
}
use thermotrace_production.Server.Ledger.Sync.{
  Client, includes, remove_key, block_key, block_row, process_transaction, process_transactions,
  insert_all, process_with, process_block_event, process_found, process_missing, sync_missing,
  sync_from, sync_blocks, synch_key,
}

module _ (encoding : Encoding) (client : Client) where
  -- Every transaction of a block can be made a row.
  abbrev pub Decodes : BlockData → String → ℕ → List Envelope → Type 0
  Decodes block hash index [] = Unit
  Decodes block hash index (tx ∷ txs) =
      ((row : Transaction × Option String) × (transaction_row encoding block hash index tx
          ≡ ok row))
      × Decodes block hash (suc index) txs

  -- The gateway has a block with the number, its first transaction is of the channel, and each of
  -- its transactions can be made a row.
  pub record Gives (channel_name : String) (n : ℕ) : Type 0 where
    pub block : BlockData
    pub given : client.query_block channel_name n ≡ ok (some block)
    pub numbered : block.number ≡ n
    pub start : Envelope
    pub starts : first block.transactions ≡ ok start
    pub placed : start.channel_header.channel_id ≡ channel_name
    pub decodes : Decodes block (client.get_channel_gen_hash channel_name) 0 block.transactions

  module _ (hash : String) (m : ℕ) where
    module _ (no_discovery : Bool) (header : ChannelHeader) (block : BlockData) where
      process_transactions-Holds :
          (keys : List String) (saved : Bool) (index : ℕ) (txs : List Envelope)
          → Decodes block hash index txs
          → Leads
              (Holds client.network_id hash m keys saved)
              (process_transactions encoding client no_discovery header block hash index txs)
              (λ _. Holds client.network_id hash m keys saved)
              (λ _. ⊥)
      unfolding process_transactions process_transaction
      process_transactions-Holds keys saved index [] all = Leads-pure tt λ s h. h
      process_transactions-Holds keys saved index (tx ∷ txs) ((row, made), later) =
          Leads-then (Holds client.network_id hash m keys saved)
            (Leads-value (transaction_row encoding block hash index tx) _ row made (
              Leads-then (Holds client.network_id hash m keys saved) (Leads-when _ _ λ s h. h) (
                Leads-then (Holds client.network_id hash m keys saved)
                  (save_transaction-Holds client.network_id hash m keys saved row.0 row.1)
                  (Leads-pure tt λ s h. h))))
            (process_transactions-Holds keys saved (suc index) txs later)

      insert_all-Holds :
          (key : String) (saved : Bool)
          → Decodes block hash 0 block.transactions
          → Leads
              (Holds client.network_id hash m (key ∷ []) saved)
              (insert_all encoding client no_discovery header block hash key)
              (λ _. Holds client.network_id hash m [] (saved || nat_eq block.number m))
              (λ _. ⊥)
      unfolding insert_all
      insert_all-Holds key saved all =
          let after : Bool = saved || nat_eq block.number m in
          Leads-then (Holds client.network_id hash m (key ∷ []) saved) (Leads-when _ _ λ s h. h) (
            Leads-then (Holds client.network_id hash m (key ∷ []) saved)
              (process_transactions-Holds (key ∷ []) saved 0 block.transactions all)
              (Leads-bind
                (save_block-Holds client.network_id hash m (key ∷ []) saved
                  (block_row encoding client block (encoding.date header.timestamp) hash) refl)
                λ added.
                  Leads-then (Holds client.network_id hash m (key ∷ []) after)
                    (Leads-when added _ λ s h. h)
                    (Leads-modify _
                      λ s (r, k, h). (r, ap (remove_key key) k ∙ rw (eq_refl key) refl, h))))

    process_with-Holds :
        (no_discovery saved : Bool) (header : ChannelHeader) (block : BlockData)
        → (hash == "") ≡ false
        → Decodes block hash 0 block.transactions
        → Leads
            (Holds client.network_id hash m [] saved)
            (process_with encoding client no_discovery block header hash)
            (λ _. Holds client.network_id hash m [] (saved || nat_eq block.number m))
            (λ _. ⊥)
    unfolding process_with
    process_with-Holds no_discovery saved header block known all =
        let key = block_key encoding client header.channel_id block in
        Leads-if (hash == "") (λ e. absurd cc)
          (λ _.
            Leads-then (Holds client.network_id hash m (key ∷ []) saved)
              (record {
                run = λ s (r, k, h).
                    Ends-if (λ _. Holds client.network_id hash m (key ∷ []) saved) (λ _. ⊥) _ _
                      (includes s.blocks_in_process key) (λ e. let fresh = rw k at e in cc)
                      (λ _. (r, ap (λ keys. keys ++ (key ∷ [])) k, h));
              })
              (insert_all-Holds no_discovery header block key saved all))

  module _ (channel_name : String) (m : ℕ) (no_discovery : Bool)
      (known : (client.get_channel_gen_hash channel_name == "") ≡ false) where
    abbrev Settled : Bool → Service → Type 0
    Settled = Holds client.network_id (client.get_channel_gen_hash channel_name) m []

    process_found-Holds :
        (saved : Bool) (n : ℕ) (g : Gives channel_name n)
        → Leads
            (Settled saved)
            (process_found encoding client no_discovery (some g.block))
            (λ _. Settled (saved || nat_eq n m))
            (λ _. ⊥)
    unfolding process_block_event
    process_found-Holds saved n g = Leads-value (first g.block.transactions) _ g.start g.starts (
        subst
          (λ k.
            Leads (Settled saved)
              (process_with encoding client no_discovery g.block g.start.channel_header
                (client.get_channel_gen_hash g.start.channel_header.channel_id))
              (λ _. Settled (saved || nat_eq k m)) (λ _. ⊥))
          g.numbered
          (subst
            (λ h.
              Leads (Settled saved)
                (process_with encoding client no_discovery g.block g.start.channel_header h)
                (λ _. Settled (saved || nat_eq g.block.number m)) (λ _. ⊥))
            (ap client.get_channel_gen_hash (sym g.placed))
            (process_with-Holds (client.get_channel_gen_hash channel_name) m no_discovery saved
              g.start.channel_header g.block known g.decodes)))

    process_one-Holds :
        (saved : Bool) (n : ℕ) (g : Gives channel_name n)
        → Leads
            (Settled saved)
            (try_log (
              lift (client.query_block channel_name n) >>= λ block.
              process_found encoding client no_discovery block))
            (λ _. Settled (saved || nat_eq n m))
            (λ _. ⊥)
    process_one-Holds saved n g = Leads-try (
        Leads-weaken (
          Leads-value (client.query_block channel_name n) _ (some g.block) g.given
            (process_found-Holds saved n g)))

    process_missing-Holds :
        (saved : Bool) (numbers : List ℕ)
        → All (Gives channel_name) numbers
        → Leads
            (Settled saved)
            (process_missing encoding client channel_name no_discovery numbers)
            (λ _. Settled (saved || among m numbers))
            (λ _. ⊥)
    unfolding process_missing
    process_missing-Holds saved [] all =
        Leads-pure tt λ s h. subst (λ b. Settled b s) (sym (or-false saved)) h
    process_missing-Holds saved (n ∷ ns) (g, later) =
        Leads-then (Settled (saved || nat_eq n m)) (process_one-Holds saved n g) (
          subst
            (λ b.
              Leads (Settled (saved || nat_eq n m))
                (process_missing encoding client channel_name no_discovery ns) (λ _. Settled b)
                (λ _. ⊥))
            (or-or saved (nat_eq n m) (among m ns))
            (process_missing-Holds (saved || nat_eq n m) ns later))

    sync_missing-Holds :
        (height : ℕ)
        → ((n : ℕ) → n < height → Gives channel_name n)
        → m < height
        → Leads
            (Settled false)
            (sync_missing encoding client channel_name no_discovery height)
            (λ _. Settled true)
            (λ _. ⊥)
    unfolding find_missing_block_number
    sync_missing-Holds height gives below =
        let hash = client.get_channel_gen_hash channel_name in
        let there : Tables → ℕ → Bool = λ t. has_block client.network_id hash t.blocks in
        let found : List ℕ → Service → Type 0 =
          λ numbers s. All (Gives channel_name) numbers × Settled (not (among m numbers)) s in
        Leads-then (Settled false) (Leads-modify _ λ s h. h) (
          Leads-bind
            (Leads-asked {P = Settled false} (λ s p. p.0) {Q = found}
              (λ t. series_without (there t) height [])
              (λ s (r, k, h). (
                series_without-All (Gives channel_name) (there s.tables) height [] gives tt,
                (
                  refl,
                  k,
                  implied _ _ (λ left_out. found_before (there s.tables) height below left_out),
                ),
              )))
            λ numbers.
              Leads-assume (λ s h. h.0)
                λ all.
                  Leads-from (λ s h. h.1)
                    (Leads-then (Settled true)
                      (subst
                        (λ b.
                          Leads (Settled (not (among m numbers)))
                            (process_missing encoding client channel_name no_discovery numbers)
                            (λ _. Settled b) (λ _. ⊥))
                        (not-or (among m numbers))
                        (process_missing-Holds (not (among m numbers)) numbers all))
                      (Leads-modify _ λ s h. h)))

    sync_from-Holds :
        (height : ℕ)
        → ((n : ℕ) → n < height → Gives channel_name n)
        → m < height
        → Leads
            (λ s.
              Settled false s
              × (includes s.synch_in_process (synch_key encoding client channel_name) ≡ false))
            (sync_from encoding client channel_name no_discovery (some height))
            (λ _. Settled true)
            (λ _. ⊥)
    sync_from-Holds height gives below = record {
      run = λ s (h, free).
          Ends-if (λ _. Settled true) (λ _. ⊥) _ _
            (includes s.synch_in_process (synch_key encoding client channel_name)) (λ taken. cc)
            (λ _. (sync_missing-Holds height gives below).run s h);
    }

    sync_blocks-Holds :
        (height : ℕ)
        → ((n : ℕ) → n < height → Gives channel_name n)
        → m < height
        → client.query_chain_info channel_name ≡ ok (some height)
        → Leads
            (λ s.
              Settled false s
              × (includes s.synch_in_process (synch_key encoding client channel_name) ≡ false))
            (sync_blocks encoding client channel_name no_discovery)
            (λ _. Settled true)
            (λ _. ⊥)
    unfolding sync_blocks
    sync_blocks-Holds height gives below told =
        Leads-value (client.query_chain_info channel_name) _ (some height) told
          (sync_from-Holds height gives below)

  -- Where the database refuses nothing, no block is in process and the channel is not being
  -- synchronised, and the gateway has every block below the height, with a first transaction of the
  -- channel and with transactions that can all be made rows, a synchronisation of a known channel
  -- returns, and afterwards every block below the height is in the table.
  pub sync_blocks_complete :
      (channel_name : String) (height m : ℕ) (no_discovery : Bool) (s : Service)
      → (client.get_channel_gen_hash channel_name == "") ≡ false
      → client.query_chain_info channel_name ≡ ok (some height)
      → ((n : ℕ) → n < height → Gives channel_name n)
      → s.refusals ≡ []
      → s.blocks_in_process ≡ []
      → includes s.synch_in_process (synch_key encoding client channel_name) ≡ false
      → m < height
      → ((sync_blocks encoding client channel_name no_discovery s).1 ≡ ok tt)
        × (has_block client.network_id
              (client.get_channel_gen_hash channel_name)
              (sync_blocks encoding client channel_name no_discovery s).0.tables.blocks
              m
            ≡ true)
  sync_blocks_complete channel_name height m no_discovery s known told gives quiet idle free below =
      let (a, returned, (r, k, saved)) =
        Leads-returns (sync_blocks-Holds channel_name m no_discovery known height gives below told)
          s ((quiet, idle, refl), free) in
      (returned, saved)
