-- ===== src/Server/Ledger/Stuck.antt =====
-- A block whose processing has ended in an exception.
use thermotrace_production.Common.{
  String, Bool, true, false, ◌==◌, List, [], ◌∷◌, ◌++◌, ◌≡◌, refl, sym, ap, Option, some,
  Bool-cases, inl, inr, eq_refl, subst,
}
use thermotrace_production.Js.Value.{Value, ok, throws}
use thermotrace_production.Server.Exceptions.{fail}
use thermotrace_production.Server.Ledger.{Transaction, Tables, Service, ◌>>=◌, ◌>>◌, lift}
use thermotrace_production.Server.Ledger.Crud.{save_transaction}
use thermotrace_production.Server.Ledger.Envelopes.{
  BlockData, Envelope, Encoding, first, transaction_row,
}
use thermotrace_production.Server.Ledger.Sync.{
  Client, includes, block_key, process_block_event, process_with, insert_all, process_transactions,
  process_transaction,
}
use thermotrace_production.Server.Ledger.Events.{LedgerEvent, serve}
use thermotrace_production.Server.Ledger.Marked.{serve-Marked}
use thermotrace_production.Server.Ledger.Logic.{
  Leads, Leads-bind, Leads-then, Leads-if, Leads-when, Leads-value, Leads-refused, Leads-throw,
  Leads-never, Ends-if,
}

includes-last : (keys : List String) (key : String) → includes (keys ++ (key ∷ [])) key ≡ true
includes-last [] key = rw (eq_refl key) refl
includes-last (k ∷ ks) key = elim (Bool-cases (k == key)) [
  | inl h ↦ rw h refl
  | inr h ↦ rw (h, includes-last ks key) refl
]

module _ (encoding : Encoding) (client : Client) where
  -- The key under which a block is in process, and the hash of its channel.
  abbrev key_of : BlockData → Envelope → String
  key_of block start = block_key encoding client start.channel_header.channel_id block

  abbrev hash_of : Envelope → String
  hash_of start = client.get_channel_gen_hash start.channel_header.channel_id

  process-blocked :
      (no_discovery : Bool) (block : BlockData) (start : Envelope) (s : Service)
      → first block.transactions ≡ ok start
      → (hash_of start == "") ≡ false
      → includes s.blocks_in_process (key_of block start) ≡ true
      → process_block_event encoding client no_discovery block s
        ≡ (s, fail "Block already in processing")
  unfolding process_block_event process_with ◌>>=◌ ◌>>◌ lift
  process-blocked no_discovery block start s starts known taken = rw (starts, known, taken) refl

  -- The state that the refusal of the next statement leaves.
  module _ (e : Value) (rest : List (Option Value)) (t : Tables) where
    abbrev Refuses : List String → Service → Type 0
    Refuses keys s = (s.refusals ≡ some e ∷ rest) × (s.tables ≡ t) × (s.blocks_in_process ≡ keys)

    abbrev Left : List String → Service → Type 0
    Left keys s = (s.tables ≡ t) × (s.blocks_in_process ≡ keys)

    insert_all-refused :
        (no_discovery : Bool) (block : BlockData) (start : Envelope) (txs : List Envelope)
        (hash key : String) (keys : List String) (row : Transaction × Option String)
        → block.transactions ≡ start ∷ txs
        → transaction_row encoding block hash 0 start ≡ ok row
        → Leads
            (Refuses keys)
            (insert_all encoding client no_discovery start.channel_header block hash key)
            (λ _ _. ⊥)
            (Left keys)
    unfolding insert_all process_transactions process_transaction save_transaction
    insert_all-refused no_discovery block start txs hash key keys row starts made =
        Leads-then (Refuses keys) (Leads-when _ _ λ s h. h) (
          Leads-then (λ _. ⊥)
            (subst
              (λ txs.
                Leads (Refuses keys)
                  (process_transactions encoding client no_discovery start.channel_header block hash
                    0 txs)
                  (λ _ _. ⊥) (Left keys))
              (sym starts)
              (Leads-then (λ _. ⊥)
                (Leads-value (transaction_row encoding block hash 0 start) _ row made (
                  Leads-then (Refuses keys) (Leads-when _ _ λ s h. h) (
                    Leads-then (λ _. ⊥)
                      (Leads-bind {Q = λ _ _. ⊥}
                        (Leads-refused _ e rest (λ s h. h.0) (λ s (r, same, k). (same, k)))
                        λ c. Leads-never)
                      Leads-never)))
                Leads-never))
            Leads-never)

    process-refused :
        (no_discovery : Bool) (block : BlockData) (start : Envelope) (txs : List Envelope)
        (keys : List String) (row : Transaction × Option String)
        → block.transactions ≡ start ∷ txs
        → (hash_of start == "") ≡ false
        → includes keys (key_of block start) ≡ false
        → transaction_row encoding block (hash_of start) 0 start ≡ ok row
        → Leads
            (Refuses keys)
            (process_block_event encoding client no_discovery block)
            (λ _ _. ⊥)
            (Left (keys ++ (key_of block start ∷ [])))
    unfolding process_block_event process_with
    process-refused no_discovery block start txs keys row starts known free made =
        Leads-value (first block.transactions) _ start (ap first starts) (
          Leads-if (hash_of start == "") (λ h. absurd cc)
            (λ _.
              Leads-then (Refuses (keys ++ (key_of block start ∷ [])))
                (record {
                  run = λ s (r, same, k).
                      Ends-if (λ _. Refuses (keys ++ (key_of block start ∷ [])))
                        (Left (keys ++ (key_of block start ∷ []))) _ _
                        (includes s.blocks_in_process (key_of block start))
                        (λ taken. let clash = rw k at taken in absurd cc)
                        (λ _. (r, same, ap (λ l. l ++ (key_of block start ∷ [])) k));
                })
                (insert_all-refused no_discovery block start txs (hash_of start)
                  (key_of block start) _ row starts made)))

  -- When the first statement for a block is refused, the processing throws and leaves the tables as
  -- they are; and after any further blocks that arrive and any synchronisations, whatever the
  -- database then answers or refuses, an arrival of the block is refused as already in processing
  -- and changes nothing.
  pub process-refused_again :
      (no_discovery again : Bool) (block : BlockData) (start : Envelope) (txs : List Envelope)
      (s : Service) (e : Value) (rest : List (Option Value)) (row : Transaction × Option String)
      (events : List LedgerEvent)
      → block.transactions ≡ start ∷ txs
      → (hash_of start == "") ≡ false
      → includes s.blocks_in_process (key_of block start) ≡ false
      → transaction_row encoding block (hash_of start) 0 start ≡ ok row
      → s.refusals ≡ some e ∷ rest
      → (s' : Service) × (error : Value) × (process_block_event encoding client no_discovery block s
          ≡ (s', throws error))
        × (s'.tables ≡ s.tables)
        × (process_block_event encoding client again block (serve encoding client events s')
            ≡ (serve encoding client events s', fail "Block already in processing"))
  process-refused_again no_discovery again block start txs s e rest row events starts known free
        made r =
      let (error, thrown, (same, keys)) =
        Leads-throw
          (process-refused e rest s.tables no_discovery block start txs s.blocks_in_process row
            starts known free made)
          s (r, refl, refl) in
      let s' = (process_block_event encoding client no_discovery block s).0 in
      (
        s',
        error,
        ap (λ c. (s', c)) thrown,
        same,
        process-blocked again block start (serve encoding client events s') (ap first starts) known
            (serve-Marked (key_of block start) encoding client events s'
              (rw keys (includes-last s.blocks_in_process (key_of block start)))),
      )
