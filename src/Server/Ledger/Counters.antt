-- ===== src/Server/Ledger/Counters.antt =====
-- The counters of the channels against the rows of the tables.
pub mod Transactions
use thermotrace_production.Common.{
  ℕ, suc, ◌+◌, ◌≤◌, String, Bool, true, false, if◌then◌else◌, nat_eq, List, [], ◌∷◌, ◌≡◌, refl,
  Bool-cases, inl, inr, arith, All, Option, sym, ◌∙◌, ◌==◌, eq_iff,
}
use thermotrace_production.Server.Ledger.{
  Block, Transaction, Channel, Tables, Service, Program, ◌>>=◌, ◌>>◌, pure, query, execute,
}
use thermotrace_production.Server.Ledger.Crud.{
  count, update, is_valid_row, block_in, transaction_in, channel_in, is_block, insert_block,
  count_block, insert_transaction, count_transaction, count_chaincode, save_block, save_transaction,
  of_channel,
}
use thermotrace_production.Server.Ledger.Logic.{
  Leads, Leads-bind, Leads-then, Leads-if, Leads-pure, Leads-from, Leads-count, Leads-tables,
}

-- A counter against a number of rows: the same, or not above it.
abbrev pub Agree : Bool → ℕ → ℕ → Type 0
Agree true a b = a ≡ b
Agree false a b = a ≤ b

pub Agree-least : (exact : Bool) (a b : ℕ) → Agree exact a b → a ≤ b
Agree-least true a b h = omega arith
Agree-least false a b h = h

pub Agree-both :
    (exact b : Bool) (x y : ℕ)
    → Agree exact x y
    → Agree exact (if b then x + 1 else x) (if b then suc y else y)
Agree-both true true x y h = omega arith
Agree-both false true x y h = omega arith
Agree-both exact false x y h = h

pub Agree-awaited : (exact b : Bool) (x y : ℕ) → Agree exact (if b then x + 1 else x) y → x ≤ y
Agree-awaited true true x y h = omega arith
Agree-awaited false true x y h = omega arith
Agree-awaited exact false x y h = Agree-least exact x y h

-- The rows of a channel.
abbrev pub blocks_of : Tables → Channel → ℕ
blocks_of t c = count (block_in c.network_name c.channel_genesis_hash) t.blocks

abbrev pub transactions_of : Tables → Channel → ℕ
transactions_of t c = count (transaction_in c.network_name c.channel_genesis_hash) t.transactions

abbrev pub Counts : Bool → Tables → Channel → Type 0
Counts exact t c = Agree exact c.blocks (blocks_of t c) × Agree exact c.trans (transactions_of t c)

-- The counters of every channel agree with the rows.
abbrev pub Tally : Bool → Tables → Type 0
Tally exact t = All (Counts exact t) t.channels

pub All-map {ℓ κ} :
    {A : Type ℓ} {P Q : A → Type κ} (xs : List A) → ((x : A) → P x → Q x) → All P xs → All Q xs
All-map [] h all = tt
All-map (x ∷ xs) h (p, all) = (h x p, All-map xs h all)

pub All-update {ℓ κ} :
    {A : Type ℓ} {P : A → Type κ} (Q : A → Type κ) (p : A → Bool) (f : A → A) (xs : List A)
    → ((x : A) → P x → Q (if p x then f x else x))
    → All P xs
    → All Q (update p f xs)
All-update Q p f [] h all = tt
All-update Q p f (x ∷ xs) h (here, later) = (h x here, All-update Q p f xs h later)

eq_sym : (a b : String) → (a == b) ≡ (b == a)
eq_sym a b = elim (Bool-cases (a == b)) [
  | inl h ↦ h ∙ sym ((eq_iff b a).1 (sym ((eq_iff a b).0 h)))
  | inr h ↦ elim (Bool-cases (b == a)) [
    | inl k ↦ let back = (eq_iff a b).1 (sym ((eq_iff b a).0 k)) in cc
    | inr k ↦ h ∙ sym k
  ]
]

-- The channels that a row belongs to are those that the statement counts it for.
pub same_channel :
    (network hash : String) (c : Channel)
    → of_channel c.network_name c.channel_genesis_hash network hash ≡ channel_in network hash c
same_channel network hash c =
    rw (eq_sym hash c.channel_genesis_hash, eq_sym network c.network_name) refl

-- After the insertion of a block, before its channels are counted.
abbrev BlockAwaits : Bool → String → String → Tables → Channel → Type 0
BlockAwaits exact network hash t c =
    Agree exact (if channel_in network hash c then c.blocks + 1 else c.blocks) (blocks_of t c)
    × Agree exact c.trans (transactions_of t c)

pub Tally-least : (exact : Bool) (t : Tables) → Tally exact t → Tally false t
Tally-least exact t all =
    All-map t.channels (λ c (b, x). (Agree-least exact c.blocks _ b, Agree-least exact c.trans _ x))
      all

module _ (exact : Bool) (network hash : String) where
  abbrev BlockTally : Tables → Type 0
  BlockTally t = All (BlockAwaits exact network hash t) t.channels

  BlockTally-insert :
      (b : Block) (t : Tables)
      → b.network_name ≡ network
      → b.channel_genesis_hash ≡ hash
      → Tally exact t
      → BlockTally (insert_block b t)
  unfolding count
  BlockTally-insert b t n h all =
      All-map t.channels
        (λ c (blocks, trans). (
          rw (n, h, same_channel network hash c)
              (Agree-both exact (channel_in network hash c) c.blocks _ blocks),
          trans,
        ))
        all

  block_counted :
      (counted : Bool) (t : Tables) (c : Channel)
      → Agree exact (if counted then c.blocks + 1 else c.blocks) (blocks_of t c)
      → Agree exact c.trans (transactions_of t c)
      → Counts exact t (if counted then record c { blocks = c.blocks + 1 } else c)
  block_counted true t c b x = (b, x)
  block_counted false t c b x = (b, x)

  BlockTally-count : (t : Tables) → BlockTally t → Tally exact (count_block network hash t)
  BlockTally-count t all =
      All-update (Counts exact t) (channel_in network hash)
        (λ c. record c { blocks = c.blocks + 1 }) t.channels
        (λ c (b, x). block_counted (channel_in network hash c) t c b x) all

  BlockTally-least : (t : Tables) → BlockTally t → Tally false t
  BlockTally-least t all =
      All-map t.channels
        (λ c (b, x). (
          Agree-awaited exact (channel_in network hash c) c.blocks _ b,
          Agree-least exact c.trans _ x,
        ))
        all

-- Saving a block keeps the counters: those that were equal to the numbers of rows still are if it
-- returns, and none is above it whatever the database refuses.
pub save_block-Tally :
    (exact : Bool) (network : String) (b : Block)
    → Leads
        (λ s. Tally exact s.tables)
        (save_block network b)
        (λ _ s. Tally exact s.tables)
        (λ s. Tally false s.tables)
unfolding save_block
save_block-Tally exact network b =
    let hash = b.channel_genesis_hash in
    let small = Tally-least exact in
    Leads-bind
      (Leads-count (Tally exact) (Tally exact) (Tally false)
        (λ t. count (is_block network b) t.blocks) small)
      λ c.
        Leads-if (is_valid_row c)
          (λ _.
            Leads-then (λ s. BlockTally exact network hash s.tables)
              (Leads-from (λ s p. p.1)
                (Leads-tables (Tally exact) (BlockTally exact network hash) (Tally false)
                  (insert_block (record b { network_name = network }))
                  (λ t. BlockTally-insert exact network hash _ t refl refl) small))
              (Leads-then (λ s. Tally exact s.tables)
                (Leads-tables (BlockTally exact network hash) (Tally exact) (Tally false)
                  (count_block network hash) (BlockTally-count exact network hash)
                  (BlockTally-least exact network hash))
                (Leads-pure true λ s p. p)))
          (λ _. Leads-pure false λ s p. p.1)
