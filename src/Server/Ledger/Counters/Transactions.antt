-- ===== src/Server/Ledger/Counters/Transactions.antt =====
-- Saving a transaction and the counters of the channels.
use thermotrace_production.Common.{
  ◌+◌, String, Bool, true, false, if◌then◌else◌, ◌≡◌, refl, All, Option,
}
use thermotrace_production.Server.Ledger.{Transaction, Channel, Tables}
use thermotrace_production.Server.Ledger.Crud.{
  count, is_valid_row, channel_in, is_transaction, insert_transaction, count_transaction,
  count_chaincode, save_transaction,
}
use thermotrace_production.Server.Ledger.Logic.{
  Leads, Leads-bind, Leads-then, Leads-if, Leads-pure, Leads-from, Leads-count, Leads-tables,
}
use thermotrace_production.Server.Ledger.Counters.{
  Agree, Agree-both, Agree-awaited, Agree-least, All-map, All-update, same_channel, Tally,
  Tally-least, Counts, blocks_of, transactions_of,
}

-- After the insertion of a transaction, before its channels are counted.
abbrev TransactionAwaits : Bool → String → String → Tables → Channel → Type 0
TransactionAwaits exact network hash t c =
    Agree exact c.blocks (blocks_of t c)
    × Agree exact (if channel_in network hash c then c.trans + 1 else c.trans) (transactions_of t c)

module _ (exact : Bool) (network hash : String) where
  abbrev TransactionTally : Tables → Type 0
  TransactionTally t = All (TransactionAwaits exact network hash t) t.channels

  TransactionTally-insert :
      (x : Transaction) (t : Tables)
      → x.network_name ≡ network
      → x.channel_genesis_hash ≡ hash
      → Tally exact t
      → TransactionTally (insert_transaction x t)
  unfolding count
  TransactionTally-insert x t n h all =
      All-map t.channels
        (λ c (blocks, trans). (
          blocks,
          rw (n, h, same_channel network hash c)
              (Agree-both exact (channel_in network hash c) c.trans _ trans),
        ))
        all

  transaction_counted :
      (counted : Bool) (t : Tables) (c : Channel)
      → Agree exact c.blocks (blocks_of t c)
      → Agree exact (if counted then c.trans + 1 else c.trans) (transactions_of t c)
      → Counts exact t (if counted then record c { trans = c.trans + 1 } else c)
  transaction_counted true t c b x = (b, x)
  transaction_counted false t c b x = (b, x)

  TransactionTally-count :
      (t : Tables) → TransactionTally t → Tally exact (count_transaction network hash t)
  TransactionTally-count t all =
      All-update (Counts exact t) (channel_in network hash) (λ c. record c { trans = c.trans + 1 })
        t.channels (λ c (b, x). transaction_counted (channel_in network hash c) t c b x) all

  TransactionTally-least : (t : Tables) → TransactionTally t → Tally false t
  TransactionTally-least t all =
      All-map t.channels
        (λ c (b, x). (
          Agree-least exact c.blocks _ b,
          Agree-awaited exact (channel_in network hash c) c.trans _ x,
        ))
        all

-- Saving a transaction keeps the counters, in the same two ways as saving a block.
pub save_transaction-Tally :
    (exact : Bool) (network : String) (x : Transaction) (version : Option String)
    → Leads
        (λ s. Tally exact s.tables)
        (save_transaction network x version)
        (λ _ s. Tally exact s.tables)
        (λ s. Tally false s.tables)
unfolding save_transaction
save_transaction-Tally exact network x version =
    let hash = x.channel_genesis_hash in
    let small = Tally-least exact in
    let awaits = TransactionTally exact network hash in
    let smaller = TransactionTally-least exact network hash in
    let whole = record x { network_name = network } in
    Leads-bind
      (Leads-count (Tally exact) (Tally exact) (Tally false)
        (λ t. count (is_transaction network x) t.transactions) small)
      λ c.
        Leads-if (is_valid_row c)
          (λ _.
            Leads-then (λ s. awaits s.tables)
              (Leads-from (λ s p. p.1)
                (Leads-tables (Tally exact) awaits (Tally false) (insert_transaction whole)
                  (λ t. TransactionTally-insert exact network hash whole t refl refl) small))
              (Leads-then (λ s. awaits s.tables)
                (Leads-tables awaits awaits (Tally false) (count_chaincode network x version)
                  (λ t h. h) smaller)
                (Leads-then (λ s. Tally exact s.tables)
                  (Leads-tables awaits (Tally exact) (Tally false) (count_transaction network hash)
                    (TransactionTally-count exact network hash) smaller)
                  (Leads-pure true λ s p. p))))
          (λ _. Leads-pure false λ s p. p.1)
