-- ===== src/Server/Ledger/Repeats.antt =====
-- No block and no transaction is saved twice.
use thermotrace_production.Common.{
  ℕ, String, true, false, nat_eq_iff, List, [], ◌∷◌, ◌≡◌, ◌∙◌, sym, Option,
}
use thermotrace_production.Server.Ledger.{Block, Transaction, Tables}
use thermotrace_production.Server.Ledger.Crud.{
  count, is_valid_row, is_block, insert_block, count_block, is_transaction, insert_transaction,
  count_chaincode, count_transaction, save_block, save_transaction,
}
use thermotrace_production.Server.Ledger.Logic.{
  Leads, Leads-bind, Leads-then, Leads-if, Leads-pure, Leads-from, Leads-count, Leads-tables,
}

abbrev DistinctBlocks : List Block → Type 0
DistinctBlocks [] = Unit
DistinctBlocks (b ∷ bs) = (count (is_block b.network_name b) bs ≡ 0) × DistinctBlocks bs

abbrev DistinctTransactions : List Transaction → Type 0
DistinctTransactions [] = Unit
DistinctTransactions (x ∷ xs) =
    (count (is_transaction x.network_name x) xs ≡ 0) × DistinctTransactions xs

-- No two rows stand for the same block, or for the same transaction.
abbrev pub Unrepeated : Tables → Type 0
Unrepeated t = DistinctBlocks t.blocks × DistinctTransactions t.transactions

-- What the guards of the insertions find.
abbrev NewBlock : String → Block → Tables → Type 0
NewBlock network b t = (count (is_block network b) t.blocks ≡ 0) × Unrepeated t

abbrev NewTransaction : String → Transaction → Tables → Type 0
NewTransaction network x t = (count (is_transaction network x) t.transactions ≡ 0) × Unrepeated t

none_found : (n c : ℕ) → is_valid_row n ≡ true → n ≡ c → c ≡ 0
none_found n c h same = sym same ∙ (nat_eq_iff n 0).0 h

pub save_block-Unrepeated :
    (network : String) (b : Block)
    → Leads
        (λ s. Unrepeated s.tables)
        (save_block network b)
        (λ _ s. Unrepeated s.tables)
        (λ s. Unrepeated s.tables)
unfolding save_block
save_block-Unrepeated network b =
    Leads-bind
      (Leads-count Unrepeated Unrepeated Unrepeated (λ t. count (is_block network b) t.blocks)
        (λ t h. h))
      λ c.
        Leads-if (is_valid_row c)
          (λ valid.
            Leads-then (λ s. Unrepeated s.tables)
              (Leads-from (λ s p. (none_found c _ valid p.0, p.1))
                (Leads-tables (NewBlock network b) Unrepeated Unrepeated
                  (insert_block (record b { network_name = network }))
                  (λ t (fresh, (blocks, transactions)). ((fresh, blocks), transactions))
                  (λ t h. h.1)))
              (Leads-then (λ s. Unrepeated s.tables)
                (Leads-tables Unrepeated Unrepeated Unrepeated
                  (count_block network b.channel_genesis_hash) (λ t h. h) (λ t h. h))
                (Leads-pure true λ s p. p)))
          (λ _. Leads-pure false λ s p. p.1)

pub save_transaction-Unrepeated :
    (network : String) (x : Transaction) (version : Option String)
    → Leads
        (λ s. Unrepeated s.tables)
        (save_transaction network x version)
        (λ _ s. Unrepeated s.tables)
        (λ s. Unrepeated s.tables)
unfolding save_transaction
save_transaction-Unrepeated network x version =
    Leads-bind
      (Leads-count Unrepeated Unrepeated Unrepeated
        (λ t. count (is_transaction network x) t.transactions) (λ t h. h))
      λ c.
        Leads-if (is_valid_row c)
          (λ valid.
            Leads-then (λ s. Unrepeated s.tables)
              (Leads-from (λ s p. (none_found c _ valid p.0, p.1))
                (Leads-tables (NewTransaction network x) Unrepeated Unrepeated
                  (insert_transaction (record x { network_name = network }))
                  (λ t (fresh, (blocks, transactions)). (blocks, (fresh, transactions)))
                  (λ t h. h.1)))
              (Leads-then (λ s. Unrepeated s.tables)
                (Leads-tables Unrepeated Unrepeated Unrepeated (count_chaincode network x version)
                  (λ t h. h) (λ t h. h))
                (Leads-then (λ s. Unrepeated s.tables)
                  (Leads-tables Unrepeated Unrepeated Unrepeated
                    (count_transaction network x.channel_genesis_hash) (λ t h. h) (λ t h. h))
                  (Leads-pure true λ s p. p))))
          (λ _. Leads-pure false λ s p. p.1)
