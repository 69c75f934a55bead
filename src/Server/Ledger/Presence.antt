-- ===== src/Server/Ledger/Presence.antt =====
-- A block that is in the table stays there, and is there once it has been saved.
use thermotrace_production.Common.{
  ℕ, String, Bool, true, false, not, ◌&&◌, ◌||◌, ◌==◌, nat_eq, nat_eq_iff, List, [], ◌∷◌, ◌≡◌, ◌∙◌,
  refl, sym, Option, Bool-cases, inl, inr, arith, eq_refl,
}
use thermotrace_production.Server.Ledger.{Block, Transaction, Service}
use thermotrace_production.Server.Ledger.Crud.{
  count, is_valid_row, is_block, is_transaction, save_block, save_transaction, has_block, numbered,
  block_in,
}
use thermotrace_production.Server.Ledger.Logic.{
  Leads, Leads-bind, Leads-then, Leads-if, Leads-pure, Leads-answered, Leads-asked,
}

-- Some row has the property.
module _ {ℓ} {A : Type ℓ} where
  abbrev exists : (A → Bool) → List A → Bool
  exists p xs = not (nat_eq (count p xs) 0)

  exists-here : (p : A → Bool) (x : A) (xs : List A) → p x ≡ true → exists p (x ∷ xs) ≡ true
  unfolding count
  exists-here p x xs h = rw h (ground arith)

  exists-later :
      (p : A → Bool) (x : A) (xs : List A) → exists p xs ≡ true → exists p (x ∷ xs) ≡ true
  unfolding count
  exists-later p x xs h = elim (Bool-cases (p x)) [
    | inl holds ↦ exists-here p x xs holds
    | inr other ↦ rw other h
  ]

  exists-implies :
      (p q : A → Bool) (xs : List A)
      → ((x : A) → p x ≡ true → q x ≡ true)
      → exists p xs ≡ true
      → exists q xs ≡ true
  unfolding count
  exists-implies p q [] h found = found
  exists-implies p q (x ∷ xs) h found = elim (Bool-cases (p x)) [
    | inl holds ↦ exists-here q x xs (h x holds)
    | inr other ↦ exists-later q x xs (exists-implies p q xs h (rw other at found))
  ]

pub implied : (a b : Bool) → (a ≡ true → b ≡ true) → (not a || b) ≡ true
implied true b h = h refl
implied false b h = refl

and-parts : (a b : Bool) → (a && b) ≡ true → (a ≡ true) × (b ≡ true)
and-parts true b h = (refl, h)
and-parts false b h = cc

-- The rows of a channel, one number of a block, and the keys of the blocks in process.
module _ (network hash : String) (m : ℕ) where
  -- No statement is refused, and the block is there where `saved` says so.
  abbrev pub Holds : List String → Bool → Service → Type 0
  Holds keys saved s =
      (s.refusals ≡ [])
      × (s.blocks_in_process ≡ keys)
      × ((not saved || has_block network hash s.tables.blocks m) ≡ true)

  has_block-insert :
      (b : Block) (rows : List Block)
      → b.network_name ≡ network
      → b.channel_genesis_hash ≡ hash
      → (not (nat_eq b.blocknum m) || has_block network hash (b ∷ rows) m) ≡ true
  unfolding count
  has_block-insert b rows n h =
      implied (nat_eq b.blocknum m) (has_block network hash (b ∷ rows) m) λ same.
        exists-here (numbered network hash m) b rows
          (rw (same, n, h, eq_refl hash, eq_refl network) refl)

  has_block-cons :
      (b : Block) (rows : List Block)
      → has_block network hash rows m ≡ true
      → has_block network hash (b ∷ rows) m ≡ true
  unfolding count
  has_block-cons b rows h = exists-later (numbered network hash m) b rows h

  has_block-found :
      (b : Block) (rows : List Block)
      → b.channel_genesis_hash ≡ hash
      → nat_eq (count (is_block network b) rows) 0 ≡ false
      → (not (nat_eq b.blocknum m) || has_block network hash rows m) ≡ true
  has_block-found b rows h found =
      implied (nat_eq b.blocknum m) (has_block network hash rows m) λ same.
        exists-implies (is_block network b) (numbered network hash m) rows
          (λ row matching.
            let (number, others) =
              and-parts (nat_eq row.blocknum b.blocknum)
                (nat_eq row.txcount b.txcount
                  && (block_in network b.channel_genesis_hash row
                      && (row.prehash == b.prehash && row.datahash == b.datahash)))
                matching in
            let (size, others') =
              and-parts (nat_eq row.txcount b.txcount)
                (block_in network b.channel_genesis_hash row
                  && (row.prehash == b.prehash && row.datahash == b.datahash))
                others in
            let (place, hashes) =
              and-parts (block_in network b.channel_genesis_hash row)
                (row.prehash == b.prehash && row.datahash == b.datahash) others' in
            let number' =
              (nat_eq_iff row.blocknum m).1 (
                (nat_eq_iff row.blocknum b.blocknum).0 number ∙ (nat_eq_iff b.blocknum m).0 same) in
            rw (number', sym h, place) refl)
          (rw found refl)

  or-holds : (a b h : Bool) → (not a || h) ≡ true → (not b || h) ≡ true → (not (a || b) || h) ≡ true
  or-holds true b h p q = p
  or-holds false b h p q = q

  keeps_saved :
      (saved : Bool) (b : Block) (rows : List Block)
      → (not saved || has_block network hash rows m) ≡ true
      → (not saved || has_block network hash (b ∷ rows) m) ≡ true
  keeps_saved true b rows h = has_block-cons b rows h
  keeps_saved false b rows h = refl

  -- Where no statement is refused, saving a transaction and saving a block return.
  pub save_transaction-Holds :
      (keys : List String) (saved : Bool) (x : Transaction) (version : Option String)
      → Leads
          (Holds keys saved)
          (save_transaction network x version)
          (λ _. Holds keys saved)
          (λ _. ⊥)
  unfolding save_transaction
  save_transaction-Holds keys saved x version =
      Leads-bind
        (Leads-asked {P = Holds keys saved} (λ s p. p.0) {Q = λ _. Holds keys saved}
          (λ t. count (is_transaction network x) t.transactions) (λ s (r, k, h). (refl, k, h)))
        λ c.
          Leads-if (is_valid_row c)
            (λ _.
              Leads-then (Holds keys saved)
                (Leads-answered {P = Holds keys saved} (λ s p. p.0) _ (λ s (r, k, h). (refl, k, h)))
                (Leads-then (Holds keys saved)
                  (Leads-answered {P = Holds keys saved} (λ s p. p.0) _
                    (λ s (r, k, h). (refl, k, h)))
                  (Leads-then (Holds keys saved)
                    (Leads-answered {P = Holds keys saved} (λ s p. p.0) _
                      (λ s (r, k, h). (refl, k, h)))
                    (Leads-pure true λ s p. p))))
            (λ _. Leads-pure false λ s p. p)

  pub save_block-Holds :
      (keys : List String) (saved : Bool) (b : Block)
      → b.channel_genesis_hash ≡ hash
      → Leads
          (Holds keys saved)
          (save_block network b)
          (λ _. Holds keys (saved || nat_eq b.blocknum m))
          (λ _. ⊥)
  unfolding save_block
  save_block-Holds keys saved b same =
      let found : ℕ → Service → Type 0 =
        λ c s. Holds keys saved s × (c ≡ count (is_block network b) s.tables.blocks) in
      let after : Service → Type 0 = Holds keys (saved || nat_eq b.blocknum m) in
      Leads-bind
        (Leads-asked {P = Holds keys saved} (λ s p. p.0) {Q = found}
          (λ t. count (is_block network b) t.blocks) (λ s (r, k, h). ((refl, k, h), refl)))
        λ c.
          Leads-if (is_valid_row c)
            (λ _.
              Leads-then after
                (Leads-answered {P = found c} (λ s p. p.0.0) _
                  (λ s ((r, k, h), e). (
                    refl,
                    k,
                    or-holds saved (nat_eq b.blocknum m) _ (keeps_saved saved _ s.tables.blocks h) (
                        has_block-insert (record b { network_name = network }) s.tables.blocks refl
                          same),
                  )))
                (Leads-then after
                  (Leads-answered {P = after} (λ s p. p.0) _ (λ s (r, k, h). (refl, k, h)))
                  (Leads-pure true λ s p. p)))
            (λ old. Leads-pure false λ s ((r, k, h), e). (
              r,
              k,
              or-holds saved (nat_eq b.blocknum m) _ h
                  (has_block-found b s.tables.blocks same (rw (sym e) old)),
            ))
