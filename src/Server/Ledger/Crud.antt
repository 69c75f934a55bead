-- ===== src/Server/Ledger/Crud.antt =====
-- blockchain-explorer/app/persistence/fabric/CRUDService.ts, and `findMissingBlockNumber` of
-- MetricService.ts: each statement as a function of the tables. A count arrives as a text, of which
-- only `0` is a valid row.
use thermotrace_production.Common.{
  ℕ, zero, suc, ◌+◌, String, Bool, true, false, not, ◌&&◌, ◌==◌, if◌then◌else◌, nat_eq, List, [],
  ◌∷◌, map, Option, some, none,
}
use thermotrace_production.Server.Ledger.{
  Block, Transaction, Channel, Tables, Program, pure, ◌>>=◌, ◌>>◌, query, execute,
}

-- `select count(1) ... where p`
unfoldable pub count {ℓ} : {A : Type ℓ} → (A → Bool) → List A → ℕ
count p [] = 0
count p (x ∷ xs) = if p x then suc (count p xs) else count p xs

-- `update ... set f where p`
abbrev pub update {ℓ} : {A : Type ℓ} → (A → Bool) → (A → A) → List A → List A
update p f xs = map (λ x. if p x then f x else x) xs

abbrev pub is_valid_row : ℕ → Bool
is_valid_row c = nat_eq c 0

-- The row is one of a channel of a network.
abbrev pub of_channel : String → String → String → String → Bool
of_channel network hash network_name channel_genesis_hash =
    channel_genesis_hash == hash && network_name == network

abbrev pub block_in : String → String → Block → Bool
block_in network hash b = of_channel network hash b.network_name b.channel_genesis_hash

abbrev pub transaction_in : String → String → Transaction → Bool
transaction_in network hash x = of_channel network hash x.network_name x.channel_genesis_hash

abbrev pub channel_in : String → String → Channel → Bool
channel_in network hash c = of_channel network hash c.network_name c.channel_genesis_hash

-- The row is that of the block or the transaction that is to be saved.
abbrev pub is_block : String → Block → Block → Bool
is_block network b row =
    nat_eq row.blocknum b.blocknum
    && (nat_eq row.txcount b.txcount
        && (block_in network b.channel_genesis_hash row
            && (row.prehash == b.prehash && row.datahash == b.datahash)))

abbrev pub is_transaction : String → Transaction → Transaction → Bool
is_transaction network x row =
    nat_eq row.blockid x.blockid
    && (row.txhash == x.txhash && transaction_in network x.channel_genesis_hash row)

abbrev pub insert_block : Block → Tables → Tables
insert_block b t = record t { blocks = b ∷ t.blocks }

abbrev pub count_block : String → String → Tables → Tables
count_block network hash t = record t {
  channels = update (channel_in network hash) (λ c. record c { blocks = c.blocks + 1 }) t.channels;
}

unfoldable pub save_block : String → Block → Program Bool
save_block network block = do
  c ← query (λ t. count (is_block network block) t.blocks)
  if is_valid_row c
      then (do
        execute (insert_block (record block { network_name = network }))
        execute (count_block network block.channel_genesis_hash)
        pure true)
      else pure false

abbrev pub insert_transaction : Transaction → Tables → Tables
insert_transaction x t = record t { transactions = x ∷ t.transactions }

-- `version=$4`, where no version is equal to `NULL`
abbrev pub is_version : Option String → String → Bool
is_version none v = false
is_version (some version) v = v == version

abbrev pub count_chaincode : String → Transaction → Option String → Tables → Tables
count_chaincode network x version t = record t {
  chaincodes =
      update
        (λ c.
          of_channel network x.channel_genesis_hash c.network_name c.channel_genesis_hash
          && (c.name == x.chaincodename && is_version version c.version))
        (λ c. record c { txcount = c.txcount + 1 }) t.chaincodes;
}

abbrev pub count_transaction : String → String → Tables → Tables
count_transaction network hash t = record t {
  channels = update (channel_in network hash) (λ c. record c { trans = c.trans + 1 }) t.channels;
}

unfoldable pub save_transaction : String → Transaction → Option String → Program Bool
save_transaction network transaction chaincodeversion = do
  c ← query (λ t. count (is_transaction network transaction) t.transactions)
  if is_valid_row c
      then (do
        execute (insert_transaction (record transaction { network_name = network }))
        execute (count_chaincode network transaction chaincodeversion)
        execute (count_transaction network transaction.channel_genesis_hash)
        pure true)
      else pure false

abbrev pub is_channel : String → Channel → Channel → Bool
is_channel network c row = row.name == c.name && channel_in network c.channel_genesis_hash row

abbrev pub insert_channel : Channel → Tables → Tables
insert_channel c t = record t { channels = c ∷ t.channels }

abbrev pub reset_channel : String → Channel → Tables → Tables
reset_channel network c t = record t {
  channels =
      update (is_channel network c)
        (λ row. record row { blocks = c.blocks; trans = c.trans; channel_hash = c.channel_hash })
        t.channels;
}

unfoldable pub save_channel : String → Channel → Program (Unit {0})
save_channel network channel = do
  c ← query (λ t. count (is_channel network channel) t.channels)
  if is_valid_row c
      then execute (insert_channel (record channel { network_name = network }))
      else execute (reset_channel network channel)

-- The numbers below `n`, which `generate_series(0, n - 1)` gives, less those for which `p` holds
unfoldable pub series_without : (ℕ → Bool) → ℕ → List ℕ → List ℕ
series_without p zero rest = rest
series_without p (suc n) rest = series_without p n (if p n then rest else n ∷ rest)

abbrev pub numbered : String → String → ℕ → Block → Bool
numbered network hash n b = nat_eq b.blocknum n && block_in network hash b

-- There is a block with the number.
abbrev pub has_block : String → String → List Block → ℕ → Bool
has_block network hash rows n = not (nat_eq (count (numbered network hash n) rows) 0)

-- The argument `maxHeight` of the code is `height - 1`, which is -1 for an empty chain.
unfoldable pub find_missing_block_number : String → String → ℕ → Program (List ℕ)
find_missing_block_number network hash height =
    query (λ t. series_without (has_block network hash t.blocks) height [])
