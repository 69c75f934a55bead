-- ===== src/Server/Ledger.antt =====
-- The copy of the ledger that the explorer keeps: its tables, the state of the synchronisation, and
-- the programs on them. A program ends with a value or an exception, and what it did before stays
-- done. A statement is answered or refused by the database: the refusals to come are part of the
-- state, so that a program can meet any of them.
pub mod Crud
pub mod Envelopes
pub mod Sync
pub mod Logic
pub mod Frame
pub mod Counters
pub mod Repeats
pub mod Events
pub mod Presence
pub mod Series
pub mod Missing
pub mod Marked
pub mod Stuck
use thermotrace_production.Common.{
  ℕ, String, Bool, if◌then◌else◌, Option, some, none, List, [], ◌∷◌,
}
use thermotrace_production.Js.Value.{Value, Completion, ok, throws}

-- The rows of the tables `blocks`, `transactions`, `chaincodes` and `channel`, less their keys.
pub record Block : Type 0 where
  pub blocknum : ℕ
  pub datahash : String
  pub prehash : String
  pub txcount : ℕ
  pub createdt : Value
  pub prev_blockhash : String
  pub blockhash : String
  pub channel_genesis_hash : String
  pub blksize : String
  pub network_name : String

pub record Transaction : Type 0 where
  pub blockid : ℕ
  pub txhash : String
  pub createdt : Value
  pub chaincodename : String
  pub chaincode_id : String
  pub status : Value
  pub creator_msp_id : Value
  pub endorser_msp_id : List Value
  pub type : String
  pub read_set : Value
  pub write_set : Value
  pub channel_genesis_hash : String
  pub validation_code : Value
  pub envelope_signature : Value
  pub payload_extension : Value
  pub creator_nonce : Value
  pub chaincode_proposal_input : Value
  pub endorser_signature : Value
  pub creator_id_bytes : Value
  pub payload_proposal_hash : String
  pub endorser_id_bytes : Value
  pub network_name : String

pub record Chaincode : Type 0 where
  pub name : String
  pub version : String
  pub path : String
  pub channel_genesis_hash : String
  pub txcount : ℕ
  pub createdt : Value
  pub network_name : String

pub record Channel : Type 0 where
  pub name : String
  pub createdt : Value
  pub blocks : ℕ
  pub trans : ℕ
  pub channel_hash : String
  pub channel_genesis_hash : String
  pub network_name : String

pub record Tables : Type 0 where
  pub blocks : List Block
  pub transactions : List Transaction
  pub chaincodes : List Chaincode
  pub channels : List Channel

-- What `setTimeout` is to run: the discovery of a new channel, of the peers of a channel, and of
-- the chaincodes of a channel.
pub data Timer : Type 0 where
  discover_channel : String → Timer
  update_channel : String → String → Timer
  update_chaincodes : String → String → Timer

-- `SyncServices` with the database: `refusals` says how the next statements end, and all after
-- them are answered.
pub record Service : Type 0 where
  pub tables : Tables
  pub refusals : List (Option Value)
  pub synch_in_process : List String
  pub blocks_in_process : List String
  pub sent : List Value
  pub timers : List Timer

abbrev pub Program {ℓ} : Type ℓ → Type ℓ
Program A = Service → Service × Completion A

unfoldable pub pure {ℓ} : {A : Type ℓ} → A → Program A
pure a s = (s, ok a)

unfoldable pub lift {ℓ} : {A : Type ℓ} → Completion A → Program A
lift c s = (s, c)

unfoldable pub modify : (Service → Service) → Program (Unit {0})
modify f s = (f s, ok tt)

-- What follows a program that has ended.
abbrev pub continue {ℓ κ} :
    {A : Type ℓ} {B : Type κ} → Service × Completion A → (A → Program B) → Service × Completion B
continue (s, ok a) f = f a s
continue (s, throws e) f = (s, throws e)

infixl 5 ◌>>=◌ ◌>>◌
unfoldable pub ◌>>=◌ {ℓ κ} : {A : Type ℓ} {B : Type κ} → Program A → (A → Program B) → Program B
◌>>=◌ m f s = continue (m s) f

unfoldable pub ◌>>◌ {ℓ κ} : {A : Type ℓ} {B : Type κ} → Program A → Program B → Program B
unfolding ◌>>=◌
m >> k = m >>= λ _. k

-- `if (test) m`
unfoldable pub when : Bool → Program (Unit {0}) → Program (Unit {0})
unfolding pure
when test m = if test then m else pure tt

-- `try { m } catch { log }`
abbrev pub caught {ℓ} : {A : Type ℓ} → Service × Completion A → Service × Completion (Unit {0})
caught (s, ok a) = (s, ok tt)
caught (s, throws e) = (s, ok tt)

unfoldable pub try_log {ℓ} : {A : Type ℓ} → Program A → Program (Unit {0})
try_log m s = caught (m s)

-- A query of the database.
abbrev pub answer {ℓ} :
    {A : Type ℓ} → (Tables → Tables × A) → Service → List (Option Value) → Service × Completion A
answer f s [] = (record s { tables = (f s.tables).0; refusals = [] }, ok (f s.tables).1)
answer f s (none ∷ rest) =
    (record s { tables = (f s.tables).0; refusals = rest }, ok (f s.tables).1)
answer f s (some e ∷ rest) = (record s { refusals = rest }, throws e)

unfoldable pub statement {ℓ} : {A : Type ℓ} → (Tables → Tables × A) → Program A
statement f s = answer f s s.refusals

-- A query that reads, and a statement whose result is not used.
unfoldable pub query {ℓ} : {A : Type ℓ} → (Tables → A) → Program A
unfolding statement
query f = statement (λ t. (t, f t))

unfoldable pub execute : (Tables → Tables) → Program (Unit {0})
unfolding statement
execute f = statement (λ t. (f t, tt))
