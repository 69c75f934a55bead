-- ===== src/Server/Ledger/Envelopes.antt =====
-- A block as the gateway gives it, and the row of a transaction: the loop of `processBlockEvent` in
-- blockchain-explorer/app/platform/fabric/sync/SyncService.ts, up to the insertion. The encodings
-- of the packages and of Node are parameters.
use thermotrace_production.Common.{
  ℕ, zero, suc, String, Bool, ◌==◌, if◌then◌else◌, List, [], ◌∷◌, map, Option, some, none,
}
use thermotrace_production.Js.Value.{
  Value, undefined, str, arr, obj, Items, nil, cons, end, field, Completion, ok, throws, type_error,
  ◌>>=◌, is_undefined, is_readable,
}
use thermotrace_production.Js.Object.{get}
use thermotrace_production.Thunk.{concat}
use thermotrace_production.Server.Ledger.{Transaction}

pub record ChannelHeader : Type 0 where
  pub channel_id : String
  pub type_string : String
  pub timestamp : Value
  pub tx_id : String
  pub extension : Value

pub record Endorsement : Type 0 where
  pub mspid : Value
  pub id_bytes : Value
  pub signature : Value

pub record ReadWrites : Type 0 where
  pub namespace : Value
  pub reads : Value
  pub writes : Value

pub record Action : Type 0 where
  pub chaincode_name : String
  pub chaincode_version : String
  pub extension : Value
  pub status : Value
  pub endorsements : List Endorsement
  pub ns_rwset : List ReadWrites
  pub args : Option (List Value)
  pub proposal_hash : String

-- A transaction as `convertFormatOfValue` leaves it.
pub record Envelope : Type 0 where
  pub json : Value
  pub channel_header : ChannelHeader
  pub signature : Value
  pub nonce : Value
  pub mspid : Value
  pub id_bytes : Value
  pub actions : Option (List Action)
  pub last_update : Value

pub record BlockData : Type 0 where
  pub number : ℕ
  pub data_hash : String
  pub previous_hash : String
  pub transactions : List Envelope
  pub transactions_filter : List Value

-- `JSON.stringify` without and with an indentation, `new Date`, the hexadecimal text of bytes or a
-- text, `sha256`, the text of the codes of an array, the names of the validation codes, the hash of
-- a header and the size of a block.
pub record Encoding : Type 0 where
  pub stringify : Value → String
  pub pretty : Value → Value
  pub date : Value → Value
  pub hex : String → String
  pub sha256 : String → String
  pub char_codes : Value → String
  pub validation_codes : Value → Value
  pub generate_block_hash : BlockData → String
  pub json_obj_size : BlockData → String

-- The first element, of which a property is read.
abbrev pub first {ℓ} : {A : Type ℓ} → List A → Completion A
first [] = throws type_error
first (x ∷ xs) = ok x

-- `codes[i]`
abbrev pub element : List Value → ℕ → Value
element [] i = undefined
element (v ∷ vs) zero = v
element (v ∷ vs) (suc i) = element vs i

abbrev items_of : List Value → Items
items_of [] = nil
items_of (v ∷ vs) = cons v (items_of vs)

module _ (encoding : Encoding) where
  -- `convertValidationCode`
  unfoldable pub convert_validation_code : Value → Value
  convert_validation_code (str s) = str s
  convert_validation_code code = encoding.validation_codes code

  -- `Buffer.from(JSON.stringify(v)).toString('hex')`, unless `v` is `undefined`
  abbrev hex_of : Value → Value
  hex_of v = if is_undefined v then v else str (encoding.hex (encoding.stringify v))

  abbrev join_inputs : String → List Value → String
  join_inputs inputs [] = inputs
  join_inputs inputs (input ∷ rest) =
      let more = concat (
        (if inputs == "" then inputs else concat (inputs ∷ "," ∷ []))
        ∷ encoding.hex (encoding.stringify input)
        ∷ []) in
      join_inputs more rest

  abbrev inputs_of : Option (List Value) → Value
  inputs_of none = undefined
  inputs_of (some args) = str (join_inputs "" args)

  -- What the code takes from the actions of a transaction.
  pub record Endorsed : Type 0 where
    pub chaincode : String
    pub chaincodeversion : Option String
    pub chaincode_id : Value
    pub status : Value
    pub msp_id : List Value
    pub read_set : Value
    pub write_set : Value
    pub chaincode_proposal_input : Value
    pub endorser_signature : Value
    pub payload_proposal_hash : String
    pub endorser_id_bytes : Value

  abbrev set_of : (ReadWrites → Value) → List ReadWrites → Value
  set_of part rwset = arr (
      items_of (map (λ rw. obj (field "chaincode" rw.namespace (field "set" (part rw) end))) rwset))

  -- With no actions the variables keep their first values.
  abbrev unendorsed : Endorsed
  unendorsed = record {
    chaincode = "";
    chaincodeversion = none;
    chaincode_id = undefined;
    status = undefined;
    msp_id = [];
    read_set = undefined;
    write_set = undefined;
    chaincode_proposal_input = str "";
    endorser_signature = str "";
    payload_proposal_hash = "";
    endorser_id_bytes = str "";
  }

  unfoldable pub endorsed : Option (List Action) → Completion Endorsed
  endorsed none = ok unendorsed
  endorsed (some actions) = do
    action ← first actions
    endorsement ← first action.endorsements
    ok (record {
      chaincode = action.chaincode_name;
      chaincodeversion = some action.chaincode_version;
      chaincode_id = action.extension;
      status = action.status;
      msp_id = map (λ e. e.mspid) action.endorsements;
      read_set = set_of (λ rw. rw.reads) action.ns_rwset;
      write_set = set_of (λ rw. rw.writes) action.ns_rwset;
      chaincode_proposal_input = inputs_of action.args;
      endorser_signature = hex_of endorsement.signature;
      payload_proposal_hash = action.proposal_hash;
      endorser_id_bytes = endorsement.id_bytes;
    })

  -- `v.payload?.data.config_update.k`
  abbrev config_set : Value → String → Completion Value
  config_set last_update k = do
    payload ← get last_update "payload"
    if is_readable payload
        then (do
          content ← get payload "data"
          config_update ← get content "config_update"
          get config_update k)
        else ok undefined

  abbrev is_config : Envelope → Bool
  is_config tx = tx.channel_header.type_string == "CONFIG"

  -- The row of the transaction at an index of a block, and the version of its chaincode; the
  -- network is that of the insertion.
  unfoldable pub transaction_row :
      BlockData → String → ℕ → Envelope → Completion (Transaction × Option String)
  transaction_row block channel_genesis_hash index tx = do
    part ← endorsed tx.actions
    read_set ← if is_config tx then config_set tx.last_update "read_set" else ok part.read_set
    write_set ← if is_config tx then config_set tx.last_update "write_set" else ok part.write_set
    ok (
      record {
        blockid = block.number;
        txhash =
            if is_config tx
            then encoding.sha256 (encoding.stringify tx.json)
            else tx.channel_header.tx_id;
        createdt = tx.channel_header.timestamp;
        chaincodename = part.chaincode;
        chaincode_id = encoding.char_codes part.chaincode_id;
        status = part.status;
        creator_msp_id = tx.mspid;
        endorser_msp_id = part.msp_id;
        type = tx.channel_header.type_string;
        read_set = encoding.pretty read_set;
        write_set = encoding.pretty write_set;
        channel_genesis_hash = channel_genesis_hash;
        validation_code =
            if tx.channel_header.tx_id == ""
            then str ""
            else convert_validation_code (element block.transactions_filter index);
        envelope_signature = hex_of tx.signature;
        payload_extension = hex_of tx.channel_header.extension;
        creator_nonce = hex_of tx.nonce;
        chaincode_proposal_input = part.chaincode_proposal_input;
        endorser_signature = part.endorser_signature;
        creator_id_bytes = tx.id_bytes;
        payload_proposal_hash = part.payload_proposal_hash;
        endorser_id_bytes = part.endorser_id_bytes;
        network_name = "";
      },
      part.chaincodeversion,
    )
