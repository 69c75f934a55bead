-- ===== src/Server/Users/Model.antt =====
-- The table of users, as the package sequelize offers it: `findOne`, `create`, `destroy` and
-- `findAll`. The laws say what a statement on texts that has been answered does; one that is
-- refused changes nothing.
use thermotrace_production.Common.{String, ◌≡◌, Option, some, none, List}
use thermotrace_production.Js.Value.{Value, str, Completion, ok, throws}

-- A row of the table.
pub record Entry : Type 0 where
  pub username : Value
  pub salt : Value
  pub password : Value
  pub network_name : Value
  pub first_name : Value
  pub last_name : Value
  pub email : Value
  pub roles : Value

-- What `create` was given in the columns that are read again.
abbrev pub SameKeys : Entry → Entry → Type 0
SameKeys e u = (e.password ≡ u.password) × (e.salt ≡ u.salt) × (e.roles ≡ u.roles)

-- The values of these columns are texts, as the types of the columns are.
pub record Texts (u : Entry) : Type 0 where
  pub name : String
  pub network : String
  pub secret : String
  pub grain : String
  pub role : String
  pub username : u.username ≡ str name
  pub network_name : u.network_name ≡ str network
  pub password : u.password ≡ str secret
  pub salt : u.salt ≡ str grain
  pub roles : u.roles ≡ str role

pub record UserModel : Type 1 where
  pub Table : Type 0
  pub find_one : Value → Value → Table → Completion (Option Entry)
  pub create : Entry → Table → Table × Completion (Unit {0})
  pub destroy : Value → Value → Table → Table × Completion (Unit {0})
  pub find_all : Value → Table → Completion (List Entry)
  pub create_find :
      (u : Entry) (t t' : Table)
      → Texts u
      → create u t ≡ (t', ok tt)
      → (e : Entry) × (find_one u.username u.network_name t' ≡ ok (some e)) × SameKeys e u
  -- a row that is there stays the one that is found
  pub create_keeps :
      (u e : Entry) (t t' : Table) (name network : String)
      → create u t ≡ (t', ok tt)
      → find_one (str name) (str network) t ≡ ok (some e)
      → find_one (str name) (str network) t' ≡ ok (some e)
  pub create_refused : (u : Entry) (t t' : Table) (e : Value) → create u t ≡ (t', throws e) → t' ≡ t
  pub destroy_find :
      (name network : String) (t t' : Table)
      → destroy (str name) (str network) t ≡ (t', ok tt)
      → find_one (str name) (str network) t' ≡ ok none
  pub destroy_other :
      (name network other place : String) (t t' : Table)
      → destroy (str name) (str network) t ≡ (t', ok tt)
      → ¬ ((name ≡ other) × (network ≡ place))
      → find_one (str other) (str place) t' ≡ find_one (str other) (str place) t
  pub destroy_refused :
      (name network : Value) (t t' : Table) (e : Value)
      → destroy name network t ≡ (t', throws e)
      → t' ≡ t
