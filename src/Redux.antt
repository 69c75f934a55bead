-- ===== src/Redux.antt =====
-- What the client takes from the package `redux`: actions, `combineReducers`, a store's `dispatch`
-- and `createStore`. The package is not part of the repository, so its functions are the fields of
-- a record, with the documented behaviour that the client relies on as laws.
use text.Mathlib.Text.{starts_with}
use thermotrace_production.Common.{
  String, true, false, ◌≡◌, List, All, distinct_keys, if◌then◌else◌,
}
use thermotrace_production.Js.Value.{
  Value, undefined, Completion, ok, throws, is_undefined, is_null,
}
use thermotrace_production.Js.Object.{prop}

-- An action object. The creators set `type` and `payload` only, so the two others are read as
-- `undefined`.
pub record Action : Type 0 where
  pub type : String
  pub payload : Value
  pub error : Value
  pub errors : Value

abbrev pub action : String → Value → Action
action t p = record { type = t; payload = p; error = undefined; errors = undefined }

abbrev pub Reducer : Type 0
Reducer = Value → Action → Completion Value

-- A default parameter: `state = initial`.
abbrev pub default_to : Value → Value → Value
default_to initial state = if is_undefined state then initial else state

-- The reducer under a key gives a state that is defined.
abbrev pub Accepts : Value → Action → String × Reducer → Type 0
Accepts s a (k, f) = (v : Value) × (f (prop k s) a ≡ ok v) × (is_undefined v ≡ false)

-- The new state holds under a key what its reducer made of the old state under that key.
abbrev pub Advances : Value → Action → Value → String × Reducer → Type 0
Advances s a s' (k, f) = (f (prop k s) a ≡ ok (prop k s')) × (is_undefined (prop k s') ≡ false)

pub record Redux : Type 0 where
  pub combine_reducers : List (String × Reducer) → Reducer
  pub combine_sound :
      (rs : List (String × Reducer)) (s : Value) (a : Action) (s' : Value)
      → distinct_keys rs ≡ true
      → combine_reducers rs s a ≡ ok s'
      → All (Advances s a s') rs
  pub combine_complete :
      (rs : List (String × Reducer)) (s : Value) (a : Action)
      → distinct_keys rs ≡ true
      → is_null s ≡ false
      → All (Accepts s a) rs
      → (s' : Value) × (combine_reducers rs s a ≡ ok s')
  -- the combined state is an object
  pub combine_defined :
      (rs : List (String × Reducer)) (s : Value) (a : Action) (s' : Value)
      → combine_reducers rs s a ≡ ok s'
      → (is_undefined s' ≡ false) × (is_null s' ≡ false)
  -- the state after a dispatch, and how the call ended
  pub dispatch : Reducer → Action → Value → Value × Completion (Unit {0})
  pub dispatch_ok :
      (r : Reducer) (a : Action) (s s' : Value) → r s a ≡ ok s' → dispatch r a s ≡ (s', ok tt)
  pub dispatch_throws :
      (r : Reducer) (a : Action) (s e : Value) → r s a ≡ throws e → dispatch r a s ≡ (s, throws e)
  -- the action that `createStore` dispatches first; its type is private to the package
  pub init : Action
  pub init_private : starts_with init.type "@@redux/" ≡ true
  pub create_store : Reducer → Value → Completion Value
  pub create_store_lem : (r : Reducer) (s : Value) → create_store r s ≡ r s init
