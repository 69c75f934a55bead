-- ===== src/Session.antt =====
-- The state that the client keeps between calls, and the effects on it: the store's state, and the
-- token in the browser's local storage (blockchain-explorer/client/src/state/Auth.js).
pub mod Dispatch
pub mod Configure
pub mod Selection
use thermotrace_production.Common.{String, Bool, true, false, Option, some, none}
use thermotrace_production.Js.Value.{Value, null, str, Completion, ok, throws}
use thermotrace_production.Js.Object.{to_text}
use thermotrace_production.Redux.{Redux, Action}
use thermotrace_production.Store.Root.{root_reducer}

pub record World : Type 0 where
  pub store : Value
  pub token : Option String

-- A computation on the world. What it did before an exception stays done.
abbrev pub Eff {ℓ} : Type ℓ → Type ℓ
Eff A = World → World × Completion A

abbrev pub pure {ℓ} : {A : Type ℓ} → A → Eff A
pure a w = (w, ok a)

abbrev pub raise {ℓ} : {A : Type ℓ} → Value → Eff A
raise e w = (w, throws e)

abbrev pub lift {ℓ} : {A : Type ℓ} → Completion A → Eff A
lift c w = (w, c)

-- What follows a computation that has ended.
abbrev pub continue {ℓ κ} :
    {A : Type ℓ} {B : Type κ} → World → Completion A → (A → Eff B) → World × Completion B
continue w (ok a) f = f a w
continue w (throws e) f = (w, throws e)

abbrev pub recover {ℓ} :
    {A : Type ℓ} → World → Completion A → (Value → Eff A) → World × Completion A
recover w (ok a) c = (w, ok a)
recover w (throws e) c = c e w

infixl 5 ◌>>=◌ ◌>>◌
abbrev pub ◌>>=◌ {ℓ κ} : {A : Type ℓ} {B : Type κ} → Eff A → (A → Eff B) → Eff B
◌>>=◌ m f w = continue (m w).0 (m w).1 f

abbrev pub ◌>>◌ {ℓ κ} : {A : Type ℓ} {B : Type κ} → Eff A → Eff B → Eff B
m >> k = m >>= λ _. k

-- `promise.then(f).catch(c)`: `c` handles the rejection of the promise and what `f` throws.
abbrev pub then_catch {ℓ κ} :
    {A : Type ℓ} {B : Type κ} → Eff A → (A → Eff B) → (Value → Eff B) → Eff B
then_catch m f c w = let r = (m >>= f) w in recover r.0 r.1 c

-- `dispatch(action)` of the store
unfoldable pub dispatch : Redux → Action → Eff (Unit {0})
dispatch redux a w =
    let r = redux.dispatch (root_reducer redux) a w.store in (record w { store = r.0 }, r.1)

-- `localStorage.setItem('token', token)` keeps the token as a text.
unfoldable pub authenticate_user : Value → Eff (Unit {0})
unfolding to_text
authenticate_user token w = (record w { token = some (to_text token) }, ok tt)

unfoldable pub is_user_authenticated : World → Bool
is_user_authenticated w = elim w.token [ some t ↦ true | none ↦ false ]

unfoldable pub deauthenticate_user : Eff (Unit {0})
deauthenticate_user w = (record w { token = none }, ok tt)

unfoldable pub get_token : World → Value
get_token w = elim w.token [ some t ↦ str t | none ↦ null ]
