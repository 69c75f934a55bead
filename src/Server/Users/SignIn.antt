-- ===== src/Server/Users/SignIn.antt =====
-- From a registration to the sign-in of the new user, and back.
use thermotrace_production.Common.{
  String, true, false, ◌==◌, ◌≡◌, refl, sym, ◌∙◌, ap, Option, some, none, Bool-cases, Option-cases,
  not, ◌||◌, inl, inr,
}
use thermotrace_production.Js.Value.{Value, str, num, obj, field, end, Completion, ok, truthy}
use thermotrace_production.Js.Object.{prop, field_of}
use thermotrace_production.Server.Exceptions.{strict_eq}
use thermotrace_production.Server.Users.Model.{Entry, UserModel, Texts}
use thermotrace_production.Server.Users.{
  Network, get_enable_authentication, authenticate, register, unregister, unregistered,
}
use thermotrace_production.Server.Users.Outcomes.{
  register-cases, unregister-cases, Refused-unanswered,
}

-- What a client sends to sign in.
abbrev pub credentials : String → String → String → Value
credentials name place password =
    obj
      (field "user" (str name) (field "password" (str password) (field "network" (str place) end)))

-- The network checks its users.
pub record Checks (networks : Value → Option Network) (place : String) : Type 0 where
  pub network : Network
  pub known : networks (str place) ≡ some network
  pub setting : Value
  pub is_set : get_enable_authentication network.config ≡ ok setting
  pub enabled : truthy setting ≡ true

-- A user of a request, all of texts.
pub record IsTextUser (user : Value) (name place role password : String) : Type 0 where
  pub named : prop "user" user ≡ str name
  pub placed : prop "network" user ≡ str place
  pub roled : prop "roles" user ≡ str role
  pub secured : prop "password" user ≡ str password

module _ (model : UserModel) (hash_sync : Value → Value → Completion Value)
    (networks : Value → Option Network) where
  -- A sign-in with a name, a password and a network compares the hash of the password with that of
  -- the row.
  authenticate-known :
      (name place password secret hash : String) (e : Entry) (t : model.Table)
      → truthy (str name) ≡ true
      → truthy (str place) ≡ true
      → truthy (str password) ≡ true
      → Checks networks place
      → model.find_one (str name) (str place) t ≡ ok (some e)
      → e.password ≡ str secret
      → hash_sync (str password) e.salt ≡ ok (str hash)
      → authenticate model hash_sync networks (credentials name place password) t
        ≡ ok (hash == secret)
  unfolding authenticate prop field_of strict_eq
  authenticate-known name place password secret hash e t n w p c found kept hashed =
      rw (n, w, p, c.known, c.is_set, c.enabled, found, hashed, kept) refl

  authenticate-unknown :
      (name place password : String) (t : model.Table)
      → Checks networks place
      → model.find_one (str name) (str place) t ≡ ok none
      → authenticate model hash_sync networks (credentials name place password) t ≡ ok false
  unfolding authenticate prop field_of
  authenticate-unknown name place password t c found =
      elim (Bool-cases
        (not (truthy (str name)) || (not (truthy (str password)) || not (truthy (str place))))) [
          | inl h ↦ rw h refl
          | inr h ↦ rw (h, c.known, c.is_set, c.enabled, found) refl
        ]

  -- A sign-in reads the table at the row of its user only.
  authenticate-same :
      (name place password : String) (t t' : model.Table)
      → model.find_one (str name) (str place) t' ≡ model.find_one (str name) (str place) t
      → authenticate model hash_sync networks (credentials name place password) t'
        ≡ authenticate model hash_sync networks (credentials name place password) t
  unfolding authenticate prop field_of
  authenticate-same name place password t t' same = elim (Option-cases (networks (str place))) [
    | inl h ↦ rw h refl
    | inr (n, h) ↦ rw (h, same) refl
  ]

  registered-find :
      (user : Value) (grain name place role password : String) (t t' : model.Table) (hash : String)
      → IsTextUser user name place role password
      → hash_sync (str password) (str grain) ≡ ok (str hash)
      → register model hash_sync networks (str grain) user t
        ≡ (t', obj (field "status" (num 200) end))
      → (e : Entry) × (model.find_one (str name) (str place) t' ≡ ok (some e))
        × (e.password ≡ str hash)
        × (e.salt ≡ str grain)
        × (e.roles ≡ str role)
        × (truthy (str name) ≡ true)
        × (truthy (str place) ≡ true)
  unfolding prop field_of
  registered-find user grain name place role password t t' hash texts hashed accepted =
      elim (register-cases model hash_sync networks (str grain) user t) [
        | inr refused ↦
            absurd (Refused-unanswered model hash_sync networks t t' _ _ refused accepted refl)
        | inl (entry, t'', checked, created, answered) ↦
            let named = ap (λ e. e.username) checked.is_made ∙ texts.named in
            let placed = ap (λ e. e.network_name) checked.is_made ∙ texts.placed in
            let roled = ap (λ e. e.roles) checked.is_made ∙ texts.roled in
            let grained = ap (λ e. e.salt) checked.is_made in
            let secret : checked.hash ≡ str hash = cc in
            let secured = ap (λ e. e.password) checked.is_made ∙ secret in
            let whole : Texts entry = record {
              name = name;
              network = place;
              secret = hash;
              grain = grain;
              role = role;
              username = named;
              network_name = placed;
              password = secured;
              salt = grained;
              roles = roled;
            } in
            let wrote : model.create entry t ≡ (t', ok tt) = cc in
            let (e, found, keys) = model.create_find entry t t' whole wrote in
            let (kept_secret, kept_salt, kept_roles) = keys in
            (
              e,
              rw (sym named, sym placed) found,
              kept_secret ∙ secured,
              kept_salt ∙ grained,
              kept_roles ∙ roled,
              ap truthy (sym texts.named) ∙ checked.given,
              ap truthy (sym texts.placed) ∙ checked.placed,
            )
      ]

  -- Whoever has been registered, with texts for the name, the network, the role and the password,
  -- in a network that checks its users, signs in with exactly the passwords whose hash is that of
  -- the registered one; so with the registered one.
  pub register-authenticate :
      (user : Value) (grain name place role password other : String) (t t' : model.Table)
      (hash : String → String)
      → IsTextUser user name place role password
      → Checks networks place
      → ((p : String) → hash_sync (str p) (str grain) ≡ ok (str (hash p)))
      → register model hash_sync networks (str grain) user t
        ≡ (t', obj (field "status" (num 200) end))
      → truthy (str other) ≡ true
      → authenticate model hash_sync networks (credentials name place other) t'
        ≡ ok (hash other == hash password)
  register-authenticate user grain name place role password other t t' hash texts c hashes done o =
      let (e, found, secret, salted, _, n, w) =
        registered-find user grain name place role password t t' (hash password) texts
          (hashes password) done in
      authenticate-known name place other (hash password) (hash other) e t' n w o c found secret
        (rw (salted, hashes other) refl)

  -- Once a user with a text for a name has been removed from a network that checks its users, no
  -- password signs the user in; a sign-in of any other user, or in another network, ends as before.
  pub unregister-authenticate :
      (user : Value) (name place : String) (t t' : model.Table)
      → prop "user" user ≡ str name
      → prop "network" user ≡ str place
      → Checks networks place
      → unregister model hash_sync networks user t ≡ (t', unregistered)
      → ((password : String)
          → authenticate model hash_sync networks (credentials name place password) t' ≡ ok false)
        × ((other elsewhere password : String)
            → ¬ ((name ≡ other) × (place ≡ elsewhere))
            → authenticate model hash_sync networks (credentials other elsewhere password) t'
              ≡ authenticate model hash_sync networks (credentials other elsewhere password) t)
  unfolding prop field_of
  unregister-authenticate user name place t t' named placed c accepted =
      elim (unregister-cases model hash_sync networks user t) [
        | inr refused ↦
            absurd (Refused-unanswered model hash_sync networks t t' _ _ refused accepted refl)
        | inl (t'', checked, deleted, same) ↦
            let gone : model.destroy (str name) (str place) t ≡ (t', ok tt) = cc in
            (
              λ password.
                  authenticate-unknown name place password t' c
                    (model.destroy_find name place t t' gone),
              λ other elsewhere password apart.
                  authenticate-same other elsewhere password t t'
                    (model.destroy_other name place other elsewhere t t' gone apart),
            )
      ]
