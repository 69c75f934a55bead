-- ===== src/Server/Users/Safety.antt =====
-- Who may change the table of users, and whose row stays.
use thermotrace_production.Common.{
  String, true, false, ◌≡◌, ◌∙◌, ap, Option, some, Option-cases, inl, inr, List, [], ◌∷◌, All,
  eq_refl,
}
use thermotrace_production.Js.Value.{Value, str, Completion, ok, truthy, is_str}
use thermotrace_production.Js.Object.{prop}
use thermotrace_production.Session.Dispatch.{Completion-cases}
use thermotrace_production.Server.Exceptions.{strict_eq}
use thermotrace_production.Server.Users.Model.{Entry, UserModel}
use thermotrace_production.Server.Users.{
  Network, get_admin_user, get_admin_user_of, is_admin_role, register, unregister,
}
use thermotrace_production.Server.Users.Outcomes.{
  Refused, register-cases, unregister-cases, Unregisters,
}

-- A request to change the table: a registration with the salt that is drawn, or a removal.
pub data UserRequest : Type 0 where
  registration : Value → Value → UserRequest
  removal : Value → UserRequest

abbrev pub user_of : UserRequest → Value
user_of (registration salt user) = user
user_of (removal user) = user

-- The name and the network of the request are texts.
abbrev pub IsOnTexts : UserRequest → Type 0
IsOnTexts r =
    ((name : String) × (prop "user" (user_of r) ≡ str name))
    × ((place : String) × (prop "network" (user_of r) ≡ str place))

module _ (model : UserModel) (hash_sync : Value → Value → Completion Value)
    (networks : Value → Option Network) where
  abbrev pub handle : UserRequest → model.Table → model.Table × Value
  handle (registration salt user) t = register model hash_sync networks salt user t
  handle (removal user) t = unregister model hash_sync networks user t

  -- The table after the requests.
  abbrev pub serve : List UserRequest → model.Table → model.Table
  serve [] t = t
  serve (r ∷ rs) t = serve rs (handle r t).0

  admin-entry :
      (user : Value) (t : model.Table)
      → truthy (prop "requestUserId" user) ≡ true
      → is_admin_role model hash_sync networks user t ≡ ok true
      → (e : Entry) × (model.find_one (prop "requestUserId" user) (prop "network" user) t
          ≡ ok (some e))
        × (is_str "admin" e.roles ≡ true)
  unfolding is_admin_role
  admin-entry user t asked admin =
      elim (Completion-cases (model.find_one (prop "requestUserId" user) (prop "network" user) t)) [
        | inr (e, h) ↦ let gone = rw (asked, h) at admin in cc
        | inl (found, h) ↦ elim (Option-cases found) [
          | inl missing ↦ let gone = rw (asked, h, missing) at admin in cc
          | inr (e, there) ↦ let role = rw (asked, h, there) at admin in (e, h ∙ ap ok there, cc)
        ]
      ]

  -- A request in the name of a user whose row does not give the role `admin`, or who has no row,
  -- registers nobody and removes nobody: it is answered with the status 400 and leaves the table
  -- as it is.
  pub handle-admin_only :
      (r : UserRequest) (t : model.Table)
      → truthy (prop "requestUserId" (user_of r)) ≡ true
      → ((e : Entry)
          → model.find_one (prop "requestUserId" (user_of r)) (prop "network" (user_of r)) t
            ≡ ok (some e)
          → is_str "admin" e.roles ≡ false)
      → Refused model hash_sync networks t (handle r t)
  handle-admin_only (registration salt user) t asked plain =
      elim (register-cases model hash_sync networks salt user t) [
        | inr refused ↦ refused
        | inl (entry, t', checked, created, same) ↦
            let (e, found, role) = admin-entry user t asked checked.admin in
            let other = plain e found in absurd cc
      ]
  handle-admin_only (removal user) t asked plain =
      elim (unregister-cases model hash_sync networks user t) [
        | inr refused ↦ refused
        | inl (t', checked, deleted, same) ↦
            let (e, found, role) = admin-entry user t asked checked.admin in
            let other = plain e found in absurd cc
      ]

  module _ (place root : String) (network : Network) (known : networks (str place) ≡ some network)
      (is_root : get_admin_user_of network.config ≡ str root) where
    not_the_root :
        (user : Value) (name elsewhere : String) (t : model.Table)
        → prop "user" user ≡ str name
        → prop "network" user ≡ str elsewhere
        → Unregisters model hash_sync networks user t
        → ¬ ((name ≡ root) × (elsewhere ≡ place))
    unfolding get_admin_user strict_eq
    not_the_root user name elsewhere t named placed checked (same, here) =
        let net = ap networks (placed ∙ ap str here) ∙ known in
        let is_here = rw net at checked.is_root in
        let the_root : checked.root ≡ str root = cc in
        let the_user : prop "user" user ≡ str root = named ∙ ap str same in
        let apart = rw (the_user, the_root) at checked.not_root in
        let alike = eq_refl root in absurd cc

    handle-root :
        (r : UserRequest) (t : model.Table) (e : Entry)
        → IsOnTexts r
        → model.find_one (str root) (str place) t ≡ ok (some e)
        → model.find_one (str root) (str place) (handle r t).0 ≡ ok (some e)
    handle-root (registration salt user) t e texts found =
        elim (register-cases model hash_sync networks salt user t) [
          | inr (message, same) ↦ rw same found
          | inl (entry, t', checked, created, same) ↦
              rw same (model.create_keeps entry e t t' root place created found)
        ]
    handle-root (removal user) t e ((name, named), (elsewhere, placed)) found =
        elim (unregister-cases model hash_sync networks user t) [
          | inr (message, same) ↦ rw same found
          | inl (t', checked, deleted, same) ↦
              let gone : model.destroy (str name) (str elsewhere) t ≡ (t', ok tt) = cc in
              rw same (
                model.destroy_other name elsewhere root place t t' gone
                  (not_the_root user name elsewhere t named placed checked)
                ∙ found)
        ]

    -- The row of the administrator that the configuration of a network names stays as it is,
    -- whatever requests come, in any order and in any names, where their users and networks are
    -- texts.
    pub serve-root :
        (requests : List UserRequest) (t : model.Table) (e : Entry)
        → All IsOnTexts requests
        → model.find_one (str root) (str place) t ≡ ok (some e)
        → model.find_one (str root) (str place) (serve requests t) ≡ ok (some e)
    serve-root [] t e all found = found
    serve-root (r ∷ rs) t e (here, later) found =
        serve-root rs (handle r t).0 e later (handle-root r t e here found)
