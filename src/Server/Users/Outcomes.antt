-- ===== src/Server/Users/Outcomes.antt =====
-- What a registration and its end do to the table of users, on every branch.
use thermotrace_production.Common.{
  String, Bool, true, false, not, ◌||◌, Option, some, none, ◌≡◌, refl, sym, ◌∙◌, ◌⊎◌, inl, inr,
  arith, ap,
}
use thermotrace_production.Js.Value.{
  Value, str, num, obj, field, end, Completion, ok, throws, truthy, is_num,
}
use thermotrace_production.Js.Object.{prop, to_text, field_of}
use thermotrace_production.Session.Dispatch.{Completion-cases}
use thermotrace_production.Server.Exceptions.{refuse_if, strict_eq, >>=-eq-ok, guard-ok}
use thermotrace_production.Server.Users.Model.{Entry, UserModel}
use thermotrace_production.Server.Users.{
  Network, is_admin_role, get_admin_user, new_user, old_user, register, unregister, is_some,
  entry_of, error_text, unregistered,
}

not-false : (b : Bool) → not b ≡ false → b ≡ true
not-false b h = ground arith

none_missing :
    (a b c : Bool) → (not a || (not b || not c)) ≡ false → (a ≡ true) × (b ≡ true) × (c ≡ true)
none_missing true true true h = (refl, refl, refl)
none_missing a b c h = ground arith

is_some-false : (found : Option Entry) → is_some found ≡ false → found ≡ none
is_some-false none h = refl
is_some-false (some e) h = cc

refuse-some :
    (found : Option Entry) (message : String)
    → refuse_if (not (is_some found)) message ≡ ok tt
    → (e : Entry) × (found ≡ some e)
refuse-some none message h = cc
refuse-some (some e) message h = (e, refl)

written-cases :
    {T : Type 0} (w : T × Completion (Unit {0}))
    → ((t : T) × (w ≡ (t, ok tt))) ⊎ ((t : T) × (e : Value) × (w ≡ (t, throws e)))
written-cases (t, ok tt) = inl (t, refl)
written-cases (t, throws e) = inr (t, e, refl)

module _ (model : UserModel) (hash_sync : Value → Value → Completion Value)
    (networks : Value → Option Network) where
  -- What a registration has checked before it writes `entry`.
  pub record Registers (salt user : Value) (t : model.Table) (entry : Entry) : Type 0 where
    pub admin : is_admin_role model hash_sync networks user t ≡ ok true
    pub free : model.find_one (prop "user" user) (prop "network" user) t ≡ ok none
    pub hash : Value
    pub hashed : hash_sync (prop "password" user) salt ≡ ok hash
    pub is_made : entry ≡ entry_of salt user hash
    pub given : truthy (prop "user" user) ≡ true
    pub secured : truthy (prop "password" user) ≡ true
    pub placed : truthy (prop "network" user) ≡ true

  new_user-Registers :
      (salt user : Value) (t : model.Table) (entry : Entry)
      → new_user model hash_sync networks salt user t ≡ ok entry
      → Registers salt user t entry
  unfolding new_user
  new_user-Registers salt user t entry h =
      let (given, h1) =
        guard-ok
          (not (truthy (prop "user" user))
            || (not (truthy (prop "password" user)) || not (truthy (prop "network" user))))
          "Invalid parameters" _ entry h in
      let (admin, is_admin, h2) =
        >>=-eq-ok (is_admin_role model hash_sync networks user t) _ entry h1 in
      let (role, h3) = guard-ok (not admin) "Permission error : can't register user" _ entry h2 in
      let (found, searched, h4) =
        >>=-eq-ok (model.find_one (prop "user" user) (prop "network" user) t) _ entry h3 in
      let (fresh, h5) = guard-ok (is_some found) "already exists" _ entry h4 in
      let (hash, hashed, h6) = >>=-eq-ok (hash_sync (prop "password" user) salt) _ entry h5 in
      let (a, b, c) = none_missing _ _ _ given in
      record {
        admin = is_admin ∙ ap ok (not-false admin role);
        free = searched ∙ ap ok (is_some-false found fresh);
        hash = hash;
        hashed = hashed;
        is_made = cc;
        given = a;
        secured = b;
        placed = c;
      }

  -- What has been checked before a row is deleted.
  pub record Unregisters (user : Value) (t : model.Table) : Type 0 where
    pub admin : is_admin_role model hash_sync networks user t ≡ ok true
    pub root : Value
    pub is_root : get_admin_user model hash_sync networks user ≡ ok root
    pub not_root : strict_eq (prop "user" user) root ≡ false
    pub not_self : strict_eq (prop "user" user) (prop "requestUserId" user) ≡ false
    pub entry : Entry
    pub found : model.find_one (prop "user" user) (prop "network" user) t ≡ ok (some entry)

  old_user-Unregisters :
      (user : Value) (t : model.Table)
      → old_user model hash_sync networks user t ≡ ok tt
      → Unregisters user t
  unfolding old_user
  old_user-Unregisters user t h =
      let (given, h1) =
        guard-ok (not (truthy (prop "user" user)) || not (truthy (prop "network" user)))
          "Invalid parameters" _ tt h in
      let (admin, is_admin, h2) =
        >>=-eq-ok (is_admin_role model hash_sync networks user t) _ tt h1 in
      let (role, h3) = guard-ok (not admin) "Permission error : can't unregister user" _ tt h2 in
      let (other, h4) =
        guard-ok (strict_eq (prop "user" user) (prop "requestUserId" user))
          "Permission error : can't unregister by yourself" _ tt h3 in
      let (root, is_root, h5) = >>=-eq-ok (get_admin_user model hash_sync networks user) _ tt h4 in
      let (not_root, h6) =
        guard-ok (strict_eq (prop "user" user) root)
          "Permission error : can't unregister root admin user" _ tt h5 in
      let (found, searched, h7) =
        >>=-eq-ok (model.find_one (prop "user" user) (prop "network" user) t) _ tt h6 in
      let (entry, there) = refuse-some found _ h7 in
      record {
        admin = is_admin ∙ ap ok (not-false admin role);
        root = root;
        is_root = is_root;
        not_root = not_root;
        not_self = other;
        entry = entry;
        found = searched ∙ ap ok there;
      }

  -- The table is as before, and the answer has the status 400 and a text.
  abbrev pub Refused : model.Table → model.Table × Value → Type 0
  Refused t outcome =
      (message : String) × (outcome
        ≡ (t, obj (field "status" (num 400) (field "message" (str message) end))))

  abbrev pub Registered : Value → Value → model.Table → Type 0
  Registered salt user t =
      (entry : Entry) × (t' : model.Table) × Registers salt user t entry
      × (model.create entry t ≡ (t', ok tt))
      × (register model hash_sync networks salt user t ≡ (t', obj (field "status" (num 200) end)))

  abbrev pub Unregistered : Value → model.Table → Type 0
  Unregistered user t =
      (t' : model.Table) × Unregisters user t
      × (model.destroy (prop "user" user) (prop "network" user) t ≡ (t', ok tt))
      × (unregister model hash_sync networks user t ≡ (t', unregistered))

  pub Refused-unanswered :
      (t t' : model.Table) (outcome : model.Table × Value) (done : Value)
      → Refused t outcome
      → outcome ≡ (t', done)
      → is_num 200 (prop "status" done) ≡ true
      → ⊥
  unfolding prop field_of
  Refused-unanswered t t' outcome done (message, h) k good =
      let status = ap (λ o. is_num 200 (prop "status" o.1)) (sym h ∙ k) ∙ good in cc

  -- A registration either writes the row whose conditions have been checked and answers with the
  -- status 200, or leaves the table as it is and answers with the status 400 and a text.
  pub register-cases :
      (salt user : Value) (t : model.Table)
      → Registered salt user t ⊎ Refused t (register model hash_sync networks salt user t)
  unfolding register to_text
  register-cases salt user t =
      elim (Completion-cases (new_user model hash_sync networks salt user t)) [
        | inr (e, h) ↦ inr (to_text e, rw h refl)
        | inl (entry, h) ↦ elim (written-cases (model.create entry t)) [
          | inl (t', done) ↦
              inl (entry, t', new_user-Registers salt user t entry h, done, rw (h, done) refl)
          | inr (t', e, failed) ↦
              let same = model.create_refused entry t t' e failed in
              inr (error_text "Failed to register user : " user e, rw (h, failed, same) refl)
        ]
      ]

  -- The removal of a user either deletes a row whose conditions have been checked and answers with
  -- the status 200, or leaves the table as it is and answers with the status 400 and a text.
  pub unregister-cases :
      (user : Value) (t : model.Table)
      → Unregistered user t ⊎ Refused t (unregister model hash_sync networks user t)
  unfolding unregister to_text
  unregister-cases user t = elim (Completion-cases (old_user model hash_sync networks user t)) [
    | inr (e, h) ↦ inr (to_text e, rw h refl)
    | inl (_, h) ↦ elim (written-cases (model.destroy (prop "user" user) (prop "network" user) t)) [
      | inl (t', done) ↦ inl (t', old_user-Unregisters user t h, done, rw (h, done) refl)
      | inr (t', e, failed) ↦
          let same = model.destroy_refused (prop "user" user) (prop "network" user) t t' e failed in
          inr (error_text "Failed to unRegister user : " user e, rw (h, failed, same) refl)
    ]
  ]
