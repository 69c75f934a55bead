-- ===== src/Tests/UserTable.antt =====
-- The table of users as a list.
use thermotrace_production.Common.{
  String, Bool, true, false, ◌&&◌, if◌then◌else◌, Option, some, none, List, [], ◌∷◌, ◌++◌, ◌≡◌, ◌∙◌,
  refl, sym, ap, inl, inr, Bool-cases, Option-cases, eq_iff, eq_refl,
}
use thermotrace_production.Js.Value.{Value, str, Completion, ok, throws, type_error}
use thermotrace_production.Server.Exceptions.{strict_eq}
use thermotrace_production.Server.Users.Model.{Entry, UserModel, Texts, SameKeys}

abbrev pub matching : Value → Value → Entry → Bool
matching name network e = strict_eq name e.username && strict_eq network e.network_name

unfoldable pub find : Value → Value → List Entry → Option Entry
find name network [] = none
find name network (e ∷ es) = if matching name network e then some e else find name network es

unfoldable pub without : Value → Value → List Entry → List Entry
without name network [] = []
without name network (e ∷ es) =
    if matching name network e then without name network es else e ∷ without name network es

abbrev pub erase : Value → Value → List Entry → List Entry × Completion (Unit {0})
erase name network t = (without name network t, ok tt)

abbrev pub insert : Entry → List Entry → Option Entry → List Entry × Completion (Unit {0})
insert u t none = (t ++ (u ∷ []), ok tt)
insert u t (some e) = (t, throws type_error)

find-none :
    (name network : Value) (u : Entry) (t : List Entry)
    → find name network t ≡ none
    → matching name network u ≡ true
    → find name network (t ++ (u ∷ [])) ≡ some u
unfolding find
find-none name network u [] h same = rw same refl
find-none name network u (e ∷ es) h same = elim (Bool-cases (matching name network e)) [
  | inl there ↦ let found = rw there at h in cc
  | inr other ↦ rw other (find-none name network u es (rw other at h) same)
]

find-some :
    (name network : Value) (u e : Entry) (t : List Entry)
    → find name network t ≡ some e
    → find name network (t ++ (u ∷ [])) ≡ some e
unfolding find
find-some name network u e [] h = cc
find-some name network u e (d ∷ ds) h = elim (Bool-cases (matching name network d)) [
  | inl there ↦ rw there (rw there at h)
  | inr other ↦ rw other (find-some name network u e ds (rw other at h))
]

pub find-without :
    (name network : Value) (t : List Entry) → find name network (without name network t) ≡ none
unfolding find without
find-without name network [] = refl
find-without name network (e ∷ es) = elim (Bool-cases (matching name network e)) [
  | inl there ↦ rw there (find-without name network es)
  | inr other ↦ rw (other, other) (find-without name network es)
]

strict_eq-text : (s : String) (v : Value) → strict_eq (str s) v ≡ true → v ≡ str s
unfolding strict_eq
strict_eq-text s (str r) h = ap str ((eq_iff r s).0 h)
strict_eq-text s _ h = cc

and-both : (a b : Bool) → (a && b) ≡ true → (a ≡ true) × (b ≡ true)
and-both true b h = (refl, h)
and-both false b h = cc

str_injective : (a b : String) → str a ≡ str b → a ≡ b
str_injective a b h = cc

-- A row is of one user in one network.
matching-once :
    (name network other place : String) (e : Entry)
    → ¬ ((name ≡ other) × (network ≡ place))
    → matching (str name) (str network) e ≡ true
    → matching (str other) (str place) e ≡ false
matching-once name network other place e apart h =
    elim (Bool-cases (matching (str other) (str place) e)) [
      | inr k ↦ k
      | inl k ↦
          let (n, w) = and-both _ _ h in
          let (m, v) = and-both _ _ k in
          absurd (
            apart (
              str_injective name other
                  (sym (strict_eq-text name e.username n) ∙ strict_eq-text other e.username m),
              str_injective network place (
                  sym (strict_eq-text network e.network_name w)
                  ∙ strict_eq-text place e.network_name v),
            ))
    ]

pub find-apart :
    (name network other place : String) (t : List Entry)
    → ¬ ((name ≡ other) × (network ≡ place))
    → find (str other) (str place) (without (str name) (str network) t)
      ≡ find (str other) (str place) t
unfolding find without
find-apart name network other place [] apart = refl
find-apart name network other place (e ∷ es) apart =
    elim (Bool-cases (matching (str name) (str network) e)) [
      | inl h ↦
          rw (h, matching-once name network other place e apart h)
            (find-apart name network other place es apart)
      | inr h ↦ rw h (elim (Bool-cases (matching (str other) (str place) e)) [
        | inl k ↦ rw k refl
        | inr k ↦ rw k (find-apart name network other place es apart)
      ])
    ]

pub created-find :
    (u : Entry) (t t' : List Entry)
    → Texts u
    → insert u t (find u.username u.network_name t) ≡ (t', ok tt)
    → (e : Entry) × (ok (find u.username u.network_name t') ≡ ok (some e)) × SameKeys e u
unfolding strict_eq
created-find u t t' texts done = elim (Option-cases (find u.username u.network_name t)) [
  | inr (e, h) ↦ let clash = rw h at done in cc
  | inl h ↦
      let wrote = ap (λ r. r.0) (rw h at done) in
      let itself : matching u.username u.network_name u ≡ true =
        rw (texts.username, texts.network_name, eq_refl texts.name, eq_refl texts.network) refl in
      (
        u,
        ap ok (rw (sym wrote) (find-none u.username u.network_name u t h itself)),
        (refl, refl, refl),
      )
]

pub created-keeps :
    (u e : Entry) (t t' : List Entry) (name network : String)
    → insert u t (find u.username u.network_name t) ≡ (t', ok tt)
    → ok (find (str name) (str network) t) ≡ ok (some e)
    → ok (find (str name) (str network) t') ≡ ok (some e)
created-keeps u e t t' name network done found =
    elim (Option-cases (find u.username u.network_name t)) [
      | inr (d, h) ↦ let clash = rw h at done in cc
      | inl h ↦
          let wrote = ap (λ r. r.0) (rw h at done) in
          let there : find (str name) (str network) t ≡ some e = cc in
          ap ok (rw (sym wrote) (find-some (str name) (str network) u e t there))
    ]

pub created-refused :
    (u : Entry) (t t' : List Entry) (e : Value)
    → insert u t (find u.username u.network_name t) ≡ (t', throws e)
    → t' ≡ t
created-refused u t t' e failed = elim (Option-cases (find u.username u.network_name t)) [
  | inl h ↦ let clash = rw h at failed in cc
  | inr (d, h) ↦ sym (ap (λ r. r.0) (rw h at failed))
]

pub destroyed-refused :
    (name network : Value) (t t' : List Entry) (e : Value)
    → erase name network t ≡ (t', throws e)
    → t' ≡ t
destroyed-refused name network t t' e failed = cc

abbrev pub table : UserModel
table = record {
  Table = List Entry;
  find_one = λ name network t. ok (find name network t);
  create = λ u t. insert u t (find u.username u.network_name t);
  destroy = erase;
  find_all = λ network t. ok t;
  create_find = created-find;
  create_keeps = created-keeps;
  create_refused = created-refused;
  destroy_find = λ name network t t' done.
      ap ok (rw (sym (ap (λ r. r.0) done)) (find-without (str name) (str network) t));
  destroy_other = λ name network other place t t' done apart.
      ap ok (rw (sym (ap (λ r. r.0) done)) (find-apart name network other place t apart));
  destroy_refused = λ name network t t' e failed. destroyed-refused name network t t' e failed;
}
