-- ===== src/Components/Login/AutoLogin.antt =====
-- When the login form logs in by itself, and with which user.
use thermotrace_production.Common.{
  ℕ, ◌≤◌, ◌+◌, String, false, not, ◌&&◌, ◌==◌, if◌then◌else◌, Option, some, none, List, [], ◌∷◌,
  ◌≡◌, refl, arith, Bool-cases, inl, inr, length, All,
}
use thermotrace_production.Js.Value.{Value, str, bool, truthy}
use thermotrace_production.Components.Login.{
  Form, Network, user, password, network, Login, fresh, receive_props, find, found, handle_change,
  perform_login, after_login, auto_login, did_update, Event, received, changed, answered, updated,
  step, logins, with_login,
}

abbrev allowance : Form → ℕ
allowance form = if form.auto_login_attempted then 0 else 1

-- The logins that a step leaves to the rest.
abbrev cost : Option Login → ℕ
cost none = 0
cost (some l) = 1

auto_login-allowance :
    (networks : List Network) (form : Form)
    → cost (auto_login networks form).1 + allowance (auto_login networks form).0 ≤ allowance form
unfolding auto_login
auto_login-allowance [] form = omega arith
auto_login-allowance (n ∷ []) form =
    elim (Bool-cases (not (truthy n.auth_enabled) && not form.auto_login_attempted)) [
      | inl due ↦ ground arith
      | inr other ↦ rw other (omega arith)
    ]
auto_login-allowance (n ∷ m ∷ ns) form = omega arith

step-allowance :
    (e : Event) (form : Form) → cost (step e form).1 + allowance (step e form).0 ≤ allowance form
unfolding step receive_props handle_change after_login did_update
step-allowance (received []) form = omega arith
step-allowance (received (n ∷ ns)) form = omega arith
step-allowance (changed user v) form = omega arith
step-allowance (changed password v) form = omega arith
step-allowance (changed network v) form = omega arith
step-allowance (answered info) form = omega arith
step-allowance updated form = auto_login-allowance form.networks form

length-with_login :
    (o : Option Login) (ls : List Login) → length (with_login o ls) ≡ cost o + length ls
length-with_login none ls = omega arith
length-with_login (some l) ls = omega arith

logins-allowance :
    (events : List Event) (form : Form) → length (logins events form) ≤ allowance form
unfolding logins
logins-allowance [] form = omega arith
logins-allowance (e ∷ es) form =
    let here = step-allowance e form in
    let later = logins-allowance es (step e form).0 in
    let all = length-with_login (step e form).1 (logins es (step e form).0) in omega arith

-- However often the form is updated, and whatever networks, changes and answers come, it logs in by
-- itself at most once.
pub logins-once :
    (networks : List Network) (events : List Event) → length (logins events (fresh networks)) ≤ 1
unfolding fresh
logins-once networks events = logins-allowance events (fresh networks)

-- Where the only network asks for no login, neither does the form.
abbrev Open : List Network → Value → Type 0
Open [] auth_enabled = Unit {0}
Open (n ∷ []) auth_enabled = truthy n.auth_enabled ≡ false → truthy auth_enabled ≡ false
Open (n ∷ m ∷ ns) auth_enabled = Unit {0}

find-Open :
    (v : String) (networks : List Network)
    → Open networks (found (λ n. n.auth_enabled) (find v networks))
unfolding find found
find-Open v [] = tt
find-Open v (n ∷ []) =
    λ free. elim (Bool-cases (n.name == v)) [ inl same ↦ rw same free | inr other ↦ rw other refl ]
find-Open v (n ∷ m ∷ ns) = tt

closed-Open : (networks : List Network) → Open networks (bool false)
closed-Open [] = tt
closed-Open (n ∷ []) = λ free. refl
closed-Open (n ∷ m ∷ ns) = tt

auto_login-Open :
    (networks : List Network) (form : Form)
    → Open form.networks form.auth_enabled
    → Open (auto_login networks form).0.networks (auto_login networks form).0.auth_enabled
unfolding auto_login
auto_login-Open [] form h = h
auto_login-Open (n ∷ []) form h =
    elim (Bool-cases (not (truthy n.auth_enabled) && not form.auto_login_attempted)) [
      | inl due ↦ rw due h
      | inr other ↦ rw other h
    ]
auto_login-Open (n ∷ m ∷ ns) form h = h

step-Open :
    (e : Event) (form : Form)
    → Open form.networks form.auth_enabled
    → Open (step e form).0.networks (step e form).0.auth_enabled
unfolding step receive_props handle_change after_login did_update
step-Open (received []) form h = h
step-Open (received (n ∷ [])) form h = λ free. free
step-Open (received (n ∷ m ∷ ns)) form h = tt
step-Open (changed user v) form h = h
step-Open (changed password v) form h = h
step-Open (changed network v) form h = find-Open v form.networks
step-Open (answered info) form h = h
step-Open updated form h = auto_login-Open form.networks form h

-- The user and the password that stand for none.
abbrev pub Anonymous : Login → Type 0
Anonymous l = (l.user ≡ str "dummy-user") × (l.password ≡ str "dummy-password")

auto_login-Anonymous :
    (networks : List Network) (form : Form)
    → Open networks form.auth_enabled
    → (ls : List Login) → All Anonymous ls
    → All Anonymous (with_login (auto_login networks form).1 ls)
unfolding auto_login perform_login
auto_login-Anonymous [] form h ls all = all
auto_login-Anonymous (n ∷ []) form h ls all =
    elim (Bool-cases (not (truthy n.auth_enabled) && not form.auto_login_attempted)) [
      | inl due ↦
          let free : truthy form.auth_enabled ≡ false = h (ground arith) in
          rw due (rw free (refl, refl), all)
      | inr other ↦ rw other all
    ]
auto_login-Anonymous (n ∷ m ∷ ns) form h ls all = all

step-Anonymous :
    (e : Event) (form : Form)
    → Open form.networks form.auth_enabled
    → (ls : List Login) → All Anonymous ls
    → All Anonymous (with_login (step e form).1 ls)
unfolding step did_update
step-Anonymous (received networks) form h ls all = all
step-Anonymous (changed name v) form h ls all = all
step-Anonymous (answered info) form h ls all = all
step-Anonymous updated form h ls all = auto_login-Anonymous form.networks form h ls all

logins_from-Anonymous :
    (events : List Event) (form : Form)
    → Open form.networks form.auth_enabled
    → All Anonymous (logins events form)
unfolding logins
logins_from-Anonymous [] form h = tt
logins_from-Anonymous (e ∷ es) form h =
    step-Anonymous e form h (logins es (step e form).0)
      (logins_from-Anonymous es (step e form).0 (step-Open e form h))

-- Every login that the form asks for by itself, after any networks, changes, answers and updates,
-- is that of the dummy user: what was typed for the user and the password is never sent by it.
pub logins-Anonymous :
    (networks : List Network) (events : List Event) → All Anonymous (logins events (fresh networks))
unfolding fresh
logins-Anonymous networks events =
    logins_from-Anonymous events (fresh networks) (closed-Open networks)
