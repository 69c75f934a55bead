-- ===== src/Components/Login.antt =====
-- The login form: blockchain-explorer/client/src/components/Login/Login.js, and the logins that it
-- asks for. A function given to `setState` gets the state of the moment.
pub mod AutoLogin
use thermotrace_production.Common.{
  String, Bool, true, false, not, ◌&&◌, ◌==◌, if◌then◌else◌, Option, some, none, List, [], ◌∷◌,
}
use thermotrace_production.Js.Value.{
  Value, undefined, null, bool, str, Completion, ok, throws, type_error, ◌>>=◌, truthy, is_str,
}
use thermotrace_production.Js.Object.{get}

pub record Network : Type 0 where
  pub id : Value
  pub name : String
  pub auth_enabled : Value

-- The fields `value` and `id` of the state of the form; no field is ever given an error.
pub record Form : Type 0 where
  pub info : Value
  pub user : String
  pub password : String
  pub network : String
  pub network_id : Value
  pub auto_login_attempted : Bool
  pub networks : List Network
  pub auth_enabled : Value

pub data Name : Type 0 where
  user password network : Name

-- The arguments of the property `login`.
pub record Login : Type 0 where
  pub user : Value
  pub password : Value
  pub network : Value

unfoldable pub fresh : List Network → Form
fresh networks = record {
  info = null;
  user = "";
  password = "";
  network = "";
  network_id = str "";
  auto_login_attempted = false;
  networks = networks;
  auth_enabled = bool false;
}

-- `networks[0]` is read where there is none: a TypeError.
unfoldable pub receive_props : List Network → Form → Completion Form
receive_props [] form = throws type_error
receive_props (n ∷ ns) form = ok (record form {
  networks = n ∷ ns;
  network = n.name;
  network_id = n.id;
  auth_enabled = n.auth_enabled;
})

-- `networks.find(n => n.name === value)`
unfoldable pub find : String → List Network → Option Network
find name [] = none
find name (n ∷ ns) = if n.name == name then some n else find name ns

-- A property of `found || {}`.
unfoldable pub found : (Network → Value) → Option Network → Value
found key none = undefined
found key (some n) = key n

unfoldable pub handle_change : Name → String → Form → Form
handle_change user v form = record form { user = v }
handle_change password v form = record form { password = v }
handle_change network v form = record form {
  network = v;
  network_id = found (λ n. n.id) (find v form.networks);
  auth_enabled = found (λ n. n.auth_enabled) (find v form.networks);
}

-- The login that `performLogin` asks for.
unfoldable pub perform_login : Value → Value → Value → Form → Login
perform_login name secret target form = record {
  user = (if truthy form.auth_enabled then name else str "dummy-user");
  password = (if truthy form.auth_enabled then secret else str "dummy-password");
  network = target;
}

-- What it does with the answer, and whether it leaves the page.
unfoldable pub after_login : Value → Form → Form × Completion Bool
after_login info form =
    (record form { info = info }, get info "status" >>= λ status. ok (is_str "Success" status))

unfoldable pub submit_form : Form → Login
submit_form form = perform_login (str form.user) (str form.password) form.network_id form

-- `componentDidUpdate`: the state, and the login that it asks for. `networks` is that of the state.
unfoldable pub auto_login : List Network → Form → Form × Option Login
auto_login [] form = (form, none)
auto_login (n ∷ []) form =
    if not (truthy n.auth_enabled) && not form.auto_login_attempted
    then (
      record form { auto_login_attempted = true },
      some (perform_login undefined undefined n.id form),
    )
    else (form, none)
auto_login (n ∷ m ∷ ns) form = (form, none)

unfoldable pub did_update : Form → Form × Option Login
did_update form = auto_login form.networks form

pub data Event : Type 0 where
  received : List Network → Event
  changed : Name → String → Event
  answered : Value → Event
  updated : Event

abbrev settled : Completion Form → Form → Form
settled (ok form') form = form'
settled (throws e) form = form

-- The state after an event, and the login that the form asks for by itself.
unfoldable pub step : Event → Form → Form × Option Login
step (received networks) form = (settled (receive_props networks form) form, none)
step (changed name v) form = (handle_change name v form, none)
step (answered info) form = ((after_login info form).0, none)
step updated form = did_update form

abbrev pub with_login : Option Login → List Login → List Login
with_login none ls = ls
with_login (some l) ls = l ∷ ls

-- The logins that the form asks for by itself in a sequence of events.
unfoldable pub logins : List Event → Form → List Login
logins [] form = []
logins (e ∷ es) form = with_login (step e form).1 (logins es (step e form).0)
