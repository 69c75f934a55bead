-- ===== src/Components/Register.antt =====
-- The form for a new user: blockchain-explorer/client/src/components/Register/Register.js. Calls of
-- `setState` in a handler of React are applied together after it, so a handler reads the old state.
pub mod Validity
use thermotrace_production.Common.{
  String, Bool, true, false, not, ◌&&◌, ◌==◌, if◌then◌else◌, Option, some, none, List, [], ◌∷◌,
}
use thermotrace_production.Js.Value.{
  Value, undefined, null, obj, arr, nil, str, field, end, is_undefined,
}

-- A field with its error; `none` stands for `null` and for a field without `error`.
pub record Field : Type 0 where
  pub error : Option String
  pub value : String

pub data Name : Type 0 where
  user firstname lastname email password password2 roles : Name

pub record Form : Type 0 where
  pub info : Value
  pub user : Field
  pub firstname : Field
  pub lastname : Field
  pub email : Field
  pub password : Field
  pub password2 : Field
  pub roles : Field
  pub error : Value
  pub registered : Value
  pub all_valid : Bool
  pub last_saved : String

-- `{ error: null, value: '' }`
abbrev pub blank : Field
blank = record { error = none; value = "" }

abbrev pub present : String → Bool
present s = not (s == "")

unfoldable pub fresh : Value → Form
fresh registered = record {
  info = null;
  user = blank;
  firstname = blank;
  lastname = blank;
  email = blank;
  password = blank;
  password2 = blank;
  roles = blank;
  error = str "";
  registered = registered;
  all_valid = false;
  last_saved = "";
}

unfoldable pub receive_props : Value → Value → Form → Form
receive_props registered error form = record form {
  registered = (if is_undefined registered then arr nil else registered);
  error = error;
}

-- `setState({ [name]: { value } })`
unfoldable pub set_value : Name → String → Form → Form
set_value user v form = record form { user = record { error = none; value = v } }
set_value firstname v form = record form { firstname = record { error = none; value = v } }
set_value lastname v form = record form { lastname = record { error = none; value = v } }
set_value email v form = record form { email = record { error = none; value = v } }
set_value password v form = record form { password = record { error = none; value = v } }
set_value password2 v form = record form { password2 = record { error = none; value = v } }
set_value roles v form = record form { roles = record { error = none; value = v } }

abbrev mismatch : Option String
mismatch = some "The password confirmation does not match."

-- The field of the confirmation after a change.
unfoldable pub confirmation : Name → String → Form → Field
confirmation password v form = record {
  error =
      if present form.password2.value && not (v == form.password2.value) then mismatch else none;
  value = form.password2.value;
}
confirmation password2 v form = record {
  error = if present form.password.value && not (v == form.password.value) then mismatch else none;
  value = v;
}
confirmation name v form = form.password2

abbrev pub no_error : Option String → Bool
no_error none = true
no_error (some message) = false

-- The test of the callback of `setState`.
abbrev pub complete : Form → Bool
complete form =
    present form.user.value
    && (present form.password.value
        && (present form.password2.value
            && (present form.roles.value && no_error form.password2.error)))

unfoldable pub validate : Form → Form
validate form =
    if complete form
    then record form { all_valid = true }
    else if form.all_valid
    then record form { all_valid = false }
    else form

unfoldable pub handle_change : Name → String → Form → Form
handle_change name v form =
    validate (record (set_value name v form) { password2 = confirmation name v form })

-- What `submitForm` sends.
unfoldable pub user_info : Form → Value
user_info form = obj (
    field "user" (str form.user.value) (
      field "password" (str form.password.value) (
        field "password2" (str form.password2.value) (
          field "roles" (str form.roles.value) (
            field "firstname" (str form.firstname.value) (
              field "lastname" (str form.lastname.value)
                (field "email" (str form.email.value) end)))))))

unfoldable pub reset_form : Form → Form
reset_form form = record form {
  user = blank;
  firstname = blank;
  lastname = blank;
  email = blank;
  password = blank;
  password2 = blank;
  roles = blank;
}

-- What `submitForm` does when its requests have been answered; `name` is the user it sent.
unfoldable pub submit_form : String → Value → Form → Form
submit_form name info form = reset_form (record form { info = info; last_saved = name })

pub data Event : Type 0 where
  changed : Name → String → Event
  submitted : String → Value → Event
  received : Value → Value → Event

unfoldable pub step : Event → Form → Form
step (changed name v) form = handle_change name v form
step (submitted name info) form = submit_form name info form
step (received registered error) form = receive_props registered error form

unfoldable pub run : List Event → Form → Form
run [] form = form
run (e ∷ es) form = run es (step e form)
