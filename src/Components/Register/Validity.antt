-- ===== src/Components/Register/Validity.antt =====
-- When the form of a new user can be submitted.
use thermotrace_production.Common.{
  String, Bool, true, false, ◌&&◌, ◌==◌, List, [], ◌∷◌, ◌≡◌, refl, eq_iff, arith, Bool-cases, sym,
  ◌∙◌, inl, inr,
}
use thermotrace_production.Js.Value.{Value}
use thermotrace_production.Components.Register.{
  Form, Name, user, firstname, lastname, email, password, password2, roles, present, complete,
  confirmation, set_value, handle_change, validate, fresh, Event, changed, submitted, received,
  step, run, no_error, reset_form, submit_form, receive_props, blank,
}

-- The error of the confirmation stands where both passwords are given and differ.
abbrev pub Checked : Form → Type 0
Checked form =
    present form.password.value ≡ true
    → present form.password2.value ≡ true
    → no_error form.password2.error ≡ (form.password2.value == form.password.value)

validate-Checked : (form : Form) → Checked form → Checked (validate form)
unfolding validate
validate-Checked form h = elim (Bool-cases (complete form)) [
  | inl valid ↦ rw valid h
  | inr other ↦ elim (Bool-cases form.all_valid) [
    | inl on ↦ rw (other, on) h
    | inr off ↦ rw (other, off) h
  ]
]

eq_sym : (s t : String) → (s == t) ≡ (t == s)
eq_sym s t = ground (arith, eq_iff s t, eq_iff t s)

confirmed : Name → String → Form → Form
confirmed name v form = record (set_value name v form) { password2 = confirmation name v form }

confirmation-Checked :
    (name : Name) (v : String) (form : Form) → Checked form → Checked (confirmed name v form)
unfolding confirmed set_value confirmation
confirmation-Checked user v form h = h
confirmation-Checked firstname v form h = h
confirmation-Checked lastname v form h = h
confirmation-Checked email v form h = h
confirmation-Checked roles v form h = h
confirmation-Checked password v form h =
    λ given given2. let same = eq_sym v form.password2.value in ground arith
confirmation-Checked password2 v form h = λ given given2. ground arith

step-Checked : (e : Event) (form : Form) → Checked form → Checked (step e form)
unfolding step handle_change submit_form reset_form receive_props confirmed
step-Checked (changed name v) form h =
    validate-Checked (confirmed name v form) (confirmation-Checked name v form h)
step-Checked (submitted name info) form h = λ given given2. cc
step-Checked (received registered error) form h = h

run-Checked : (events : List Event) (form : Form) → Checked form → Checked (run events form)
unfolding run
run-Checked [] form h = h
run-Checked (e ∷ es) form h = run-Checked es (step e form) (step-Checked e form h)

fresh-Checked : (registered : Value) → Checked (fresh registered)
unfolding fresh
fresh-Checked registered = λ given given2. cc

-- A user, a role and a password are given, and the confirmation is the password.
abbrev pub acceptable : Form → Bool
acceptable form =
    present form.user.value
    && (present form.roles.value
        && (present form.password.value && form.password2.value == form.password.value))

differ_lem : (s t : String) → present s ≡ false → present t ≡ true → (s == t) ≡ false
differ_lem s t missing given = ground (arith, eq_iff s "", eq_iff t "", eq_iff s t)

complete-acceptable : (form : Form) → Checked form → complete form ≡ acceptable form
complete-acceptable form h = elim (Bool-cases (present form.password.value)) [
  | inl given ↦ elim (Bool-cases (present form.password2.value)) [
    | inl given2 ↦ rw (given, given2, h given given2) refl
    | inr missing ↦
        let differ : (form.password2.value == form.password.value) ≡ false =
          differ_lem form.password2.value form.password.value missing given in
        rw (given, missing, differ) (ground arith)
  ]
  | inr missing ↦ rw missing (ground arith)
]

validate-all_valid : (form : Form) → (validate form).all_valid ≡ complete form
unfolding validate
validate-all_valid form = ground arith

validate-acceptable : (form : Form) → acceptable (validate form) ≡ acceptable form
unfolding validate
validate-acceptable form = ground arith

-- After any changes, submissions and updates from a new form, a change of any field leaves the form
-- ready to be sent exactly where a user, a role and a password are given and the confirmation is
-- the password.
pub handle_change-all_valid :
    (registered : Value) (events : List Event) (name : Name) (v : String)
    → (handle_change name v (run events (fresh registered))).all_valid
      ≡ acceptable (handle_change name v (run events (fresh registered)))
unfolding handle_change confirmed
handle_change-all_valid registered events name v =
    let form = run events (fresh registered) in
    let after = confirmed name v form in
    let checked = run-Checked events (fresh registered) (fresh-Checked registered) in
    validate-all_valid after
    ∙ complete-acceptable after (confirmation-Checked name v form checked)
    ∙ sym (validate-acceptable after)

-- The seven fields are empty and bear no error.
abbrev pub IsEmpty : Form → Type 0
IsEmpty form =
    (form.user ≡ blank)
    × (form.firstname ≡ blank)
    × (form.lastname ≡ blank)
    × (form.email ≡ blank)
    × (form.password ≡ blank)
    × (form.password2 ≡ blank)
    × (form.roles ≡ blank)

-- Where a change has made the form ready to be sent, its submission notes the user that was sent as
-- saved last and empties all seven fields, and still leaves the form ready to be sent.
pub submit_form-all_valid :
    (registered info : Value) (events : List Event) (name : Name) (v sent : String)
    → acceptable (handle_change name v (run events (fresh registered))) ≡ true
    → ((submit_form sent info (handle_change name v (run events (fresh registered)))).all_valid
        ≡ true)
      × IsEmpty (submit_form sent info (handle_change name v (run events (fresh registered))))
      × (acceptable (submit_form sent info (handle_change name v (run events (fresh registered))))
          ≡ false)
      × ((submit_form sent info (handle_change name v (run events (fresh registered)))).last_saved
          ≡ sent)
unfolding submit_form reset_form
submit_form-all_valid registered info events name v sent h = (
  handle_change-all_valid registered events name v ∙ h,
  (refl, refl, refl, refl, refl, refl, refl),
  refl,
  refl,
)
