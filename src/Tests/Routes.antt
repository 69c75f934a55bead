-- ===== src/Tests/Routes.antt =====
-- The operations on users with the answers of the server, at concrete inputs.
use thermotrace_production.Common.{
  ℕ, Bool, ◌||◌, true, false, ◌≤◌, ◌≡◌, leb, if◌then◌else◌, refl, arith,
}
use thermotrace_production.Js.Value.{Value, null, str, num, obj, end, field, truthy}
use thermotrace_production.Js.Object.{prop, field_of}
use thermotrace_production.Request.{Reply}
use thermotrace_production.Server.Http.{Http, is_json}
use thermotrace_production.Server.Routes.{Requester}

pub or-true : (b : Bool) → (b || true) ≡ true
or-true b = ground arith

-- A reply of superagent.
abbrev pub delivered : ℕ → Value → Reply
delivered code body = record {
  error = if leb 400 code then obj end else null;
  response = obj (field "status" (num code) (field "body" body end));
  arrives = or-true _;
}

pub delivered-ok :
    (body : Value)
    → is_json body ≡ true
    → (truthy (delivered 200 body).error ≡ false)
      × (prop "body" (delivered 200 body).response ≡ body)
unfolding prop field_of
delivered-ok body plain = (refl, refl)

pub delivered-error :
    (code : ℕ) (body : Value)
    → 400 ≤ code
    → (truthy (delivered code body).error ≡ true)
      × (truthy (delivered code body).response ≡ true)
      × (prop "status" (delivered code body).response ≡ num code)
unfolding prop field_of
delivered-error code body h = (ground arith, refl, refl)

abbrev pub express : Http
express = record { deliver = delivered; deliver_ok = delivered-ok; deliver_error = delivered-error }

abbrev root : Requester
root = record { network = str "net"; request_user_id = str "root" }

-- The form's user, who asks to be of another network and to be asked for by another user.
abbrev ann : Value
ann = obj (
    field "user" (str "ann") (
      field "password" (str "pw")
        (field "network" (str "other") (field "requestUserId" (str "eve") end))))

abbrev bob : Value
bob = obj (field "user" (str "bob") end)
