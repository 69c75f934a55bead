-- ===== src/Operations/Tables/Settle.antt =====
-- How a request of `tables` settles: its own slice first, then what follows it.
use thermotrace_production.Common.{
  ◌≡◌, refl, true, false, if◌then◌else◌, Bool-cases, inl, inr, Option, some, none, Option-cases,
  ◌∙◌,
}
use thermotrace_production.Js.Value.{Value, undefined, Completion, ok, truthy, is_readable}
use thermotrace_production.Js.Object.{get, prop}
use thermotrace_production.Js.Object.Laws.{get-readable}
use thermotrace_production.Redux.{Redux, Action}
use thermotrace_production.Store.Root.{Slice, view}
use thermotrace_production.Session.{World, Eff}
use thermotrace_production.Session.Dispatch.{IsReady, Sets, Sets-IsReady, slice_ok-readable}
use thermotrace_production.Request.{Reply}
use thermotrace_production.Operations.Effects.{
  token_after, callback-failed, callback-answered, reply-responds,
}
use thermotrace_production.Operations.Tables.{settle_with}
use thermotrace_production.Operations.Tables.Handler.{
  Outcome, delivered, Delivers, report_or-delivered, report_or-dropped,
}

-- What a reply delivers to a slice that holds `old`.
abbrev pub reply_delivers : Outcome → Value → Reply → Option Value
reply_delivers outcome old reply =
    if truthy reply.error then none else delivered outcome old (prop "body" reply.response)

-- With a delivery the slice is set, and then `After` holds; without one the store stays.
abbrev pub Follows : Slice → (Value → Value → Type 0) → Option Value → Value → Value → Type 0
Follows n After none s s' = s' ≡ s
Follows n After (some v) s s' = (mid : Value) × Sets n v s mid × After mid s'

module _ (redux : Redux) (success : Value → Completion Action) (n : Slice) (outcome : Outcome)
    (delivers : Delivers success n outcome) (after : Eff (Unit {0}))
    (After : Value → Value → Type 0)
    (follows : (w : World)
      → IsReady w.store
      → (w' : World) × (after w ≡ (w', ok tt)) × (w'.token ≡ w.token) × After w.store w'.store)
    (w : World) (ready : IsReady w.store) (old_readable : is_readable (view w.store n) ≡ true) where
  settle_with-body :
      (body : Value) (reply : Reply)
      → truthy reply.error ≡ false
      → get reply.response "body" ≡ ok body
      → (w' : World) × (settle_with redux success after reply w ≡ (w', ok undefined))
        × (w'.token ≡ w.token)
        × Follows n After (delivered outcome (view w.store n) body) w.store w'.store
  unfolding settle_with
  settle_with-body body reply sound there =
      elim (Option-cases (delivered outcome (view w.store n) body)) [
        | inl dropped ↦
            let (e, refused) =
              report_or-dropped redux success n outcome delivers body w ready old_readable
                dropped in
            (w, rw (callback-answered reply w sound, there, refused), refl, rw dropped refl)
        | inr (v, given) ↦
            let (w1, e, t, done, fit) =
              report_or-delivered redux success n outcome delivers body w ready old_readable v
                given in
            let (w2, e2, t2, later) =
              follows w1
                (Sets-IsReady n v w.store w1.store ready done (slice_ok-readable n v fit)) in
            (
              w2,
              rw (callback-answered reply w sound, there, e, e2),
              t2 ∙ t,
              rw given (w1.store, done, later),
            )
      ]

  pub settle_with_lem :
      (reply : Reply)
      → (w' : World) × (settle_with redux success after reply w ≡ (w', ok undefined))
        × (w'.token ≡ token_after reply w.token)
        × Follows n After (reply_delivers outcome (view w.store n) reply) w.store w'.store
  unfolding settle_with
  settle_with_lem reply = elim (Bool-cases (truthy reply.error)) [
    | inl failed ↦ (
      record w { token = token_after reply w.token },
      rw (callback-failed reply w failed),
      refl,
      rw failed refl,
    )
    | inr sound ↦
        let (w', e, t, done) =
          settle_with-body (prop "body" reply.response) reply sound
            (get-readable reply.response "body" (reply-responds reply sound)) in
        (w', e, rw sound t, rw sound done)
  ]
