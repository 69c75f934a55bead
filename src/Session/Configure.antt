-- ===== src/Session/Configure.antt =====
-- blockchain-explorer/client/src/state/store.js: the store that the client starts with. Its
-- preloaded state is what blockchain-explorer/client/src/index.js passes, a theme.
use text.Mathlib.Text.{starts_with}
use thermotrace_production.Common.{true, false, ◌≡◌, refl, All, Bool-cases, inl, inr, ◌∙◌}
use thermotrace_production.Js.Value.{Value, obj, end, field, Completion, ok, ◌>>=◌, is_undefined}
use thermotrace_production.Js.Object.{prop, spread, set_field, field_of}
use thermotrace_production.Redux.{Redux, default_to}
use thermotrace_production.Store.Root.{
  Slice, auth, theme, chart, table, ChartSlice, TableSlice, view, slice_reducer, root_reducer,
  types_of, is_among, initial,
}
use thermotrace_production.Store.Root.Refinement.{root-slices, root-IsStore, root_complete, IsStore}
use thermotrace_production.Store.Root.Frame.{slice_reducer-silent, All-is_among}
use thermotrace_production.Session.{World, get_token}
use thermotrace_production.Session.Dispatch.{IsReady, slice_ok}

-- `{ ...initialState, auth: { token } }`
unfoldable pub preloaded : Value → World → Value
preloaded initial_state w =
    obj (set_field "auth" (obj (field "token" (get_token w) end)) (spread initial_state))

unfoldable pub configure_store : Redux → Value → World → Completion World
configure_store redux initial_state w = do
  state ← redux.create_store (root_reducer redux) (preloaded initial_state w)
  ok (record w { store = state })

-- `{ theme: { mode } }`
abbrev pub themed : Value → Value
themed mode = obj (field "theme" (obj (field "mode" mode end)) end)

types_of-public : (n : Slice) → All (λ t. starts_with t "@@redux/" ≡ false) (types_of n)
types_of-public auth = (refl, (refl, (refl, (refl, (refl, (refl, tt))))))
types_of-public theme = (refl, tt)
types_of-public (chart ChartSlice.channel) = (refl, (refl, tt))
types_of-public (chart c) = (refl, tt)
types_of-public (table TableSlice.block_range_search) = (refl, (refl, tt))
types_of-public (table t) = (refl, tt)

-- What each slice holds at the start.
abbrev pub started : Value → World → Slice → Value
started mode w auth = obj (field "token" (get_token w) end)
started mode w theme = obj (field "mode" mode end)
started mode w _ = obj end

module _ (redux : Redux) (mode : Value) (w : World) where
  init-silent : (n : Slice) → is_among redux.init.type (types_of n) ≡ false
  init-silent n = elim (Bool-cases (is_among redux.init.type (types_of n))) [
    | inl h ↦
        let public =
          All-is_among (λ t. starts_with t "@@redux/" ≡ false) redux.init.type (types_of n)
            (types_of-public n) h in
        cc (public, redux.init_private)
    | inr h ↦ h
  ]

  preloaded-started :
      (n : Slice) → default_to (initial n) (view (preloaded (themed mode) w) n) ≡ started mode w n
  unfolding preloaded view prop spread set_field field_of
  preloaded-started auth = refl
  preloaded-started theme = refl
  preloaded-started (chart ChartSlice.channel) = refl
  preloaded-started (chart c) = refl
  preloaded-started (table TableSlice.channels) = refl
  preloaded-started (table t) = refl

  started-fit :
      (n : Slice)
      → (is_undefined (started mode w n) ≡ false) × (slice_ok n (started mode w n) ≡ true)
  started-fit auth = (refl, refl)
  started-fit theme = (refl, refl)
  started-fit (chart ChartSlice.channel) = (refl, refl)
  started-fit (chart c) = (refl, refl)
  started-fit (table TableSlice.channels) = (refl, refl)
  started-fit (table t) = (refl, refl)

  reduces :
      (n : Slice)
      → slice_reducer n (view (preloaded (themed mode) w) n) redux.init ≡ ok (started mode w n)
  reduces n = slice_reducer-silent n _ redux.init (init-silent n) ∙ rw (preloaded-started n) refl

  preloaded-IsStore : IsStore (preloaded (themed mode) w)
  unfolding preloaded prop spread set_field field_of
  preloaded-IsStore = record { whole = refl; charts = refl; tables = refl }

  -- The client's store can be made with a theme passed. It is ready for every selector, keeps the
  -- token of the local storage, and holds in `auth` the token and nothing else: the list of
  -- networks and the other fields of the initial state of `auth` are not there. The theme is the
  -- one passed, and every other slice is an empty object.
  pub configure_store-IsReady :
      (w' : World) × (configure_store redux (themed mode) w ≡ ok w')
      × (w'.token ≡ w.token)
      × ((n : Slice) → view w'.store n ≡ started mode w n)
      × IsReady w'.store
  unfolding configure_store
  configure_store-IsReady =
      let pre = preloaded (themed mode) w in
      let (s, made) =
        root_complete redux pre redux.init preloaded-IsStore
          (λ n. (started mode w n, reduces n, (started-fit n).0)) in
      let holds : (n : Slice) → view s n ≡ started mode w n =
        λ n. cc ((root-slices redux pre redux.init s made n).0, reduces n) in
      (
        record w { store = s },
        rw (redux.create_store_lem (root_reducer redux) pre, made) refl,
        refl,
        holds,
        record {
          store = root-IsStore redux pre redux.init s made;
          slices = λ n. rw (holds n) (started-fit n).1;
        },
      )
