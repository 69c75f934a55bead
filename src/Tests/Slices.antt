-- ===== src/Tests/Slices.antt =====
-- The theorems on the store at a concrete state.
use thermotrace_production.Common.{false, ◌≡◌, refl, All}
use thermotrace_production.Js.Value.{Value, str, ok, is_undefined}
use thermotrace_production.Redux.{action, Action}
use thermotrace_production.Store.Charts.Types as ChartTypes
use thermotrace_production.Store.Charts.Reducers as ChartReducers
use thermotrace_production.Store.Root.{
  Slice, auth, chart, ChartSlice, view, root_reducer, slice_reducer,
}
use thermotrace_production.Store.Root.Refinement.{root-slices, root_complete, SliceAccepts}
use thermotrace_production.Store.Root.Frame.{root-frame}
use thermotrace_production.Session.{World, dispatch}
use thermotrace_production.Session.Dispatch.{
  IsReady, Sets, dispatch-Sets, slice_ok-defined, accepts,
}
use thermotrace_production.Session.Configure.{
  configure_store, themed, started, configure_store-IsReady,
}
use thermotrace_production.Session.Selection.{selectors, Selects, selectors-total}
use thermotrace_production.Tests.Reference.{reference}
use thermotrace_production.Tests.Sample.{state, home, home-IsReady, rows}

-- The action that shows the numbers of the dashboard.
abbrev shown : Action
shown = action ChartTypes.dashboard_stats rows

abbrev dashboard : Slice
dashboard = chart ChartSlice.dash_stats

shown-reduces : slice_reducer dashboard (view home.store dashboard) shown ≡ ok rows
unfolding slice_reducer ChartReducers.dash_stats_reducer
shown-reduces = refl

dispatch-Sets_example :
    (w' : World) × (dispatch reference shown home ≡ (w', ok tt))
    × (w'.token ≡ home.token)
    × Sets dashboard rows home.store w'.store
dispatch-Sets_example =
    dispatch-Sets reference home shown dashboard rows home-IsReady refl shown-reduces refl

all-accept : (n : Slice) → SliceAccepts state shown n
all-accept = accepts reference home shown dashboard rows home-IsReady refl shown-reduces refl

-- The state after the action.
next : (s' : Value) × (root_reducer reference state shown ≡ ok s')
next = root_complete reference state shown home-IsReady.store all-accept

root-slices_example :
    (slice_reducer dashboard (view state dashboard) shown ≡ ok (view next.0 dashboard))
    × (is_undefined (view next.0 dashboard) ≡ false)
root-slices_example = root-slices reference state shown next.0 next.1 dashboard

root-frame_example : view next.0 auth ≡ view state auth
root-frame_example =
    root-frame reference state shown next.0 next.1 auth refl
      (slice_ok-defined auth (view state auth) (home-IsReady.slices auth))

selectors-total_example : All (Selects state) selectors
selectors-total_example = selectors-total state home-IsReady

configure_store-IsReady_example :
    (w' : World) × (configure_store reference (themed (str "light")) home ≡ ok w')
    × (w'.token ≡ home.token)
    × ((n : Slice) → view w'.store n ≡ started (str "light") home n)
    × IsReady w'.store
configure_store-IsReady_example = configure_store-IsReady reference (str "light") home
