-- ===== src/Proxy/Capacity/Reloads.antt =====
-- Every reload signal is served.
use nestjs_amqp.Prelude.{
  suc, ◌≤◌, true, false, List, [], ◌∷◌, ◌≡◌, refl, arith, Bool-cases, inl, inr,
}
use nestjs_amqp.Proxy.Capacity.{
  Reloading, no_reload, reload, pass_over, Control, reloads_routes, reloads_providers, is_ignored,
  on_control, Signal, control, over, obey, signalled, run_signals,
}

-- Without a pass under way all signals are served; the pass under way has seen all of them, or
-- another one is pending.
abbrev IsTracked : Reloading → Type 0
IsTracked st =
    (st.reload_in_flight ≡ false → st.served ≡ st.signals)
    × (st.reload_in_flight ≡ true → st.reload_pending ≡ false → st.seen ≡ st.signals)
    × (st.passes ≤ st.signals)
    × (st.reload_in_flight ≡ true → st.reload_pending ≡ true → suc st.passes ≤ st.signals)

reload-IsTracked : (st : Reloading) → IsTracked st → IsTracked (reload st)
unfolding reload
reload-IsTracked st (i, p, n, m) = elim (Bool-cases st.reload_in_flight) [
  | inl e ↦ ground (arith, e, i, p, n, m)
  | inr e ↦ ground (arith, e, i, p, n, m)
]

pass_over-IsTracked : (st : Reloading) → IsTracked st → IsTracked (pass_over st)
unfolding pass_over
pass_over-IsTracked st (i, p, n, m) = elim (Bool-cases st.reload_in_flight) [
  | inr e ↦ ground (arith, e, i, p, n, m)
  | inl e ↦ elim (Bool-cases st.reload_pending) [
    | inl f ↦ ground (arith, e, f, i, p, n, m)
    | inr f ↦ ground (arith, e, f, i, p, n, m)
  ]
]

obey-IsTracked : (c : Control) (st : Reloading) → IsTracked st → IsTracked (obey c st)
obey-IsTracked reloads_routes st t = reload-IsTracked st t
obey-IsTracked reloads_providers st t = t
obey-IsTracked is_ignored st t = t

run_signals-IsTracked :
    (ss : List Signal) (st : Reloading) → IsTracked st → IsTracked (run_signals ss st)
unfolding run_signals signalled
run_signals-IsTracked [] st t = t
run_signals-IsTracked (control action ∷ ss) st t =
    run_signals-IsTracked ss (obey (on_control action) st) (obey-IsTracked (on_control action) st t)
run_signals-IsTracked (over ∷ ss) st t =
    run_signals-IsTracked ss (pass_over st) (pass_over-IsTracked st t)

drained :
    (st : Reloading)
    → IsTracked st
    → ((pass_over (pass_over st)).reload_in_flight ≡ false)
      × ((pass_over (pass_over st)).served ≡ st.signals)
unfolding pass_over
drained st (i, p, n, m) = elim (Bool-cases st.reload_in_flight) [
  | inr e ↦ ground (arith, e, i)
  | inl e ↦ elim (Bool-cases st.reload_pending) [
    | inl f ↦ ground (arith, e, f, i, p)
    | inr f ↦ ground (arith, e, f, i, p)
  ]
]

-- However reload signals and the ends of passes follow each other, once two more passes are over the
-- service is at rest, and the last pass began after every signal so far; and there are never more
-- passes than signals.
pub run_signals-served :
    (ss : List Signal)
    → ((pass_over (pass_over (run_signals ss no_reload))).reload_in_flight ≡ false)
      × ((pass_over (pass_over (run_signals ss no_reload))).served
          ≡ (run_signals ss no_reload).signals)
      × ((run_signals ss no_reload).passes ≤ (run_signals ss no_reload).signals)
run_signals-served ss =
    let start : IsTracked no_reload =
      ((λ e. refl), (λ e f. refl), omega arith, (λ e f. absurd (cc))) in
    let (i, p, n, m) = run_signals-IsTracked ss no_reload start in
    let (r, s) = drained (run_signals ss no_reload) (i, p, n, m) in (r, s, n)
