-- ===== src/Scenario/Controller/Calls.antt =====
-- Any sequence of calls of the methods of `ScenarioController` in src/scenario.rs.
pub mod Transient
use c37_118_simulator.Prelude.{
  ℕ, ◌+◌, ◌*◌, ◌≤◌, ◌<◌, ◌-◌, ◌^◌, ◌≡◌, ◌⊎◌, refl, sym, ap, ◌∙◌, Option, none, some, List, [], ◌∷◌,
  length, arith, dec_lt, some_inj, none-ne-some, All, subst, inl, inr, Option-cases,
}
use c37_118_simulator.Prelude.Dict.{Dict, nat_key, lookup}
use c37_118_simulator.Scenario.Types.{
  Text, Instant, max_u64, ScenarioTarget, target_key, ScenarioDefinition, ScenarioCatalog,
  transient, sustained,
}
use c37_118_simulator.Scenario.Catalog.Compiled.{IsCompiled}
use c37_118_simulator.Scenario.Controller.{
  PreparedScenarioAction, ActiveScenarioAction, ScenarioController, Outcome, done, failed, panicked,
  new, activate, clear, PendingScenarioAction, StoredScenarioAction, non_monotonic_boundary,
}
use c37_118_simulator.Scenario.Controller.Actions.{
  prepare_activation, prepare_clear, confirm, cancel, discard_expired_preparations,
}
use c37_118_simulator.Scenario.Controller.Invariant.{Inv, Admissible, activates, clears, new-Inv}
use c37_118_simulator.Scenario.Controller.Post.{Post, Post-bind, Post-weaken}
use c37_118_simulator.Scenario.Controller.Discard.{Discarded, discard-Discarded}
use c37_118_simulator.Scenario.Controller.Tokens.{
  Held, Discarded-Held, confirm-Held, cancel-Held, budget,
}
use c37_118_simulator.Scenario.Controller.Prepare.{Activation, prepare_activation-Activation}
use c37_118_simulator.Scenario.Controller.PrepareClear.{Clearing, prepare_clear-Clearing}
use c37_118_simulator.Scenario.Controller.Snapshot.{snapshot, view}
use c37_118_simulator.Scenario.Controller.Boundary.{advance_boundary, is_retained, is_expired_at}
use c37_118_simulator.Scenario.Controller.Boundary.Active.{survivor, after_pending}
use c37_118_simulator.Scenario.Controller.Boundary.Advance.{
  Later, Advanced, advance_boundary_succeeds, advance_boundary_refuses,
}

-- The calls that take `&mut self`. `snapshot` changes the state only by what it discards.
pub data Call : Type 0 where
  call_prepare_activation : ScenarioTarget → Text → Option Text → Instant → Call
  call_prepare_clear : ScenarioTarget → Option Text → Instant → Call
  call_confirm call_cancel : ℕ → Instant → Call
  call_snapshot : Instant → Call
  call_advance_boundary : ℕ → Call

-- The controller that a call leaves, whether it answers or fails; nothing where the process ends.
abbrev pub left : {A : Type 0} → Outcome A → Option ScenarioController
left (done c a) = some c
left (failed c e) = some c
left panicked = none

unfoldable pub handle : Call → ScenarioController → Option ScenarioController
handle (call_prepare_activation t name label now) c = left (prepare_activation t name label now c)
handle (call_prepare_clear t label now) c = left (prepare_clear t label now c)
handle (call_confirm token now) c = left (confirm token now c)
handle (call_cancel token now) c = left (cancel token now c)
handle (call_snapshot now) c = left (snapshot now c)
handle (call_advance_boundary i) c = left (advance_boundary i c)

abbrev pub and_then :
    Option ScenarioController
    → (ScenarioController → Option ScenarioController)
    → Option ScenarioController
and_then none k = none
and_then (some c) k = k c

unfoldable pub run : List Call → ScenarioController → Option ScenarioController
run [] c = some c
run (call ∷ calls) c = and_then (handle call c) (λ d. run calls d)

-- What a call does to the active scenarios and to the boundary: only `advance_boundary` touches
-- them, and not where it refuses.
abbrev pub Changed : Call → ScenarioController → ScenarioController → Type 0
Changed (call_advance_boundary i) c c' = (c' ≡ c) ⊎ Advanced i c c'
Changed call c c' = (c'.active ≡ c.active) × (c'.current_sample_index ≡ c.current_sample_index)

pub record Handled (call : Call) (c c' : ScenarioController) : Type 0 where
  pub ran : handle call c ≡ some c'
  pub inv : Inv c'
  pub room : budget c' ≤ budget c + 2
  pub changed : Changed call c c'

left-Held :
    {A : Type 0} (c : ScenarioController) (o : Outcome A)
    → Post (λ c' _. Held c c') (Held c) ⊥ o
    → (c' : ScenarioController) × (left o ≡ some c') × Held c c'
left-Held c (done c' a) h = (c', refl, h)
left-Held c (failed c' e) h = (c', refl, h)
left-Held c panicked h = absurd h

Later-cases : (o : Option ℕ) (i : ℕ) → Later o i ⊎ ((p : ℕ) × (o ≡ some p) × (i ≤ p))
Later-cases none i = inl tt
Later-cases (some p) i = elim (dec_lt p i) [ yes h ↦ inl h | no h ↦ inr (p, refl, omega arith) ]

-- Any call on a controller that keeps the invariant and has two revisions left.
pub handle-Handled :
    (call : Call) (c : ScenarioController)
    → Inv c
    → budget c + 1 < max_u64
    → (c' : ScenarioController) × Handled call c c'
unfolding handle snapshot
handle-Handled (call_prepare_activation t name label now) c w room =
    let (c', ran, h) = left-Held c (prepare_activation t name label now c) (
      Post-weaken (λ c' s. Activation c t name label now c' s) (Held c) ⊥ (λ c' _. Held c c')
        (Held c) ⊥ (prepare_activation t name label now c)
        (prepare_activation-Activation c t name label now w (omega (arith, room)))
        (λ c' s a. a.prepared.held) (λ c' h. h) (λ h. h)) in
    (c', record { ran = ran; inv = h.inv; room = h.room; changed = (h.same_active, h.same_index) })
handle-Handled (call_prepare_clear t label now) c w room =
    let (c', ran, h) = left-Held c (prepare_clear t label now c) (
      Post-weaken (λ c' s. Clearing c t label now c' s) (Held c) ⊥ (λ c' _. Held c c') (Held c) ⊥
        (prepare_clear t label now c) (prepare_clear-Clearing c t label now w (omega (arith, room)))
        (λ c' s a. a.prepared.held) (λ c' h. h) (λ h. h)) in
    (c', record { ran = ran; inv = h.inv; room = h.room; changed = (h.same_active, h.same_index) })
handle-Handled (call_confirm token now) c w room =
    let (c', ran, h) =
      left-Held c (confirm token now c) (confirm-Held c token now w (omega (arith, room))) in
    (c', record { ran = ran; inv = h.inv; room = h.room; changed = (h.same_active, h.same_index) })
handle-Handled (call_cancel token now) c w room =
    let (c', ran, h) =
      left-Held c (cancel token now c) (cancel-Held c token now w (omega (arith, room))) in
    (c', record { ran = ran; inv = h.inv; room = h.room; changed = (h.same_active, h.same_index) })
handle-Handled (call_snapshot now) c w room =
    let (c', ran, h) = left-Held c (snapshot now c) (
      Post-bind (λ d _. Held c d) (Held c) ⊥ (λ c' _. Held c c')
        (discard_expired_preparations now c) (λ _ d. done d (view now d))
        (Post-weaken (λ d _. Discarded c d) (λ _. ⊥) (max_u64 < c.revision + length c.prepared)
          (λ c' _. Held c c') (Held c) ⊥ (discard_expired_preparations now c)
          (discard-Discarded now c w) (λ d u h. Discarded-Held c d h) (λ d h. absurd h)
          (λ full. omega (arith, room, full)))
        (λ d u h. h)) in
    (c', record { ran = ran; inv = h.inv; room = h.room; changed = (h.same_active, h.same_index) })
handle-Handled (call_advance_boundary i) c w room = elim (Later-cases c.current_sample_index i) [
  | inl later ↦
      let (c', ran, d, w') = advance_boundary_succeeds i c w later (omega (arith, room)) in
      (
        c',
        record {
          ran = ap left ran;
          inv = w';
          room =
              omega (
                arith,
                d.room,
                ap (λ (m : Dict ℕ PreparedScenarioAction). length m) d.same_prepared,
              );
          changed = inr d;
        },
      )
  | inr (p, e, h) ↦ (
    c,
    record {
      ran = ap left (advance_boundary_refuses i p c e h);
      inv = w;
      room = omega arith;
      changed = inl refl;
    },
  )
]

-- Any sequence of calls of a controller that keeps the invariant, with two revisions for each call
-- left, ends with a controller that keeps the invariant.
run-Inv :
    (calls : List Call) (c : ScenarioController)
    → Inv c
    → budget c + 2 * length calls < max_u64
    → (c' : ScenarioController) × (run calls c ≡ some c') × Inv c'
unfolding run
run-Inv [] c w room = (c, refl, w)
run-Inv (call ∷ calls) c w room =
    let (d, h) = handle-Handled call c w (omega (arith, room)) in
    let (c', ran, w') = run-Inv calls d h.inv (omega (arith, room, h.room)) in
    (c', rw (h.ran) ran, w')

budget-new : (catalog : ScenarioCatalog) → budget (new catalog) ≡ 0
unfolding new
budget-new catalog = refl

-- From a new controller over a compiled catalog, any sequence of fewer than 2 ^ 63 - 1 calls, in
-- any order, with any arguments and at any times, does not end the process and leaves a controller
-- that keeps the invariant.
pub run-new :
    (catalog : ScenarioCatalog) (calls : List Call)
    → All IsCompiled catalog.scenarios
    → length calls < 2 ^ 63 - 1
    → (c : ScenarioController) × (run calls (new catalog) ≡ some c) × Inv c
run-new catalog calls all few =
    run-Inv calls (new catalog) (new-Inv catalog all) (omega (arith, budget-new catalog, few))
