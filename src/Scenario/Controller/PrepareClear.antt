-- ===== src/Scenario/Controller/PrepareClear.antt =====
-- `prepare_clear` of src/scenario.rs: what it leaves.
use c37_118_simulator.Prelude.{
  ◌+◌, ◌<◌, ◌≡◌, sym, ap, ◌∙◌, true, not, ◌||◌, Option, some, inl, inr, Option-cases, ◌==◌, length,
  arith,
}
use c37_118_simulator.Prelude.Dict.{nat_key, lookup, contains_key}
use c37_118_simulator.Scenario.Types.{
  Text, stream_id, ScenarioTarget, target_key, max_u64, Instant, sustained, ScenarioLifecycle,
}
use c37_118_simulator.Scenario.Controller.{
  PreparedScenarioAction, ActiveScenarioAction, clear, ScenarioController, guard, target_busy,
  clear_requires_sustained_scenario, invalid_target, invalid_actor_label, ◌>>◌,
}
use c37_118_simulator.Scenario.Controller.Actions.{
  prepare_action, prepare_clear, prepare_clear_of, label_fits, max_scenario_actor_label_bytes,
  PreparedScenarioSnapshot, prepared_snapshot, discard_expired_preparations, is_sustained,
  validate_controller_target, validate_actor_label, check_clear,
}
use c37_118_simulator.Scenario.Controller.Invariant.{Inv, clears}
use c37_118_simulator.Scenario.Controller.Post.{Post, Post-bind, Post-weaken, Post-guard}
use c37_118_simulator.Scenario.Controller.Discard.{Discarded, discard-Discarded}
use c37_118_simulator.Scenario.Controller.Tokens.{Held, Held-refl, Discarded-Held}
use c37_118_simulator.Scenario.Controller.Prepare.{
  Prepared, prepare_action-Prepared, asked_at, CanPrepare,
}

-- A preparation from where expired preparations are gone is one from before.
Held-Discarded : (c d e : ScenarioController) → Discarded c d → Held d e → Held c e
Held-Discarded c d e dis h = record {
  inv = h.inv;
  same_active = h.same_active ∙ dis.same_active;
  same_index = h.same_index ∙ dis.same_index;
  room = omega (arith, h.room, dis.room);
}

Prepared-Discarded :
    (c d : ScenarioController) (p : PreparedScenarioAction) (now : Instant) (e : ScenarioController)
    (s : PreparedScenarioSnapshot)
    → Discarded c d
    → Prepared d p now e s
    → Prepared c p now e s
Prepared-Discarded c d p now e s dis q = record {
  held = Held-Discarded c d e dis q.held;
  same_pending = q.same_pending ∙ dis.same_pending;
  answer = q.answer ∙ ap (λ n. prepared_snapshot p n now) dis.same_next;
  kept = ap (λ n. lookup n e.prepared) (sym dis.same_next) ∙ q.kept;
  next = q.next ∙ ap (λ n. n + 1) dis.same_next;
}

is_sustained-true : (l : ScenarioLifecycle) → is_sustained l ≡ true → l ≡ sustained
is_sustained-true l h = ground arith

-- What a preparation of a clear found and left.
pub record Clearing (c : ScenarioController) (t : ScenarioTarget) (label : Option Text)
    (now : Instant) (c' : ScenarioController) (s : PreparedScenarioSnapshot) : Type 0 where
  pub scenario : ActiveScenarioAction
  pub found : lookup t c.active ≡ some scenario
  pub lasting : scenario.scenario.lifecycle ≡ sustained
  pub prepared : Prepared c (asked_at t clear label now) now c' s

module _ (c : ScenarioController) (t : ScenarioTarget) (label : Option Text) (now : Instant)
    (w : Inv c) (room : CanPrepare c) where
  abbrev Clears : ScenarioController → PreparedScenarioSnapshot → Type 0
  Clears c' s = Clearing c t label now c' s

  module _ (d : ScenarioController) (dis : Discarded c d) where
    prepare_clear-active :
        (a : ActiveScenarioAction)
        → lookup t d.active ≡ some a
        → a.scenario.lifecycle ≡ sustained
        → Post Clears (Held c) ⊥ (prepare_action t clear label now true d)
    prepare_clear-active a e l =
        Post-weaken (λ c' s. Prepared d (asked_at t clear label now) now c' s) (Held d) ⊥ Clears
          (Held c) ⊥ (prepare_action t clear label now true d)
          (prepare_action-Prepared d t clear label now true dis.inv (omega (arith, room, dis.room))
            (λ _. clears a e l))
          (λ c' s p. record {
            scenario = a;
            found = ap (lookup t) (sym dis.same_active) ∙ e;
            lasting = l;
            prepared = Prepared-Discarded c d (asked_at t clear label now) now c' s dis p;
          })
          (λ c' h. Held-Discarded c d c' dis h) (λ h. h)

    check_clear-Clears :
        Post Clears (Held c) ⊥ ((check_clear t >> prepare_action t clear label now true) d)
    unfolding check_clear
    check_clear-Clears = elim (Option-cases (lookup t d.active)) [
      | inl missing ↦ rw (missing) (Discarded-Held c d dis)
      | inr (a, e) ↦ rw (e) (
          Post-guard Clears (Held c) ⊥ (is_sustained a.scenario.lifecycle)
            (clear_requires_sustained_scenario t) (prepare_action t clear label now true) d
            (λ h. prepare_clear-active a e (is_sustained-true a.scenario.lifecycle h))
            (λ _. Discarded-Held c d dis))
    ]

    prepare_clear_of-Clears : Post Clears (Held c) ⊥ (prepare_clear_of t label now d)
    prepare_clear_of-Clears =
        Post-guard Clears (Held c) ⊥
          (not (contains_key t d.prepared_targets || contains_key t d.pending)) (target_busy t)
          (check_clear t >> prepare_action t clear label now true) d (λ _. check_clear-Clears)
          (λ _. Discarded-Held c d dis)

  discarded-Clears :
      Post Clears (Held c) ⊥ ((discard_expired_preparations now >> prepare_clear_of t label now) c)
  discarded-Clears =
      Post-bind (λ d _. Discarded c d) (Held c) ⊥ Clears (discard_expired_preparations now c)
        (λ _. prepare_clear_of t label now)
        (Post-weaken (λ d _. Discarded c d) (λ _. ⊥) (max_u64 < c.revision + length c.prepared)
          (λ d _. Discarded c d) (Held c) ⊥ (discard_expired_preparations now c)
          (discard-Discarded now c w) (λ d u h. h) (λ d h. absurd h)
          (λ full. omega (arith, room, full)))
        (λ d u dis. prepare_clear_of-Clears d dis)

-- On a controller that keeps the invariant and has revisions left, preparing a clear does not end
-- the process. Where it answers, a sustained scenario is active for the target, and the clear is
-- stored for it under the next token, to expire after the time to live. Whether it
-- answers or not, the invariant holds, and the active scenarios and the boundary are as they were.
pub prepare_clear-Clearing :
    (c : ScenarioController) (t : ScenarioTarget) (label : Option Text) (now : Instant)
    → Inv c
    → CanPrepare c
    → Post (λ c' s. Clearing c t label now c' s) (Held c) ⊥ (prepare_clear t label now c)
unfolding prepare_clear validate_controller_target validate_actor_label
prepare_clear-Clearing c t label now w room =
    Post-guard (Clears c t label now w room) (Held c) ⊥ (not (stream_id t == 0)) (invalid_target t)
      (guard (label_fits label) (invalid_actor_label max_scenario_actor_label_bytes)
        >> (discard_expired_preparations now >> prepare_clear_of t label now))
      c
      (λ _.
        Post-guard (Clears c t label now w room) (Held c) ⊥ (label_fits label)
          (invalid_actor_label max_scenario_actor_label_bytes)
          (discard_expired_preparations now >> prepare_clear_of t label now) c
          (λ _. discarded-Clears c t label now w room) (λ _. Held-refl c w))
      (λ _. Held-refl c w)
