-- ===== src/Scenario/CallTests.antt =====
-- The theorems about sequences of calls of src/scenario.rs at a small catalog and controller.
use c37_118_simulator.Prelude.{
  ◌≡◌, refl, sym, ap, ◌∙◌, subst, none, some, [], ◌∷◌, arith, inl, inr, some_inj, none-ne-some,
}
use c37_118_simulator.Prelude.Dict.{lookup, nat_key}
use c37_118_simulator.Prelude.Dict.Laws.{lookup-nil, lookup-here, lookup-there, Key-cases}
use c37_118_simulator.Scenario.Types.{ScenarioTarget, endpoint, target_key}
use c37_118_simulator.Scenario.Catalog.Compiled.{IsCompiled}
use c37_118_simulator.Scenario.Controller.{ActiveScenarioAction, ScenarioController, new}
use c37_118_simulator.Scenario.Controller.Actions.{prepare_activation, prepare_clear}
use c37_118_simulator.Scenario.Controller.Invariant.{Inv}
use c37_118_simulator.Scenario.Controller.Post.{Post}
use c37_118_simulator.Scenario.Controller.Tokens.{Held}
use c37_118_simulator.Scenario.Controller.Prepare.{Activation, prepare_activation-Activation}
use c37_118_simulator.Scenario.Controller.PrepareClear.{Clearing, prepare_clear-Clearing}
use c37_118_simulator.Scenario.Controller.Calls.{
  call_prepare_activation, call_confirm, call_advance_boundary, handle, run, run-new,
}
use c37_118_simulator.Scenario.Controller.Calls.Transient.{transient-ends}
use c37_118_simulator.Scenario.Tests.{gap, catalog, gap-IsCompiled, running, at_five}

running_only :
    (t : ScenarioTarget) (a : ActiveScenarioAction)
    → lookup t ((endpoint 7, running) ∷ []) ≡ some a
    → IsCompiled a.scenario
running_only t a e = elim (Key-cases t (endpoint 7)) [
  | inl same ↦
      subst (λ (x : ActiveScenarioAction). IsCompiled x.scenario)
        (some_inj (
          sym (lookup-here (endpoint 7) running [])
          ∙ ap (λ u. lookup u ((endpoint 7, running) ∷ [])) (sym same)
          ∙ e))
        gap-IsCompiled
  | inr ne ↦
      absurd (none-ne-some (sym (lookup-there t (endpoint 7) running [] ne ∙ lookup-nil t) ∙ e))
]

at_five-Inv : Inv at_five
unfolding new
at_five-Inv = record {
  catalog_compiled = (gap-IsCompiled, tt);
  prepared_sorted = tt;
  targets_sorted = tt;
  pending_sorted = tt;
  active_sorted = (tt, tt);
  prepared_kept = λ token p e. absurd (none-ne-some (sym (lookup-nil token) ∙ e));
  target_held = λ t token e. absurd (none-ne-some (sym (lookup-nil t) ∙ e));
  pending_apt = λ t q e. absurd (none-ne-some (sym (lookup-nil t) ∙ e));
  active_compiled = running_only;
}

prepare_activation-Activation_example :
    Post
      (λ c' s. Activation at_five (endpoint 8) gap.name none 50 c' s)
      (Held at_five)
      ⊥
      (prepare_activation (endpoint 8) gap.name none 50 at_five)
unfolding new
prepare_activation-Activation_example =
    prepare_activation-Activation at_five (endpoint 8) gap.name none 50 at_five-Inv (omega arith)

prepare_clear-Clearing_example :
    Post
      (λ c' s. Clearing at_five (endpoint 7) none 50 c' s)
      (Held at_five)
      ⊥
      (prepare_clear (endpoint 7) none 50 at_five)
unfolding new
prepare_clear-Clearing_example =
    prepare_clear-Clearing at_five (endpoint 7) none 50 at_five-Inv (omega arith)

run-new_example :
    (c : ScenarioController) × (run
        (call_prepare_activation (endpoint 7) gap.name none 0
          ∷ call_confirm 1 10
          ∷ call_advance_boundary 4
          ∷ [])
        (new catalog)
      ≡ some c)
    × Inv c
run-new_example =
    run-new catalog
      (call_prepare_activation (endpoint 7) gap.name none 0
        ∷ call_confirm 1 10
        ∷ call_advance_boundary 4
        ∷ [])
      (gap-IsCompiled, tt) (omega arith)

transient-ends_example :
    (c' : ScenarioController) × (e : ScenarioController) × (run
        (call_confirm 1 10 ∷ call_advance_boundary 6 ∷ [])
        at_five
      ≡ some c')
    × (lookup (endpoint 7) c'.active ≡ some running)
    × (handle (call_advance_boundary 7) c' ≡ some e)
    × (lookup (endpoint 7) e.active ≡ none)
unfolding new
transient-ends_example =
    transient-ends (endpoint 7) running 2 7 (call_confirm 1 10 ∷ call_advance_boundary 6 ∷ [])
      at_five at_five-Inv (omega arith)
      (record {
        shown = lookup-here (endpoint 7) running [];
        short = refl;
        lasts = refl;
        not_over = omega arith;
      })
      (tt, (omega arith, tt)) (omega arith)
