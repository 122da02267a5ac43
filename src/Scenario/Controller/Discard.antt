-- ===== src/Scenario/Controller/Discard.antt =====
-- `discard_expired_preparations` and `take_prepared`'s removal in src/scenario.rs.
use c37_118_simulator.Prelude.{
  ℕ, suc, ◌+◌, ◌≤◌, ◌<◌, ◌≡◌, refl, Option, none, some, List, [], ◌∷◌, length, arith,
}
use c37_118_simulator.Prelude.Dict.{Dict, nat_key, lookup}
use c37_118_simulator.Prelude.Dict.Laws.{lookup-remove-none, length-remove_found}
use c37_118_simulator.Scenario.Types.{ScenarioTarget, target_key, max_u64, Instant}
use c37_118_simulator.Scenario.Controller.{
  PreparedScenarioAction, ScenarioController, bind_outcome, bump_revision,
}
use c37_118_simulator.Scenario.Controller.Actions.{
  drop_prepared, expired_tokens, discard_found, discard_tokens, discard_expired_preparations,
}
use c37_118_simulator.Scenario.Controller.Invariant.{Inv, with_revision-Inv, drop_prepared-Inv}
use c37_118_simulator.Scenario.Controller.Post.{Post, Post-bump, Post-weaken}

-- Preparations go, and nothing else changes but the revision.
pub record Discarded (c c' : ScenarioController) : Type 0 where
  pub inv : Inv c'
  pub same_catalog : c'.catalog ≡ c.catalog
  pub same_pending : c'.pending ≡ c.pending
  pub same_active : c'.active ≡ c.active
  pub same_next : c'.next_token ≡ c.next_token
  pub same_index : c'.current_sample_index ≡ c.current_sample_index
  pub still_free :
      (t : ScenarioTarget)
      → lookup t c.prepared_targets ≡ none
      → lookup t c'.prepared_targets ≡ none
  pub room : c'.revision + length c'.prepared ≤ c.revision + length c.prepared
  pub still_gone : (token : ℕ) → lookup token c.prepared ≡ none → lookup token c'.prepared ≡ none

Discarded-refl : (c : ScenarioController) → Inv c → Discarded c c
Discarded-refl c w = record {
  inv = w;
  same_catalog = refl;
  same_pending = refl;
  same_active = refl;
  same_next = refl;
  same_index = refl;
  still_free = λ t h. h;
  room = omega arith;
  still_gone = λ t h. h;
}

dropped-then :
    (token : ℕ) (p : PreparedScenarioAction) (c c' : ScenarioController)
    → Inv c
    → lookup token c.prepared ≡ some p
    → Discarded
        (record (drop_prepared token p c) { revision = (drop_prepared token p c).revision + 1 })
        c'
    → Discarded c c'
unfolding drop_prepared
dropped-then token p c c' w e d = record {
  inv = d.inv;
  same_catalog = d.same_catalog;
  same_pending = d.same_pending;
  same_active = d.same_active;
  same_next = d.same_next;
  same_index = d.same_index;
  still_free =
      λ t h. d.still_free t (lookup-remove-none t p.target c.prepared_targets w.targets_sorted h);
  room = omega (arith, d.room, length-remove_found token c.prepared p e);
  still_gone = λ i h. d.still_gone i (lookup-remove-none i token c.prepared w.prepared_sorted h);
}

-- The controller once `token` is gone and the revision has gone up.
abbrev pub without : ℕ → PreparedScenarioAction → ScenarioController → ScenarioController
without token p c = record (drop_prepared token p c) {
  revision = (drop_prepared token p c).revision + 1;
}

pub revision-drop_prepared :
    (token : ℕ) (p : PreparedScenarioAction) (c : ScenarioController)
    → (drop_prepared token p c).revision ≡ c.revision
unfolding drop_prepared
revision-drop_prepared token p c = refl

pub without-Inv :
    (token : ℕ) (p : PreparedScenarioAction) (c : ScenarioController)
    → Inv c
    → lookup token c.prepared ≡ some p
    → Inv (without token p c)
without-Inv token p c w e =
    with_revision-Inv (drop_prepared token p c) _ (drop_prepared-Inv c token p w e)

discard_rest :
    (token : ℕ) (tokens : List ℕ) (p : PreparedScenarioAction) (c : ScenarioController)
    → Inv c
    → lookup token c.prepared ≡ some p
    → Post
        (λ c' _. Discarded (without token p c) c')
        (λ _. ⊥)
        (max_u64 < (without token p c).revision + length tokens)
        (discard_tokens tokens (without token p c))
    → Post
        (λ c' _. Discarded c c')
        (λ _. ⊥)
        (max_u64 < c.revision + suc (length tokens))
        (bind_outcome (bump_revision (drop_prepared token p c)) (λ _. discard_tokens tokens))
discard_rest token tokens p c w e ih =
    Post-bump (λ c' _. Discarded c c') (λ _. ⊥) (max_u64 < c.revision + suc (length tokens))
      (discard_tokens tokens) (drop_prepared token p c)
      (λ _.
        Post-weaken (λ c' _. Discarded (without token p c) c') (λ _. ⊥)
          (max_u64 < (without token p c).revision + length tokens) (λ c' _. Discarded c c') (λ _. ⊥)
          (max_u64 < c.revision + suc (length tokens)) (discard_tokens tokens (without token p c))
          ih (λ c' a h. dropped-then token p c c' w e h) (λ c' h. h)
          (λ full. omega (arith, revision-drop_prepared token p c, full)))
      (λ full. omega (arith, revision-drop_prepared token p c, full))

discard_turn :
    (token : ℕ) (tokens : List ℕ) (c : ScenarioController) (o : Option PreparedScenarioAction)
    → Inv c
    → lookup token c.prepared ≡ o
    → ((c' : ScenarioController)
        → Inv c'
        → Post
            (λ d _. Discarded c' d)
            (λ _. ⊥)
            (max_u64 < c'.revision + length tokens)
            (discard_tokens tokens c'))
    → Post
        (λ c' _. Discarded c c')
        (λ _. ⊥)
        (max_u64 < c.revision + suc (length tokens))
        (discard_found token (discard_tokens tokens) o c)
unfolding discard_found
discard_turn token tokens c none w e ih =
    Post-weaken (λ c' _. Discarded c c') (λ _. ⊥) (max_u64 < c.revision + length tokens)
      (λ c' _. Discarded c c') (λ _. ⊥) (max_u64 < c.revision + suc (length tokens))
      (discard_tokens tokens c) (ih c w) (λ c' a h. h) (λ c' h. h) (λ full. omega arith)
discard_turn token tokens c (some p) w e ih =
    discard_rest token tokens p c w e (ih (without token p c) (without-Inv token p c w e))

-- The process ends only if the revisions run out.
discard_tokens-Discarded :
    (tokens : List ℕ) (c : ScenarioController)
    → Inv c
    → Post
        (λ c' _. Discarded c c')
        (λ _. ⊥)
        (max_u64 < c.revision + length tokens)
        (discard_tokens tokens c)
unfolding discard_tokens
discard_tokens-Discarded [] c w = Discarded-refl c w
discard_tokens-Discarded (token ∷ tokens) c w =
    discard_turn token tokens c (lookup token c.prepared) w refl
      (λ c' w'. discard_tokens-Discarded tokens c' w')

length-expired_tokens :
    (now : Instant) (m : Dict ℕ PreparedScenarioAction) → length (expired_tokens now m) ≤ length m
unfolding expired_tokens
length-expired_tokens now [] = omega arith
length-expired_tokens now ((token, p) ∷ m) = ground (arith, length-expired_tokens now m)

pub discard-Discarded :
    (now : Instant) (c : ScenarioController)
    → Inv c
    → Post
        (λ c' _. Discarded c c')
        (λ _. ⊥)
        (max_u64 < c.revision + length c.prepared)
        (discard_expired_preparations now c)
unfolding discard_expired_preparations
discard-Discarded now c w =
    Post-weaken (λ c' _. Discarded c c') (λ _. ⊥)
      (max_u64 < c.revision + length (expired_tokens now c.prepared)) (λ c' _. Discarded c c')
      (λ _. ⊥) (max_u64 < c.revision + length c.prepared)
      (discard_tokens (expired_tokens now c.prepared) c)
      (discard_tokens-Discarded (expired_tokens now c.prepared) c w) (λ c' a h. h) (λ c' h. h)
      (λ full. omega (arith, length-expired_tokens now c.prepared))
