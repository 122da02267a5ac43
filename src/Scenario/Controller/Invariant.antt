-- ===== src/Scenario/Controller/Invariant.antt =====
-- The invariant of `ScenarioController` in src/scenario.rs, and the writes that keep it.
use c37_118_simulator.Prelude.{
  ℕ, ◌+◌, ◌<◌, ◌≡◌, ◌≢◌, sym, ap, ◌∙◌, none, some, All, arith, inl, inr, some_inj, none-ne-some,
  subst,
}
use c37_118_simulator.Prelude.Dict.{
  Dict, nat_key, lookup, insert, Sorted, Sorted-insert, Sorted-remove,
}
use c37_118_simulator.Prelude.Dict.Laws.{
  lookup-insert_self, lookup-insert_ne, lookup-insert-some, lookup-remove_self, lookup-remove_ne,
  lookup-remove-some, lookup-nil,
}
use c37_118_simulator.Scenario.Types.{
  sustained, ScenarioDefinition, ScenarioCatalog, ScenarioTarget, target_key,
}
use c37_118_simulator.Scenario.Catalog.Compiled.{IsCompiled}
use c37_118_simulator.Scenario.Controller.{
  StoredScenarioAction, activate, clear, PreparedScenarioAction, PendingScenarioAction,
  ActiveScenarioAction, ScenarioController, new,
}
use c37_118_simulator.Scenario.Controller.Actions.{drop_prepared, add_prepared}

-- What holds of an action that is prepared or pending for a target: nothing is active where it
-- would activate, and a sustained scenario is active where it would clear.
pub data Admissible (active : Dict ScenarioTarget ActiveScenarioAction) (t : ScenarioTarget)
    : StoredScenarioAction → Type 0 where
  activates :
      (s : ScenarioDefinition)
      → IsCompiled s
      → lookup t active ≡ none
      → Admissible active t (activate s)
  clears :
      (a : ActiveScenarioAction)
      → lookup t active ≡ some a
      → a.scenario.lifecycle ≡ sustained
      → Admissible active t clear

-- A prepared action that neither map knows could be put back.
pub record Free (c : ScenarioController) (t : ScenarioTarget) (a : StoredScenarioAction)
    : Type 0 where
  pub not_prepared : lookup t c.prepared_targets ≡ none
  pub not_pending : lookup t c.pending ≡ none
  pub admissible : Admissible c.active t a

pub record Kept (c : ScenarioController) (token : ℕ) (p : PreparedScenarioAction) : Type 0 where
  pub issued : token < c.next_token
  pub indexed : lookup p.target c.prepared_targets ≡ some token
  pub alone : lookup p.target c.pending ≡ none
  pub apt : Admissible c.active p.target p.action

pub record Inv (c : ScenarioController) : Type 0 where
  pub catalog_compiled : All IsCompiled c.catalog.scenarios
  pub prepared_sorted : Sorted c.prepared
  pub targets_sorted : Sorted c.prepared_targets
  pub pending_sorted : Sorted c.pending
  pub active_sorted : Sorted c.active
  pub prepared_kept :
      (token : ℕ) (p : PreparedScenarioAction) → lookup token c.prepared ≡ some p → Kept c token p
  pub target_held :
      (t : ScenarioTarget) (token : ℕ)
      → lookup t c.prepared_targets ≡ some token
      → (p : PreparedScenarioAction) × (lookup token c.prepared ≡ some p) × (p.target ≡ t)
  pub pending_apt :
      (t : ScenarioTarget) (q : PendingScenarioAction)
      → lookup t c.pending ≡ some q
      → Admissible c.active t q.action
  pub active_compiled :
      (t : ScenarioTarget) (a : ActiveScenarioAction)
      → lookup t c.active ≡ some a
      → IsCompiled a.scenario

pub with_revision-Inv : (c : ScenarioController) (r : ℕ) → Inv c → Inv (record c { revision = r })
with_revision-Inv c r w = record {
  catalog_compiled = w.catalog_compiled;
  prepared_sorted = w.prepared_sorted;
  targets_sorted = w.targets_sorted;
  pending_sorted = w.pending_sorted;
  active_sorted = w.active_sorted;
  prepared_kept = λ token p e.
      let k = w.prepared_kept token p e in
      record { issued = k.issued; indexed = k.indexed; alone = k.alone; apt = k.apt };
  target_held = w.target_held;
  pending_apt = w.pending_apt;
  active_compiled = w.active_compiled;
}

-- Taking one prepared action out keeps the invariant and frees its target.
module _ (c : ScenarioController) (token : ℕ) (p : PreparedScenarioAction) (w : Inv c)
    (e : lookup token c.prepared ≡ some p) where
  dropped-Kept :
      (token' : ℕ) (p' : PreparedScenarioAction)
      → lookup token' (drop_prepared token p c).prepared ≡ some p'
      → Kept (drop_prepared token p c) token' p'
  unfolding drop_prepared
  dropped-Kept token' p' e' =
      let (other, e₁) = lookup-remove-some token' token p' c.prepared w.prepared_sorted e' in
      let k = w.prepared_kept token' p' e₁ in
      let apart : p'.target ≢ p.target = λ same. other (
        some_inj (
          sym k.indexed
          ∙ ap (λ t. lookup t c.prepared_targets) same
          ∙ (w.prepared_kept token p e).indexed)) in
      record {
        issued = k.issued;
        indexed =
            lookup-remove_ne p'.target p.target c.prepared_targets w.targets_sorted apart
            ∙ k.indexed;
        alone = k.alone;
        apt = k.apt;
      }

  dropped_held :
      (t : ScenarioTarget) (token' : ℕ)
      → lookup t (drop_prepared token p c).prepared_targets ≡ some token'
      → (p' : PreparedScenarioAction) × (lookup token' (drop_prepared token p c).prepared ≡ some p')
        × (p'.target ≡ t)
  unfolding drop_prepared
  dropped_held t token' e' =
      let (other, e₁) =
        lookup-remove-some t p.target token' c.prepared_targets w.targets_sorted e' in
      let (p', e₂, same) = w.target_held t token' e₁ in
      let apart : token' ≢ token = λ eq. other (
        sym same
        ∙ ap (λ (x : PreparedScenarioAction). x.target)
            (some_inj (sym e₂ ∙ ap (λ i. lookup i c.prepared) eq ∙ e))) in
      (p', lookup-remove_ne token' token c.prepared w.prepared_sorted apart ∙ e₂, same)

  pub drop_prepared-Inv : Inv (drop_prepared token p c)
  unfolding drop_prepared
  drop_prepared-Inv = record {
    catalog_compiled = w.catalog_compiled;
    prepared_sorted = Sorted-remove token c.prepared w.prepared_sorted;
    targets_sorted = Sorted-remove p.target c.prepared_targets w.targets_sorted;
    pending_sorted = w.pending_sorted;
    active_sorted = w.active_sorted;
    prepared_kept = dropped-Kept;
    target_held = dropped_held;
    pending_apt = w.pending_apt;
    active_compiled = w.active_compiled;
  }

  pub drop_prepared-Free : Free (drop_prepared token p c) p.target p.action
  unfolding drop_prepared
  drop_prepared-Free =
      let k = w.prepared_kept token p e in
      record {
        not_prepared = lookup-remove_self p.target c.prepared_targets w.targets_sorted;
        not_pending = k.alone;
        admissible = k.apt;
      }

-- Preparing an action under the next token.
module _ (c : ScenarioController) (p : PreparedScenarioAction) (w : Inv c)
    (free : Free c p.target p.action) where
  added-Kept :
      (token : ℕ) (q : PreparedScenarioAction)
      → lookup token (add_prepared (c.next_token + 1) p c).prepared ≡ some q
      → Kept (add_prepared (c.next_token + 1) p c) token q
  unfolding add_prepared
  added-Kept token q e = elim (lookup-insert-some token c.next_token p q c.prepared e) [
    | inl (new, same) ↦
        subst (λ i. Kept (add_prepared (c.next_token + 1) p c) i q) (sym new)
          (subst (Kept (add_prepared (c.next_token + 1) p c) c.next_token) same (record {
            issued = omega arith;
            indexed = lookup-insert_self p.target c.next_token c.prepared_targets;
            alone = free.not_pending;
            apt = free.admissible;
          }))
    | inr (other, old) ↦ old_kept token q (w.prepared_kept token q old)
  ]
    where
      old_kept :
          (i : ℕ) (o : PreparedScenarioAction)
          → Kept c i o
          → Kept (add_prepared (c.next_token + 1) p c) i o
      old_kept i o k = record {
        issued = omega (arith, k.issued);
        indexed =
            lookup-insert_ne o.target p.target c.next_token c.prepared_targets (apart i o k)
            ∙ k.indexed;
        alone = k.alone;
        apt = k.apt;
      }
        where
          apart : (i : ℕ) (o : PreparedScenarioAction) → Kept c i o → o.target ≢ p.target
          apart i o k same =
              none-ne-some (
                sym free.not_prepared
                ∙ ap (λ t. lookup t c.prepared_targets) (sym same)
                ∙ k.indexed)

  added_held :
      (t : ScenarioTarget) (token : ℕ)
      → lookup t (add_prepared (c.next_token + 1) p c).prepared_targets ≡ some token
      → (q : PreparedScenarioAction) × (lookup token (add_prepared (c.next_token + 1) p c).prepared
          ≡ some q)
        × (q.target ≡ t)
  unfolding add_prepared
  added_held t token e =
      elim (lookup-insert-some t p.target c.next_token token c.prepared_targets e) [
        | inl (same, new) ↦ (
          p,
          ap (λ i. lookup i (insert c.next_token p c.prepared)) (sym new)
              ∙ lookup-insert_self c.next_token p c.prepared,
          sym same,
        )
        | inr (other, old) ↦ old_held (w.target_held t token old)
      ]
    where
      old_held :
          (q : PreparedScenarioAction) × (lookup token c.prepared ≡ some q) × (q.target ≡ t)
          → (q : PreparedScenarioAction) × (lookup token (insert c.next_token p c.prepared)
              ≡ some q)
            × (q.target ≡ t)
      old_held (q, e₁, same) =
          (q, lookup-insert_ne token c.next_token p c.prepared older ∙ e₁, same)
        where
          older : token ≢ c.next_token
          older eq = absurd (omega (arith, (w.prepared_kept token q e₁).issued))

  pub add_prepared-Inv : Inv (add_prepared (c.next_token + 1) p c)
  unfolding add_prepared
  add_prepared-Inv = record {
    catalog_compiled = w.catalog_compiled;
    prepared_sorted = Sorted-insert c.next_token p c.prepared w.prepared_sorted;
    targets_sorted = Sorted-insert p.target c.next_token c.prepared_targets w.targets_sorted;
    pending_sorted = w.pending_sorted;
    active_sorted = w.active_sorted;
    prepared_kept = added-Kept;
    target_held = added_held;
    pending_apt = w.pending_apt;
    active_compiled = w.active_compiled;
  }

-- A new controller over a compiled catalog keeps the invariant.
pub new-Inv : (catalog : ScenarioCatalog) → All IsCompiled catalog.scenarios → Inv (new catalog)
unfolding new
new-Inv catalog all = record {
  catalog_compiled = all;
  prepared_sorted = tt;
  targets_sorted = tt;
  pending_sorted = tt;
  active_sorted = tt;
  prepared_kept = λ token p e. absurd (none-ne-some (sym (lookup-nil token) ∙ e));
  target_held = λ t token e. absurd (none-ne-some (sym (lookup-nil t) ∙ e));
  pending_apt = λ t q e. absurd (none-ne-some (sym (lookup-nil t) ∙ e));
  active_compiled = λ t a e. absurd (none-ne-some (sym (lookup-nil t) ∙ e));
}
