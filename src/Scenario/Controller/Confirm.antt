-- ===== src/Scenario/Controller/Confirm.antt =====
-- The steps of `confirm` and `cancel` in src/scenario.rs, one by one.
use c37_118_simulator.Prelude.{
  ℕ, not, ◌||◌, ◌+◌, ◌≤◌, ◌<◌, ◌≡◌, refl, sym, ap, ◌∙◌, ◌≢◌, ◌⊎◌, none-ne-some, none, some, length,
  arith, inl, inr, lt→ltb, subst,
}
use c37_118_simulator.Prelude.Dict.{Dict, nat_key, lookup, insert, Sorted-insert, contains_key}
use c37_118_simulator.Prelude.Dict.Laws.{
  lookup-insert-some, lookup-remove_self, lookup-insert_ne, length-remove_found, contains_key-none,
}
use c37_118_simulator.Scenario.Types.{
  ScenarioTarget, target_key, max_u64, Instant, ScenarioDefinition,
}
use c37_118_simulator.Scenario.Controller.{
  PreparedScenarioAction, PendingScenarioAction, ActiveScenarioAction, StoredScenarioAction,
  activate, clear, ScenarioController, done, failed, bind_outcome, bump_revision, guard,
  target_busy, unknown_token,
}
use c37_118_simulator.Scenario.Controller.Actions.{
  drop_prepared, discard_expired_preparations, take_prepared, check_confirm, check_clear,
  action_snapshot, PendingScenarioSnapshot,
}
use c37_118_simulator.Scenario.Controller.Invariant.{
  Inv, Free, Kept, Admissible, activates, clears, drop_prepared-Free,
}
use c37_118_simulator.Scenario.Controller.Post.{Post-weaken, Post-returns}
use c37_118_simulator.Scenario.Controller.Discard.{
  Discarded, discard-Discarded, without, without-Inv, revision-drop_prepared,
}

pub bump_revision_lem :
    (c : ScenarioController)
    → c.revision < max_u64
    → bump_revision c ≡ done (record c { revision = c.revision + 1 }) tt
unfolding bump_revision
bump_revision_lem c h = rw (lt→ltb c.revision max_u64 h) refl

pub take_prepared-known :
    (c : ScenarioController) (token : ℕ) (p : PreparedScenarioAction)
    → lookup token c.prepared ≡ some p
    → c.revision < max_u64
    → take_prepared token c ≡ done (without token p c) p
unfolding take_prepared
take_prepared-known c token p e room =
    rw
      (
        e,
        bump_revision_lem (drop_prepared token p c)
            (omega (arith, revision-drop_prepared token p c, room)),
      )
      refl

pub take_prepared-unknown :
    (c : ScenarioController) (token : ℕ)
    → lookup token c.prepared ≡ none
    → take_prepared token c ≡ failed c (unknown_token token)
unfolding take_prepared
take_prepared-unknown c token e = rw (e) refl

-- Expired preparations that go leave a free target free.
pub Discarded-Free :
    (c c' : ScenarioController) (t : ScenarioTarget) (a : StoredScenarioAction)
    → Discarded c c'
    → Free c t a
    → Free c' t a
Discarded-Free c c' t a d f = record {
  not_prepared = d.still_free t f.not_prepared;
  not_pending = ap (lookup t) d.same_pending ∙ f.not_pending;
  admissible = subst (λ m. Admissible m t a) (sym d.same_active) f.admissible;
}

check_clear_lem :
    (c : ScenarioController) (t : ScenarioTarget)
    → Admissible c.active t clear
    → check_clear t c ≡ done c tt
unfolding check_clear
check_clear_lem c t (clears a e s) = rw (e, s) refl

Admissible-idle :
    (active : Dict ScenarioTarget ActiveScenarioAction) (t : ScenarioTarget)
    (s : ScenarioDefinition)
    → Admissible active t (activate s)
    → lookup t active ≡ none
Admissible-idle active t s (activates s' k e) = e

pub check_confirm_lem :
    (c : ScenarioController) (t : ScenarioTarget) (a : StoredScenarioAction)
    → Free c t a
    → check_confirm t a c ≡ done c tt
unfolding check_confirm
check_confirm_lem c t clear f =
    ap (λ b. bind_outcome (guard (not b) (target_busy t) c) (λ _. check_clear t))
      (contains_key-none t c.pending f.not_pending)
    ∙ check_clear_lem c t f.admissible
check_confirm_lem c t (activate s) f =
    ap (λ b. guard (not (b || contains_key t c.active)) (target_busy t) c)
      (contains_key-none t c.pending f.not_pending)
    ∙ ap (λ b. guard (not b) (target_busy t) c)
        (contains_key-none t c.active (Admissible-idle c.active t s f.admissible))

pub without-Free :
    (token : ℕ) (p : PreparedScenarioAction) (c : ScenarioController)
    → Inv c
    → lookup token c.prepared ≡ some p
    → Free (without token p c) p.target p.action
without-Free token p c w e =
    let f = drop_prepared-Free c token p w e in
    record { not_prepared = f.not_prepared; not_pending = f.not_pending; admissible = f.admissible }

pub length-without :
    (token : ℕ) (p : PreparedScenarioAction) (c : ScenarioController)
    → lookup token c.prepared ≡ some p
    → (without token p c).revision + length (without token p c).prepared
      ≡ c.revision + length c.prepared
unfolding drop_prepared
length-without token p c e = omega (arith, length-remove_found token c.prepared p e)

pub spent_without :
    (token : ℕ) (p : PreparedScenarioAction) (c : ScenarioController)
    → Inv c
    → lookup token (without token p c).prepared ≡ none
unfolding drop_prepared
spent_without token p c w = lookup-remove_self token c.prepared w.prepared_sorted

-- What is left to do once a live token has been taken.
pub discard_after :
    (token : ℕ) (now : Instant) (p : PreparedScenarioAction) (c : ScenarioController)
    → Inv c
    → lookup token c.prepared ≡ some p
    → c.revision + length c.prepared ≤ max_u64
    → (c' : ScenarioController) × (a : Unit {0}) × (discard_expired_preparations now
          (without token p c)
        ≡ done c' a)
      × Discarded (without token p c) c'
discard_after token now p c w e room =
    Post-returns (λ c' _. Discarded (without token p c) c')
      (discard_expired_preparations now (without token p c))
      (Post-weaken (λ c' _. Discarded (without token p c) c') (λ _. ⊥)
        (max_u64 < (without token p c).revision + length (without token p c).prepared)
        (λ c' _. Discarded (without token p c) c') (λ _. ⊥) ⊥
        (discard_expired_preparations now (without token p c))
        (discard-Discarded now (without token p c) (without-Inv token p c w e)) (λ c' a h. h)
        (λ c' h. h) (λ full. omega (arith, length-without token p c e, room, full)))

pub revision_room :
    (token : ℕ) (p : PreparedScenarioAction) (c : ScenarioController)
    → lookup token c.prepared ≡ some p
    → c.revision + length c.prepared ≤ max_u64
    → c.revision < max_u64
revision_room token p c e room = omega (arith, length-remove_found token c.prepared p e, room)

-- The pending record that `confirm` writes.
abbrev pub queued : PreparedScenarioAction → PendingScenarioAction
queued p = record { action = p.action; actor_label = p.actor_label }

abbrev pub queued_snapshot : PreparedScenarioAction → PendingScenarioSnapshot
queued_snapshot p = record {
  target = p.target;
  action = action_snapshot p.action;
  actor_label = p.actor_label;
}

abbrev pub queue_in : PreparedScenarioAction → ScenarioController → ScenarioController
queue_in p c = record c { pending = insert p.target (queued p) c.pending }

-- Queueing an action for a free target keeps the invariant.
pub queue_in-Inv :
    (p : PreparedScenarioAction) (c : ScenarioController)
    → Inv c
    → Free c p.target p.action
    → Inv (queue_in p c)
queue_in-Inv p c w f = record {
  catalog_compiled = w.catalog_compiled;
  prepared_sorted = w.prepared_sorted;
  targets_sorted = w.targets_sorted;
  pending_sorted = Sorted-insert p.target (queued p) c.pending w.pending_sorted;
  active_sorted = w.active_sorted;
  prepared_kept = λ token o e. kept token o (w.prepared_kept token o e);
  target_held = w.target_held;
  pending_apt = λ t q e. pending t q (lookup-insert-some t p.target (queued p) q c.pending e);
  active_compiled = w.active_compiled;
}
  where
    kept : (token : ℕ) (o : PreparedScenarioAction) → Kept c token o → Kept (queue_in p c) token o
    kept token o k = record {
      issued = k.issued;
      indexed = k.indexed;
      alone =
          lookup-insert_ne o.target p.target (queued p) c.pending (λ same.
            none-ne-some
              (sym f.not_prepared ∙ ap (λ t. lookup t c.prepared_targets) (sym same) ∙ k.indexed))
          ∙ k.alone;
      apt = k.apt;
    }

    pending :
        (t : ScenarioTarget) (q : PendingScenarioAction)
        → ((t ≡ p.target) × (queued p ≡ q)) ⊎ ((t ≢ p.target) × (lookup t c.pending ≡ some q))
        → Admissible c.active t q.action
    pending t q (inl (here, same)) =
        subst (λ u. Admissible c.active u q.action) (sym here)
          (subst (λ (x : PendingScenarioAction). Admissible c.active p.target x.action) same
            f.admissible)
    pending t q (inr (ne, old)) = w.pending_apt t q old
