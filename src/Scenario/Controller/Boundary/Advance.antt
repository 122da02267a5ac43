-- ===== src/Scenario/Controller/Boundary/Advance.antt =====
-- `advance_boundary` of src/scenario.rs as a whole.
use c37_118_simulator.Prelude.{
  ℕ, ◌+◌, ◌≤◌, ◌<◌, ◌≡◌, refl, sym, ap, ◌∙◌, Bool, true, false, not, ◌||◌, Option, none, some, [],
  length, All, arith, lt→ltb, ltb-eq-false, subst, some_inj, none-ne-some, ◌==◌,
}
use c37_118_simulator.Prelude.Dict.{Dict, nat_key, lookup, Sorted}
use c37_118_simulator.Prelude.Dict.Laws.{lookup-nil}
use c37_118_simulator.Scenario.Types.{
  ScenarioTarget, target_key, max_u64, sustained, ScenarioCatalog,
}
use c37_118_simulator.Scenario.Catalog.Compiled.{IsCompiled}
use c37_118_simulator.Scenario.Controller.{
  StoredScenarioAction, activate, clear, PreparedScenarioAction, PendingScenarioAction,
  ActiveScenarioAction, ScenarioController, done, failed, non_monotonic_boundary, bind_outcome,
}
use c37_118_simulator.Scenario.Controller.Invariant.{Inv, Kept, Admissible, activates, clears}
use c37_118_simulator.Scenario.Controller.Confirm.{bump_revision_lem}
use c37_118_simulator.Scenario.Controller.Boundary.{
  is_retained, activated, apply_pending, check_boundary, take_pending, bump_if, settle,
  advance_boundary, expire_transient_actions, with_active,
}
use c37_118_simulator.Scenario.Controller.Boundary.Window.{sustained_window}
use c37_118_simulator.Scenario.Controller.Boundary.Active.{
  after_pending, survivor, kept_as, Sorted-apply_pending, lookup-apply_pending, AllCompiled,
  retain_active-Retained,
}

-- The boundary `i` comes after the one that the controller is at.
abbrev pub Later : Option ℕ → ℕ → Type 0
Later none i = Unit {0}
Later (some previous) i = previous < i

-- What `advance_boundary` leaves: each target has what was pending for it, less what has expired.
pub record Advanced (i : ℕ) (c c' : ScenarioController) : Type 0 where
  pub each :
      (t : ScenarioTarget)
      → lookup t c'.active ≡ survivor i (after_pending i (lookup t c.pending) (lookup t c.active))
  pub ordered : Sorted c'.active
  pub none_pending : c'.pending ≡ []
  pub at_boundary : c'.current_sample_index ≡ some i
  pub same_prepared : c'.prepared ≡ c.prepared
  pub same_targets : c'.prepared_targets ≡ c.prepared_targets
  pub same_catalog : c'.catalog ≡ c.catalog
  pub same_next : c'.next_token ≡ c.next_token
  pub room : c'.revision ≤ c.revision + 1

after_pending-IsCompiled :
    (i : ℕ) (t : ScenarioTarget) (o : Option PendingScenarioAction)
    (active : Dict ScenarioTarget ActiveScenarioAction) (a : ActiveScenarioAction)
    → ((q : PendingScenarioAction) → o ≡ some q → Admissible active t q.action)
    → ((b : ActiveScenarioAction) → lookup t active ≡ some b → IsCompiled b.scenario)
    → after_pending i o (lookup t active) ≡ some a
    → IsCompiled a.scenario
after_pending-IsCompiled i t none active a apt old e = old a e
after_pending-IsCompiled i t (some q) active a apt old e = go q.action (apt q refl) e
  where
    go :
        (x : StoredScenarioAction)
        → Admissible active t x
        → activated q i x ≡ some a
        → IsCompiled a.scenario
    go (activate s) (activates s' k idle) e' =
        subst (λ (b : ActiveScenarioAction). IsCompiled b.scenario) (some_inj e') k
    go clear k e' = absurd (none-ne-some e')

applied-AllCompiled :
    (i : ℕ) (c : ScenarioController) → Inv c → AllCompiled (apply_pending i c.pending c.active)
applied-AllCompiled i c w t a e =
    after_pending-IsCompiled i t (lookup t c.pending) c.active a (λ q h. w.pending_apt t q h)
      (λ b h. w.active_compiled t b h)
      (sym (lookup-apply_pending t i c.pending c.active w.pending_sorted w.active_sorted) ∙ e)

survivor-some :
    (i : ℕ) (o : Option ActiveScenarioAction) (a : ActiveScenarioAction)
    → survivor i o ≡ some a
    → o ≡ some a
survivor-some i none a e = e
survivor-some i (some b) a e = go (is_retained b i) e
  where
    go : (r : Option Bool) → kept_as (some b) r ≡ some a → some b ≡ some a
    go none e' = absurd (none-ne-some e')
    go (some true) e' = e'
    go (some false) e' = absurd (none-ne-some e')

survivor_sustained :
    (i : ℕ) (a : ActiveScenarioAction)
    → a.scenario.lifecycle ≡ sustained
    → survivor i (some a) ≡ some a
survivor_sustained i a e = ap (kept_as (some a)) (sustained_window a i e).0

bump_if_lem :
    (b : Bool) (c : ScenarioController)
    → c.revision < max_u64
    → (c' : ScenarioController) × (r : ℕ) × (bump_if b c ≡ done c' tt)
      × (c' ≡ record c { revision = r })
      × (r ≤ c.revision + 1)
bump_if_lem true c room = (_, c.revision + 1, bump_revision_lem c room, refl, omega arith)
bump_if_lem false c room = (c, c.revision, refl, refl, omega arith)

check_boundary_lem :
    (o : Option ℕ) (i : ℕ) (c : ScenarioController) → Later o i → check_boundary o i c ≡ done c tt
unfolding check_boundary
check_boundary_lem none i c h = refl
check_boundary_lem (some previous) i c h = rw (lt→ltb previous i h) refl

-- The invariant across a boundary.
module _ (i : ℕ) (c c' : ScenarioController) (w : Inv c) (d : Advanced i c c') where
  carried :
      (t : ScenarioTarget) (x : StoredScenarioAction)
      → lookup t c.pending ≡ none
      → Admissible c.active t x
      → Admissible c'.active t x
  carried t (activate s) alone (activates s' k e) = activates s k (
      d.each t
      ∙ ap (λ o. survivor i (after_pending i o (lookup t c.active))) alone
      ∙ ap (survivor i) e)
  carried t clear alone (clears a e l) =
      clears a
        (d.each t
          ∙ ap (λ o. survivor i (after_pending i o (lookup t c.active))) alone
          ∙ ap (survivor i) e
          ∙ survivor_sustained i a l)
        l

  Kept-across : (token : ℕ) (p : PreparedScenarioAction) → Kept c token p → Kept c' token p
  Kept-across token p k = record {
    issued = subst (λ n. token < n) (sym d.same_next) k.issued;
    indexed = ap (lookup p.target) d.same_targets ∙ k.indexed;
    alone = ap (lookup p.target) d.none_pending ∙ lookup-nil p.target;
    apt = carried p.target p.action k.alone k.apt;
  }

  held_across :
      (t : ScenarioTarget) (token : ℕ)
      → (p : PreparedScenarioAction) × (lookup token c.prepared ≡ some p) × (p.target ≡ t)
      → (p : PreparedScenarioAction) × (lookup token c'.prepared ≡ some p) × (p.target ≡ t)
  held_across t token (p, e, same) = (p, ap (lookup token) d.same_prepared ∙ e, same)

  Advanced-Inv : Inv c'
  Advanced-Inv = record {
    catalog_compiled =
        subst (λ (x : ScenarioCatalog). All IsCompiled x.scenarios) (sym d.same_catalog)
          w.catalog_compiled;
    prepared_sorted = subst Sorted (sym d.same_prepared) w.prepared_sorted;
    targets_sorted = subst Sorted (sym d.same_targets) w.targets_sorted;
    pending_sorted = subst Sorted (sym d.none_pending) tt;
    active_sorted = d.ordered;
    prepared_kept = λ token p e.
        Kept-across token p (w.prepared_kept token p (ap (lookup token) (sym d.same_prepared) ∙ e));
    target_held = λ t token e.
        held_across t token (w.target_held t token (ap (lookup t) (sym d.same_targets) ∙ e));
    pending_apt =
        λ t q e. absurd (none-ne-some (sym (ap (lookup t) d.none_pending ∙ lookup-nil t) ∙ e));
    active_compiled = λ t a e.
        after_pending-IsCompiled i t (lookup t c.pending) c.active a (λ q h. w.pending_apt t q h)
          (λ b h. w.active_compiled t b h)
          (survivor-some i (after_pending i (lookup t c.pending) (lookup t c.active)) a
            (sym (d.each t) ∙ e));
  }

settle_lem :
    (i : ℕ) (b : Bool) (c : ScenarioController)
    → Inv c
    → c.revision < max_u64
    → (c' : ScenarioController) × (settle i b (take_pending i c) ≡ done c' tt) × Advanced i c c'
unfolding settle expire_transient_actions
settle_lem i b c w room =
    let (m, r) =
      retain_active-Retained i (apply_pending i c.pending c.active)
        (Sorted-apply_pending i c.pending c.active w.active_sorted) (applied-AllCompiled i c w) in
    let (c', rev, ran, same, step) =
      bump_if_lem (b || not (length m == length (apply_pending i c.pending c.active)))
        (record (take_pending i c) { active = m }) room in
    (
      c',
      ap
            (λ o. bind_outcome (with_active o (take_pending i c)) (λ _ d.
              bump_if (b || not (length d.active == length (apply_pending i c.pending c.active)))
                d))
            r.ran
          ∙ ran,
      subst (Advanced i c) (sym same) (record {
        each = λ t.
            r.each t
            ∙ ap (survivor i)
                (lookup-apply_pending t i c.pending c.active w.pending_sorted w.active_sorted);
        ordered = r.ordered;
        none_pending = refl;
        at_boundary = refl;
        same_prepared = refl;
        same_targets = refl;
        same_catalog = refl;
        same_next = refl;
        room = step;
      }),
    )

pub advance_boundary_succeeds :
    (i : ℕ) (c : ScenarioController)
    → Inv c
    → Later c.current_sample_index i
    → c.revision < max_u64
    → (c' : ScenarioController) × (advance_boundary i c ≡ done c' tt) × Advanced i c c' × Inv c'
unfolding advance_boundary
advance_boundary_succeeds i c w later room =
    let (c', ran, d) = settle_lem i (not (length c.pending == 0)) c w room in
    (c', rw (check_boundary_lem c.current_sample_index i c later) ran, d, Advanced-Inv i c c' w d)

-- A boundary that is not after the current one is refused, and the controller stays as it is.
pub advance_boundary_refuses :
    (i previous : ℕ) (c : ScenarioController)
    → c.current_sample_index ≡ some previous
    → i ≤ previous
    → advance_boundary i c ≡ failed c (non_monotonic_boundary previous i)
unfolding advance_boundary check_boundary
advance_boundary_refuses i previous c e h =
    ap
      (λ o.
        bind_outcome (check_boundary o i c)
          (λ _ c'. settle i (not (length c'.pending == 0)) (take_pending i c')))
      e
    ∙ rw (ltb-eq-false previous i h) refl
