-- ===== src/Scenario/Controller/Boundary/Active.antt =====
-- The map of active scenarios of src/scenario.rs across a boundary, one target at a time.
use c37_118_simulator.Prelude.{
  ℕ, ◌≡◌, ◌≢◌, refl, sym, ap, ◌∙◌, Bool, true, false, Option, none, some, [], ◌∷◌, inl, inr,
  none-ne-some, subst,
}
use c37_118_simulator.Prelude.Dict.{
  Dict, lookup, Sorted, After, Sorted-insert, Sorted-remove, lookup-After,
}
use c37_118_simulator.Prelude.Dict.Laws.{
  Key-cases, lookup-insert_self, lookup-insert_ne, lookup-remove_self, lookup-remove_ne,
  lookup-here, lookup-there, lookup-nil,
}
use c37_118_simulator.Scenario.Types.{ScenarioTarget, target_key}
use c37_118_simulator.Scenario.Catalog.Compiled.{IsCompiled}
use c37_118_simulator.Scenario.Controller.{PendingScenarioAction, ActiveScenarioAction}
use c37_118_simulator.Scenario.Controller.Boundary.{
  is_retained, retain_active, activated, write, apply_pending,
}
use c37_118_simulator.Scenario.Controller.Boundary.Window.{is_retained-IsCompiled}

abbrev ActiveMap : Type 0
ActiveMap = Dict ScenarioTarget ActiveScenarioAction

-- What is active for a target once what is pending for it is applied at the boundary `i`.
abbrev pub after_pending :
    ℕ → Option PendingScenarioAction → Option ActiveScenarioAction → Option ActiveScenarioAction
after_pending i none a = a
after_pending i (some q) a = activated q i q.action

lookup-write_self :
    (t : ScenarioTarget) (o : Option ActiveScenarioAction) (m : ActiveMap)
    → Sorted m
    → lookup t (write t o m) ≡ o
lookup-write_self t none m s = lookup-remove_self t m s
lookup-write_self t (some a) m s = lookup-insert_self t a m

lookup-write_ne :
    (t u : ScenarioTarget) (o : Option ActiveScenarioAction) (m : ActiveMap)
    → Sorted m
    → t ≢ u
    → lookup t (write u o m) ≡ lookup t m
lookup-write_ne t u none m s ne = lookup-remove_ne t u m s ne
lookup-write_ne t u (some a) m s ne = lookup-insert_ne t u a m ne

Sorted-write :
    (t : ScenarioTarget) (o : Option ActiveScenarioAction) (m : ActiveMap)
    → Sorted m
    → Sorted (write t o m)
Sorted-write t none m s = Sorted-remove t m s
Sorted-write t (some a) m s = Sorted-insert t a m s

pub Sorted-apply_pending :
    (i : ℕ) (pending : Dict ScenarioTarget PendingScenarioAction) (m : ActiveMap)
    → Sorted m
    → Sorted (apply_pending i pending m)
unfolding apply_pending
Sorted-apply_pending i [] m s = s
Sorted-apply_pending i ((t, q) ∷ pending) m s =
    Sorted-apply_pending i pending (write t (activated q i q.action) m)
      (Sorted-write t (activated q i q.action) m s)

pub lookup-apply_pending :
    (t : ScenarioTarget) (i : ℕ) (pending : Dict ScenarioTarget PendingScenarioAction)
    (m : ActiveMap)
    → Sorted pending
    → Sorted m
    → lookup t (apply_pending i pending m) ≡ after_pending i (lookup t pending) (lookup t m)
unfolding apply_pending
lookup-apply_pending t i [] m sp s = ap (λ o. after_pending i o (lookup t m)) (sym (lookup-nil t))
lookup-apply_pending t i ((u, q) ∷ pending) m sp s = elim (Key-cases t u) [
  | inl same ↦
      lookup-apply_pending t i pending (write u (activated q i q.action) m) sp.1
        (Sorted-write u (activated q i q.action) m s)
      ∙ subst
          (λ v.
            after_pending i (lookup v pending) (lookup v (write u (activated q i q.action) m))
            ≡ after_pending i (lookup v ((u, q) ∷ pending)) (lookup v m))
          (sym same)
          (rw
            (
              lookup-After u pending sp.0,
              lookup-here u q pending,
              lookup-write_self u (activated q i q.action) m s,
            )
            refl)
  | inr ne ↦
      lookup-apply_pending t i pending (write u (activated q i q.action) m) sp.1
        (Sorted-write u (activated q i q.action) m s)
      ∙ rw (lookup-write_ne t u (activated q i q.action) m s ne, lookup-there t u q pending ne) refl
]

-- What is left of an active scenario after `retain`.
abbrev pub kept_as : Option ActiveScenarioAction → Option Bool → Option ActiveScenarioAction
kept_as o none = none
kept_as o (some true) = o
kept_as o (some false) = none

abbrev pub survivor : ℕ → Option ActiveScenarioAction → Option ActiveScenarioAction
survivor i none = none
survivor i (some a) = kept_as (some a) (is_retained a i)

-- The result of `retain`: it succeeds, and each target has what survives of it.
pub record Retained (i : ℕ) (m m' : ActiveMap) : Type 0 where
  pub ran : retain_active i m ≡ some m'
  pub ordered : Sorted m'
  pub each : (t : ScenarioTarget) → lookup t m' ≡ survivor i (lookup t m)
  pub after : (k : ScenarioTarget) → After k m → After k m'

-- Every scenario of the map comes from a compiled catalog.
abbrev pub AllCompiled : ActiveMap → Type 0
AllCompiled m =
    (t : ScenarioTarget) (a : ActiveScenarioAction) → lookup t m ≡ some a → IsCompiled a.scenario

AllCompiled-tail :
    (u : ScenarioTarget) (a : ActiveScenarioAction) (m : ActiveMap)
    → After u m
    → AllCompiled ((u, a) ∷ m)
    → AllCompiled m
AllCompiled-tail u a m later all t b e = elim (Key-cases t u) [
  | inl same ↦
      absurd (none-ne-some (sym (lookup-After u m later) ∙ ap (λ v. lookup v m) (sym same) ∙ e))
  | inr ne ↦ all t b (lookup-there t u a m ne ∙ e)
]

-- One turn of `retain`, by what the closure answers.
retain_turn :
    (i : ℕ) (u : ScenarioTarget) (a : ActiveScenarioAction) (m m' : ActiveMap) (b : Bool)
    → After u m
    → is_retained a i ≡ some b
    → Retained i m m'
    → (m₁ : ActiveMap) × Retained i ((u, a) ∷ m) m₁
unfolding retain_active
retain_turn i u a m m' true later e r = (
  (u, a) ∷ m',
  record {
    ran = rw (e, r.ran) refl;
    ordered = (r.after u later, r.ordered);
    each = λ t. elim (Key-cases t u) [
      | inl same ↦
          subst (λ v. lookup v ((u, a) ∷ m') ≡ survivor i (lookup v ((u, a) ∷ m))) (sym same)
            (rw (lookup-here u a m', lookup-here u a m, e) refl)
      | inr ne ↦ rw (lookup-there t u a m' ne, lookup-there t u a m ne) (r.each t)
    ];
    after = λ k h. (h.0, r.after k h.1);
  },
)
retain_turn i u a m m' false later e r = (
  m',
  record {
    ran = rw (e, r.ran) refl;
    ordered = r.ordered;
    each = λ t. elim (Key-cases t u) [
      | inl same ↦
          subst (λ v. lookup v m' ≡ survivor i (lookup v ((u, a) ∷ m))) (sym same)
            (rw (lookup-After u m' (r.after u later), lookup-here u a m, e) refl)
      | inr ne ↦ rw (lookup-there t u a m ne) (r.each t)
    ];
    after = λ k h. r.after k h.1;
  },
)

pub retain_active-Retained :
    (i : ℕ) (m : ActiveMap) → Sorted m → AllCompiled m → (m' : ActiveMap) × Retained i m m'
unfolding retain_active
retain_active-Retained i [] s all = (
  [],
  record {
    ran = refl;
    ordered = tt;
    each = λ t. lookup-nil t ∙ ap (survivor i) (sym (lookup-nil t));
    after = λ k h. tt;
  },
)
retain_active-Retained i ((u, a) ∷ m) s all =
    let (m', r) = retain_active-Retained i m s.1 (AllCompiled-tail u a m s.0 all) in
    let (b, e) = is_retained-IsCompiled a i (all u a (lookup-here u a m)) in
    retain_turn i u a m m' b s.0 e r
