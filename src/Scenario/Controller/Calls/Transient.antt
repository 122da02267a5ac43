-- ===== src/Scenario/Controller/Calls/Transient.antt =====
-- A transient scenario of src/scenario.rs, from where it is active to where it ends, whatever else
-- is called meanwhile.
use c37_118_simulator.Prelude.{
  ℕ, ◌+◌, ◌*◌, ◌≤◌, ◌<◌, ◌≡◌, refl, sym, ap, ◌∙◌, Option, none, some, List, [], ◌∷◌, length, arith,
  All, subst, inl, inr, Option-cases, some_inj, none-ne-some, true, false,
}
use c37_118_simulator.Prelude.Dict.{lookup}
use c37_118_simulator.Scenario.Types.{max_u64, ScenarioTarget, target_key, transient, sustained}
use c37_118_simulator.Scenario.Controller.{
  ActiveScenarioAction, ScenarioController, activate, clear, StoredScenarioAction,
}
use c37_118_simulator.Scenario.Controller.Invariant.{Inv, Admissible, activates, clears}
use c37_118_simulator.Scenario.Controller.Tokens.{budget}
use c37_118_simulator.Scenario.Controller.Boundary.{is_retained, is_expired_at}
use c37_118_simulator.Scenario.Controller.Boundary.Active.{survivor, after_pending}
use c37_118_simulator.Scenario.Controller.Boundary.Advance.{
  Later, Advanced, advance_boundary_succeeds,
}
use c37_118_simulator.Scenario.Controller.Calls.{
  Call, call_prepare_activation, call_prepare_clear, call_confirm, call_cancel, call_snapshot,
  call_advance_boundary, handle, run, left, Changed, handle-Handled,
}

-- An advance goes to a boundary before `e`; other calls are free.
abbrev pub Before : ℕ → Call → Type 0
Before e (call_advance_boundary i) = i < e
Before e call = Unit {0}

-- The scenario `a` is active for `t`, lasts `d` boundaries, and they have not ended.
pub record Runs (t : ScenarioTarget) (a : ActiveScenarioAction) (d : ℕ) (c : ScenarioController)
    : Type 0 where
  pub shown : lookup t c.active ≡ some a
  pub short : a.scenario.lifecycle ≡ transient
  pub lasts : a.scenario.duration_frames ≡ some d
  pub not_over :
      Later c.current_sample_index (a.first_eligible_boundary + a.scenario.start_frame_offset + d)

is_retained-before :
    (a : ActiveScenarioAction) (d i : ℕ)
    → a.scenario.lifecycle ≡ transient
    → a.scenario.duration_frames ≡ some d
    → i < a.first_eligible_boundary + a.scenario.start_frame_offset + d
    → is_retained a i ≡ some true
unfolding is_retained is_expired_at
is_retained-before a d i l h early = rw (l, h) (ground arith)

is_retained-after :
    (a : ActiveScenarioAction) (d i : ℕ)
    → a.scenario.lifecycle ≡ transient
    → a.scenario.duration_frames ≡ some d
    → a.first_eligible_boundary + a.scenario.start_frame_offset + d ≤ i
    → is_retained a i ≡ some false
unfolding is_retained is_expired_at
is_retained-after a d i l h late = rw (l, h) (ground arith)

transient-ne-sustained : transient ≡ sustained → ⊥
transient-ne-sustained e = cc

module _ (t : ScenarioTarget) (a : ActiveScenarioAction) (d : ℕ) where
  abbrev end : ℕ
  end = a.first_eligible_boundary + a.scenario.start_frame_offset + d

  -- Nothing can wait for the target while a transient scenario is active for it.
  pending-none : (c : ScenarioController) → Inv c → Runs t a d c → lookup t c.pending ≡ none
  pending-none c w r = elim (Option-cases (lookup t c.pending)) [
    | inl e ↦ e
    | inr (q, e) ↦ absurd (go q.action (w.pending_apt t q e))
  ]
    where
      go : (x : StoredScenarioAction) → Admissible c.active t x → ⊥
      go (activate s) (activates s' k idle) = none-ne-some (sym idle ∙ r.shown)
      go clear (clears b e l) = transient-ne-sustained (
          sym r.short
          ∙ ap (λ (x : ActiveScenarioAction). x.scenario.lifecycle) (some_inj (sym r.shown ∙ e))
          ∙ l)

  shown_after :
      (i : ℕ) (c c' : ScenarioController)
      → Inv c
      → Runs t a d c
      → Advanced i c c'
      → lookup t c'.active ≡ survivor i (some a)
  shown_after i c c' w r adv =
      adv.each t
      ∙ ap (λ o. survivor i (after_pending i o (lookup t c.active))) (pending-none c w r)
      ∙ ap (survivor i) r.shown

  Advanced-Runs :
      (i : ℕ) (c c' : ScenarioController)
      → Inv c
      → Runs t a d c
      → i < end
      → Advanced i c c'
      → Runs t a d c'
  Advanced-Runs i c c' w r early adv = record {
    shown = shown_after i c c' w r adv ∙ rw (is_retained-before a d i r.short r.lasts early) refl;
    short = r.short;
    lasts = r.lasts;
    not_over = rw (adv.at_boundary) early;
  }

  same-Runs :
      (c c' : ScenarioController)
      → Runs t a d c
      → c'.active ≡ c.active
      → c'.current_sample_index ≡ c.current_sample_index
      → Runs t a d c'
  same-Runs c c' r same index = record {
    shown = ap (lookup t) same ∙ r.shown;
    short = r.short;
    lasts = r.lasts;
    not_over = subst (λ o. Later o end) (sym index) r.not_over;
  }

  Changed-Runs :
      (call : Call) (c c' : ScenarioController)
      → Inv c
      → Runs t a d c
      → Before end call
      → Changed call c c'
      → Runs t a d c'
  Changed-Runs (call_advance_boundary i) c c' w r early (inl same) = subst (Runs t a d) (sym same) r
  Changed-Runs (call_advance_boundary i) c c' w r early (inr adv) =
      Advanced-Runs i c c' w r early adv
  Changed-Runs (call_prepare_activation u n l now) c c' w r early h = same-Runs c c' r h.0 h.1
  Changed-Runs (call_prepare_clear u l now) c c' w r early h = same-Runs c c' r h.0 h.1
  Changed-Runs (call_confirm token now) c c' w r early h = same-Runs c c' r h.0 h.1
  Changed-Runs (call_cancel token now) c c' w r early h = same-Runs c c' r h.0 h.1
  Changed-Runs (call_snapshot now) c c' w r early h = same-Runs c c' r h.0 h.1

  run-Runs :
      (calls : List Call) (c : ScenarioController)
      → Inv c
      → budget c + 2 * length calls < max_u64
      → Runs t a d c
      → All (Before end) calls
      → (c' : ScenarioController) × (run calls c ≡ some c')
        × Inv c'
        × Runs t a d c'
        × (budget c' ≤ budget c + 2 * length calls)
  unfolding run
  run-Runs [] c w room r before = (c, refl, w, r, omega arith)
  run-Runs (call ∷ calls) c w room r before =
      let (x, h) = handle-Handled call c w (omega (arith, room)) in
      let (c', ran, w', r', spent) =
        run-Runs calls x h.inv (omega (arith, room, h.room))
          (Changed-Runs call c x w r before.0 h.changed) before.1 in
      (c', rw (h.ran) ran, w', r', omega (arith, spent, h.room))

Later-le : (o : Option ℕ) (e i : ℕ) → e ≤ i → Later o e → Later o i
Later-le none e i h l = tt
Later-le (some p) e i h l = omega (arith, h, l)

-- While a transient scenario of `d` boundaries is active for a target and they have not ended, any
-- sequence of calls whose boundaries come before its end leaves it active, and the next advance to
-- a boundary from its end on takes it away: from a controller that keeps the invariant, with two
-- revisions for each call left.
pub transient-ends :
    (t : ScenarioTarget) (a : ActiveScenarioAction) (d i : ℕ) (calls : List Call)
    (c : ScenarioController)
    → Inv c
    → budget c + 2 * length calls < max_u64
    → Runs t a d c
    → All (Before (a.first_eligible_boundary + a.scenario.start_frame_offset + d)) calls
    → a.first_eligible_boundary + a.scenario.start_frame_offset + d ≤ i
    → (c' : ScenarioController) × (e : ScenarioController) × (run calls c ≡ some c')
      × (lookup t c'.active ≡ some a)
      × (handle (call_advance_boundary i) c' ≡ some e)
      × (lookup t e.active ≡ none)
unfolding handle
transient-ends t a d i calls c w room r before late =
    let (c', ran, w', r', spent) = run-Runs t a d calls c w room r before in
    let (e, advanced, adv, w'') =
      advance_boundary_succeeds i c' w'
        (Later-le c'.current_sample_index (end t a d) i late r'.not_over)
        (omega (arith, spent, room)) in
    (
      c',
      e,
      ran,
      r'.shown,
      ap left advanced,
      shown_after t a d i c' e w' r' adv ∙ rw (is_retained-after a d i r'.short r'.lasts late) refl,
    )
