-- ===== src/Scenario/Controller/Tokens.antt =====
-- `confirm` and `cancel` of src/scenario.rs: what a token does, and that it does it once.
use c37_118_simulator.Prelude.{
  ℕ, ◌+◌, ◌≤◌, ◌<◌, ◌≡◌, refl, ap, none, some, length, arith, Option-cases, inl, inr, lt→ltb,
  ltb-eq-false, dec_lt,
}
use c37_118_simulator.Prelude.Dict.{nat_key, lookup, insert}
use c37_118_simulator.Prelude.Dict.Laws.{lookup-insert_self}
use c37_118_simulator.Scenario.Types.{target_key, max_u64, Instant}
use c37_118_simulator.Scenario.Controller.{
  PreparedScenarioAction, ScenarioController, Outcome, done, failed, unknown_token, expired_token,
}
use c37_118_simulator.Scenario.Controller.Actions.{
  drop_prepared, queue, confirm, cancel, prepared_snapshot,
}
use c37_118_simulator.Scenario.Controller.Invariant.{Inv}
use c37_118_simulator.Scenario.Controller.Post.{Post}
use c37_118_simulator.Scenario.Controller.Discard.{Discarded, without, without-Inv}
use c37_118_simulator.Scenario.Controller.Confirm.{
  take_prepared-known, take_prepared-unknown, Discarded-Free, check_confirm_lem, without-Free,
  spent_without, length-without, discard_after, revision_room, queued, queued_snapshot, queue_in,
  queue_in-Inv,
}

-- The revision that the controller would be at with every preparation gone.
abbrev pub budget : ScenarioController → ℕ
budget c = c.revision + length c.prepared

-- Room for one revision for each live preparation.
abbrev pub HasRoom : ScenarioController → Type 0
HasRoom c = budget c ≤ max_u64

-- What `confirm` leaves of a live token `token` for `p`.
pub record Confirmed (c : ScenarioController) (token : ℕ) (p : PreparedScenarioAction)
    (c' : ScenarioController) : Type 0 where
  pub inv : Inv c'
  pub spent : lookup token c'.prepared ≡ none
  pub waits : lookup p.target c'.pending ≡ some (queued p)
  pub only : c'.pending ≡ insert p.target (queued p) c.pending
  pub same_active : c'.active ≡ c.active
  pub same_index : c'.current_sample_index ≡ c.current_sample_index
  pub room : budget c' ≤ budget c

confirm-live :
    (c : ScenarioController) (token : ℕ) (p : PreparedScenarioAction) (now : Instant)
    → Inv c
    → HasRoom c
    → lookup token c.prepared ≡ some p
    → now < p.expires_at
    → (c' : ScenarioController) × (confirm token now c ≡ done (queue_in p c') (queued_snapshot p))
      × Discarded (without token p c) c'
unfolding confirm queue
confirm-live c token p now w room e early =
    let (c', a, ran, d) = discard_after token now p c w e room in
    (
      c',
      rw
          (
            take_prepared-known c token p e (revision_room token p c e room),
            lt→ltb now p.expires_at early,
            ran,
            check_confirm_lem c' p.target p.action (
                Discarded-Free (without token p c) c' p.target p.action d
                  (without-Free token p c w e)),
          )
          refl,
      d,
    )

confirm-late :
    (c : ScenarioController) (token : ℕ) (p : PreparedScenarioAction) (now : Instant)
    → HasRoom c
    → lookup token c.prepared ≡ some p
    → p.expires_at ≤ now
    → confirm token now c ≡ failed (without token p c) (expired_token token)
unfolding confirm
confirm-late c token p now room e late =
    rw
      (
        take_prepared-known c token p e (revision_room token p c e room),
        ltb-eq-false now p.expires_at (omega arith),
      )
      refl

confirm-unknown :
    (c : ScenarioController) (token : ℕ) (now : Instant)
    → lookup token c.prepared ≡ none
    → confirm token now c ≡ failed c (unknown_token token)
unfolding confirm
confirm-unknown c token now e = rw (take_prepared-unknown c token e) refl

cancel-live :
    (c : ScenarioController) (token : ℕ) (p : PreparedScenarioAction) (now : Instant)
    → Inv c
    → HasRoom c
    → lookup token c.prepared ≡ some p
    → now < p.expires_at
    → (c' : ScenarioController) × (cancel token now c ≡ done c' (prepared_snapshot p token now))
      × Discarded (without token p c) c'
unfolding cancel
cancel-live c token p now w room e early =
    let (c', a, ran, d) = discard_after token now p c w e room in
    (
      c',
      rw
          (
            take_prepared-known c token p e (revision_room token p c e room),
            lt→ltb now p.expires_at early,
            ran,
          )
          refl,
      d,
    )

cancel-late :
    (c : ScenarioController) (token : ℕ) (p : PreparedScenarioAction) (now : Instant)
    → HasRoom c
    → lookup token c.prepared ≡ some p
    → p.expires_at ≤ now
    → cancel token now c ≡ failed (without token p c) (expired_token token)
unfolding cancel
cancel-late c token p now room e late =
    rw
      (
        take_prepared-known c token p e (revision_room token p c e room),
        ltb-eq-false now p.expires_at (omega arith),
      )
      refl

cancel-unknown :
    (c : ScenarioController) (token : ℕ) (now : Instant)
    → lookup token c.prepared ≡ none
    → cancel token now c ≡ failed c (unknown_token token)
unfolding cancel
cancel-unknown c token now e = rw (take_prepared-unknown c token e) refl

-- On a controller that keeps the invariant and has revisions left, confirming a token that is
-- known and not expired succeeds: it returns the snapshot of the prepared action and queues
-- exactly that action for its target, the token is gone, and the active scenarios, the boundary
-- and the invariant are as before.
pub confirm_succeeds :
    (c : ScenarioController) (token : ℕ) (p : PreparedScenarioAction) (now : Instant)
    → Inv c
    → HasRoom c
    → lookup token c.prepared ≡ some p
    → now < p.expires_at
    → (c' : ScenarioController) × (confirm token now c ≡ done c' (queued_snapshot p))
      × Confirmed c token p c'
unfolding drop_prepared
confirm_succeeds c token p now w room e early =
    let (c', ran, d) = confirm-live c token p now w room e early in
    let free =
      Discarded-Free (without token p c) c' p.target p.action d (without-Free token p c w e) in
    (
      queue_in p c',
      ran,
      record {
        inv = queue_in-Inv p c' d.inv free;
        spent = d.still_gone token (spent_without token p c w);
        waits = lookup-insert_self p.target (queued p) c'.pending;
        only = ap (insert p.target (queued p)) d.same_pending;
        same_active = d.same_active;
        same_index = d.same_index;
        room = omega (arith, d.room, length-without token p c e);
      },
    )

-- The invariant holds and `token` is not known.
abbrev pub Spent : ℕ → ScenarioController → Type 0
Spent token c = Inv c × (lookup token c.prepared ≡ none)

-- Both ways to use a token, as what they leave of it.
used_up :
    {A : Type 0} (Q : ScenarioController → Type 0)
    (use_token : ℕ → Instant → ScenarioController → Outcome A) (c : ScenarioController) (token : ℕ)
    (now : Instant)
    → (lookup token c.prepared ≡ none → Post (λ c' _. Q c') Q ⊥ (use_token token now c))
    → ((p : PreparedScenarioAction)
        → lookup token c.prepared ≡ some p
        → now < p.expires_at
        → Post (λ c' _. Q c') Q ⊥ (use_token token now c))
    → ((p : PreparedScenarioAction)
        → lookup token c.prepared ≡ some p
        → p.expires_at ≤ now
        → use_token token now c ≡ failed (without token p c) (expired_token token))
    → ((p : PreparedScenarioAction) → lookup token c.prepared ≡ some p → Q (without token p c))
    → Post (λ c' _. Q c') Q ⊥ (use_token token now c)
used_up Q use_token c token now unknown live late gone =
    elim (Option-cases (lookup token c.prepared)) [
      | inl e ↦ unknown e
      | inr (p, e) ↦ elim (dec_lt now p.expires_at) [
        | yes early ↦ live p e early
        | no not_early ↦ rw (late p e (omega arith)) (gone p e)
      ]
    ]

-- Whatever confirming a token gives, on a controller that keeps the invariant and has revisions
-- left, it does not end the process, the invariant holds afterwards, and the token is unknown.
pub confirm_spends_token :
    (c : ScenarioController) (token : ℕ) (now : Instant)
    → Inv c
    → HasRoom c
    → Post (λ c' _. Spent token c') (Spent token) ⊥ (confirm token now c)
confirm_spends_token c token now w room =
    used_up (Spent token) confirm c token now (λ e. rw (confirm-unknown c token now e) (w, e))
      (λ p e early.
        let (c', ran, d) = confirm_succeeds c token p now w room e early in
        rw (ran) (d.inv, d.spent))
      (λ p e late. confirm-late c token p now room e late)
      (λ p e. (without-Inv token p c w e, spent_without token p c w))

-- Whatever cancelling a token gives, on a controller that keeps the invariant and has revisions
-- left, it does not end the process, the invariant holds afterwards, and the token is unknown.
pub cancel_spends_token :
    (c : ScenarioController) (token : ℕ) (now : Instant)
    → Inv c
    → HasRoom c
    → Post (λ c' _. Spent token c') (Spent token) ⊥ (cancel token now c)
unfolding drop_prepared
cancel_spends_token c token now w room =
    used_up (Spent token) cancel c token now (λ e. rw (cancel-unknown c token now e) (w, e))
      (λ p e early.
        let (c', ran, d) = cancel-live c token p now w room e early in
        rw (ran) (d.inv, d.still_gone token (spent_without token p c w)))
      (λ p e late. cancel-late c token p now room e late)
      (λ p e. (without-Inv token p c w e, spent_without token p c w))

-- On a controller that keeps the invariant and has revisions left, cancelling a token that is
-- known and not expired returns its snapshot and changes neither the pending nor the active
-- scenarios.
pub cancel_succeeds :
    (c : ScenarioController) (token : ℕ) (p : PreparedScenarioAction) (now : Instant)
    → Inv c
    → HasRoom c
    → lookup token c.prepared ≡ some p
    → now < p.expires_at
    → (c' : ScenarioController) × (cancel token now c ≡ done c' (prepared_snapshot p token now))
      × (c'.pending ≡ c.pending)
      × (c'.active ≡ c.active)
unfolding drop_prepared
cancel_succeeds c token p now w room e early =
    let (c', ran, d) = cancel-live c token p now w room e early in
    (c', ran, d.same_pending, d.same_active)

-- What every method but `advance_boundary` leaves: the invariant holds, and the active scenarios
-- and the boundary are as they were.
pub record Held (c c' : ScenarioController) : Type 0 where
  pub inv : Inv c'
  pub same_active : c'.active ≡ c.active
  pub same_index : c'.current_sample_index ≡ c.current_sample_index
  pub room : budget c' ≤ budget c + 2

pub Discarded-Held : (c c' : ScenarioController) → Discarded c c' → Held c c'
Discarded-Held c c' d = record {
  inv = d.inv;
  same_active = d.same_active;
  same_index = d.same_index;
  room = omega (arith, d.room);
}

without-Held :
    (token : ℕ) (p : PreparedScenarioAction) (c : ScenarioController)
    → Inv c
    → lookup token c.prepared ≡ some p
    → Held c (without token p c)
unfolding drop_prepared
without-Held token p c w e = record {
  inv = without-Inv token p c w e;
  same_active = refl;
  same_index = refl;
  room = omega (arith, length-without token p c e);
}

pub Held-refl : (c : ScenarioController) → Inv c → Held c c
Held-refl c w = record { inv = w; same_active = refl; same_index = refl; room = omega arith }

pub confirm-Held :
    (c : ScenarioController) (token : ℕ) (now : Instant)
    → Inv c
    → HasRoom c
    → Post (λ c' _. Held c c') (Held c) ⊥ (confirm token now c)
confirm-Held c token now w room =
    used_up (Held c) confirm c token now (λ e. rw (confirm-unknown c token now e) (Held-refl c w))
      (λ p e early.
        let (c', ran, d) = confirm_succeeds c token p now w room e early in
        rw (ran) (record {
          inv = d.inv;
          same_active = d.same_active;
          same_index = d.same_index;
          room = omega (arith, d.room);
        }))
      (λ p e late. confirm-late c token p now room e late) (λ p e. without-Held token p c w e)

pub cancel-Held :
    (c : ScenarioController) (token : ℕ) (now : Instant)
    → Inv c
    → HasRoom c
    → Post (λ c' _. Held c c') (Held c) ⊥ (cancel token now c)
unfolding drop_prepared
cancel-Held c token now w room =
    used_up (Held c) cancel c token now (λ e. rw (cancel-unknown c token now e) (Held-refl c w))
      (λ p e early.
        let (c', ran, d) = cancel-live c token p now w room e early in
        rw (ran) (record {
          inv = d.inv;
          same_active = d.same_active;
          same_index = d.same_index;
          room = omega (arith, d.room, length-without token p c e);
        }))
      (λ p e late. cancel-late c token p now room e late) (λ p e. without-Held token p c w e)
