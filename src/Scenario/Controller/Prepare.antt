-- ===== src/Scenario/Controller/Prepare.antt =====
-- `prepare_activation` and `prepare_clear` of src/scenario.rs: what a preparation leaves.
use c37_118_simulator.Prelude.{
  ℕ, ◌+◌, ◌<◌, ◌≡◌, refl, sym, ap, ◌∙◌, subst, Bool, true, false, not, ◌&&◌, ◌||◌, Option, some,
  List, [], ◌∷◌, inl, inr, All, Bool-cases, some_inj, none-ne-some, ◌==◌, length, arith, ltb,
}
use c37_118_simulator.Prelude.Dict.{Dict, nat_key, lookup, insert, contains_key}
use c37_118_simulator.Prelude.Dict.Laws.{
  lookup-insert_self, length-insert_le, contains_key-eq-false,
}
use c37_118_simulator.Scenario.Types.{
  Text, stream_id, ScenarioTarget, target_key, max_u64, Instant, ScenarioDefinition, text_eqb,
}
use c37_118_simulator.Scenario.Catalog.{find_scenario, valid_name}
use c37_118_simulator.Scenario.Catalog.Compiled.{IsCompiled}
use c37_118_simulator.Scenario.Controller.{
  PreparedScenarioAction, ActiveScenarioAction, StoredScenarioAction, activate, ScenarioController,
  bind_outcome, checked_suc, bump_revision, return, guard, target_busy, target_capacity_exceeded,
  token_space_exhausted, token_expiry_overflow, unknown_scenario, invalid_target,
  invalid_scenario_name, invalid_actor_label, incompatible_target, ◌>>◌,
}
use c37_118_simulator.Scenario.Controller.Actions.{
  add_prepared, store_prepared, asked_until, take_token, take_time, take_place, is_idle, admit,
  tracks_target, tracked_target_count, max_scenario_targets, prepare_action, prepare_activation,
  is_compatible, prepare_known, prepare_named, label_fits, max_scenario_actor_label_bytes,
  PreparedScenarioSnapshot, prepared_snapshot, discard_expired_preparations, activation_token_ttl,
  checked_add_instant, validate_controller_target, validate_controller_name, validate_actor_label,
  validate_scenario_target,
}
use c37_118_simulator.Scenario.Controller.Invariant.{
  Inv, Free, Admissible, activates, with_revision-Inv, add_prepared-Inv,
}
use c37_118_simulator.Scenario.Controller.Post.{
  Post, Post-bind, Post-weaken, Post-guard, Post-ok_or, Post-bump,
}
use c37_118_simulator.Scenario.Controller.Discard.{Discarded, discard-Discarded}
use c37_118_simulator.Scenario.Controller.Tokens.{Held, Held-refl, Discarded-Held}

-- Room for one revision for each live preparation and one more.
abbrev pub CanPrepare : ScenarioController → Type 0
CanPrepare c = c.revision + length c.prepared < max_u64

-- The record that a preparation at `now` stores.
abbrev pub asked_at :
    ScenarioTarget → StoredScenarioAction → Option Text → Instant → PreparedScenarioAction
asked_at target action label now = record {
  target = target;
  action = action;
  actor_label = label;
  expires_at = now + activation_token_ttl;
}

-- A preparation of `p` at `now` left `c'` and answered `s`.
pub record Prepared (c : ScenarioController) (p : PreparedScenarioAction) (now : Instant)
    (c' : ScenarioController) (s : PreparedScenarioSnapshot) : Type 0 where
  pub held : Held c c'
  pub same_pending : c'.pending ≡ c.pending
  pub answer : s ≡ prepared_snapshot p c.next_token now
  pub kept : lookup c.next_token c'.prepared ≡ some p
  pub next : c'.next_token ≡ c.next_token + 1

checked_suc-some : (n m : ℕ) → checked_suc n ≡ some m → m ≡ n + 1
checked_suc-some n m h = ground (arith, h)

checked_add_instant-some : (now d t : ℕ) → checked_add_instant now d ≡ some t → t ≡ now + d
checked_add_instant-some now d t h = ground (arith, h)

none_of_three : (x y z : Bool) → not (x || y || z) ≡ true → (x ≡ false) × (y ≡ false) × (z ≡ false)
none_of_three x y z h = ground arith

-- The writes at the end of `prepare_action`, for a target that is free.
module _ (c d : ScenarioController) (p : PreparedScenarioAction) (now : Instant) (w : Inv c)
    (dis : Discarded c d) (free : Free d p.target p.action) where
  stored : ScenarioController
  stored = record (add_prepared (d.next_token + 1) p d) {
    revision = (add_prepared (d.next_token + 1) p d).revision + 1;
  }

  stored-Prepared : Prepared c p now stored (prepared_snapshot p d.next_token now)
  unfolding stored add_prepared
  stored-Prepared = record {
    held = record {
      inv =
          with_revision-Inv (add_prepared (d.next_token + 1) p d) (d.revision + 1)
            (add_prepared-Inv d p dis.inv free);
      same_active = dis.same_active;
      same_index = dis.same_index;
      room = omega (arith, dis.room, length-insert_le d.next_token p d.prepared);
    };
    same_pending = dis.same_pending;
    answer = ap (λ n. prepared_snapshot p n now) dis.same_next;
    kept =
        ap (λ n. lookup n (insert d.next_token p d.prepared)) (sym dis.same_next)
        ∙ lookup-insert_self d.next_token p d.prepared;
    next = ap (λ n. n + 1) dis.same_next;
  }

  stored-Post :
      c.revision + length c.prepared < max_u64
      → Post
          (λ c' s. Prepared c p now c' s)
          (Held c)
          ⊥
          (bind_outcome
            (bump_revision (add_prepared (d.next_token + 1) p d))
            (λ _. return (prepared_snapshot p d.next_token now)))
  unfolding stored
  stored-Post room =
      Post-bump (λ c' s. Prepared c p now c' s) (Held c) ⊥
        (return (prepared_snapshot p d.next_token now)) (add_prepared (d.next_token + 1) p d)
        (λ _. stored-Prepared) (λ full. omega (arith, revision-add_prepared, dis.room, full, room))
    where
      revision-add_prepared : (add_prepared (d.next_token + 1) p d).revision ≡ d.revision
      revision-add_prepared = unfold add_prepared in refl

-- The stages of `prepare_action` after expired preparations are gone.
module _ (c d : ScenarioController) (t : ScenarioTarget) (a : StoredScenarioAction)
    (label : Option Text) (now : Instant) (w : Inv c) (room : CanPrepare c)
    (dis : Discarded c d) where
  abbrev Good : ScenarioController → PreparedScenarioSnapshot → Type 0
  Good c' s = Prepared c (asked_at t a label now) now c' s

  take_token-Good : Free d t a → Post Good (Held c) ⊥ (take_token (asked_at t a label now) now d d)
  take_token-Good free =
      Post-ok_or Good (Held c) ⊥ (checked_suc d.next_token) token_space_exhausted
        (store_prepared (asked_at t a label now) now d.next_token) d
        (λ next e.
          subst
            (λ n.
              Post Good (Held c) ⊥ (store_prepared (asked_at t a label now) now d.next_token n d))
            (sym (checked_suc-some d.next_token next e))
            (stored-Post c d (asked_at t a label now) now w dis free room))
        (λ _. Discarded-Held c d dis)

  take_time-Good : Free d t a → Post Good (Held c) ⊥ (take_time t a label now d d)
  take_time-Good free =
      Post-ok_or Good (Held c) ⊥ (checked_add_instant now activation_token_ttl)
        token_expiry_overflow (λ expires. take_token (asked_until t a label expires) now d) d
        (λ expires e.
          subst (λ x. Post Good (Held c) ⊥ (take_token (asked_until t a label x) now d d))
            (sym (checked_add_instant-some now activation_token_ttl expires e))
            (take_token-Good free))
        (λ _. Discarded-Held c d dis)

  admit-Good :
      (permits : Bool)
      → ((not permits && contains_key t d.active) ≡ false → Admissible d.active t a)
      → Post Good (Held c) ⊥ (admit t a label now permits d d)
  admit-Good permits apt =
      Post-guard Good (Held c) ⊥ (is_idle t permits d) (target_busy t) (take_place t a label now d)
        d
        (λ idle.
          let (free, quiet, inactive) =
            none_of_three (contains_key t d.prepared_targets) (contains_key t d.pending)
              (not permits && contains_key t d.active) idle in
          Post-guard Good (Held c) ⊥
            (tracks_target t d || ltb (tracked_target_count d) max_scenario_targets)
            (target_capacity_exceeded max_scenario_targets) (take_time t a label now d) d
            (λ fits. take_time-Good (record {
              not_prepared = contains_key-eq-false t d.prepared_targets free;
              not_pending = contains_key-eq-false t d.pending quiet;
              admissible = apt inactive;
            }))
            (λ _. Discarded-Held c d dis))
        (λ _. Discarded-Held c d dis)

pub prepare_action-Prepared :
    (c : ScenarioController) (t : ScenarioTarget) (a : StoredScenarioAction) (label : Option Text)
    (now : Instant) (permits : Bool)
    → Inv c
    → CanPrepare c
    → ((not permits && contains_key t c.active) ≡ false → Admissible c.active t a)
    → Post
        (λ c' s. Prepared c (asked_at t a label now) now c' s)
        (Held c)
        ⊥
        (prepare_action t a label now permits c)
unfolding prepare_action
prepare_action-Prepared c t a label now permits w room apt =
    Post-bind (λ d _. Discarded c d) (Held c) ⊥
      (λ c' s. Prepared c (asked_at t a label now) now c' s) (discard_expired_preparations now c)
      (λ _ d. admit t a label now permits d d)
      (Post-weaken (λ d _. Discarded c d) (λ _. ⊥) (max_u64 < c.revision + length c.prepared)
        (λ d _. Discarded c d) (Held c) ⊥ (discard_expired_preparations now c)
        (discard-Discarded now c w) (λ d u h. h) (λ d h. absurd h)
        (λ full. omega (arith, room, full)))
      (λ d u dis. admit-Good c d t a label now w room dis permits (
        subst
          (λ (m : Dict ScenarioTarget ActiveScenarioAction).
            (not permits && contains_key t m) ≡ false → Admissible m t a)
          (sym dis.same_active) apt))

find_scenario-IsCompiled :
    (name : Text) (ss : List ScenarioDefinition) (s : ScenarioDefinition)
    → All IsCompiled ss
    → find_scenario name ss ≡ some s
    → IsCompiled s
unfolding find_scenario
find_scenario-IsCompiled name [] s all e = absurd (none-ne-some e)
find_scenario-IsCompiled name (r ∷ rs) s all e = elim (Bool-cases (text_eqb r.name name)) [
  | inl found ↦ subst IsCompiled (some_inj (rw found at e)) all.0
  | inr other ↦ find_scenario-IsCompiled name rs s all.1 (rw other at e)
]

-- A preparation that answered for a scenario of the catalog.
pub record Activation (c : ScenarioController) (t : ScenarioTarget) (name : Text)
    (label : Option Text) (now : Instant) (c' : ScenarioController) (s : PreparedScenarioSnapshot)
    : Type 0 where
  pub scenario : ScenarioDefinition
  pub found : find_scenario name c.catalog.scenarios ≡ some scenario
  pub prepared : Prepared c (asked_at t (activate scenario) label now) now c' s

module _ (c : ScenarioController) (t : ScenarioTarget) (name : Text) (label : Option Text)
    (now : Instant) (w : Inv c) (room : CanPrepare c) where
  abbrev Answers : ScenarioController → PreparedScenarioSnapshot → Type 0
  Answers c' s = Activation c t name label now c' s

  as_before : Held c c
  as_before = Held-refl c w

  prepare_known-Answers :
      (s : ScenarioDefinition)
      → find_scenario name c.catalog.scenarios ≡ some s
      → Post Answers (Held c) ⊥ (prepare_known t label now s c)
  unfolding validate_scenario_target
  prepare_known-Answers s e =
      Post-guard Answers (Held c) ⊥ (is_compatible t s.kind) (incompatible_target t s.kind)
        (prepare_action t (activate s) label now false) c
        (λ _.
          Post-weaken (λ c' a. Prepared c (asked_at t (activate s) label now) now c' a) (Held c) ⊥
            Answers (Held c) ⊥ (prepare_action t (activate s) label now false c)
            (prepare_action-Prepared c t (activate s) label now false w room (λ idle.
              activates s (find_scenario-IsCompiled name c.catalog.scenarios s w.catalog_compiled e)
                (contains_key-eq-false t c.active idle)))
            (λ c' a p. record { scenario = s; found = e; prepared = p }) (λ c' h. h) (λ h. h))
        (λ _. as_before)

  prepare_named-Answers : Post Answers (Held c) ⊥ (prepare_named t name label now c)
  prepare_named-Answers =
      Post-ok_or Answers (Held c) ⊥ (find_scenario name c.catalog.scenarios) (unknown_scenario name)
        (prepare_known t label now) c prepare_known-Answers (λ _. as_before)

-- On a controller that keeps the invariant and has revisions left, preparing an activation does not
-- end the process. Where it answers, it has stored the scenario of that name for the target under
-- the next token, to expire after the time to live, and the queue is as it was. Whether it answers
-- or not, the invariant holds, and the active scenarios and the boundary are as they were.
pub prepare_activation-Activation :
    (c : ScenarioController) (t : ScenarioTarget) (name : Text) (label : Option Text)
    (now : Instant)
    → Inv c
    → CanPrepare c
    → Post
        (λ c' s. Activation c t name label now c' s)
        (Held c)
        ⊥
        (prepare_activation t name label now c)
unfolding prepare_activation validate_controller_target validate_controller_name
    validate_actor_label
prepare_activation-Activation c t name label now w room =
    Post-guard (Answers c t name label now w room) (Held c) ⊥ (not (stream_id t == 0))
      (invalid_target t)
      (guard (valid_name name) (invalid_scenario_name name)
        >> (guard (label_fits label) (invalid_actor_label max_scenario_actor_label_bytes)
            >> prepare_named t name label now))
      c
      (λ _.
        Post-guard (Answers c t name label now w room) (Held c) ⊥ (valid_name name)
          (invalid_scenario_name name)
          (guard (label_fits label) (invalid_actor_label max_scenario_actor_label_bytes)
            >> prepare_named t name label now)
          c
          (λ _.
            Post-guard (Answers c t name label now w room) (Held c) ⊥ (label_fits label)
              (invalid_actor_label max_scenario_actor_label_bytes) (prepare_named t name label now)
              c (λ _. prepare_named-Answers c t name label now w room)
              (λ _. as_before c t name label now w room))
          (λ _. as_before c t name label now w room))
      (λ _. as_before c t name label now w room)
