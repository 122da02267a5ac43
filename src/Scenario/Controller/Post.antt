-- ===== src/Scenario/Controller/Post.antt =====
-- Postconditions of a method of `ScenarioController`: `Q` of the state and the value that it
-- returns, `R` of the state on an error, and `P` where it panics.
use c37_118_simulator.Prelude.{
  ◌+◌, ◌≤◌, ◌<◌, ◌≡◌, refl, Bool, true, false, Option, none, some, arith, dec_lt, lt→ltb,
  ltb-eq-false,
}
use c37_118_simulator.Scenario.Types.{max_u64}
use c37_118_simulator.Scenario.Controller.{
  ScenarioController, ScenarioControllerError, Outcome, done, failed, panicked, M, bind_outcome,
  guard, ok_or, bump_revision,
}

abbrev pub Post :
    {A : Type 0}
    → (ScenarioController → A → Type 0)
    → (ScenarioController → Type 0)
    → Type 0
    → Outcome A
    → Type 0
Post Q R P (done c a) = Q c a
Post Q R P (failed c e) = R c
Post Q R P panicked = P

module _ {A : Type 0} (Q : ScenarioController → A → Type 0) (R : ScenarioController → Type 0)
    (P : Type 0) where
  pub Post-bind :
      {B : Type 0} (Q' : ScenarioController → B → Type 0) (o : Outcome A) (f : A → M B)
      → Post Q R P o
      → ((c : ScenarioController) (a : A) → Q c a → Post Q' R P (f a c))
      → Post Q' R P (bind_outcome o f)
  Post-bind Q' (done c a) f h k = k c a h
  Post-bind Q' (failed c e) f h k = h
  Post-bind Q' panicked f h k = h

  pub Post-weaken :
      (Q' : ScenarioController → A → Type 0) (R' : ScenarioController → Type 0) (P' : Type 0)
      (o : Outcome A)
      → Post Q R P o
      → ((c : ScenarioController) (a : A) → Q c a → Q' c a)
      → ((c : ScenarioController) → R c → R' c)
      → (P → P')
      → Post Q' R' P' o
  Post-weaken Q' R' P' (done c a) h q r p = q c a h
  Post-weaken Q' R' P' (failed c e) h q r p = r c h
  Post-weaken Q' R' P' panicked h q r p = p h

  -- A test is followed by its success, or it fails and leaves the state.
  pub Post-guard :
      (b : Bool) (e : ScenarioControllerError) (k : M A) (c : ScenarioController)
      → (b ≡ true → Post Q R P (k c))
      → (b ≡ false → R c)
      → Post Q R P (bind_outcome (guard b e c) (λ _. k))
  Post-guard true e k c h r = h refl
  Post-guard false e k c h r = r refl

  pub Post-ok_or :
      {B : Type 0} (o : Option B) (e : ScenarioControllerError) (k : B → M A)
      (c : ScenarioController)
      → ((b : B) → o ≡ some b → Post Q R P (k b c))
      → (o ≡ none → R c)
      → Post Q R P (bind_outcome (ok_or o e c) k)
  Post-ok_or none e k c h r = r refl
  Post-ok_or (some b) e k c h r = h b refl

  -- The revision goes up by one, or the process ends because it cannot.
  pub Post-bump :
      (k : M A) (c : ScenarioController)
      → (c.revision < max_u64 → Post Q R P (k (record c { revision = c.revision + 1 })))
      → (max_u64 ≤ c.revision → P)
      → Post Q R P (bind_outcome (bump_revision c) (λ _. k))
  unfolding bump_revision
  Post-bump k c h p = elim (dec_lt c.revision max_u64) [
    | yes room ↦ rw (lt→ltb c.revision max_u64 room) (h room)
    | no full ↦ rw (ltb-eq-false c.revision max_u64 (omega arith)) (p (omega arith))
  ]

-- A call that neither fails nor panics returns.
pub Post-returns :
    {A : Type 0} (Q : ScenarioController → A → Type 0) (o : Outcome A)
    → Post Q (λ _. ⊥) ⊥ o
    → (c : ScenarioController) × (a : A) × (o ≡ done c a) × Q c a
Post-returns Q (done c a) h = (c, a, refl, h)
Post-returns Q (failed c e) h = absurd h
Post-returns Q panicked h = absurd h
