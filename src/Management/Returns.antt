-- ===== src/Management/Returns.antt =====
-- Steps of src/management.rs that do not come to an `unreachable!`.
use c37_118_simulator.Management.Requests.{Checked, ok, err, panicked, ◌>>=◌}

-- A result that does not end the process, with a predicate of what it returns.
abbrev pub Returns : {A : Type 0} → (A → Type 0) → Checked A → Type 0
Returns Q (ok a) = Q a
Returns Q (err e) = Unit {0}
Returns Q panicked = ⊥

pub Returns-bind :
    {A B : Type 0} (P : A → Type 0) (Q : B → Type 0) (m : Checked A) (f : A → Checked B)
    → Returns P m
    → ((a : A) → P a → Returns Q (f a))
    → Returns Q (m >>= f)
Returns-bind P Q (ok a) f h k = k a h
Returns-bind P Q (err e) f h k = tt
Returns-bind P Q panicked f h k = h

pub Returns-weaken :
    {A : Type 0} (P Q : A → Type 0) (m : Checked A)
    → Returns P m
    → ((a : A) → P a → Q a)
    → Returns Q m
Returns-weaken P Q (ok a) h k = k a h
Returns-weaken P Q (err e) h k = tt
Returns-weaken P Q panicked h k = h
