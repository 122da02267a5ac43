-- ===== src/Management/Requests.antt =====
-- The requests of src/management.rs, and the outcomes of its parsers.
use c37_118_simulator.Prelude.{ℕ, ◌≡◌, refl, arith, Bool, true, false, Option, none, some}
use c37_118_simulator.Prelude.Text.{Bytes}
use c37_118_simulator.Management.Errors.{ParseError}

-- The target of a request. The connection is optional on the wire.
pub record RequestTarget : Type 0 where
  pub stream_id : ℕ
  pub connection_id : Option ℕ

pub record PrepareScenarioRequest : Type 0 where
  pub target : RequestTarget
  pub scenario_name : Bytes
  pub actor_label : Option Bytes

pub record ClearScenarioRequest : Type 0 where
  pub target : RequestTarget
  pub actor_label : Option Bytes

-- `ConfirmScenarioRequest` and `CancelScenarioRequest` have the same fields.
pub record TokenRequest : Type 0 where
  pub token : ℕ
  pub actor_label : Option Bytes

pub record ConsoleStateCursor : Type 0 where
  pub process_identity : Bytes
  pub controller_revision : ℕ
  pub offset : ℕ

pub data ManagementRequest : Type 0 where
  healthz readyz metrics catalog state : ManagementRequest
  console_state : Option ConsoleStateCursor → ManagementRequest
  prepare : PrepareScenarioRequest → ManagementRequest
  confirm cancel : TokenRequest → ManagementRequest
  clear : ClearScenarioRequest → ManagementRequest

-- A `Result` with a `ParseError`, or the end of the process at an `unreachable!`.
pub data Checked (A : Type 0) : Type 0 where
  ok : A → Checked A
  err : ParseError → Checked A
  panicked : Checked A

infixl 5 ◌>>=◌ ◌>>◌
abbrev pub ◌>>=◌ : {A B : Type 0} → Checked A → (A → Checked B) → Checked B
ok a >>= f = f a
err e >>= f = err e
panicked >>= f = panicked

abbrev pub ◌>>◌ : {B : Type 0} → Checked (Unit {0}) → Checked B → Checked B
m >> k = m >>= λ _. k

abbrev pub guard : Bool → ParseError → Checked (Unit {0})
guard true e = ok tt
guard false e = err e

abbrev pub ok_or : {A : Type 0} → Option A → ParseError → Checked A
ok_or none e = err e
ok_or (some a) e = ok a

pub guard-ok :
    {B : Type 0} (b : Bool) (e : ParseError) (k : Checked B) (r : B)
    → (guard b e >> k) ≡ ok r
    → (b ≡ true) × (k ≡ ok r)
guard-ok true e k r h = (refl, h)
guard-ok false e k r h = absurd (ground (arith, h))

pub >>=-eq-ok :
    {A B : Type 0} (m : Checked A) (f : A → Checked B) (b : B)
    → (m >>= f) ≡ ok b
    → (a : A) × (m ≡ ok a) × (f a ≡ ok b)
>>=-eq-ok (ok a) f b h = (a, refl, h)
>>=-eq-ok (err e) f b h = cc
>>=-eq-ok panicked f b h = cc

pub ok_or-ok : {A : Type 0} (o : Option A) (e : ParseError) (a : A) → ok_or o e ≡ ok a → o ≡ some a
ok_or-ok none e a h = cc
ok_or-ok (some x) e a h = cc
