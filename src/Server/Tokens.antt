-- ===== src/Server/Tokens.antt =====
-- The tokens of src/server.rs that tell one event source from another, on a 64-bit platform.
use c37_118_simulator.Prelude.{
  ℕ, ◌+◌, ◌-◌, ◌*◌, ◌/◌, ◌%◌, ◌^◌, ◌≤◌, ◌<◌, ◌≡◌, ap, ◌∙◌, Option, none, some, arith, ltb, leb,
  ◌==◌, if◌then◌else◌,
}
use native.Mathlib.Nat.{mul-add-div_right, div-eq_of_lt, mul-add-mod_self_right, mod-eq_of_lt}
use c37_118_simulator.Scenario.Types.{max_u64}

abbrev pub pdc_slots_per_endpoint : ℕ
pdc_slots_per_endpoint = 2

abbrev pub management_connection_limit : ℕ
management_connection_limit = 8

-- `usize::MAX / 2 + 1`
abbrev pub management_token_base : ℕ
management_token_base = 2 ^ 63

pub data EventTarget : Type 0 where
  listener : ℕ → EventTarget
  connection : ℕ → ℕ → ℕ → EventTarget
  management_listener : EventTarget
  management_connection : ℕ → ℕ → EventTarget

abbrev pub bind_option : {A B : Type 0} → Option A → (A → Option B) → Option B
bind_option none f = none
bind_option (some a) f = f a

infixl 5 ◌>>=◌
abbrev pub ◌>>=◌ : {A B : Type 0} → Option A → (A → Option B) → Option B
m >>= f = bind_option m f

-- The checked operations of `usize`.
abbrev pub checked_add : ℕ → ℕ → Option ℕ
checked_add a b = if leb (a + b) max_u64 then some (a + b) else none

abbrev pub checked_mul : ℕ → ℕ → Option ℕ
checked_mul a b = if leb (a * b) max_u64 then some (a * b) else none

abbrev pub checked_sub : ℕ → ℕ → Option ℕ
checked_sub a b = if leb b a then some (a - b) else none

unfoldable pub listener_token : ℕ → ℕ
listener_token index = index

-- An error is none here: it says which bound was passed.
unfoldable pub connection_token : ℕ → ℕ → ℕ → ℕ → Option ℕ
connection_token endpoint_count endpoint_index slot_index connection_id = do
  a ← checked_mul connection_id endpoint_count
  b ← checked_add a endpoint_index
  c ← checked_mul b pdc_slots_per_endpoint
  d ← checked_add c slot_index
  token ← checked_add d endpoint_count
  if leb management_token_base token then none else some token

unfoldable pub management_connection_token : ℕ → ℕ → Option ℕ
management_connection_token slot_index connection_id = do
  a ← checked_sub connection_id 1
  b ← checked_mul a management_connection_limit
  c ← checked_add b slot_index
  encoded ← checked_add c 1
  checked_add management_token_base encoded

abbrev pub pdc_target : ℕ → ℕ → Option EventTarget
pdc_target encoded endpoint_count =
    let endpoint_and_connection = encoded / pdc_slots_per_endpoint in
    let connection_id = endpoint_and_connection / endpoint_count in
    if connection_id == 0
    then none
    else some (
        connection (endpoint_and_connection % endpoint_count) (encoded % pdc_slots_per_endpoint)
          connection_id)

abbrev pub management_target : ℕ → EventTarget
management_target encoded =
    management_connection (encoded % management_connection_limit)
      (encoded / management_connection_limit + 1)

unfoldable pub event_target : ℕ → ℕ → Option EventTarget
event_target token endpoint_count =
    if token == management_token_base
    then some management_listener
    else if ltb management_token_base token
    then (checked_sub token (management_token_base + 1) >>= λ encoded.
        some (management_target encoded))
    else if ltb token endpoint_count
    then some (listener token)
    else if endpoint_count == 0
    then none
    else (checked_sub token endpoint_count >>= λ encoded. pdc_target encoded endpoint_count)

connection_token-eq-some :
    (n e s k t : ℕ)
    → connection_token n e s k ≡ some t
    → (t ≡ (k * n + e) * 2 + s + n) × (t < management_token_base)
unfolding connection_token
connection_token-eq-some n e s k t h = ground arith

div-mod-pair : (k n e : ℕ) → e < n → ((k * n + e) / n ≡ k) × ((k * n + e) % n ≡ e)
div-mod-pair k n e h = (
  mul-add-div_right (omega arith) k e ∙ omega (arith, div-eq_of_lt h),
  mul-add-mod_self_right k n e ∙ mod-eq_of_lt h,
)

half : (x s : ℕ) → s < 2 → ((x * 2 + s) / 2 ≡ x) × ((x * 2 + s) % 2 ≡ s)
half x s h = (omega arith, omega arith)

pdc_target_lem :
    (n e s k : ℕ)
    → e < n
    → s < 2
    → 0 < k
    → pdc_target ((k * n + e) * 2 + s) n ≡ some (connection e s k)
pdc_target_lem n e s k he hs hk =
    rw
      (
        (half (k * n + e) s hs).0,
        (half (k * n + e) s hs).1,
        (div-mod-pair k n e he).0,
        (div-mod-pair k n e he).1,
      )
      (ground arith)

-- A connection of an endpoint is found again from its token.
pub event_target-connection_token :
    (endpoint_count endpoint_index slot_index connection_id token : ℕ)
    → endpoint_index < endpoint_count
    → slot_index < 2
    → 0 < connection_id
    → connection_token endpoint_count endpoint_index slot_index connection_id ≡ some token
    → event_target token endpoint_count ≡ some (connection endpoint_index slot_index connection_id)
unfolding event_target
event_target-connection_token n e s k t he hs hk h =
    let (value, low) = connection_token-eq-some n e s k t h in
    let encoded : t - n ≡ (k * n + e) * 2 + s = omega (arith, value) in
    ground (arith, value, low, ap (λ x. pdc_target x n) encoded ∙ pdc_target_lem n e s k he hs hk)

-- A management connection is found again from its token.
pub event_target-management_connection_token :
    (endpoint_count slot_index connection_id token : ℕ)
    → slot_index < 8
    → 0 < connection_id
    → management_connection_token slot_index connection_id ≡ some token
    → event_target token endpoint_count ≡ some (management_connection slot_index connection_id)
unfolding event_target management_connection_token
event_target-management_connection_token n s k t hs hk h = ground arith

-- An endpoint's listener is found again from its token, where there are no more endpoints than
-- tokens below the management plane.
pub event_target-listener_token :
    (endpoint_count index : ℕ)
    → index < endpoint_count
    → endpoint_count ≤ management_token_base
    → event_target (listener_token index) endpoint_count ≡ some (listener index)
unfolding event_target listener_token
event_target-listener_token n i h b = ground arith
