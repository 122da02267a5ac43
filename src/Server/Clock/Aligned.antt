-- ===== src/Server/Clock/Aligned.antt =====
-- Where `WallClock` of src/server.rs begins: on the first frame after now (`aligned_start`).
use c37_118_simulator.Prelude.{
  ℕ, ◌+◌, ◌-◌, ◌*◌, ◌/◌, ◌%◌, ◌^◌, ◌≤◌, ◌<◌, ◌≡◌, ap, ◌∙◌, min, some, arith, ◌==◌, Bool-cases, inl,
  inr,
}
use native.Mathlib.Nat.{div-add-mod', mod-lt, div-le_self, mul-mod_left, lt_of_mul-lt-mul_right}
use c37_118_simulator.Scenario.Types.{max_u64}
use c37_118_simulator.Wire.Frame.{Timestamp}
use c37_118_simulator.Server.Clock.{
  nanos_per_second, div_ceil, delay_until_timestamp, aligned_ticks, aligned_timestamp,
}

-- The ticks that have passed, whole seconds and the rest of one apart.
ticks : ℕ → ℕ → ℕ
ticks now time_base =
    now / nanos_per_second * time_base + ((now % nanos_per_second) * time_base) / nanos_per_second

rearranged :
    (q r t now : ℕ) → q * nanos_per_second + r ≡ now → now * t ≡ q * t * nanos_per_second + r * t
rearranged q r t now h = omega (arith, ap (λ (x : ℕ). x * t) h)

ticks_bounds :
    (now time_base : ℕ)
    → (ticks now time_base * nanos_per_second ≤ now * time_base)
      × (now * time_base < (ticks now time_base + 1) * nanos_per_second)
unfolding ticks
ticks_bounds now time_base =
    let split : now * time_base
        ≡ now / nanos_per_second * time_base * nanos_per_second
          + (now % nanos_per_second) * time_base =
      rearranged (now / nanos_per_second) (now % nanos_per_second) time_base now
        (div-add-mod' now nanos_per_second) in
    (omega (arith, split), omega (arith, split))

-- The ticks of the next frame, where nothing saturates.
aligned_ticks_lem :
    (now data_rate_hz time_base : ℕ)
    → now * time_base + time_base / data_rate_hz * nanos_per_second ≤ max_u64 * nanos_per_second
    → aligned_ticks now data_rate_hz time_base
      ≡ (ticks now time_base / (time_base / data_rate_hz) + 1) * (time_base / data_rate_hz)
unfolding aligned_ticks ticks
aligned_ticks_lem now data_rate_hz time_base room =
    let total = ticks now time_base in
    let frame = time_base / data_rate_hz in
    let (low, high) = ticks_bounds now time_base in
    let exact : (min (now / nanos_per_second * time_base) max_u64
            + ((now % nanos_per_second) * time_base) / nanos_per_second)
          % 2 ^ 64
        ≡ total =
      omega (arith, room, low) in
    let fits : (total / frame + 1) * frame ≤ max_u64 =
      omega (arith, room, low, div-add-mod' total frame) in
    rw exact (omega (arith, fits))

abbrev pub ticks_of : Timestamp → ℕ → ℕ
ticks_of t time_base = t.soc * time_base + t.fracsec

aligned_timestamp-ticks :
    (now data_rate_hz time_base : ℕ) (t : Timestamp)
    → 0 < time_base
    → aligned_timestamp now data_rate_hz time_base ≡ some t
    → (ticks_of t time_base ≡ aligned_ticks now data_rate_hz time_base) × (t.fracsec < time_base)
unfolding aligned_timestamp
aligned_timestamp-ticks now data_rate_hz time_base t base h = ground (
  arith,
  h,
  div-add-mod' (aligned_ticks now data_rate_hz time_base) time_base,
  mod-lt (aligned_ticks now data_rate_hz time_base) base,
)

div_ceil_bounds : (a b : ℕ) → 0 < b → (a ≤ div_ceil a b * b) × (div_ceil a b * b < a + b)
div_ceil_bounds a b pos =
    let whole = div-add-mod' a b in
    let part = mod-lt a pos in
    elim (Bool-cases (a % b == 0)) [
      | inl e ↦ rw e (ground (arith, e, whole, pos), ground (arith, e, whole, pos))
      | inr e ↦ rw e (ground (arith, e, whole, part), ground (arith, e, whole, part))
    ]

-- The wait ends in the first nanosecond that is not before the timestamp.
delay_until_timestamp_lem :
    (now time_base : ℕ) (t : Timestamp)
    → 0 < time_base
    → now * time_base < ticks_of t time_base * nanos_per_second
    → ticks_of t time_base * nanos_per_second ≤ now * time_base + time_base * nanos_per_second
    → (ticks_of t time_base * nanos_per_second
        ≤ (now + delay_until_timestamp now t time_base) * time_base)
      × ((now + delay_until_timestamp now t time_base) * time_base
          < ticks_of t time_base * nanos_per_second + time_base)
unfolding delay_until_timestamp
delay_until_timestamp_lem now time_base t base after near =
    let target = div_ceil (ticks_of t time_base * nanos_per_second) time_base in
    let (low, high) = div_ceil_bounds (ticks_of t time_base * nanos_per_second) time_base base in
    let later : now < target = lt_of_mul-lt-mul_right time_base (omega (arith, after, low)) in
    let soon : target < now + nanos_per_second + 1 =
      lt_of_mul-lt-mul_right time_base (omega (arith, high, near)) in
    let reached : now + min (target - now) max_u64 ≡ target = omega (arith, later, soon) in
    rw reached (low, high)

aligned_timestamp_lem :
    (now data_rate_hz time_base : ℕ) (t : Timestamp)
    → 0 < time_base / data_rate_hz
    → now * time_base + time_base / data_rate_hz * nanos_per_second ≤ max_u64 * nanos_per_second
    → aligned_timestamp now data_rate_hz time_base ≡ some t
    → (ticks_of t time_base % (time_base / data_rate_hz) ≡ 0)
      × (now * time_base < ticks_of t time_base * nanos_per_second)
      × (ticks_of t time_base * nanos_per_second
          ≤ now * time_base + time_base / data_rate_hz * nanos_per_second)
      × (t.fracsec < time_base)
aligned_timestamp_lem now data_rate_hz time_base t pos room h =
    let frame = time_base / data_rate_hz in
    let total = ticks now time_base in
    let base : 0 < time_base = omega (arith, pos, div-le_self time_base data_rate_hz) in
    let (read, small) = aligned_timestamp-ticks now data_rate_hz time_base t base h in
    let next = read ∙ aligned_ticks_lem now data_rate_hz time_base room in
    let (low, high) = ticks_bounds now time_base in
    let whole = div-add-mod' total frame in
    let part = mod-lt total pos in
    (
      ap (λ (n : ℕ). n % frame) next ∙ mul-mod_left (total / frame + 1) frame,
      omega (arith, next, low, high, whole, part),
      omega (arith, next, low, high, whole, part),
      small,
    )

-- The timestamp that the clock of a process begins with is a whole number of frames, later than now
-- and by at most a frame, with a fraction below a second; and the wait for its first sample ends in
-- the first nanosecond that is not before it. A frame has a tick, and the ticks fit a `u64`.
pub aligned_start_lem :
    (now data_rate_hz time_base : ℕ) (t : Timestamp)
    → 0 < time_base / data_rate_hz
    → now * time_base + time_base / data_rate_hz * nanos_per_second ≤ max_u64 * nanos_per_second
    → aligned_timestamp now data_rate_hz time_base ≡ some t
    → (ticks_of t time_base % (time_base / data_rate_hz) ≡ 0)
      × (now * time_base < ticks_of t time_base * nanos_per_second)
      × (ticks_of t time_base * nanos_per_second
          ≤ now * time_base + time_base / data_rate_hz * nanos_per_second)
      × (t.fracsec < time_base)
      × (ticks_of t time_base * nanos_per_second
          ≤ (now + delay_until_timestamp now t time_base) * time_base)
      × ((now + delay_until_timestamp now t time_base) * time_base
          < ticks_of t time_base * nanos_per_second + time_base)
aligned_start_lem now data_rate_hz time_base t pos room h =
    let (framed, after, near, small) =
      aligned_timestamp_lem now data_rate_hz time_base t pos room h in
    let frame_le = div-le_self time_base data_rate_hz in
    let (reached, soon) =
      delay_until_timestamp_lem now time_base t (omega (arith, pos, frame_le)) after
        (omega (arith, near, frame_le)) in
    (framed, after, near, small, reached, soon)
