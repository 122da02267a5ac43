-- ===== src/Server/Clock.antt =====
-- The clocks of src/server.rs: `Scheduler` and `WallClock`. Durations are nanoseconds;
-- a profile has passed the checks that make the data rate and the time base positive.
pub mod Aligned
use c37_118_simulator.Prelude.{
  ℕ, ◌+◌, ◌-◌, ◌*◌, ◌/◌, ◌%◌, ◌^◌, ◌≤◌, ◌<◌, ◌≡◌, min, Option, none, some, arith, ltb, leb, ◌==◌,
  if◌then◌else◌,
}
use native.Mathlib.Nat.{div-add-mod', mod-lt}
use c37_118_simulator.Scenario.Types.{Instant, max_u64}
use c37_118_simulator.Wire.Frame.{Timestamp}

abbrev pub nanos_per_second : ℕ
nanos_per_second = 1000000000

abbrev pub max_u32 : ℕ
max_u32 = 2 ^ 32 - 1

pub record Scheduler : Type 0 where
  pub started : Instant
  pub data_rate_hz : ℕ
  pub next_sample_index : ℕ

unfoldable pub sample_offset : ℕ → ℕ → ℕ
sample_offset sample_index data_rate_hz =
    min ((sample_index * nanos_per_second) / data_rate_hz) max_u64

unfoldable pub timeout : Scheduler → Instant → ℕ
timeout s now = (s.started + sample_offset s.next_sample_index s.data_rate_hz) - now

unfoldable pub current_index : Scheduler → Instant → ℕ
current_index s now = min (((now - s.started) * s.data_rate_hz) / nanos_per_second) max_u64

-- What `take_due` changes: the scheduler, the count of skipped ticks, and the sample that is due.
pub record Due : Type 0 where
  pub scheduler : Scheduler
  pub skipped_ticks : ℕ
  pub sample : Option ℕ

unfoldable pub take_due : Scheduler → Instant → ℕ → Due
take_due s now skipped_ticks =
    let index = current_index s now in
    if ltb index s.next_sample_index
    then record { scheduler = s; skipped_ticks = skipped_ticks; sample = none }
    else record {
      scheduler = record s { next_sample_index = min (index + 1) max_u64 };
      skipped_ticks = (skipped_ticks + (index - s.next_sample_index)) % 2 ^ 64;
      sample = some index;
    }

pub record WallClock : Type 0 where
  pub first_timestamp : Timestamp
  pub ticks_per_frame : ℕ
  pub time_base : ℕ

unfoldable pub timestamp_for_sample : WallClock → ℕ → Timestamp
timestamp_for_sample w sample_index =
    let total_ticks =
      (w.first_timestamp.fracsec + min (sample_index * w.ticks_per_frame) max_u64) % 2 ^ 64 in
    record {
      soc = min (w.first_timestamp.soc + (total_ticks / w.time_base) % 2 ^ 32) max_u32;
      fracsec = total_ticks % w.time_base;
    }

unfoldable pub aligned_ticks : ℕ → ℕ → ℕ → ℕ
aligned_ticks now data_rate_hz time_base =
    let ticks_per_frame = time_base / data_rate_hz in
    let total_ticks =
      (min (now / nanos_per_second * time_base) max_u64
        + ((now % nanos_per_second) * time_base) / nanos_per_second)
      % 2 ^ 64 in
    min ((total_ticks / ticks_per_frame + 1) * ticks_per_frame) max_u64

-- Seconds beyond a `u32` are refused.
unfoldable pub aligned_timestamp : ℕ → ℕ → ℕ → Option Timestamp
aligned_timestamp now data_rate_hz time_base =
    let next_ticks = aligned_ticks now data_rate_hz time_base in
    let seconds = next_ticks / time_base in
    if leb seconds max_u32
    then some (record { soc = seconds; fracsec = next_ticks % time_base })
    else none

abbrev pub div_ceil : ℕ → ℕ → ℕ
div_ceil a b = if a % b == 0 then a / b else a / b + 1

unfoldable pub delay_until_timestamp : ℕ → Timestamp → ℕ → ℕ
delay_until_timestamp now timestamp time_base =
    let target_ticks = timestamp.soc * time_base + timestamp.fracsec in
    let target_nanos = div_ceil (target_ticks * nanos_per_second) time_base in
    min (target_nanos - now) max_u64

-- The last sample whose time has come, where its index fits.
current_index_due :
    (s : Scheduler) (now : Instant)
    → (now - s.started) * s.data_rate_hz < max_u64 * nanos_per_second
    → (current_index s now * nanos_per_second ≤ (now - s.started) * s.data_rate_hz)
      × ((now - s.started) * s.data_rate_hz < (current_index s now + 1) * nanos_per_second)
unfolding current_index
current_index_due s now room = (omega (arith, room), omega (arith, room))

-- What a call of `take_due` leaves: no sample, or the sample `i`.
abbrev pub Takes : Scheduler → Instant → ℕ → Due → Option ℕ → Type 0
Takes s now skipped d none =
    ((now - s.started) * s.data_rate_hz < s.next_sample_index * nanos_per_second)
    × (d.scheduler ≡ s)
    × (d.skipped_ticks ≡ skipped)
Takes s now skipped d (some i) =
    (s.next_sample_index ≤ i)
    × (i * nanos_per_second ≤ (now - s.started) * s.data_rate_hz)
    × ((now - s.started) * s.data_rate_hz < (i + 1) * nanos_per_second)
    × (d.skipped_ticks + s.next_sample_index ≡ skipped + i)
    × (d.scheduler ≡ record s { next_sample_index = i + 1 })

-- Where no sample is handed out, the next one is not due yet, and nothing changes. A sample that is
-- handed out comes after all that were, its time has come and that of the sample after it has not;
-- the ticks passed over are counted, and the next sample to hand out is the one after it. The
-- count so far and the samples due by now come to less than the greatest `u64`.
pub take_due_lem :
    (s : Scheduler) (now : Instant) (skipped : ℕ)
    → skipped * nanos_per_second + (now - s.started) * s.data_rate_hz < max_u64 * nanos_per_second
    → Takes s now skipped (take_due s now skipped) (take_due s now skipped).sample
unfolding take_due
take_due_lem s now skipped room =
    let (due, last) = current_index_due s now (omega (arith, room)) in
    ground (arith, due, last, room)

-- The ticks since the epoch of the timestamp of a sample are those of the first timestamp and one
-- frame's for each sample after it, and its fraction is less than a second, where the ticks fit a
-- `u64` and the seconds a `u32`.
pub timestamp_for_sample_lem :
    (w : WallClock) (i : ℕ)
    → 0 < w.time_base
    → w.first_timestamp.fracsec + i * w.ticks_per_frame ≤ max_u64
    → w.first_timestamp.soc + (w.first_timestamp.fracsec + i * w.ticks_per_frame) / w.time_base
      ≤ max_u32
    → ((timestamp_for_sample w i).soc * w.time_base + (timestamp_for_sample w i).fracsec
        ≡ w.first_timestamp.soc * w.time_base + w.first_timestamp.fracsec + i * w.ticks_per_frame)
      × ((timestamp_for_sample w i).fracsec < w.time_base)
unfolding timestamp_for_sample
timestamp_for_sample_lem w i base fits small =
    let total : (w.first_timestamp.fracsec + min (i * w.ticks_per_frame) max_u64) % 2 ^ 64
        ≡ w.first_timestamp.fracsec + i * w.ticks_per_frame =
      omega arith in
    let whole : min
          (w.first_timestamp.soc
            + (w.first_timestamp.fracsec + i * w.ticks_per_frame) / w.time_base % 2 ^ 32)
          max_u32
        ≡ w.first_timestamp.soc
          + (w.first_timestamp.fracsec + i * w.ticks_per_frame) / w.time_base =
      omega (arith, small) in
    rw (total, whole)
      (
        grind (arith, div-add-mod' (w.first_timestamp.fracsec + i * w.ticks_per_frame) w.time_base),
        mod-lt (w.first_timestamp.fracsec + i * w.ticks_per_frame) base,
      )
