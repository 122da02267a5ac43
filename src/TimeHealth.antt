-- ===== src/TimeHealth.antt =====
-- The monitor of src/time_health.rs. A `SystemTime` is its nanoseconds after the Unix epoch, or
-- before it; the contents of a file are its bytes, or nothing where it cannot be read.
pub mod Tests
use c37_118_simulator.Prelude.{
  ℕ, ◌+◌, ◌-◌, ◌≤◌, ◌<◌, ◌≡◌, ◌↔◌, refl, Bool, true, false, not, ◌&&◌, ◌||◌, Option, none, some,
  List, [], ◌∷◌, ◌++◌, arith, ltb, ◌==◌, if◌then◌else◌,
}
use c37_118_simulator.Scenario.Types.{Text, text_eqb}

pub data SystemTime : Type 0 where
  since_epoch before_epoch : ℕ → SystemTime

pub data TimeSynchronizationSource : Type 0 where
  always_verified unverified : TimeSynchronizationSource
  file : Option Text → TimeSynchronizationSource

abbrev pub is_ascii_whitespace : ℕ → Bool
is_ascii_whitespace b = b == 32 || b == 9 || b == 10 || b == 12 || b == 13

abbrev pub trim_start : Text → Text
trim_start [] = []
trim_start (b ∷ bs) = let rest = trim_start bs in if is_ascii_whitespace b then rest else b ∷ bs

abbrev pub trim_end : Text → Text
trim_end [] = []
trim_end (b ∷ bs) = elim (trim_end bs) [
  | [] ↦ if is_ascii_whitespace b then [] else b ∷ []
  | c ∷ cs ↦ b ∷ c ∷ cs
]

abbrev pub verified_text : Text
verified_text = b'v' ∷ b'e' ∷ b'r' ∷ b'i' ∷ b'f' ∷ b'i' ∷ b'e' ∷ b'd' ∷ []

unfoldable pub file_contents_are_verified : Text → Bool
file_contents_are_verified contents = text_eqb (trim_end (trim_start contents)) verified_text

unfoldable pub is_verified : TimeSynchronizationSource → Bool
is_verified always_verified = true
is_verified unverified = false
is_verified (file none) = false
is_verified (file (some contents)) = file_contents_are_verified contents

pub data TimeHealthState : Type 0 where
  unobserved verified synchronization_unverified material_clock_regression : TimeHealthState

unfoldable pub is_degraded : TimeHealthState → Bool
is_degraded verified = false
is_degraded state = true

pub record TimeHealthMonitor : Type 0 where
  pub reporting_interval : ℕ
  pub last_observed_wall_clock : Option SystemTime

-- `TimeHealthMonitor::new`
unfoldable pub new_monitor : ℕ → TimeHealthMonitor
new_monitor interval = record { reporting_interval = interval; last_observed_wall_clock = none }

-- How far `now` lies behind `last`: the duration in the error of `duration_since`.
abbrev pub behind : SystemTime → SystemTime → ℕ
behind (since_epoch now) (since_epoch last) = last - now
behind (before_epoch now) (since_epoch last) = last + now
behind (since_epoch now) (before_epoch last) = 0
behind (before_epoch now) (before_epoch last) = now - last

abbrev pub is_before_epoch : SystemTime → Bool
is_before_epoch (since_epoch n) = false
is_before_epoch (before_epoch n) = ltb 0 n

unfoldable pub has_material_clock_regression : TimeHealthMonitor → SystemTime → Bool
has_material_clock_regression m now = elim m.last_observed_wall_clock [
  | none ↦ false
  | some last ↦ ltb m.reporting_interval (behind now last)
]

unfoldable pub observe_boundary :
    TimeHealthMonitor → SystemTime → Bool → TimeHealthMonitor × TimeHealthState
observe_boundary m now synchronization_verified = (
  record m { last_observed_wall_clock = some now },
  if is_before_epoch now || not synchronization_verified
      then synchronization_unverified
      else if has_material_clock_regression m now
      then material_clock_regression
      else verified,
)

-- Of two boundaries in a row, whose synchronization is verified and whose clocks are not before the
-- epoch, the second is degraded exactly where the clock went back by more than the interval.
pub observe_boundary_regression :
    (m : TimeHealthMonitor) (first second : ℕ)
    → (is_degraded
          (observe_boundary
            (observe_boundary m (since_epoch first) true).0
            (since_epoch second)
            true).1
        ≡ true)
      ↔ (second + m.reporting_interval < first)
unfolding observe_boundary has_material_clock_regression is_degraded
observe_boundary_regression m first second = ground arith
