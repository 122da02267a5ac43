-- ===== src/Config/Ranges.antt =====
-- What a profile that src/config.rs compiles is like.
use c37_118_simulator.Prelude.{
  ℕ, zero, suc, ◌+◌, ◌-◌, ◌%◌, ◌≤◌, ◌≡◌, refl, ap, subst, List, [], ◌∷◌, length, arith,
}
use c37_118_simulator.Prelude.Text.{Bytes, codes}
use c37_118_simulator.Server.Connection.{WireVersion}
use c37_118_simulator.Config.{
  Floats, RawLimits, Fleet, Profile, Configured, ok, >>=-eq-ok, ◌>>=◌, validate_limits,
  final_identifier, encoded_name,
}
use c37_118_simulator.Config.Compile.{
  EndpointDescriptor, CompiledProfile, Shared, validate_ranges, endpoint_at, endpoints_from,
  validate_fleet, shared_of, compiled, compile_profile,
}

-- The endpoint at `i`: each address is the first of its range and `i`, and is one that may be used.
pub record IsAt (fleet : Fleet) (i : ℕ) (e : EndpointDescriptor) : Type 0 where
  pub index : e.index ≡ i
  pub port : e.port ≡ fleet.first_listen_port + i
  pub stream : e.stream_id ≡ fleet.first_stream_id + i
  pub pmu : e.pmu_id ≡ fleet.first_pmu_id + i
  pub rate : e.data_rate_hz ≡ fleet.data_rate_hz
  pub base : e.time_base ≡ fleet.time_base

abbrev pub AllAt : Fleet → ℕ → List EndpointDescriptor → Type 0
AllAt fleet i [] = Unit {0}
AllAt fleet i (e ∷ es) = IsAt fleet i e × AllAt fleet (i + 1) es

ok_inj : {A : Type 0} {a b : A} → ok a ≡ ok b → a ≡ b
ok_inj h = cc

endpoint_at-IsAt :
    (p : Profile) (s : Shared) (i : ℕ) (e : EndpointDescriptor)
    → endpoint_at p s i ≡ ok e
    → IsAt p.fleet i e
unfolding endpoint_at
endpoint_at-IsAt p s i e h = ground (arith, h)

endpoints_from-AllAt :
    (p : Profile) (s : Shared) (n i : ℕ) (es : List EndpointDescriptor)
    → endpoints_from p s n i ≡ ok es
    → AllAt p.fleet i es × (length es ≡ n)
unfolding endpoints_from
endpoints_from-AllAt p s zero i es h =
    subst (λ es'. AllAt p.fleet i es' × (length es' ≡ 0)) (ok_inj h) (tt, refl)
endpoints_from-AllAt p s (suc n) i es h =
    let (e, h₁, k) =
      >>=-eq-ok (endpoint_at p s i) (λ e. endpoints_from p s n (i + 1) >>= λ rest. ok (e ∷ rest)) es
        h in
    let (rest, h₂, k₂) = >>=-eq-ok (endpoints_from p s n (i + 1)) (λ rest. ok (e ∷ rest)) es k in
    let (tail, long) = endpoints_from-AllAt p s n (i + 1) rest h₂ in
    subst (λ es'. AllAt p.fleet i es' × (length es' ≡ suc n)) (ok_inj k₂)
      ((endpoint_at-IsAt p s i e h₁, tail), ap suc long)

pub record Fits (fleet : Fleet) : Type 0 where
  pub ports : (1 ≤ fleet.first_listen_port) × (fleet.first_listen_port + (fleet.count - 1) ≤ 65535)
  pub streams : (1 ≤ fleet.first_stream_id) × (fleet.first_stream_id + (fleet.count - 1) ≤ 65534)
  pub pmus : (1 ≤ fleet.first_pmu_id) × (fleet.first_pmu_id + (fleet.count - 1) ≤ 65534)

validate_ranges-Fits : (fleet : Fleet) (n : ℕ) → validate_ranges fleet ≡ ok n → Fits fleet
unfolding validate_ranges final_identifier
validate_ranges-Fits fleet n h = ground (arith, h)

pub record Sane (fleet : Fleet) (most : ℕ) : Type 0 where
  pub counted : (1 ≤ fleet.count) × (fleet.count ≤ most)
  pub rate : fleet.data_rate_hz ≡ 50
  pub base : (1 ≤ fleet.time_base) × (fleet.time_base ≤ 0xFFFFFF) × (fleet.time_base % 50 ≡ 0)

validate_fleet-Sane :
    (f : Floats) (fleet : Fleet) (most : ℕ) (v : WireVersion)
    → validate_fleet f fleet most ≡ ok v
    → Sane fleet most
unfolding validate_fleet
validate_fleet-Sane f fleet most v h =
    let rate : fleet.data_rate_hz ≡ 50 = ground (arith, h) in
    let whole : fleet.time_base % fleet.data_rate_hz ≡ 0 = ground (arith, h) in
    record {
      counted = ground (arith, h);
      rate = rate;
      base = (
        ground (arith, h),
        ground (arith, h),
        subst (λ (r : ℕ). fleet.time_base % r ≡ 0) rate whole,
      );
    }

validate_limits-ok :
    (limits : RawLimits) (u : Unit {0})
    → validate_limits limits ≡ ok u
    → (limits.max_logical_pmus ≤ 150)
      × (18 ≤ limits.max_command_frame_bytes)
      × (limits.max_command_frame_bytes ≤ 4096)
unfolding validate_limits
validate_limits-ok limits u h = ground (arith, h)

-- What a profile that compiles has been, and what it has become.
pub record Compiled (p : Profile) (c : CompiledProfile) : Type 0 where
  pub sized : length c.endpoints ≡ p.fleet.count
  pub placed : AllAt p.fleet 0 c.endpoints
  pub sane : Sane p.fleet 150
  pub permitted : p.fleet.count ≤ p.limits.max_logical_pmus
  pub fits : Fits p.fleet
  pub commands : (18 ≤ c.limits.command_frame_bytes) × (c.limits.command_frame_bytes ≤ 4096)

-- A profile that compiles has from 1 to 150 endpoints, no more than its own limit, at the ports,
-- stream and PMU identifiers that count up from the first ones: no port is zero or above 65535, no
-- identifier zero or above 65534. They report 50 times a second, with a time base of 24 bits that 50 divides, and the limit on
-- commands is from 18 to 4096 bytes.
pub compile_profile-Compiled :
    (f : Floats) (p : Profile) (c : CompiledProfile) → compile_profile f p ≡ ok c → Compiled p c
unfolding compile_profile
compile_profile-Compiled f p c h =
    let (u, limited, h₁) =
      >>=-eq-ok (validate_limits p.limits)
        (λ _. validate_fleet f p.fleet p.limits.max_logical_pmus >>= λ version. after_fleet version)
        c h in
    let (version, checked, h₂) =
      >>=-eq-ok (validate_fleet f p.fleet p.limits.max_logical_pmus)
        (λ version. after_fleet version) c h₁ in
    let (port, ranged, h₃) = >>=-eq-ok (validate_ranges p.fleet) (λ _. after_ranges version) c h₂ in
    let (name, named, h₄) =
      >>=-eq-ok (encoded_name p.fleet.pdc_name (codes "fleet.pdc_name"))
        (λ name. after_name version name) c h₃ in
    let (shared, tables, h₅) =
      >>=-eq-ok (shared_of f version p.fleet name) (λ shared. after_shared shared) c h₄ in
    let (es, made, h₆) =
      >>=-eq-ok (endpoints_from p shared p.fleet.count 0) (λ es. ok (compiled p es)) c h₅ in
    let (placed, long) = endpoints_from-AllAt p shared p.fleet.count 0 es made in
    let (few, low, high) = validate_limits-ok p.limits u limited in
    let sane = validate_fleet-Sane f p.fleet p.limits.max_logical_pmus version checked in
    subst (Compiled p) (ok_inj h₆) (record {
      sized = long;
      placed = placed;
      sane = record {
        counted = (sane.counted.0, omega (arith, few, sane.counted.1));
        rate = sane.rate;
        base = sane.base;
      };
      permitted = sane.counted.1;
      fits = validate_ranges-Fits p.fleet port ranged;
      commands = (low, high);
    })
  where
    after_shared : Shared → Configured CompiledProfile
    after_shared shared = do
      endpoints ← endpoints_from p shared p.fleet.count 0
      ok (compiled p endpoints)

    after_name : WireVersion → Bytes → Configured CompiledProfile
    after_name version name = do shared ← shared_of f version p.fleet name; after_shared shared

    after_ranges : WireVersion → Configured CompiledProfile
    after_ranges version = do
      name ← encoded_name p.fleet.pdc_name (codes "fleet.pdc_name")
      after_name version name

    after_fleet : WireVersion → Configured CompiledProfile
    after_fleet version = do port ← validate_ranges p.fleet; after_ranges version
