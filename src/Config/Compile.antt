-- ===== src/Config/Compile.antt =====
-- `compile_profile` of src/config.rs: from a profile to the endpoints of the fleet.
use c37_118_simulator.Prelude.{
  ℕ, zero, suc, ◌+◌, ◌-◌, ◌*◌, ◌/◌, ◌%◌, ◌^◌, bit_and, bit_or, bit_xor, Bool, true, false, not,
  ◌||◌, Option, none, some, List, [], ◌∷◌, ◌++◌, length, replicate, set, get_or, leb, ◌==◌,
}
use c37_118_simulator.Prelude.Text.{Bytes, codes}
use c37_118_simulator.Prelude.Decimal.{decimal}
use c37_118_simulator.Server.Connection.{WireVersion, v2, v3}
use c37_118_simulator.Config.{
  Floats, SignalRecipe, PhasorRecipe, Fleet, Profile, Configured, ok, guard, ok_or, expect, ◌>>=◌,
  ◌>>◌, count_out_of_range, data_rate_not_50, time_base_too_large, time_base_not_multiple,
  nominal_frequency_unknown, count_too_large, port_overflow, port_zero, index_too_large,
  identifier_overflow, is_within, version_of, checked_add_u16, validate_limits, final_identifier,
  encoded_name, v2_fixed_ascii, contains_id, validate_v2_good_stat_pmu_ids, validate_recipes,
  v2_phunit,
}

-- `{:03}`
abbrev pub padded : ℕ → Bytes
padded n = replicate (3 - length (decimal n)) b'0' ++ decimal n

abbrev pub pmu_name_source : Fleet → ℕ → Bytes
pmu_name_source fleet n = fleet.pmu_name_prefix ++ padded n

abbrev pub prefix_field : Bytes
prefix_field = codes "fleet.pmu_name_prefix"

abbrev pub splitmix64 : ℕ → ℕ
splitmix64 value =
    let v₁ = (value + 0x9e3779b97f4a7c15) % 2 ^ 64 in
    let v₂ = (bit_xor v₁ (v₁ / 2 ^ 30) * 0xbf58476d1ce4e5b9) % 2 ^ 64 in
    let v₃ = (bit_xor v₂ (v₂ / 2 ^ 27) * 0x94d049bb133111eb) % 2 ^ 64 in bit_xor v₃ (v₃ / 2 ^ 31)

-- `u64::to_be_bytes`
abbrev pub be64 : ℕ → Bytes
be64 n =
    (n / 2 ^ 56 % 256)
    ∷ (n / 2 ^ 48 % 256)
    ∷ (n / 2 ^ 40 % 256)
    ∷ (n / 2 ^ 32 % 256)
    ∷ (n / 2 ^ 24 % 256)
    ∷ (n / 2 ^ 16 % 256)
    ∷ (n / 2 ^ 8 % 256)
    ∷ (n % 256)
    ∷ []

unfoldable pub deterministic_uuid : ℕ → ℕ → Bytes
deterministic_uuid seed index =
    let first = splitmix64 (bit_xor seed index) in
    let second = splitmix64 (bit_xor first 0x9e3779b97f4a7c15) in
    let identifier = be64 first ++ be64 second in
    let versioned = set identifier 6 (bit_or (bit_and (get_or identifier 6 0) 0x0f) 0x40) in
    set versioned 8 (bit_or (bit_and (get_or versioned 8 0) 0x3f) 0x80)

abbrev pub encode_all : List Bytes → Configured (List Bytes)
encode_all [] = ok []
encode_all (name ∷ names) = do
  encoded ← encoded_name name (codes "V3 channel name")
  rest ← encode_all names
  ok (encoded ∷ rest)

abbrev pub phasor_names : List Bytes
phasor_names =
    codes "VL1" ∷ codes "VL2" ∷ codes "VL3" ∷ codes "IL1" ∷ codes "IL2" ∷ codes "IL3" ∷ []

unfoldable pub standard_channel_names : Configured (List Bytes)
standard_channel_names = encode_all (phasor_names ++ codes "FREQ" ∷ codes "ROCOF" ∷ [])

abbrev pub fix_all : List Bytes → Configured (List Bytes)
fix_all [] = ok []
fix_all (name ∷ names) = do
  fixed ← v2_fixed_ascii name (codes "V2 channel name")
  rest ← fix_all names
  ok (fixed ∷ rest)

unfoldable pub standard_v2_channel_names : Configured (List Bytes)
standard_v2_channel_names = fix_all phasor_names

pub record V2EndpointMetadata : Type 0 where
  pub station_name : Bytes
  pub channel_names : List Bytes
  pub phunits : List ℕ
  pub good_stat : Bool

-- The socket address is its two parts, and the numbers of the phasors stay together.
pub record EndpointDescriptor : Type 0 where
  pub index : ℕ
  pub bind_address : ℕ
  pub port : ℕ
  pub stream_id : ℕ
  pub pmu_id : ℕ
  pub protocol_version : ℕ
  pub wire_version : WireVersion
  pub metadata : Option V2EndpointMetadata
  pub pdc_name : Bytes
  pub pmu_name : Bytes
  pub global_pmu_id : Bytes
  pub channel_names : List Bytes
  pub time_base : ℕ
  pub data_rate_hz : ℕ
  pub nominal_frequency_hz : ℕ
  pub phasors : PhasorRecipe
  pub frequency_deviation : SignalRecipe
  pub rocof : SignalRecipe

pub record Limits : Type 0 where
  pub command_frame_bytes : ℕ
  pub receive_buffer_bytes : ℕ
  pub send_buffer_bytes : ℕ

pub record CompiledProfile : Type 0 where
  pub seed : ℕ
  pub limits : Limits
  pub endpoints : List EndpointDescriptor

-- What every endpoint of the fleet shares.
pub record Shared : Type 0 where
  pub shared_version : WireVersion
  pub shared_pdc_name : Bytes
  pub shared_channel_names : List Bytes
  pub v2_channel_names : Option (List Bytes)
  pub v2_phunit_values : Option (List ℕ)

-- The last address of each range, and that none of them overflows or is reserved.
unfoldable pub validate_ranges : Fleet → Configured ℕ
validate_ranges fleet = do
  guard (leb (fleet.count - 1) 65535) count_too_large
  final_port ← ok_or (checked_add_u16 fleet.first_listen_port (fleet.count - 1)) port_overflow
  final_stream ← final_identifier fleet.first_stream_id (fleet.count - 1) (codes "STREAM_ID")
  final_pmu ← final_identifier fleet.first_pmu_id (fleet.count - 1) (codes "PMU_ID")
  guard (not ((fleet.first_listen_port == 0) || (final_port == 0))) port_zero
  ok final_port

-- The names and the identifier of the endpoint at `index`.
abbrev pub names_at : WireVersion → Profile → ℕ → Configured (Bytes × Bytes)
names_at v2 profile index = ok ([], replicate 16 0)
names_at v3 profile index = do
  name ← encoded_name (pmu_name_source profile.fleet (index + 1)) prefix_field
  ok (name, deterministic_uuid profile.seed index)

abbrev pub metadata_at :
    WireVersion → Shared → Fleet → ℕ → ℕ → Configured (Option V2EndpointMetadata)
metadata_at v3 shared fleet index pmu_id = ok none
metadata_at v2 shared fleet index pmu_id = do
  station ← v2_fixed_ascii (pmu_name_source fleet (index + 1)) prefix_field
  names ← expect shared.v2_channel_names
  phunits ← expect shared.v2_phunit_values
  ok (
      some (record {
        station_name = station;
        channel_names = names;
        phunits = phunits;
        good_stat = contains_id pmu_id fleet.v2_good_stat_pmu_ids;
      }))

-- One turn of the loop over the fleet.
unfoldable pub endpoint_at : Profile → Shared → ℕ → Configured EndpointDescriptor
endpoint_at profile shared index = do
  guard (leb index 65535) index_too_large
  port ← ok_or (checked_add_u16 profile.fleet.first_listen_port index) port_overflow
  stream_id ←
      ok_or (checked_add_u16 profile.fleet.first_stream_id index)
        (identifier_overflow (codes "STREAM_ID"))
  pmu_id ←
      ok_or (checked_add_u16 profile.fleet.first_pmu_id index)
        (identifier_overflow (codes "PMU_ID"))
  names ← names_at shared.shared_version profile index
  metadata ← metadata_at shared.shared_version shared profile.fleet index pmu_id
  ok (record {
    index = index;
    bind_address = profile.fleet.bind_address;
    port = port;
    stream_id = stream_id;
    pmu_id = pmu_id;
    protocol_version = profile.fleet.protocol_version;
    wire_version = shared.shared_version;
    metadata = metadata;
    pdc_name = shared.shared_pdc_name;
    pmu_name = names.0;
    global_pmu_id = names.1;
    channel_names = shared.shared_channel_names;
    time_base = profile.fleet.time_base;
    data_rate_hz = profile.fleet.data_rate_hz;
    nominal_frequency_hz = profile.fleet.nominal_frequency_hz;
    phasors = profile.fleet.phasors;
    frequency_deviation = profile.fleet.frequency_deviation_hz;
    rocof = profile.fleet.rocof_hz_per_s;
  })

unfoldable pub endpoints_from : Profile → Shared → ℕ → ℕ → Configured (List EndpointDescriptor)
endpoints_from profile shared zero index = ok []
endpoints_from profile shared (suc left) index = do
  endpoint ← endpoint_at profile shared index
  endpoints ← endpoints_from profile shared left (index + 1)
  ok (endpoint ∷ endpoints)

abbrev pub compiled : Profile → List EndpointDescriptor → CompiledProfile
compiled profile endpoints = record {
  seed = profile.seed;
  limits = record {
    command_frame_bytes = profile.limits.max_command_frame_bytes;
    receive_buffer_bytes = profile.limits.requested_socket_receive_buffer_bytes;
    send_buffer_bytes = profile.limits.requested_socket_send_buffer_bytes;
  };
  endpoints = endpoints;
}

module _ (f : Floats) where
  -- The rest of `validate_fleet`, from the names on.
  unfoldable pub validate_names : Fleet → WireVersion → Configured (Unit {0})
  validate_names fleet version = do
    pdc ← encoded_name fleet.pdc_name (codes "fleet.pdc_name")
    pmu ← encoded_name (pmu_name_source fleet fleet.count) prefix_field
    guard (leb (fleet.count - 1) 65535) count_too_large
    final_stream ← final_identifier fleet.first_stream_id (fleet.count - 1) (codes "STREAM_ID")
    final_pmu ← final_identifier fleet.first_pmu_id (fleet.count - 1) (codes "PMU_ID")
    validate_v2_good_stat_pmu_ids fleet.v2_good_stat_pmu_ids fleet.first_pmu_id final_pmu version
    validate_recipes f fleet.phasors fleet.frequency_deviation_hz fleet.rocof_hz_per_s

  unfoldable pub validate_fleet : Fleet → ℕ → Configured WireVersion
  validate_fleet fleet max_logical_pmus = do
    guard (is_within 1 max_logical_pmus fleet.count) count_out_of_range
    version ← version_of fleet.protocol_version
    guard (fleet.data_rate_hz == 50) data_rate_not_50
    guard (is_within 1 0xFFFFFF fleet.time_base) time_base_too_large
    guard (fleet.time_base % fleet.data_rate_hz == 0) time_base_not_multiple
    guard ((fleet.nominal_frequency_hz == 50) || (fleet.nominal_frequency_hz == 60))
        nominal_frequency_unknown
    validate_names fleet version
    ok version

  unfoldable pub v2_phunits : PhasorRecipe → Configured (List ℕ)
  v2_phunits p = do
    voltage ← v2_phunit f p.voltage_scale false (codes "fleet.phasors.voltage_scale")
    current ← v2_phunit f p.current_scale true (codes "fleet.phasors.current_scale")
    ok (voltage ∷ voltage ∷ voltage ∷ current ∷ current ∷ current ∷ [])

  -- The tables that the endpoints share, by the version.
  unfoldable pub shared_of : WireVersion → Fleet → Bytes → Configured Shared
  shared_of v2 fleet pdc_name = do
    names ← standard_v2_channel_names
    phunits ← v2_phunits fleet.phasors
    ok (record {
      shared_version = v2;
      shared_pdc_name = pdc_name;
      shared_channel_names = [];
      v2_channel_names = some names;
      v2_phunit_values = some phunits;
    })
  shared_of v3 fleet pdc_name = do
    names ← standard_channel_names
    ok (record {
      shared_version = v3;
      shared_pdc_name = pdc_name;
      shared_channel_names = names;
      v2_channel_names = none;
      v2_phunit_values = none;
    })

  unfoldable pub compile_profile : Profile → Configured CompiledProfile
  compile_profile profile = do
    validate_limits profile.limits
    version ← validate_fleet profile.fleet profile.limits.max_logical_pmus
    final_port ← validate_ranges profile.fleet
    pdc_name ← encoded_name profile.fleet.pdc_name (codes "fleet.pdc_name")
    shared ← shared_of version profile.fleet pdc_name
    endpoints ← endpoints_from profile shared profile.fleet.count 0
    ok (compiled profile endpoints)
