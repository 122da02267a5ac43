-- ===== src/Config/Tests.antt =====
-- The compilation of a profile by src/config.rs at a fleet of one endpoint and at a full one.
use c37_118_simulator.Prelude.{
  ℕ, length, ◌+◌, ◌*◌, ◌/◌, ◌≡◌, refl, true, some, [], ◌∷◌, replicate, ltb, leb,
}
use c37_118_simulator.Prelude.Text.{codes}
use c37_118_simulator.Prelude.Decimal.{decimal}
use c37_118_simulator.Server.Connection.{v2}
use c37_118_simulator.Config.{
  Floats, PhasorRecipe, Fleet, Profile, Configured, ok, err, panicked, validate_limits,
  final_identifier, encoded_name, v2_fixed_ascii, scan_good_stat, validate_v2_good_stat_pmu_ids,
  validate_recipes, v2_phunit,
}
use c37_118_simulator.Config.Compile.{
  CompiledProfile, standard_v2_channel_names, validate_ranges, endpoint_at, endpoints_from,
  validate_names, validate_fleet, v2_phunits, shared_of, compile_profile,
}
use c37_118_simulator.Config.Ranges.{Compiled, compile_profile-Compiled}

-- Whole numbers in place of the floats.
abbrev pub whole_numbers : Floats
whole_numbers = record {
  is_finite = λ x. true;
  at_most = leb;
  less = ltb;
  plus = λ x y. x + y;
  times = λ x y. x * y;
  over = λ x y. x / y;
  abs = λ x. x;
  round = λ x. x;
  to_u32 = λ x. x;
  zero_f = 0;
  one_f = 1;
  max_u16_f = 65535;
  max_u24_f = 0xFFFFFF;
  max_frequency_f = 32;
  max_rocof_f = 327;
  phunit_scale_f = 100000;
}

abbrev phasors : PhasorRecipe
phasors = record {
  voltage_magnitude = 230000;
  voltage_variation = 400;
  voltage_class = 400000;
  voltage_scale = 10;
  current_magnitude = 500;
  current_variation = 1;
  current_scale = 1;
}

abbrev fleet : Fleet
fleet = record {
  count = 1;
  bind_address = 0;
  first_listen_port = 4712;
  first_stream_id = 1001;
  first_pmu_id = 1001;
  pdc_name = codes "WAMA";
  pmu_name_prefix = codes "P-";
  protocol_version = 2;
  v2_good_stat_pmu_ids = 1001 ∷ [];
  data_rate_hz = 50;
  time_base = 1000000;
  nominal_frequency_hz = 50;
  phasors = phasors;
  frequency_deviation_hz = record { nominal = 0; variation = 0 };
  rocof_hz_per_s = record { nominal = 0; variation = 0 };
}

abbrev pub profile : Profile
profile = record {
  seed = 7;
  limits = record {
    max_logical_pmus = 150;
    max_clients_per_endpoint = 2;
    max_command_frame_bytes = 4096;
    requested_socket_receive_buffer_bytes = 4096;
    requested_socket_send_buffer_bytes = 4096;
  };
  fleet = fleet;
}

abbrev pub one_endpoint : CompiledProfile
one_endpoint = record {
  seed = 7;
  limits = record {
    command_frame_bytes = 4096;
    receive_buffer_bytes = 4096;
    send_buffer_bytes = 4096;
  };
  endpoints =
      record {
        index = 0;
        bind_address = 0;
        port = 4712;
        stream_id = 1001;
        pmu_id = 1001;
        protocol_version = 2;
        wire_version = v2;
        metadata = some (record {
          station_name = codes "P-001           ";
          channel_names =
              codes "VL1             "
              ∷ codes "VL2             "
              ∷ codes "VL3             "
              ∷ codes "IL1             "
              ∷ codes "IL2             "
              ∷ codes "IL3             "
              ∷ [];
          phunits = 1000000 ∷ 1000000 ∷ 1000000 ∷ 0x010186A0 ∷ 0x010186A0 ∷ 0x010186A0 ∷ [];
          good_stat = true;
        });
        pdc_name = 4 ∷ codes "WAMA";
        pmu_name = [];
        global_pmu_id = replicate 16 0;
        channel_names = [];
        time_base = 1000000;
        data_rate_hz = 50;
        nominal_frequency_hz = 50;
        phasors = phasors;
        frequency_deviation = record { nominal = 0; variation = 0 };
        rocof = record { nominal = 0; variation = 0 };
      }
      ∷ [];
}

pub profile_compiles : compile_profile whole_numbers profile ≡ ok one_endpoint
unfolding compile_profile validate_limits validate_fleet validate_names validate_ranges
    final_identifier encoded_name validate_v2_good_stat_pmu_ids scan_good_stat validate_recipes
    shared_of standard_v2_channel_names v2_fixed_ascii v2_phunits v2_phunit endpoints_from
    endpoint_at decimal
profile_compiles = refl

compile_profile-Compiled_example : Compiled profile one_endpoint
compile_profile-Compiled_example =
    compile_profile-Compiled whole_numbers profile one_endpoint profile_compiles

-- A fleet of 150, more than the 100 that a line of docs/c37-118-simulator.md names.
abbrev full_profile : Profile
full_profile = record profile { fleet = record fleet { count = 150 } }

abbrev endpoint_count : Configured CompiledProfile → ℕ
endpoint_count (ok c) = length c.endpoints
endpoint_count (err e) = 0
endpoint_count panicked = 0

full_profile_compiles : endpoint_count (compile_profile whole_numbers full_profile) ≡ 150
unfolding compile_profile validate_limits validate_fleet validate_names validate_ranges
    final_identifier encoded_name validate_v2_good_stat_pmu_ids scan_good_stat validate_recipes
    shared_of standard_v2_channel_names v2_fixed_ascii v2_phunits v2_phunit endpoints_from
    endpoint_at decimal
full_profile_compiles = refl
