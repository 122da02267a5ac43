-- ===== src/Server/Tests.antt =====
-- The theorems about src/server.rs at small inputs.
use c37_118_simulator.Prelude.{
  ◌≡◌, ◌≤◌, ◌<◌, ◌+◌, ◌-◌, ◌*◌, ◌/◌, ◌%◌, refl, true, none, some, [], ◌∷◌, arith,
}
use c37_118_simulator.Wire.Crc.{checksum_matches}
use c37_118_simulator.Wire.Frame.{Timestamp}
use c37_118_simulator.Wire.V2 as V2
use c37_118_simulator.Server.Clock.{
  Scheduler, WallClock, nanos_per_second, current_index, take_due, timestamp_for_sample,
  take_due_lem, timestamp_for_sample_lem, aligned_ticks, aligned_timestamp, delay_until_timestamp,
}
use c37_118_simulator.Server.Clock.Aligned.{ticks_of, aligned_start_lem}
use c37_118_simulator.Server.Connection.{
  v2, start, accepted, ReceiveBuffer, command, consume, next_command, Connection, new_connection,
}
use c37_118_simulator.Server.Connection.Framing.{Cut, next_command-Cut}
use c37_118_simulator.Server.Connection.Handlers.{
  ServerStats, Surroundings, process_buffered_commands,
}
use c37_118_simulator.Server.Connection.Loop.{WellFormed, Sound, process_buffered_commands-Sound}
use c37_118_simulator.Server.Tokens.{
  connection, connection_token, event_target, event_target-connection_token,
}

token_of_connection : connection_token 3 2 1 4 ≡ some 32
unfolding connection_token
token_of_connection = refl

event_target-connection_token_example : event_target 32 3 ≡ some (connection 2 1 4)
event_target-connection_token_example =
    event_target-connection_token 3 2 1 4 32 (omega arith) (omega arith) (omega arith)
      token_of_connection

abbrev scheduler : Scheduler
scheduler = record { started = 100; data_rate_hz = 50; next_sample_index = 3 }

take_due_lem_example :
    (3 ≤ 5)
    × (5 * nanos_per_second ≤ (100000100 - 100) * 50)
    × ((100000100 - 100) * 50 < (5 + 1) * nanos_per_second)
    × ((take_due scheduler 100000100 0).skipped_ticks + 3 ≡ 0 + 5)
    × ((take_due scheduler 100000100 0).scheduler ≡ record scheduler { next_sample_index = 6 })
unfolding take_due current_index
take_due_lem_example = take_due_lem scheduler 100000100 0 (omega arith)

abbrev wall_clock : WallClock
wall_clock = record {
  first_timestamp = record { soc = 1000; fracsec = 980000 };
  ticks_per_frame = 20000;
  time_base = 1000000;
}

timestamp_for_sample_lem_example :
    ((timestamp_for_sample wall_clock 3).soc * 1000000 + (timestamp_for_sample wall_clock 3).fracsec
      ≡ 1000 * 1000000 + 980000 + 3 * 20000)
    × ((timestamp_for_sample wall_clock 3).fracsec < 1000000)
timestamp_for_sample_lem_example =
    timestamp_for_sample_lem wall_clock 3 (omega arith) (omega arith) (omega arith)

abbrev half_past : Timestamp
half_past = record { soc = 1000; fracsec = 520000 }

aligned_at_half_past : aligned_timestamp 1000500000001 50 1000000 ≡ some half_past
unfolding aligned_timestamp aligned_ticks
aligned_at_half_past = refl

aligned_start_lem_example :
    (ticks_of half_past 1000000 % (1000000 / 50) ≡ 0)
    × (1000500000001 * 1000000 < ticks_of half_past 1000000 * nanos_per_second)
    × (ticks_of half_past 1000000 * nanos_per_second
        ≤ 1000500000001 * 1000000 + 1000000 / 50 * nanos_per_second)
    × (520000 < 1000000)
    × (ticks_of half_past 1000000 * nanos_per_second
        ≤ (1000500000001 + delay_until_timestamp 1000500000001 half_past 1000000) * 1000000)
    × ((1000500000001 + delay_until_timestamp 1000500000001 half_past 1000000) * 1000000
        < ticks_of half_past 1000000 * nanos_per_second + 1000000)
aligned_start_lem_example =
    aligned_start_lem 1000500000001 50 1000000 half_past (omega arith) (omega arith)
      aligned_at_half_past

-- A start command of version 2 for the stream 7, and the first byte of another.
abbrev buffer : ReceiveBuffer
buffer = record {
  bytes =
      170 ∷ 66 ∷ 0 ∷ 18 ∷ 0 ∷ 7 ∷ 0 ∷ 0 ∷ 0 ∷ 5 ∷ 0 ∷ 0 ∷ 0 ∷ 0 ∷ 0 ∷ 2 ∷ 254 ∷ 121 ∷ 170 ∷ 0 ∷ [];
  length = 19;
  limit = 18;
}

buffer_gives :
    next_command v2 buffer
    ≡ (consume buffer 18, command (accepted (record { idcode = 7; command = start })))
unfolding next_command V2.parse V2.parse_with_limit V2.parse_command V2.command_of_code
    V2.frame_type V2.version V2.idcode V2.body checksum_matches
buffer_gives = refl

next_command-Cut_example :
    Cut v2 buffer (consume buffer 18) (accepted (record { idcode = 7; command = start }))
next_command-Cut_example =
    next_command-Cut v2 buffer (consume buffer 18) _ (omega arith) buffer_gives

abbrev surroundings : Surroundings
surroundings = record {
  wire_version = v2;
  stream_id = 7;
  clock = λ turn. 50;
  reregisters = λ turn writable. true;
  response_timestamp = none;
}

abbrev client : Connection
client = record (new_connection 1 9 18 v2 40) { receive = buffer }

client-WellFormed : WellFormed v2 client
unfolding new_connection
client-WellFormed = record { fits = refl; ready = refl }

abbrev stats : ServerStats
stats = record {
  accepted_clients = 1;
  closed_clients = 0;
  rejected_clients = 0;
  malformed_commands = 0;
  unsupported_commands = 0;
  slow_clients = 0;
  sent_data_frames = 0;
  skipped_ticks = 0;
}

process_buffered_commands-Sound_example :
    Sound v2 (process_buffered_commands surroundings 20 client stats)
process_buffered_commands-Sound_example =
    process_buffered_commands-Sound surroundings 20 client stats client-WellFormed (omega arith)
