-- ===== src/Server/Connection/Handlers.antt =====
-- The handlers of one connection in src/server.rs: queueing errors, commands and their loop. The
-- call of mio that registers interest, and the clocks, are parameters.
use c37_118_simulator.Prelude.{
  ℕ, zero, suc, ◌+◌, ◌%◌, ◌^◌, Bool, true, false, not, ◌||◌, Option, none, some, List, ◌==◌,
  if◌then◌else◌,
}
use c37_118_simulator.Scenario.Types.{Instant}
use c37_118_simulator.Wire.Frame.{Timestamp}
use c37_118_simulator.Wire.V3.{
  ErrorResponseCode, rejected_command, wrong_stream_or_pmu, encode_error_response_into,
}
use c37_118_simulator.Server.Connection.{
  WireVersion, v2, v3, ServerCommand, stop, start, v2_header, v2_configuration_1,
  v2_configuration_2, v3_capability, v3_stream_configuration, accepted, rejected, NextCommand,
  no_command, malformed, command, next_command, header, configuration_1, configuration_2,
  capability, stream_configuration, error, is_pending, Connection, record_valid_command,
}

pub record ServerStats : Type 0 where
  pub accepted_clients : ℕ
  pub closed_clients : ℕ
  pub rejected_clients : ℕ
  pub malformed_commands : ℕ
  pub unsupported_commands : ℕ
  pub slow_clients : ℕ
  pub sent_data_frames : ℕ
  pub skipped_ticks : ℕ

-- What a handler needs of its surroundings. The functions are asked with the number of turns that
-- the loop has left, so that each turn may get another answer.
pub record Surroundings : Type 0 where
  pub wire_version : WireVersion
  pub stream_id : ℕ
  pub clock : ℕ → Instant
  -- Whether `reregister_connection` succeeds, with its `writable`.
  pub reregisters : ℕ → Bool → Bool
  pub response_timestamp : Option Timestamp

-- `Ok(true)`, `Ok(false)`, an error of the server, a failed `expect`, and the end of the fuel.
pub data Handled : Type 0 where
  open_still to_close : Connection → ServerStats → Handled
  server_error panicked out_of_fuel : Handled

-- `stats.… += 1` on a `u64`.
abbrev pub bump : ℕ → ℕ
bump n = (n + 1) % 2 ^ 64

abbrev pub with_error : Connection → List ℕ → Connection
with_error c frame = record c {
  error_frame = some frame;
  pending = error 0;
  streaming = false;
  close_after_flush = true;
}

-- `reregister_connection(…)?` at the end of a handler.
abbrev pub registered : Bool → Connection → ServerStats → Handled
registered true c stats = open_still c stats
registered false c stats = server_error

abbrev pub queue_error_at :
    Bool
    → Connection
    → ServerStats
    → ℕ
    → ErrorResponseCode
    → Option Timestamp
    → Option (List ℕ)
    → Handled
queue_error_at b c stats stream_id code none frame = server_error
queue_error_at b c stats stream_id code (some timestamp) none = panicked
queue_error_at b c stats stream_id code (some timestamp) (some frame) =
    registered b (with_error c (encode_error_response_into stream_id code timestamp frame)) stats

unfoldable pub queue_error_response :
    Surroundings → ℕ → Connection → ServerStats → ℕ → ErrorResponseCode → Handled
queue_error_response s turn c stats stream_id code =
    queue_error_at (s.reregisters turn true) c stats stream_id code s.response_timestamp
      c.error_frame

-- The match on the version and the command: none is a command of the other version.
abbrev pub obey : WireVersion → ServerCommand → Connection → Option Connection
obey v stop c = some (record c { streaming = false })
obey v start c = some (record c { streaming = true })
obey v2 v2_header c = some (record c { pending = header 0 })
obey v2 v2_configuration_1 c = some (record c { pending = configuration_1 0 })
obey v2 v2_configuration_2 c = some (record c { pending = configuration_2 0 })
obey v3 v3_capability c = some (record c { pending = capability 0 })
obey v3 v3_stream_configuration c = some (record c { pending = stream_configuration 0 })
obey v other c = none

abbrev pub obeyed : Surroundings → ℕ → Connection → ServerStats → Option Connection → Handled
obeyed s turn c stats none =
    to_close c (record stats { unsupported_commands = bump stats.unsupported_commands })
obeyed s turn c stats (some c') = registered (s.reregisters turn (is_pending c'.pending)) c' stats

unfoldable pub handle_command :
    Surroundings → ℕ → Connection → ServerCommand → ServerStats → Handled
handle_command s turn c order stats =
    if is_pending c.pending
    then to_close c (record stats { slow_clients = bump stats.slow_clients })
    else obeyed s turn c stats (obey s.wire_version order c)

-- How the loop answers a request that it refuses.
abbrev pub refuse :
    Surroundings → ℕ → WireVersion → Connection → ServerStats → ℕ → ErrorResponseCode → Handled
refuse s turn v2 c stats stream_id code = to_close c stats
refuse s turn v3 c stats stream_id code = queue_error_response s turn c stats stream_id code

abbrev pub value_or : Option ℕ → ℕ → ℕ
value_or none default = default
value_or (some n) default = n

-- `if !handle_command(…)? { return Ok(false) }`, and the next turn.
abbrev pub next_turn : Handled → (Connection → ServerStats → Handled) → Handled
next_turn (open_still c stats) continue = continue c stats
next_turn h continue = h

abbrev pub answer :
    Surroundings
    → ℕ
    → Connection
    → ServerStats
    → (Connection → ServerStats → Handled)
    → NextCommand
    → Handled
answer s turn c stats continue no_command = open_still c stats
answer s turn c stats continue (malformed idcode) =
    refuse s turn s.wire_version c
      (record stats { malformed_commands = bump stats.malformed_commands })
      (value_or idcode s.stream_id) rejected_command
answer s turn c stats continue (command (rejected idcode version)) =
    refuse s turn version c
      (record stats { unsupported_commands = bump stats.unsupported_commands }) idcode
      rejected_command
answer s turn c stats continue (command (accepted request)) =
    if not (request.idcode == s.stream_id)
    then refuse s turn s.wire_version c
        (record stats { malformed_commands = bump stats.malformed_commands }) request.idcode
        wrong_stream_or_pmu
    else next_turn
        (handle_command s turn (record_valid_command c (s.clock turn)) request.command stats)
        continue

-- The loop, on fuel.
unfoldable pub process_buffered_commands : Surroundings → ℕ → Connection → ServerStats → Handled
process_buffered_commands s zero c stats = out_of_fuel
process_buffered_commands s (suc turn) c stats =
    if is_pending c.pending || c.close_after_flush
    then open_still c stats
    else (let taken = next_command s.wire_version c.receive in
        answer s turn (record c { receive = taken.0 }) stats (process_buffered_commands s turn)
          taken.1)
