-- ===== src/Server/ConsoleTests.antt =====
-- The theorems about pages and writes of src/server.rs at small inputs.
use c37_118_simulator.Prelude.{
  ℕ, zero, suc, ◌<◌, ◌≡◌, refl, ap, true, none, some, List, [], ◌∷◌, ◌++◌, length, take, drop, min,
  replicate, arith,
}
use c37_118_simulator.Scenario.Types.{endpoint}
use c37_118_simulator.Scenario.Controller.Actions.{clear_target}
use c37_118_simulator.Scenario.Controller.Snapshot.{ScenarioControllerSnapshot}
use c37_118_simulator.Server.Console.Pages.{client, records, client-records}
use c37_118_simulator.Server.Connection.{
  v2, header, Connection, new_connection, new_buffer, is_pending, offset_of, next_command,
}
use c37_118_simulator.Server.Connection.Handlers.{ServerStats, Surroundings}
use c37_118_simulator.Server.Connection.Flush.{
  EndpointFrames, v2_frames, WriteOutcome, wrote, would_block,
}
use c37_118_simulator.Server.Connection.Flush.Rounds.{Took, Delivers, Sending, Sends, flushes}
use c37_118_simulator.Server.Connection.Flush.Sent.{flushes-Sends}

abbrev one_pending : ScenarioControllerSnapshot
one_pending = record {
  current_sample_index = none;
  prepared = [];
  pending = record { target = endpoint 7; action = clear_target; actor_label = none } ∷ [];
  active = [];
}

client-records_example :
    client 2 (replicate 64 b'a') 7 one_pending none ≡ some (records one_pending)
client-records_example =
    client-records (replicate 64 b'a') 7 2 one_pending refl (omega arith) (omega arith)
      (omega arith)

abbrev surroundings : Surroundings
surroundings = record {
  wire_version = v2;
  stream_id = 7;
  clock = λ turn. 0;
  reregisters = λ turn writable. true;
  response_timestamp = none;
}

abbrev no_stats : ServerStats
no_stats = record {
  accepted_clients = 0;
  closed_clients = 0;
  rejected_clients = 0;
  malformed_commands = 0;
  unsupported_commands = 0;
  slow_clients = 0;
  sent_data_frames = 0;
  skipped_ticks = 0;
}

abbrev asked_header : Connection
asked_header = record (new_connection 1 8 64 v2 0) { pending = header 0 }

-- A socket that has taken some bytes and will still block so often; it takes two bytes at a time.
abbrev Socket : Type 0
Socket = List ℕ × ℕ

abbrev write_two : List ℕ → Socket → WriteOutcome × Socket
write_two bytes (taken, zero) = (wrote (min 2 (length bytes)), (taken ++ take 2 bytes, 0))
write_two bytes (taken, suc k) = (would_block, (taken, k))

take_two : (bytes : List ℕ) → take 2 bytes ≡ take (min 2 (length bytes)) bytes
take_two [] = refl
take_two (a ∷ []) = refl
take_two (a ∷ b ∷ bytes) = ap (λ n. take n (a ∷ b ∷ bytes)) {x = 2} (omega arith)

write_two-Delivers : Delivers write_two (λ w. w.0) (λ w. w.1)
write_two-Delivers = record { takes = takes }
  where
    takes :
        (bytes : List ℕ) (w : Socket)
        → 0 < length bytes
        → Took write_two bytes
            (write_two bytes w).0
            w.0
            (write_two bytes w).1.0
            w.1
            (write_two bytes w).1.1
    takes bytes (taken, zero) some_left = (
      omega (arith, some_left),
      omega arith,
      ap (λ (b : List ℕ). taken ++ b) (take_two bytes),
      omega arith,
    )
    takes bytes (taken, suc k) some_left = (refl, omega arith)

abbrev frames : EndpointFrames
frames = v2_frames (1 ∷ 2 ∷ 3 ∷ []) [] []

asked-Sending : Sending surroundings frames [] (1 ∷ 2 ∷ 3 ∷ []) asked_header
unfolding new_connection new_buffer is_pending offset_of next_command
asked-Sending = record {
  pending = refl;
  from = refl;
  inside = omega arith;
  stays = refl;
  idle = refl;
}

flushes-Sends_example :
    Sends write_two
      (λ w. w.0)
      (drop 0 (1 ∷ 2 ∷ 3 ∷ []))
      asked_header
      no_stats
      ([], 2)
      (flushes write_two surroundings 1 frames [] 5 asked_header no_stats ([], 2))
unfolding new_connection offset_of
flushes-Sends_example =
    flushes-Sends surroundings 0 frames [] (1 ∷ 2 ∷ 3 ∷ []) write_two (λ w. w.0) (λ w. w.1)
      (λ k writable. refl) write_two-Delivers 5 asked_header no_stats ([], 2) asked-Sending
      (omega arith)
