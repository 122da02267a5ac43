-- ===== src/Server/Connection/Loop.antt =====
-- The command loop of src/server.rs: `process_buffered_commands` ends, and what it keeps.
use c37_118_simulator.Prelude.{
  ℕ, zero, suc, ◌≤◌, ◌<◌, ◌≡◌, refl, sym, ap, ◌∙◌, Bool, true, false, ◌||◌, List, Option, none,
  some, arith, ◌==◌, Bool-cases, inl, inr, subst,
}
use c37_118_simulator.Scenario.Types.{Instant}
use c37_118_simulator.Wire.Frame.{Timestamp}
use c37_118_simulator.Wire.V3.{ErrorResponseCode, rejected_command, wrong_stream_or_pmu}
use c37_118_simulator.Server.Connection.{
  WireVersion, v2, v3, ServerCommand, stop, start, v2_header, v2_configuration_1,
  v2_configuration_2, v3_capability, v3_stream_configuration, BufferedCommandRequest, accepted,
  rejected, ReceiveBuffer, NextCommand, no_command, malformed, command, next_command, PendingFrame,
  nothing, header, configuration_1, configuration_2, capability, stream_configuration, error,
  data_frame, Connection, record_valid_command, is_pending,
}
use c37_118_simulator.Server.Connection.Framing.{next_command-shrinks, next_command-rejected}
use c37_118_simulator.Server.Connection.Handlers.{
  ServerStats, Surroundings, Handled, open_still, to_close, server_error, panicked, out_of_fuel,
  queue_error_response, queue_error_at, registered, obey, obeyed, handle_command, refuse, next_turn,
  answer, value_or, bump, process_buffered_commands,
}

-- The frames that a connection of each version may have pending.
abbrev pub pending_of : WireVersion → PendingFrame → Bool
pending_of v nothing = true
pending_of v (data_frame o) = true
pending_of v2 (header o) = true
pending_of v2 (configuration_1 o) = true
pending_of v2 (configuration_2 o) = true
pending_of v3 (capability o) = true
pending_of v3 (stream_configuration o) = true
pending_of v3 (error o) = true
pending_of v p = false

abbrev pub has_error_frame : WireVersion → Option (List ℕ) → Bool
has_error_frame v2 o = true
has_error_frame v3 none = false
has_error_frame v3 (some frame) = true

-- What is pending belongs to the version of the endpoint, and a connection of version 3 has a
-- buffer for an error response.
pub record WellFormed (v : WireVersion) (c : Connection) : Type 0 where
  pub fits : pending_of v c.pending ≡ true
  pub ready : has_error_frame v c.error_frame ≡ true

-- A handler ends and does not panic, and the connection that it leaves is well formed.
abbrev pub Sound : WireVersion → Handled → Type 0
Sound v (open_still c stats) = WellFormed v c
Sound v (to_close c stats) = WellFormed v c
Sound v server_error = Unit {0}
Sound v panicked = ⊥
Sound v out_of_fuel = ⊥

queue_error_at-Sound :
    (b : Bool) (c : Connection) (stats : ServerStats) (i : ℕ) (code : ErrorResponseCode)
    (t : Option Timestamp) (f : Option (List ℕ))
    → has_error_frame v3 f ≡ true
    → Sound v3 (queue_error_at b c stats i code t f)
queue_error_at-Sound b c stats i code none f h = tt
queue_error_at-Sound b c stats i code (some t) none h = absurd (ground (arith, h))
queue_error_at-Sound true c stats i code (some t) (some f) h = record { fits = refl; ready = refl }
queue_error_at-Sound false c stats i code (some t) (some f) h = tt

refuse-Sound :
    (s : Surroundings) (turn : ℕ) (v : WireVersion) (c : Connection) (stats : ServerStats) (i : ℕ)
    (code : ErrorResponseCode)
    → WellFormed v c
    → Sound v (refuse s turn v c stats i code)
refuse-Sound s turn v2 c stats i code w = w
refuse-Sound s turn v3 c stats i code w =
    (unfold queue_error_response in
      queue_error_at-Sound (s.reregisters turn true) c stats i code s.response_timestamp
        c.error_frame w.ready)

registered-Sound :
    (v : WireVersion) (b : Bool) (c : Connection) (stats : ServerStats)
    (continue : Connection → ServerStats → Handled)
    → WellFormed v c
    → Sound v (continue c stats)
    → Sound v (next_turn (registered b c stats) continue)
registered-Sound v true c stats continue w h = h
registered-Sound v false c stats continue w h = tt

-- The loop goes on soundly from every well-formed connection with the same buffer.
abbrev Goes : WireVersion → Connection → (Connection → ServerStats → Handled) → Type 0
Goes v c continue =
    (c' : Connection) (stats : ServerStats)
    → WellFormed v c'
    → c'.receive ≡ c.receive
    → Sound v (continue c' stats)

obeyed-Sound :
    (s : Surroundings) (turn : ℕ) (v : WireVersion) (k : ServerCommand) (c : Connection)
    (stats : ServerStats) (continue : Connection → ServerStats → Handled)
    → WellFormed v c
    → Goes v c continue
    → Sound v (next_turn (obeyed s turn c stats (obey v k c)) continue)
unfolding is_pending
obeyed-Sound s turn v stop c stats continue w go =
    let c' : Connection = record c { streaming = false } in
    let w' : WellFormed v c' = record { fits = w.fits; ready = w.ready } in
    registered-Sound v (s.reregisters turn (is_pending c'.pending)) c' stats continue w'
      (go c' stats w' refl)
obeyed-Sound s turn v start c stats continue w go =
    let c' : Connection = record c { streaming = true } in
    let w' : WellFormed v c' = record { fits = w.fits; ready = w.ready } in
    registered-Sound v (s.reregisters turn (is_pending c'.pending)) c' stats continue w'
      (go c' stats w' refl)
obeyed-Sound s turn v2 v2_header c stats continue w go =
    let c' : Connection = record c { pending = header 0 } in
    let w' : WellFormed v2 c' = record { fits = refl; ready = w.ready } in
    registered-Sound v2 (s.reregisters turn true) c' stats continue w' (go c' stats w' refl)
obeyed-Sound s turn v2 v2_configuration_1 c stats continue w go =
    let c' : Connection = record c { pending = configuration_1 0 } in
    let w' : WellFormed v2 c' = record { fits = refl; ready = w.ready } in
    registered-Sound v2 (s.reregisters turn true) c' stats continue w' (go c' stats w' refl)
obeyed-Sound s turn v2 v2_configuration_2 c stats continue w go =
    let c' : Connection = record c { pending = configuration_2 0 } in
    let w' : WellFormed v2 c' = record { fits = refl; ready = w.ready } in
    registered-Sound v2 (s.reregisters turn true) c' stats continue w' (go c' stats w' refl)
obeyed-Sound s turn v3 v3_capability c stats continue w go =
    let c' : Connection = record c { pending = capability 0 } in
    let w' : WellFormed v3 c' = record { fits = refl; ready = w.ready } in
    registered-Sound v3 (s.reregisters turn true) c' stats continue w' (go c' stats w' refl)
obeyed-Sound s turn v3 v3_stream_configuration c stats continue w go =
    let c' : Connection = record c { pending = stream_configuration 0 } in
    let w' : WellFormed v3 c' = record { fits = refl; ready = w.ready } in
    registered-Sound v3 (s.reregisters turn true) c' stats continue w' (go c' stats w' refl)
obeyed-Sound s turn v2 v3_capability c stats continue w go = w
obeyed-Sound s turn v2 v3_stream_configuration c stats continue w go = w
obeyed-Sound s turn v3 v2_header c stats continue w go = w
obeyed-Sound s turn v3 v2_configuration_1 c stats continue w go = w
obeyed-Sound s turn v3 v2_configuration_2 c stats continue w go = w

handle_command-Sound :
    (s : Surroundings) (turn : ℕ) (k : ServerCommand) (c : Connection) (stats : ServerStats)
    (continue : Connection → ServerStats → Handled)
    → WellFormed s.wire_version c
    → Goes s.wire_version c continue
    → Sound s.wire_version (next_turn (handle_command s turn c k stats) continue)
unfolding handle_command
handle_command-Sound s turn k c stats continue w go = elim (Bool-cases (is_pending c.pending)) [
  | inl busy ↦ rw (busy) w
  | inr idle ↦ rw (idle) (obeyed-Sound s turn s.wire_version k c stats continue w go)
]

recorded-WellFormed :
    (v : WireVersion) (c : Connection) (now : Instant)
    → WellFormed v c
    → WellFormed v (record_valid_command c now)
unfolding record_valid_command
recorded-WellFormed v c now w = record { fits = w.fits; ready = w.ready }

receive-record_valid_command :
    (c : Connection) (now : Instant) → (record_valid_command c now).receive ≡ c.receive
unfolding record_valid_command
receive-record_valid_command c now = refl

answer-Sound :
    (s : Surroundings) (turn : ℕ) (c : Connection) (stats : ServerStats)
    (continue : Connection → ServerStats → Handled) (n : NextCommand)
    → WellFormed s.wire_version c
    → ((i : ℕ) (v : WireVersion) → n ≡ command (rejected i v) → v ≡ s.wire_version)
    → ((r : BufferedCommandRequest) → n ≡ command (accepted r) → Goes s.wire_version c continue)
    → Sound s.wire_version (answer s turn c stats continue n)
answer-Sound s turn c stats continue no_command w same go = w
answer-Sound s turn c stats continue (malformed i) w same go =
    refuse-Sound s turn s.wire_version c _ (value_or i s.stream_id) rejected_command w
answer-Sound s turn c stats continue (command (rejected i v)) w same go =
    subst
      (λ u. Sound s.wire_version (
        refuse s turn u c (record stats { unsupported_commands = bump stats.unsupported_commands })
          i rejected_command))
      (sym (same i v refl)) (refuse-Sound s turn s.wire_version c _ i rejected_command w)
answer-Sound s turn c stats continue (command (accepted r)) w same go =
    elim (Bool-cases (r.idcode == s.stream_id)) [
      | inr other ↦
          rw (other) (refuse-Sound s turn s.wire_version c _ r.idcode wrong_stream_or_pmu w)
      | inl ours ↦ rw (ours) (
          handle_command-Sound s turn r.command (record_valid_command c (s.clock turn)) stats
            continue (recorded-WellFormed s.wire_version c (s.clock turn) w)
            (λ c' stats' w' e.
              go r refl c' stats' w' (e ∙ receive-record_valid_command c (s.clock turn))))
    ]

process_turn :
    (s : Surroundings) (turn : ℕ) (c : Connection) (stats : ServerStats)
    → WellFormed s.wire_version c
    → ((c' : Connection) (stats' : ServerStats)
        → WellFormed s.wire_version c'
        → c'.receive.length < turn
        → Sound s.wire_version (process_buffered_commands s turn c' stats'))
    → c.receive.length ≤ turn
    → (b : ReceiveBuffer) (n : NextCommand) → next_command s.wire_version c.receive ≡ (b, n)
    → Sound s.wire_version
        (answer s turn (record c { receive = b }) stats (process_buffered_commands s turn) n)
process_turn s turn c stats w continue room b n e =
    answer-Sound s turn (record c { receive = b }) stats (process_buffered_commands s turn) n
      (record { fits = w.fits; ready = w.ready })
      (λ i v h. next_command-rejected s.wire_version v c.receive b i (e ∙ ap (λ m. (b, m)) h))
      (λ r h c' stats' w' same.
        let shrunk =
          next_command-shrinks s.wire_version c.receive b (accepted r) (e ∙ ap (λ m. (b, m)) h) in
        let length_same : c'.receive.length ≡ b.length =
          ap (λ (x : ReceiveBuffer). x.length) same in
        continue c' stats' w' (omega (arith, shrunk, length_same, room)))

-- The command loop ends within one turn for each byte in the buffer and one more, and it does not
-- panic: from a well-formed connection it leaves a well-formed one, or the server stops on an
-- error of its surroundings.
pub process_buffered_commands-Sound :
    (s : Surroundings) (turns : ℕ) (c : Connection) (stats : ServerStats)
    → WellFormed s.wire_version c
    → c.receive.length < turns
    → Sound s.wire_version (process_buffered_commands s turns c stats)
unfolding process_buffered_commands
process_buffered_commands-Sound s zero c stats w room = absurd (omega (arith, room))
process_buffered_commands-Sound s (suc turn) c stats w room =
    elim (Bool-cases (is_pending c.pending || c.close_after_flush)) [
      | inl busy ↦ rw (busy) w
      | inr idle ↦ rw (idle) (
          process_turn s turn c stats w
            (λ c' stats' w' r. process_buffered_commands-Sound s turn c' stats' w' r)
            (omega (arith, room)) (next_command s.wire_version c.receive).0
            (next_command s.wire_version c.receive).1 refl)
    ]
