-- ===== src/Server/Connection/Flush.antt =====
-- How src/server.rs sends a pending frame, in as many writes as the socket takes. The socket is a
-- parameter: its states, and what a write of some bytes does.
pub mod Rounds
pub mod Sent
use c37_118_simulator.Prelude.{
  ℕ, ◌+◌, Bool, true, false, not, Option, none, some, List, length, drop, leb, ◌==◌, if◌then◌else◌,
}
use c37_118_simulator.Server.Connection.{
  PendingFrame, nothing, header, configuration_1, configuration_2, capability, stream_configuration,
  error, data_frame, Connection, is_pending, with_offset, offset_of,
}
use c37_118_simulator.Server.Connection.Handlers.{
  ServerStats, Surroundings, Handled, open_still, to_close, panicked, registered, bump,
  process_buffered_commands,
}

-- `EndpointFrames`, and the data frame of the endpoint beside it.
pub data EndpointFrames : Type 0 where
  v2_frames : List ℕ → List ℕ → List ℕ → EndpointFrames
  v3_frames : List ℕ → List ℕ → EndpointFrames

pub data WriteOutcome : Type 0 where
  wrote : ℕ → WriteOutcome
  would_block write_failed : WriteOutcome

-- The frame that is pending; nothing where the code is `unreachable!`.
abbrev pub frame_of : EndpointFrames → List ℕ → Option (List ℕ) → PendingFrame → Option (List ℕ)
frame_of (v2_frames h c₁ c₂) sample e (header o) = some h
frame_of (v2_frames h c₁ c₂) sample e (configuration_1 o) = some c₁
frame_of (v2_frames h c₁ c₂) sample e (configuration_2 o) = some c₂
frame_of (v3_frames c s) sample e (capability o) = some c
frame_of (v3_frames c s) sample e (stream_configuration o) = some s
frame_of frames sample e (error o) = e
frame_of frames sample e (data_frame o) = some sample
frame_of frames sample e p = none

abbrev pub is_data : PendingFrame → Bool
is_data (data_frame o) = true
is_data p = false

abbrev pub count_sent : Bool → ServerStats → ServerStats
count_sent true stats = record stats { sent_data_frames = bump stats.sent_data_frames }
count_sent false stats = stats

-- After the buffered commands: interest in writing goes where nothing is pending.
abbrev pub settle_interest : Surroundings → ℕ → Handled → Handled
settle_interest s turns (open_still c stats) =
    if not (is_pending c.pending)
    then registered (s.reregisters turns false) c stats
    else open_still c stats
settle_interest s turns h = h

abbrev pub finish_frame : Surroundings → ℕ → Connection → ServerStats → Handled
finish_frame s turns c stats =
    if c.close_after_flush
    then to_close c stats
    else settle_interest s turns (process_buffered_commands s turns c stats)

-- `bytes` is what was given to the write, what is left of the frame from `offset` on.
abbrev pub after_write :
    Surroundings → ℕ → Connection → ServerStats → List ℕ → WriteOutcome → Handled
after_write s turns c stats bytes write_failed = to_close c stats
after_write s turns c stats bytes would_block = registered (s.reregisters turns true) c stats
after_write s turns c stats bytes (wrote n) =
    if n == 0
    then to_close c stats
    else if offset_of c.pending + n == offset_of c.pending + length bytes
    then finish_frame s turns (record c { pending = nothing })
        (count_sent (is_data c.pending) stats)
    else registered (s.reregisters turns true)
        (record c { pending = with_offset c.pending (offset_of c.pending + n) }) stats

-- A socket whose states are `W`: what a write of some bytes gives, and the state after it.
module _ {W : Type 0} (write : List ℕ → W → WriteOutcome × W) where
  abbrev pub write_bytes : Surroundings → ℕ → Connection → ServerStats → List ℕ → W → Handled × W
  write_bytes s turns c stats bytes w =
      let (outcome, w') = write bytes w in (after_write s turns c stats bytes outcome, w')

  -- The slice from the offset on panics where the offset lies outside.
  abbrev pub write_rest :
      Surroundings → ℕ → Connection → ServerStats → Option (List ℕ) → W → Handled × W
  write_rest s turns c stats none w = (panicked, w)
  write_rest s turns c stats (some frame) w =
      if leb (offset_of c.pending) (length frame)
      then write_bytes s turns c stats (drop (offset_of c.pending) frame) w
      else (panicked, w)

  unfoldable pub flush_connection :
      Surroundings → ℕ → EndpointFrames → List ℕ → Connection → ServerStats → W → Handled × W
  flush_connection s turns frames sample c stats w =
      if is_pending c.pending
      then write_rest s turns c stats (frame_of frames sample c.error_frame c.pending) w
      else (open_still c stats, w)
