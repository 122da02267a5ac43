-- ===== src/Server/Connection/Flush/Rounds.antt =====
-- The calls of `flush_connection` of src/server.rs, one whenever the socket is ready, and the contract
-- of `std::io::Write` that the socket keeps to.
use c37_118_simulator.Prelude.{
  ℕ, zero, suc, ◌+◌, ◌%◌, ◌^◌, ◌≤◌, ◌<◌, ◌≡◌, true, false, Option, some, List, ◌++◌, length, take,
  arith,
}
use c37_118_simulator.Server.Connection.{
  PendingFrame, nothing, data_frame, no_command, next_command, Connection, is_pending, with_offset,
  offset_of,
}
use c37_118_simulator.Server.Connection.Handlers.{ServerStats, Surroundings, Handled, open_still}
use c37_118_simulator.Server.Connection.Flush.{
  EndpointFrames, WriteOutcome, wrote, would_block, write_failed, frame_of, is_data, count_sent,
  flush_connection,
}

-- The count of data frames after a frame of the given kind is sent.
abbrev pub counted : PendingFrame → ℕ → ℕ
counted (data_frame o) n = (n + 1) % 2 ^ 64
counted p n = n

module _ {W : Type 0} (write : List ℕ → W → WriteOutcome × W) where
  -- One write of `bytes`, which takes the socket from what was sent and the times that it will still
  -- refuse to those afterwards: it takes a part from the front, and not nothing, or it refuses.
  abbrev pub Took : List ℕ → WriteOutcome → List ℕ → List ℕ → ℕ → ℕ → Type 0
  Took bytes (wrote n) sent sent' refusals refusals' =
      (0 < n) × (n ≤ length bytes) × (sent' ≡ sent ++ take n bytes) × (refusals' ≤ refusals)
  Took bytes would_block sent sent' refusals refusals' = (sent' ≡ sent) × (refusals' < refusals)
  Took bytes write_failed sent sent' refusals refusals' = ⊥

  -- A socket that does not fail, and would block only so often.
  pub record Delivers (sent : W → List ℕ) (refusals : W → ℕ) : Type 0 where
    pub takes :
        (bytes : List ℕ) (w : W)
        → 0 < length bytes
        → Took bytes
            (write bytes w).0
            (sent w)
            (sent (write bytes w).1)
            (refusals w)
            (refusals (write bytes w).1)

  abbrev pub next_flush : Handled × W → (Connection → ServerStats → W → Handled × W) → Handled × W
  next_flush (open_still c stats, w) more = more c stats w
  next_flush (h, w) more = (h, w)

  -- As many calls of `flush_connection`, for as long as the connection stays open.
  abbrev pub flushes :
      Surroundings → ℕ → EndpointFrames → List ℕ → ℕ → Connection → ServerStats → W → Handled × W
  flushes s turns frames sample zero c stats w = (open_still c stats, w)
  flushes s turns frames sample (suc k) c stats w =
      next_flush (flush_connection write s turns frames sample c stats w)
        (flushes s turns frames sample k)

  -- The connection is open with nothing pending, and what was sent has `bytes` behind it.
  pub record Sends (sent : W → List ℕ) (bytes : List ℕ) (c : Connection) (stats : ServerStats)
      (w : W) (result : Handled × W) : Type 0 where
    pub socket : W
    pub after : ServerStats
    pub left_open : result ≡ (open_still (record c { pending = nothing }) after, socket)
    pub sent_all : sent socket ≡ sent w ++ bytes
    pub data_frames : after.sent_data_frames ≡ counted c.pending stats.sent_data_frames

-- A frame is pending, with something left of it; and no whole command waits in the buffer.
pub record Sending (s : Surroundings) (frames : EndpointFrames) (sample frame : List ℕ)
    (c : Connection) : Type 0 where
  pub pending : is_pending c.pending ≡ true
  pub from : frame_of frames sample c.error_frame c.pending ≡ some frame
  pub inside : offset_of c.pending < length frame
  pub stays : c.close_after_flush ≡ false
  pub idle : next_command s.wire_version c.receive ≡ (c.receive, no_command)

pub frame_of-with_offset :
    (frames : EndpointFrames) (sample : List ℕ) (e : Option (List ℕ)) (p : PendingFrame) (o : ℕ)
    → frame_of frames sample e (with_offset p o) ≡ frame_of frames sample e p
unfolding with_offset
frame_of-with_offset frames sample e p o = ground arith

pub offset_of-with_offset :
    (p : PendingFrame) (o : ℕ) → is_pending p ≡ true → offset_of (with_offset p o) ≡ o
unfolding with_offset offset_of is_pending
offset_of-with_offset p o h = ground (arith, h)

pub is_pending-with_offset :
    (p : PendingFrame) (o : ℕ) → is_pending (with_offset p o) ≡ is_pending p
unfolding with_offset is_pending
is_pending-with_offset p o = ground arith

pub counted-with_offset : (p : PendingFrame) (o n : ℕ) → counted (with_offset p o) n ≡ counted p n
unfolding with_offset
counted-with_offset p o n = ground arith

pub count_sent-counted :
    (p : PendingFrame) (stats : ServerStats)
    → (count_sent (is_data p) stats).sent_data_frames ≡ counted p stats.sent_data_frames
count_sent-counted p stats = ground arith
