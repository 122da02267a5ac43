-- ===== src/Server/Connection/Flush/Sent.antt =====
-- What the peer gets from `flush_connection` of src/server.rs.
use c37_118_simulator.Prelude.{
  ℕ, zero, suc, ◌+◌, ◌≤◌, ◌<◌, ◌≡◌, refl, sym, ap, ◌∙◌, subst, Bool, true, false, not, List, ◌++◌,
  length, take, drop, leb, ◌==◌, if◌then◌else◌, length-drop, take-append-drop, take_all, drop-drop,
  append_assoc, dec_lt, arith,
}
use c37_118_simulator.Server.Connection.{
  nothing, no_command, next_command, Connection, is_pending, with_offset, offset_of,
}
use c37_118_simulator.Server.Connection.Handlers.{
  ServerStats, Surroundings, Handled, open_still, to_close, registered, process_buffered_commands,
}
use c37_118_simulator.Server.Connection.Flush.{
  EndpointFrames, WriteOutcome, wrote, would_block, write_failed, is_data, count_sent, finish_frame,
  settle_interest, after_write, flush_connection,
}
use c37_118_simulator.Server.Connection.Flush.Rounds.{
  Took, Delivers, next_flush, flushes, Sends, Sending, frame_of-with_offset, offset_of-with_offset,
  is_pending-with_offset, counted-with_offset, count_sent-counted,
}

-- A part of the frame is sent: the rest is pending.
Sending-with_offset :
    (s : Surroundings) (frames : EndpointFrames) (sample frame : List ℕ) (c : Connection) (o : ℕ)
    → Sending s frames sample frame c
    → o < length frame
    → Sending s frames sample frame (record c { pending = with_offset c.pending o })
Sending-with_offset s frames sample frame c o x h = record {
  pending = is_pending-with_offset c.pending o ∙ x.pending;
  from = frame_of-with_offset frames sample c.error_frame c.pending o ∙ x.from;
  inside = omega (arith, offset_of-with_offset c.pending o x.pending, h);
  stays = x.stays;
  idle = x.idle;
}

-- The command loop does nothing where no command waits.
process_idle :
    (s : Surroundings) (turn : ℕ) (c : Connection) (stats : ServerStats)
    → is_pending c.pending ≡ false
    → c.close_after_flush ≡ false
    → next_command s.wire_version c.receive ≡ (c.receive, no_command)
    → process_buffered_commands s (suc turn) c stats ≡ open_still c stats
unfolding process_buffered_commands
process_idle s turn c stats p q e = rw (p, q, e) refl

-- The results of a write, on a connection with a frame pending.
module _ (s : Surroundings) (turn : ℕ) (frames : EndpointFrames) (sample frame : List ℕ)
    (registers : (k : ℕ) (writable : Bool) → s.reregisters k writable ≡ true) where
  abbrev left_of : Connection → List ℕ
  left_of c = drop (offset_of c.pending) frame

  finish_frame_idle :
      (c : Connection) (stats : ServerStats)
      → is_pending c.pending ≡ false
      → c.close_after_flush ≡ false
      → next_command s.wire_version c.receive ≡ (c.receive, no_command)
      → finish_frame s (suc turn) c stats ≡ open_still c stats
  finish_frame_idle c stats p q e =
      ap
        (λ (b : Bool).
          if b
          then to_close c stats
          else settle_interest s (suc turn) (process_buffered_commands s (suc turn) c stats))
        q
      ∙ ap (settle_interest s (suc turn)) (process_idle s turn c stats p q e)
      ∙ ap
          (λ (b : Bool).
            if not b
            then registered (s.reregisters (suc turn) false) c stats
            else open_still c stats)
          p
      ∙ ap (λ b. registered b c stats) (registers (suc turn) false)

  after_write-part :
      (c : Connection) (stats : ServerStats) (n : ℕ)
      → 0 < n
      → n < length (left_of c)
      → after_write s (suc turn) c stats (left_of c) (wrote n)
        ≡ open_still (record c { pending = with_offset c.pending (offset_of c.pending + n) }) stats
  after_write-part c stats n pos part =
      let some_bytes : (n == 0) ≡ false = ground (arith, pos) in
      let unfinished : (offset_of c.pending + n == offset_of c.pending + length (left_of c))
          ≡ false =
        ground (arith, part) in
      rw (some_bytes, unfinished, registers (suc turn) true) refl

  after_write-whole :
      (c : Connection) (stats : ServerStats) (n : ℕ)
      → Sending s frames sample frame c
      → 0 < n
      → n ≡ length (left_of c)
      → after_write s (suc turn) c stats (left_of c) (wrote n)
        ≡ open_still (record c { pending = nothing }) (count_sent (is_data c.pending) stats)
  unfolding is_pending
  after_write-whole c stats n x pos whole =
      let some_bytes : (n == 0) ≡ false = ground (arith, pos) in
      let finished : (offset_of c.pending + n == offset_of c.pending + length (left_of c)) ≡ true =
        ground (arith, whole) in
      rw (some_bytes, finished)
        (finish_frame_idle (record c { pending = nothing }) (count_sent (is_data c.pending) stats)
          refl x.stays x.idle)

  after_write-blocked :
      (c : Connection) (stats : ServerStats)
      → after_write s (suc turn) c stats (left_of c) would_block ≡ open_still c stats
  after_write-blocked c stats = ap (λ b. registered b c stats) (registers (suc turn) true)

  module _ {W : Type 0} (write : List ℕ → W → WriteOutcome × W) where
    flushes_idle :
        (k : ℕ) (c : Connection) (stats : ServerStats) (w : W)
        → is_pending c.pending ≡ false
        → flushes write s (suc turn) frames sample k c stats w ≡ (open_still c stats, w)
    unfolding flush_connection
    flushes_idle zero c stats w e = refl
    flushes_idle (suc k) c stats w e = rw e (flushes_idle k c stats w e)

    flush_connection-writes :
        (c : Connection) (stats : ServerStats) (w : W)
        → Sending s frames sample frame c
        → flush_connection write s (suc turn) frames sample c stats w ≡ (
          after_write s (suc turn) c stats (left_of c) (write (left_of c) w).0,
          (write (left_of c) w).1,
        )
    unfolding flush_connection
    flush_connection-writes c stats w x =
        let reached : leb (offset_of c.pending) (length frame) ≡ true = ground (arith, x.inside) in
        rw (x.pending, x.from, reached) refl

    module _ (sent : W → List ℕ) (refusals : W → ℕ) (d : Delivers write sent refusals) where
      -- The writes that follow the first one.
      abbrev After : ℕ → Type 0
      After k =
          (c : Connection) (stats : ServerStats) (w : W)
          → Sending s frames sample frame c
          → length frame + refusals w ≤ offset_of c.pending + k
          → Sends write sent (left_of c) c stats w
              (flushes write s (suc turn) frames sample k c stats w)

      step_part :
          (k : ℕ) (c : Connection) (stats : ServerStats) (w w' : W) (n : ℕ)
          → Sending s frames sample frame c
          → length frame + refusals w ≤ offset_of c.pending + suc k
          → Took write (left_of c) (wrote n) (sent w) (sent w') (refusals w) (refusals w')
          → n < length (left_of c)
          → After k
          → Sends write sent (left_of c) c stats w (
              next_flush write
                (after_write s (suc turn) c stats (left_of c) (wrote n), w')
                (flushes write s (suc turn) frames sample k))
      step_part k c stats w w' n x room t part more =
          let o : ℕ = offset_of c.pending + n in
          let c' : Connection = record c { pending = with_offset c.pending o } in
          let moved = offset_of-with_offset c.pending o x.pending in
          let x' =
            Sending-with_offset s frames sample frame c o x
              (omega (arith, part, length-drop (offset_of c.pending) frame)) in
          let m = more c' stats w' x' (omega (arith, room, t.0, t.3, moved)) in
          record {
            socket = m.socket;
            after = m.after;
            left_open =
                ap (λ h. next_flush write (h, w') (flushes write s (suc turn) frames sample k))
                  (after_write-part c stats n t.0 part)
                ∙ m.left_open;
            sent_all =
                m.sent_all
                ∙ ap (λ (b : List ℕ). b ++ left_of c') t.2
                ∙ append_assoc (sent w) (take n (left_of c)) (left_of c')
                ∙ ap (λ (i : ℕ). sent w ++ (take n (left_of c) ++ drop i frame)) moved
                ∙ ap (λ (b : List ℕ). sent w ++ (take n (left_of c) ++ b))
                    (sym (drop-drop (offset_of c.pending) n frame))
                ∙ ap (λ (b : List ℕ). sent w ++ b) (take-append-drop n (left_of c));
            data_frames = m.data_frames ∙ counted-with_offset c.pending o stats.sent_data_frames;
          }

      step_whole :
          (k : ℕ) (c : Connection) (stats : ServerStats) (w w' : W) (n : ℕ)
          → Sending s frames sample frame c
          → Took write (left_of c) (wrote n) (sent w) (sent w') (refusals w) (refusals w')
          → n ≡ length (left_of c)
          → Sends write sent (left_of c) c stats w (
              next_flush write
                (after_write s (suc turn) c stats (left_of c) (wrote n), w')
                (flushes write s (suc turn) frames sample k))
      unfolding is_pending
      step_whole k c stats w w' n x t whole = record {
        socket = w';
        after = count_sent (is_data c.pending) stats;
        left_open =
            ap (λ h. next_flush write (h, w') (flushes write s (suc turn) frames sample k))
              (after_write-whole c stats n x t.0 whole)
            ∙ flushes_idle k (record c { pending = nothing }) (count_sent (is_data c.pending) stats)
                w' refl;
        sent_all =
            t.2 ∙ ap (λ (b : List ℕ). sent w ++ b) (take_all n (left_of c) (omega (arith, whole)));
        data_frames = count_sent-counted c.pending stats;
      }

      step :
          (k : ℕ) (c : Connection) (stats : ServerStats) (w w' : W) (o : WriteOutcome)
          → Sending s frames sample frame c
          → length frame + refusals w ≤ offset_of c.pending + suc k
          → Took write (left_of c) o (sent w) (sent w') (refusals w) (refusals w')
          → After k
          → Sends write sent (left_of c) c stats w (
              next_flush write
                (after_write s (suc turn) c stats (left_of c) o, w')
                (flushes write s (suc turn) frames sample k))
      step k c stats w w' write_failed x room t more = absurd t
      step k c stats w w' would_block x room t more =
          let m = more c stats w' x (omega (arith, room, t.1)) in
          record {
            socket = m.socket;
            after = m.after;
            left_open =
                ap (λ h. next_flush write (h, w') (flushes write s (suc turn) frames sample k))
                  (after_write-blocked c stats)
                ∙ m.left_open;
            sent_all = m.sent_all ∙ ap (λ (b : List ℕ). b ++ left_of c) t.0;
            data_frames = m.data_frames;
          }
      step k c stats w w' (wrote n) x room t more = elim (dec_lt n (length (left_of c))) [
        | yes part ↦ step_part k c stats w w' n x room t part more
        | no whole ↦ step_whole k c stats w w' n x t (omega (arith, t.1, whole))
      ]

      -- Any number of calls of `flush_connection`.
      sends : (k : ℕ) → After k
      sends zero c stats w x room = absurd (omega (arith, x.inside, room))
      sends (suc k) c stats w x room =
          let some_left : 0 < length (left_of c) =
            omega (arith, x.inside, length-drop (offset_of c.pending) frame) in
          subst
            (λ (h : Handled × W).
              Sends write sent (left_of c) c stats w
                (next_flush write h (flushes write s (suc turn) frames sample k)))
            (sym (flush_connection-writes c stats w x))
            (step k c stats w (write (left_of c) w).1 (write (left_of c) w).0 x room
              (d.takes (left_of c) w some_left) (sends k))

-- Whatever the socket takes of each write, as long as it takes something or would block, and would
-- block only so often: enough calls of `flush_connection` send exactly what is left of a pending
-- frame, in order and once, and leave the connection open with nothing pending, and one data frame
-- more is counted where it was one. No command waits in the buffer, the connection is not to close,
-- and interest can be registered.
pub flushes-Sends :
    {W : Type 0} (s : Surroundings) (turn : ℕ) (frames : EndpointFrames) (sample frame : List ℕ)
    (write : List ℕ → W → WriteOutcome × W) (sent : W → List ℕ) (refusals : W → ℕ)
    → ((k : ℕ) (writable : Bool) → s.reregisters k writable ≡ true)
    → Delivers write sent refusals
    → (k : ℕ) (c : Connection) (stats : ServerStats) (w : W) → Sending s frames sample frame c
    → length frame + refusals w ≤ offset_of c.pending + k
    → Sends write sent
        (drop (offset_of c.pending) frame)
        c
        stats
        w
        (flushes write s (suc turn) frames sample k c stats w)
flushes-Sends s turn frames sample frame write sent refusals registers d k c stats w x room =
    sends s turn frames sample frame registers write sent refusals d k c stats w x room
