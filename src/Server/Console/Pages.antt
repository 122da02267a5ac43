-- ===== src/Server/Console/Pages.antt =====
-- The pages of the console state of src/server.rs, one after another.
use c37_118_simulator.Prelude.{
  drop-drop, drop_all, ℕ, zero, suc, ◌+◌, ◌-◌, ◌≤◌, ◌<◌, ◌≡◌, refl, sym, ap, ◌∙◌, min, Bool, true,
  false, not, ◌&&◌, Option, none, some, List, ◌++◌, map, append-nil, length, length-append,
  length-take, length-drop, take, drop, ltb, leb, if◌then◌else◌, arith, dec_lt, lt→ltb,
  ltb-eq-false,
}
use c37_118_simulator.Prelude.Text.{Bytes, bytes_eqb_iff}
use c37_118_simulator.Prelude.Decimal.{max_word}
use c37_118_simulator.Scenario.Controller.Actions.{
  PreparedScenarioSnapshot, PendingScenarioSnapshot,
}
use c37_118_simulator.Scenario.Controller.Snapshot.{
  ActiveScenarioSnapshot, ScenarioControllerSnapshot,
}
use c37_118_simulator.Management.Requests.{ConsoleStateCursor, Checked, ok, err, panicked}
use c37_118_simulator.Management.Route.{parse_console_cursor, is_identity}
use c37_118_simulator.Management.Route.RoundTrip.{cursor-printed}
use c37_118_simulator.Server.Console.{
  console_lifecycle_records_per_page, ConsolePage, slice, total_count, page_record_count, page_at,
  next_offset, management_console_lifecycle_page, ConsoleAnswer, stale_console_cursor,
  invalid_console_cursor, console_page, is_current, has_no_records, print_next, answer_page,
  management_console_state,
}
use c37_118_simulator.Server.Console.Slices.{
  length-map, slice-map, take-then-drop, one_list, sub_add,
}

-- A record of any of the three lists.
pub data LifecycleRecord : Type 0 where
  prepared_record : PreparedScenarioSnapshot → LifecycleRecord
  pending_record : PendingScenarioSnapshot → LifecycleRecord
  active_record : ActiveScenarioSnapshot → LifecycleRecord

abbrev pub gather :
    List PreparedScenarioSnapshot
    → List PendingScenarioSnapshot
    → List ActiveScenarioSnapshot
    → List LifecycleRecord
gather ps qs actives =
    map prepared_record ps ++ (map pending_record qs ++ map active_record actives)

abbrev pub records : ScenarioControllerSnapshot → List LifecycleRecord
records s = gather s.prepared s.pending s.active

abbrev pub page_records : ConsolePage → List LifecycleRecord
page_records p = gather p.prepared p.pending p.active

length-gather :
    (ps : List PreparedScenarioSnapshot) (qs : List PendingScenarioSnapshot)
    (actives : List ActiveScenarioSnapshot)
    → length (gather ps qs actives) ≡ length ps + length qs + length actives
length-gather ps qs actives = omega (
  arith,
  length-append (map prepared_record ps) (map pending_record qs ++ map active_record actives),
  length-append (map pending_record qs) (map active_record actives),
  length-map prepared_record ps,
  length-map pending_record qs,
  length-map active_record actives,
)

-- The records of a page are those of the snapshot from its offset on.
page_at-slice :
    (s : ScenarioControllerSnapshot) (o : ℕ)
    → page_records (page_at s o) ≡ take console_lifecycle_records_per_page (drop o (records s))
unfolding page_at
page_at-slice s o = sym (
    one_list prepared_record o 48 s.prepared
      (map pending_record s.pending ++ map active_record s.active)
    ∙ ap (λ (zs : List LifecycleRecord). map prepared_record (slice o 48 s.prepared) ++ zs)
        (one_list pending_record (o - length s.prepared) (48 - length (slice o 48 s.prepared))
            s.pending (map active_record s.active)
          ∙ ap
              (λ (zs : List LifecycleRecord).
                map pending_record
                  (slice (o - length s.prepared) (48 - length (slice o 48 s.prepared)) s.pending)
                ++ zs)
              (active_part (
                48
                - length (slice o 48 s.prepared)
                - length (
                    slice (o - length s.prepared) (48 - length (slice o 48 s.prepared))
                      s.pending)))))
  where
    active_part :
        (n : ℕ)
        → take n (drop (o - length s.prepared - length s.pending) (map active_record s.active))
          ≡ map active_record (slice (o - (length s.prepared + length s.pending)) n s.active)
    active_part n =
        ap (λ (m : ℕ). take n (drop m (map active_record s.active)))
          (sym (sub_add o (length s.prepared) (length s.pending)))
        ∙ sym (slice-map active_record (o - (length s.prepared + length s.pending)) n s.active)

abbrev pub with_records :
    List LifecycleRecord → Option (List LifecycleRecord) → Option (List LifecycleRecord)
with_records rs none = none
with_records rs (some rest) = some (rs ++ rest)

-- A client that asks for the console state and follows the cursor that each answer prints, until an
-- answer prints none.
abbrev pub follow :
    List LifecycleRecord
    → Checked ConsoleStateCursor
    → (ConsoleStateCursor → Option (List LifecycleRecord))
    → Option (List LifecycleRecord)
follow rs (ok c) more = with_records rs (more c)
follow rs (err e) more = none
follow rs panicked more = none

abbrev pub after_answer :
    ConsoleAnswer
    → (ConsoleStateCursor → Option (List LifecycleRecord))
    → Option (List LifecycleRecord)
after_answer (console_page p none) more = some (page_records p)
after_answer (console_page p (some text)) more =
    follow (page_records p) (parse_console_cursor text) more
after_answer stale_console_cursor more = none
after_answer invalid_console_cursor more = none

pub client :
    ℕ
    → Bytes
    → ℕ
    → ScenarioControllerSnapshot
    → Option ConsoleStateCursor
    → Option (List LifecycleRecord)
client zero identity revision s cursor = none
client (suc fuel) identity revision s cursor =
    after_answer (management_console_state identity revision s cursor)
      (λ c. client fuel identity revision s (some c))

length-records : (s : ScenarioControllerSnapshot) → length (records s) ≡ total_count s
length-records s = length-gather s.prepared s.pending s.active

page_record_count-lem :
    (s : ScenarioControllerSnapshot) (o : ℕ)
    → page_record_count (page_at s o) ≡ min 48 (total_count s - o)
page_record_count-lem s o =
    sym (length-gather (page_at s o).prepared (page_at s o).pending (page_at s o).active)
    ∙ ap (λ (zs : List LifecycleRecord). length zs) (page_at-slice s o)
    ∙ length-take 48 (drop o (records s))
    ∙ ap (min 48) (length-drop o (records s) ∙ ap (λ (n : ℕ). n - o) (length-records s))

has_no_records-false : (p : ConsolePage) → 0 < page_record_count p → has_no_records p ≡ false
has_no_records-false p h = ground (arith, h)

module _ (identity : Bytes) (revision : ℕ) (s : ScenarioControllerSnapshot)
    (named : is_identity identity ≡ true) (fits : revision ≤ max_word)
    (small : total_count s ≤ max_word) where
  abbrev at : ℕ → ConsoleStateCursor
  at o = record { process_identity = identity; controller_revision = revision; offset = o }

  page_lem :
      (o : ℕ)
      → o ≤ total_count s
      → management_console_lifecycle_page s o ≡ some (page_at s o, next_offset s o (page_at s o))
  unfolding management_console_lifecycle_page
  page_lem o h =
      let inside : (leb (total_count s) max_word && leb o (total_count s)) ≡ true =
        ground (arith, h, small) in
      ap (λ (b : Bool). if b then some (page_at s o, next_offset s o (page_at s o)) else none)
        inside

  -- The records of a page and what follows them.
  joined :
      (o : ℕ)
      → page_records (page_at s o) ++ drop (o + page_record_count (page_at s o)) (records s)
        ≡ drop o (records s)
  joined o =
      ap
        (λ (zs : List LifecycleRecord).
          zs ++ drop (o + page_record_count (page_at s o)) (records s))
        (page_at-slice s o)
      ∙ ap (λ (n : ℕ). take 48 (drop o (records s)) ++ drop (o + n) (records s))
          (sym (length-gather (page_at s o).prepared (page_at s o).pending (page_at s o).active)
            ∙ ap (λ (zs : List LifecycleRecord). length zs) (page_at-slice s o))
      ∙ ap (λ (zs : List LifecycleRecord). take 48 (drop o (records s)) ++ zs)
          (sym (drop-drop o (length (take 48 (drop o (records s)))) (records s)))
      ∙ take-then-drop 48 (drop o (records s))

  turn :
      (more : ConsoleStateCursor → Option (List LifecycleRecord)) (o : ℕ) (b : Bool)
      → o ≤ total_count s
      → (b ≡ true → o < total_count s)
      → ((n : ℕ) → o < n → n < total_count s → more (at n) ≡ some (drop n (records s)))
      → after_answer (answer_page identity revision b (management_console_lifecycle_page s o)) more
        ≡ some (drop o (records s))
  turn more o b within inside ih =
      ap (λ p. after_answer (answer_page identity revision b p) more) (page_lem o within)
      ∙ ap
          (λ (c : Bool).
            after_answer
              (if c
                then invalid_console_cursor
                else console_page (page_at s o)
                    (print_next identity revision (next_offset s o (page_at s o))))
              more)
          (not_empty b inside)
      ∙ elim (dec_lt (o + page_record_count (page_at s o)) (total_count s)) [
        | yes goes_on ↦
            next_is (lt→ltb (o + page_record_count (page_at s o)) (total_count s) goes_on)
            ∙ ap (λ m. follow (page_records (page_at s o)) m more)
                (cursor-printed (at (o + page_record_count (page_at s o))) (record {
                  identity = named;
                  revision = fits;
                  within = omega (arith, goes_on, small);
                }))
            ∙ ap (with_records (page_records (page_at s o))) (
                ih (o + page_record_count (page_at s o))
                  (omega (arith, page_record_count-lem s o, goes_on)) goes_on)
            ∙ ap some (joined o)
        | no over ↦
            next_is
              (ltb-eq-false (o + page_record_count (page_at s o)) (total_count s) (omega arith))
            ∙ ap some (
                sym (append-nil (page_records (page_at s o)))
                ∙ ap (λ (zs : List LifecycleRecord). page_records (page_at s o) ++ zs)
                    (sym (
                      drop_all (o + page_record_count (page_at s o)) (records s)
                        (omega (arith, over, length-records s))))
                ∙ joined o)
      ]
    where
      not_empty :
          (b : Bool) → (b ≡ true → o < total_count s) → (b && has_no_records (page_at s o)) ≡ false
      not_empty false h = refl
      not_empty true h =
          has_no_records-false (page_at s o) (omega (arith, h refl, page_record_count-lem s o))

      next_is :
          {c : Bool}
          → ltb (o + page_record_count (page_at s o)) (total_count s) ≡ c
          → after_answer
              (console_page
                (page_at s o)
                (print_next identity revision (next_offset s o (page_at s o))))
              more
            ≡ after_answer
                (console_page (page_at s o) (
                  print_next identity revision
                    (if c then some (o + page_record_count (page_at s o)) else none)))
                more
      next_is e =
          ap
            (λ (c : Bool).
              after_answer
                (console_page (page_at s o) (
                  print_next identity revision
                    (if c then some (o + page_record_count (page_at s o)) else none)))
                more)
            e

  is_current-at : (o : ℕ) → is_current identity revision (at o) ≡ true
  is_current-at o = ground (arith, bytes_eqb_iff identity identity)

  client-from :
      (fuel o : ℕ)
      → o < total_count s
      → total_count s - o < fuel
      → client fuel identity revision s (some (at o)) ≡ some (drop o (records s))
  unfolding client management_console_state
  client-from zero o inside enough = absurd (omega arith)
  client-from (suc fuel) o inside enough =
      ap
        (λ (b : Bool).
          after_answer
            (if not b
              then stale_console_cursor
              else answer_page identity revision true (management_console_lifecycle_page s o))
            (λ c. client fuel identity revision s (some c)))
        (is_current-at o)
      ∙ turn (λ c. client fuel identity revision s (some c)) o true (omega arith) (λ _. inside)
          (λ n up lt. client-from fuel n lt (omega arith))

-- A client that asks for the console state, and follows the cursors that the answers print as the
-- requests parse them, gets every record of the snapshot exactly once and in order after at most as
-- many requests as there are records and one: while the snapshot and its revision stay the same, for
-- an identity of 64 lower-case hexadecimal digits and counts that fit their words.
pub client-records :
    (identity : Bytes) (revision fuel : ℕ) (s : ScenarioControllerSnapshot)
    → is_identity identity ≡ true
    → revision ≤ max_word
    → total_count s ≤ max_word
    → total_count s < fuel
    → client fuel identity revision s none ≡ some (records s)
unfolding client management_console_state
client-records identity revision zero s named fits small enough = absurd (omega arith)
client-records identity revision (suc fuel) s named fits small enough =
    turn identity revision s named fits small (λ c. client fuel identity revision s (some c)) 0
      false (omega arith) (λ e. absurd (ground (arith, e)))
      (λ n up lt. client-from identity revision s named fits small fuel n lt (omega arith))
