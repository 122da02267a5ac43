-- ===== src/Server/Console.antt =====
-- The console state that src/server.rs serves in pages.
pub mod Slices
pub mod Pages
use c37_118_simulator.Prelude.{
  ℕ, ◌+◌, ◌-◌, ◌≡◌, min, Bool, true, false, not, ◌&&◌, ◌||◌, Option, none, some, List, [], ◌∷◌,
  length, take, drop, ltb, leb, ◌==◌, if◌then◌else◌,
}
use c37_118_simulator.Prelude.Text.{Bytes, bytes_eqb, is_empty}
use c37_118_simulator.Prelude.Decimal.{max_word}
use c37_118_simulator.Scenario.Controller.Actions.{
  PreparedScenarioSnapshot, PendingScenarioSnapshot,
}
use c37_118_simulator.Scenario.Controller.Snapshot.{
  ActiveScenarioSnapshot, ScenarioControllerSnapshot,
}
use c37_118_simulator.Management.Requests.{ConsoleStateCursor}
use c37_118_simulator.Management.Route.RoundTrip.{console_cursor}

abbrev pub console_lifecycle_records_per_page : ℕ
console_lifecycle_records_per_page = 48

-- `ManagementConsoleScenarioControllerState`
pub record ConsolePage : Type 0 where
  pub current_sample_index : Option ℕ
  pub prepared : List PreparedScenarioSnapshot
  pub pending : List PendingScenarioSnapshot
  pub active : List ActiveScenarioSnapshot
  pub prepared_count : ℕ
  pub pending_count : ℕ
  pub active_count : ℕ

-- `skip(min(offset, length)).take(n)`
abbrev pub slice {ℓ} : {A : Type ℓ} → ℕ → ℕ → List A → List A
slice offset n xs = take n (drop (min offset (length xs)) xs)

abbrev pub page_of :
    ScenarioControllerSnapshot
    → List PreparedScenarioSnapshot
    → List PendingScenarioSnapshot
    → List ActiveScenarioSnapshot
    → ConsolePage
page_of s prepared pending active = record {
  current_sample_index = s.current_sample_index;
  prepared = prepared;
  pending = pending;
  active = active;
  prepared_count = length s.prepared;
  pending_count = length s.pending;
  active_count = length s.active;
}

abbrev pub total_count : ScenarioControllerSnapshot → ℕ
total_count s = length s.prepared + length s.pending + length s.active

abbrev pub page_record_count : ConsolePage → ℕ
page_record_count p = length p.prepared + length p.pending + length p.active

-- The page that begins at `offset`: `remaining` goes down with each list.
unfoldable pub page_at : ScenarioControllerSnapshot → ℕ → ConsolePage
page_at s offset =
    let prepared = slice offset console_lifecycle_records_per_page s.prepared in
    let remaining = console_lifecycle_records_per_page - length prepared in
    let pending = slice (offset - length s.prepared) remaining s.pending in
    let rest = remaining - length pending in
    page_of s prepared pending
      (slice (offset - (length s.prepared + length s.pending)) rest s.active)

abbrev pub next_offset : ScenarioControllerSnapshot → ℕ → ConsolePage → Option ℕ
next_offset s offset p =
    if ltb (offset + page_record_count p) (total_count s)
    then some (offset + page_record_count p)
    else none

unfoldable pub management_console_lifecycle_page :
    ScenarioControllerSnapshot → ℕ → Option (ConsolePage × Option ℕ)
management_console_lifecycle_page s offset =
    if leb (total_count s) max_word && leb offset (total_count s)
    then some (page_at s offset, next_offset s offset (page_at s offset))
    else none

pub data ConsoleAnswer : Type 0 where
  stale_console_cursor invalid_console_cursor : ConsoleAnswer
  console_page : ConsolePage → Option Bytes → ConsoleAnswer

abbrev pub is_current : Bytes → ℕ → ConsoleStateCursor → Bool
is_current identity revision cursor =
    bytes_eqb cursor.process_identity identity && (cursor.controller_revision == revision)

abbrev pub has_no_records : ConsolePage → Bool
has_no_records p = is_empty p.prepared && is_empty p.pending && is_empty p.active

abbrev pub print_next : Bytes → ℕ → Option ℕ → Option Bytes
print_next identity revision none = none
print_next identity revision (some offset) = some (console_cursor identity revision offset)

abbrev pub answer_page : Bytes → ℕ → Bool → Option (ConsolePage × Option ℕ) → ConsoleAnswer
answer_page identity revision has_cursor none = invalid_console_cursor
answer_page identity revision has_cursor (some (page, next)) =
    if has_cursor && has_no_records page
    then invalid_console_cursor
    else console_page page (print_next identity revision next)

-- What `management_console_state_response` decides, for the snapshot of a controller at `revision`.
unfoldable pub management_console_state :
    Bytes → ℕ → ScenarioControllerSnapshot → Option ConsoleStateCursor → ConsoleAnswer
management_console_state identity revision s none =
    answer_page identity revision false (management_console_lifecycle_page s 0)
management_console_state identity revision s (some cursor) =
    if not (is_current identity revision cursor)
    then stale_console_cursor
    else answer_page identity revision true (management_console_lifecycle_page s cursor.offset)
