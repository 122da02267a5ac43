-- ===== src/Management/Route/RoundTrip.antt =====
-- The console cursors that src/server.rs hands out, read back by src/management.rs.
use c37_118_simulator.Prelude.{
  ℕ, ◌≤◌, ◌≡◌, refl, ap, ◌∙◌, true, false, ◌||◌, none, some, [], ◌∷◌, ◌++◌, ◌==◌, arith,
}
use c37_118_simulator.Prelude.Text.{
  Bytes, codes, contains_byte, split, is_ascii_digit, split-append, split-whole, split_once-append,
  all-contains_byte, contains_byte-append,
}
use c37_118_simulator.Prelude.Decimal.{max_word, decimal, decimal-clear}
use c37_118_simulator.Management.Requests.{ConsoleStateCursor, ok}
use c37_118_simulator.Management.Numbers.{parse_decimal_u64-decimal}
use c37_118_simulator.Management.Route.{
  to_console_state, is_identity, is_identity_byte, cursor_of, parse_console_cursor, scan_parameters,
  parse_console_state_route, route_for,
}

-- `console_cursor` of src/server.rs
unfoldable pub console_cursor : Bytes → ℕ → ℕ → Bytes
console_cursor process_identity controller_revision offset =
    process_identity ++ b':' ∷ (decimal controller_revision ++ b':' ∷ decimal offset)

abbrev pub printed : ConsoleStateCursor → Bytes
printed c = console_cursor c.process_identity c.controller_revision c.offset

-- A cursor that the server can have handed out.
pub record IsIssued (c : ConsoleStateCursor) : Type 0 where
  pub identity : is_identity c.process_identity ≡ true
  pub revision : c.controller_revision ≤ max_word
  pub within : c.offset ≤ max_word

module _ (c : ConsoleStateCursor) (w : IsIssued c) where
  identity-clear : (b : ℕ) → is_identity_byte b ≡ false → contains_byte b c.process_identity ≡ false
  identity-clear b h =
      all-contains_byte is_identity_byte b c.process_identity h (ground (arith, w.identity))

  split-printed :
      split b':' (printed c)
      ≡ c.process_identity ∷ decimal c.controller_revision ∷ decimal c.offset ∷ []
  unfolding console_cursor
  split-printed =
      split-append b':' c.process_identity
        (decimal c.controller_revision ++ b':' ∷ decimal c.offset) (identity-clear b':' refl)
      ∙ ap (λ t. c.process_identity ∷ t)
          (split-append b':' (decimal c.controller_revision) (decimal c.offset)
              (decimal-clear b':' c.controller_revision refl)
            ∙ ap (λ t. decimal c.controller_revision ∷ t)
                (split-whole b':' (decimal c.offset) (decimal-clear b':' c.offset refl)))

  pub cursor-printed : parse_console_cursor (printed c) ≡ ok c
  unfolding parse_console_cursor
  cursor-printed =
      ap cursor_of split-printed
      ∙ rw
          (
            parse_decimal_u64-decimal c.controller_revision w.revision,
            parse_decimal_u64-decimal c.offset w.within,
            w.identity,
          )
          refl

  printed-clear :
      (b : ℕ)
      → is_identity_byte b ≡ false
      → is_ascii_digit b ≡ false
      → (b':' == b) ≡ false
      → contains_byte b (printed c) ≡ false
  unfolding console_cursor
  printed-clear b h k e =
      contains_byte-append b c.process_identity
        (b':' ∷ (decimal c.controller_revision ++ b':' ∷ decimal c.offset)) (identity-clear b h)
        (ap (λ t. t || contains_byte b (decimal c.controller_revision ++ b':' ∷ decimal c.offset)) e
          ∙ contains_byte-append b (decimal c.controller_revision) (b':' ∷ decimal c.offset)
              (decimal-clear b c.controller_revision k)
              (ap (λ t. t || contains_byte b (decimal c.offset)) e ∙ decimal-clear b c.offset k))

  abbrev pub query : Bytes
  query = codes "format=console-v1&cursor=" ++ printed c

  split-query : split b'&' query ≡ codes "format=console-v1" ∷ (codes "cursor=" ++ printed c) ∷ []
  split-query =
      split-append b'&' (codes "format=console-v1") (codes "cursor=" ++ printed c) refl
      ∙ ap (λ t. codes "format=console-v1" ∷ t)
          (split-whole b'&' (codes "cursor=" ++ printed c) (
            contains_byte-append b'&' (codes "cursor=") (printed c) refl
              (printed-clear b'&' refl refl refl)))

  scan-query :
      scan_parameters (split b'&' query) (record { format = none; cursor = none })
      ≡ ok (record { format = some (codes "console-v1"); cursor = some c })
  unfolding scan_parameters
  scan-query =
      ap (λ t. scan_parameters t (record { format = none; cursor = none })) split-query
      ∙ rw
          (
            split_once-append b'=' (codes "format") (codes "console-v1") refl,
            split_once-append b'=' (codes "cursor") (printed c) refl,
            cursor-printed,
          )
          refl

  query-route : parse_console_state_route query ≡ ok (to_console_state (some c))
  unfolding parse_console_state_route
  query-route = rw (scan-query) refl

  query-single : contains_byte b'?' query ≡ false
  query-single =
      contains_byte-append b'?' (codes "format=console-v1&cursor=") (printed c) refl
        (printed-clear b'?' refl refl refl)

-- A cursor that the server prints, of an identity of 64 lower-case hexadecimal digits and of a
-- revision and an offset that fit their words, comes back from a GET of the state as it was.
pub route_for-console_cursor :
    (c : ConsoleStateCursor)
    → IsIssued c
    → route_for (some (codes "GET")) (
        some (
          codes "/v1/state?"
          ++ (codes "format=console-v1&cursor="
              ++ console_cursor c.process_identity c.controller_revision c.offset)))
      ≡ ok (to_console_state (some c))
unfolding route_for
route_for-console_cursor c w =
    rw
      (
        split_once-append b'?' (codes "/v1/state") (query c w) refl,
        query-single c w,
        query-route c w,
      )
      refl
