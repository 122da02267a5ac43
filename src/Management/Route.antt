-- ===== src/Management/Route.antt =====
-- From a method and a request target to a route: `route_for` of src/management.rs.
pub mod Methods
pub mod RoundTrip
use c37_118_simulator.Prelude.{
  ℕ, ◌≡◌, refl, Bool, true, false, not, ◌&&◌, ◌||◌, Option, none, some, List, [], ◌∷◌, length, ◌==◌,
  if◌then◌else◌,
}
use c37_118_simulator.Prelude.Text.{
  Bytes, codes, bytes_eqb, all, is_empty, contains_byte, split, split_once, is_ascii_digit,
  is_ascii_lowercase, is_ascii_hexdigit,
}
use c37_118_simulator.Management.Errors.{
  AllowedMethod, allow_get, allow_post, malformed_request, unknown_path, invalid_query,
  method_not_allowed,
}
use c37_118_simulator.Management.Requests.{
  ConsoleStateCursor, Checked, ok, err, panicked, ok_or, guard, ◌>>=◌, ◌>>◌,
}
use c37_118_simulator.Management.Numbers.{parse_decimal_u64}

pub data Route : Type 0 where
  to_healthz to_readyz to_metrics to_catalog to_state : Route
  to_console_state : Option ConsoleStateCursor → Route
  to_prepare to_confirm to_clear to_cancel : Route

abbrev pub requires_json_body : Route → Bool
requires_json_body to_prepare = true
requires_json_body to_confirm = true
requires_json_body to_clear = true
requires_json_body to_cancel = true
requires_json_body route = false

abbrev pub is_identity_byte : ℕ → Bool
is_identity_byte b = is_ascii_digit b || is_ascii_lowercase b && is_ascii_hexdigit b

abbrev pub is_identity : Bytes → Bool
is_identity bs = (length bs == 64) && all is_identity_byte bs

-- The parts of a cursor. A part that is missing and one that does not parse are the same error. An
-- offset is a `usize` of 64 bits.
abbrev pub cursor_of : List Bytes → Checked ConsoleStateCursor
cursor_of (identity ∷ revision ∷ offset ∷ parts) = do
  r ← parse_decimal_u64 revision
  o ← parse_decimal_u64 offset
  guard (is_empty parts && is_identity identity) invalid_query
  ok (record { process_identity = identity; controller_revision = r; offset = o })
cursor_of parts = err invalid_query

unfoldable pub parse_console_cursor : Bytes → Checked ConsoleStateCursor
parse_console_cursor value = cursor_of (split b':' value)

-- The two variables of the loop over the parameters.
pub record Parameters : Type 0 where
  pub format : Option Bytes
  pub cursor : Option ConsoleStateCursor

-- `replace` into a variable that is empty.
abbrev pub put_format : Bytes → Option Bytes → Parameters → Checked Parameters
put_format value none ps = ok (record ps { format = some value })
put_format value (some old) ps = err invalid_query

abbrev pub put_cursor :
    ConsoleStateCursor → Option ConsoleStateCursor → Parameters → Checked Parameters
put_cursor cursor none ps = ok (record ps { cursor = some cursor })
put_cursor cursor (some old) ps = err invalid_query

-- One turn of the loop.
abbrev pub put_parameter : Bytes × Bytes → Parameters → Checked Parameters
put_parameter (name, value) ps =
    if bytes_eqb name (codes "format")
    then put_format value ps.format ps
    else if bytes_eqb name (codes "cursor")
    then (parse_console_cursor value >>= λ cursor. put_cursor cursor ps.cursor ps)
    else err invalid_query

unfoldable pub scan_parameters : List Bytes → Parameters → Checked Parameters
scan_parameters [] ps = ok ps
scan_parameters (parameter ∷ parameters) ps = do
  pair ← ok_or (split_once b'=' parameter) invalid_query
  ps' ← put_parameter pair ps
  scan_parameters parameters ps'

abbrev pub console_route : Option Bytes → Option ConsoleStateCursor → Checked Route
console_route none cursor = err invalid_query
console_route (some format) cursor =
    if bytes_eqb format (codes "console-v1")
    then ok (to_console_state cursor)
    else err invalid_query

unfoldable pub parse_console_state_route : Bytes → Checked Route
parse_console_state_route query = do
  guard (not (is_empty query)) invalid_query
  ps ← scan_parameters (split b'&' query) (record { format = none; cursor = none })
  console_route ps.format ps.cursor

abbrev pub is_get_path : Bytes → Bool
is_get_path path =
    bytes_eqb path (codes "/healthz")
    || bytes_eqb path (codes "/readyz")
    || bytes_eqb path (codes "/metrics")
    || bytes_eqb path (codes "/v1/catalog")
    || bytes_eqb path (codes "/v1/state")

abbrev pub is_post_path : Bytes → Bool
is_post_path path =
    bytes_eqb path (codes "/v1/scenarios/prepare")
    || bytes_eqb path (codes "/v1/scenarios/confirm")
    || bytes_eqb path (codes "/v1/scenarios/clear")
    || bytes_eqb path (codes "/v1/scenarios/cancel")

abbrev pub allowed_for : Bytes → Checked AllowedMethod
allowed_for path =
    if is_get_path path
    then ok allow_get
    else if is_post_path path
    then ok allow_post
    else err unknown_path

abbrev pub method_name : AllowedMethod → Bytes
method_name allow_get = codes "GET"
method_name allow_post = codes "POST"

-- The last `match` of `route_for`.
abbrev pub select : Bytes → Option Bytes → Checked Route
select path (some query) =
    if bytes_eqb path (codes "/v1/state")
    then parse_console_state_route query
    else err invalid_query
select path none =
    if bytes_eqb path (codes "/healthz")
    then ok to_healthz
    else if bytes_eqb path (codes "/readyz")
    then ok to_readyz
    else if bytes_eqb path (codes "/metrics")
    then ok to_metrics
    else if bytes_eqb path (codes "/v1/catalog")
    then ok to_catalog
    else if bytes_eqb path (codes "/v1/state")
    then ok to_state
    else if bytes_eqb path (codes "/v1/scenarios/prepare")
    then ok to_prepare
    else if bytes_eqb path (codes "/v1/scenarios/confirm")
    then ok to_confirm
    else if bytes_eqb path (codes "/v1/scenarios/clear")
    then ok to_clear
    else if bytes_eqb path (codes "/v1/scenarios/cancel")
    then ok to_cancel
    else panicked

abbrev pub split_target : Bytes → Option (Bytes × Bytes) → Checked (Bytes × Option Bytes)
split_target target none = ok (target, none)
split_target target (some (path, query)) =
    if not (contains_byte b'?' query) then ok (path, some query) else err invalid_query

unfoldable pub route_of : Bytes → Bytes → Checked Route
route_of method target = do
  parts ← split_target target (split_once b'?' target)
  allowed ← allowed_for parts.0
  guard (bytes_eqb method (method_name allowed)) (method_not_allowed allowed)
  select parts.0 parts.1

unfoldable pub route_for : Option Bytes → Option Bytes → Checked Route
unfolding route_of
route_for method request_target = do
  m ← ok_or method malformed_request
  t ← ok_or request_target malformed_request
  route_of m t
