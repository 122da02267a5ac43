-- ===== src/Management/Parse.antt =====
-- `parse` of src/management.rs. The HTTP head and the JSON bodies are read by other libraries: they
-- are parameters.
pub mod Accepted
use c37_118_simulator.Prelude.{
  ℕ, ◌+◌, ◌*◌, ◌≤◌, ◌<◌, ◌≡◌, refl, Bool, true, false, not, ◌&&◌, ◌||◌, Option, none, some, List,
  [], ◌∷◌, length, take, drop, ◌==◌, leb, ltb, if◌then◌else◌,
}
use c37_118_simulator.Prelude.Text.{Bytes}
use c37_118_simulator.Prelude.Decimal.{max_word, decimal}
use c37_118_simulator.Management.Errors.{
  ParseError, request_too_large, incomplete_at_limit, malformed_request, too_many_headers,
  unsupported_http_version, unsupported_media_type, content_length_required, body_too_large,
  body_not_allowed, trailing_data, invalid_json_body, invalid_target, invalid_token,
}
use c37_118_simulator.Management.Requests.{
  PrepareScenarioRequest, ClearScenarioRequest, TokenRequest, ManagementRequest, healthz, readyz,
  metrics, catalog, state, console_state, prepare, confirm, cancel, clear, Checked, ok, err,
  panicked, guard, ok_or, ◌>>=◌, ◌>>◌,
}
use c37_118_simulator.Management.Numbers.{parse_canonical_decimal_token}
use c37_118_simulator.Management.Headers.{Header, RequestFraming, inspect_headers}
use c37_118_simulator.Management.Route.{
  Route, to_healthz, to_readyz, to_metrics, to_catalog, to_state, to_console_state, to_prepare,
  to_confirm, to_clear, to_cancel, requires_json_body, route_for,
}
use c37_118_simulator.Management.MediaType.{is_json_content_type}

abbrev pub max_request_bytes : ℕ
max_request_bytes = 8 * 1024

-- A head that the HTTP parser read to its end. The version is the minor one of HTTP/1.
pub record Head : Type 0 where
  pub header_end : ℕ
  pub method : Option Bytes
  pub path : Option Bytes
  pub version : Option ℕ
  pub headers : List Header

pub data HeadStatus : Type 0 where
  whole : Head → HeadStatus
  partial head_too_many_headers head_error : HeadStatus

-- The value of `token` in a body: a text, a number as it is printed, or something else.
pub data TokenValue : Type 0 where
  text_token number_token : Bytes → TokenValue
  other_token : TokenValue

-- What the libraries make of the bytes of a request.
pub record Readers : Type 0 where
  pub read_head : Bytes → HeadStatus
  pub read_prepare : Bytes → Option PrepareScenarioRequest
  pub read_clear : Bytes → Option ClearScenarioRequest
  pub read_token : Bytes → Option (TokenValue × Option Bytes)

pub data ParseOutcome : Type 0 where
  complete : ManagementRequest → ParseOutcome
  incomplete : ParseOutcome
  error : ParseError → ParseOutcome
  ended : ParseOutcome

abbrev pub incomplete_or_at_limit : ℕ → ParseOutcome
incomplete_or_at_limit n = if n == max_request_bytes then error incomplete_at_limit else incomplete

-- A step that returns an error ends the parse with it.
infixl 5 ◌&=◌
abbrev pub ◌&=◌ : {A : Type 0} → Checked A → (A → ParseOutcome) → ParseOutcome
ok a &= f = f a
err e &= f = error e
panicked &= f = ended

abbrev pub parse_legacy_compatible_scenario_token : TokenValue → Option ℕ
parse_legacy_compatible_scenario_token (text_token t) = parse_canonical_decimal_token t
parse_legacy_compatible_scenario_token (number_token t) = parse_canonical_decimal_token t
parse_legacy_compatible_scenario_token other_token = none

abbrev pub parse_canonical_scenario_token : TokenValue → Option ℕ
parse_canonical_scenario_token (text_token t) = parse_canonical_decimal_token t
parse_canonical_scenario_token token = none

abbrev pub is_nonzero : ℕ → Bool
is_nonzero n = not (n == 0)

abbrev pub has_json_type : Option Bytes → Bool
has_json_type none = true
has_json_type (some t) = is_json_content_type t

-- The length of the body, from the content length and the route.
abbrev pub body_length : Option ℕ → Bool → Checked ℕ
body_length (some n) required = ok n
body_length none true = err content_length_required
body_length none false = ok 0

module _ (r : Readers) where
  unfoldable pub parse_prepare : Bytes → Checked ManagementRequest
  parse_prepare body = do
    request ← ok_or (r.read_prepare body) invalid_json_body
    guard (is_nonzero request.target.stream_id) invalid_target
    ok (prepare request)

  unfoldable pub parse_clear : Bytes → Checked ManagementRequest
  parse_clear body = do
    request ← ok_or (r.read_clear body) invalid_json_body
    guard (is_nonzero request.target.stream_id) invalid_target
    ok (clear request)

  unfoldable pub parse_scenario_token_request :
      (TokenValue → Option ℕ) → Bytes → Checked TokenRequest
  parse_scenario_token_request parse_token body = do
    request ← ok_or (r.read_token body) invalid_json_body
    token ← ok_or (parse_token request.0) invalid_token
    ok (record { token = token; actor_label = request.1 })

  abbrev pub parse_confirm : Bytes → Checked ManagementRequest
  parse_confirm body = do
    request ← parse_scenario_token_request parse_legacy_compatible_scenario_token body
    ok (confirm request)

  abbrev pub parse_cancel : Bytes → Checked ManagementRequest
  parse_cancel body = do
    request ← parse_scenario_token_request parse_canonical_scenario_token body
    ok (cancel request)

  -- The last `match` of `parse`.
  unfoldable pub dispatch : Route → Bytes → Checked ManagementRequest
  dispatch to_healthz body = ok healthz
  dispatch to_readyz body = ok readyz
  dispatch to_metrics body = ok metrics
  dispatch to_catalog body = ok catalog
  dispatch to_state body = ok state
  dispatch (to_console_state cursor) body = ok (console_state cursor)
  dispatch to_prepare body = parse_prepare body
  dispatch to_confirm body = parse_confirm body
  dispatch to_clear body = parse_clear body
  dispatch to_cancel body = parse_cancel body

  -- The end of `parse`: the input against the end of the request.
  abbrev pub parse_body : Bytes → Head → Route → ℕ → ParseOutcome
  parse_body input head route n =
      if ltb (length input) (head.header_end + n)
      then incomplete_or_at_limit (length input)
      else if ltb (head.header_end + n) (length input)
      then error trailing_data
      else (dispatch route (take n (drop head.header_end input)) &= λ request. complete request)

  abbrev pub parse_sized : Bytes → Head → Route → ℕ → ParseOutcome
  parse_sized input head route n = guard (not (ltb max_request_bytes n)) body_too_large &= λ _.
      guard (requires_json_body route || (n == 0)) body_not_allowed &= λ _.
      guard (leb (head.header_end + n) max_word && leb (head.header_end + n) max_request_bytes)
        request_too_large
      &= λ _. parse_body input head route n

  abbrev pub parse_routed : Bytes → Head → RequestFraming → Route → ParseOutcome
  parse_routed input head framing route =
      guard (not (requires_json_body route) || has_json_type framing.content_type)
        unsupported_media_type
      &= λ _. body_length framing.content_length (requires_json_body route) &= λ n.
          parse_sized input head route n

  abbrev pub is_version_1_1 : Option ℕ → Bool
  is_version_1_1 none = false
  is_version_1_1 (some n) = n == 1

  abbrev pub parse_headed : Bytes → Head → ParseOutcome
  parse_headed input head = guard (is_version_1_1 head.version) unsupported_http_version &= λ _.
      inspect_headers head.headers &= λ framing.
      route_for head.method head.path &= λ route. parse_routed input head framing route

  abbrev pub parse_status : Bytes → HeadStatus → ParseOutcome
  parse_status input (whole head) = parse_headed input head
  parse_status input partial = incomplete_or_at_limit (length input)
  parse_status input head_too_many_headers = error too_many_headers
  parse_status input head_error = error malformed_request

  unfoldable pub parse : Bytes → ParseOutcome
  parse input =
      if ltb max_request_bytes (length input)
      then error request_too_large
      else parse_status input (r.read_head input)
