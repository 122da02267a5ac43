-- ===== src/Management/Tests.antt =====
-- The theorems about src/management.rs at small requests and responses.
use c37_118_simulator.Prelude.{
  ◌≤◌, ◌<◌, ◌≡◌, ◌↔◌, refl, false, none, some, List, [], ◌∷◌, ◌++◌, length, replicate, ltb,
  if◌then◌else◌, arith,
}
use c37_118_simulator.Prelude.Text.{Bytes, codes}
use c37_118_simulator.Prelude.Decimal.{max_word, decimal, fold_digits}
use c37_118_simulator.Management.Errors.{http_ok}
use c37_118_simulator.Management.Requests.{ConsoleStateCursor, ok}
use c37_118_simulator.Management.Returns.{Returns}
use c37_118_simulator.Management.Numbers.{
  parse_canonical_decimal_token, parse_content_length, token-iff-decimal,
}
use c37_118_simulator.Management.Headers.{
  Header, RequestFraming, inspect_headers, see_headers, see_header, is_named,
}
use c37_118_simulator.Management.Headers.Once.{Framed, inspect_headers-Framed}
use c37_118_simulator.Management.Route.{route_for, to_console_state}
use c37_118_simulator.Management.Route.Methods.{method_text, route_for-Reaches}
use c37_118_simulator.Management.Route.RoundTrip.{console_cursor, route_for-console_cursor}
use c37_118_simulator.Management.Parse.{whole, partial, Readers, parse}
use c37_118_simulator.Management.Parse.Accepted.{Answers, parse-Answers}
use c37_118_simulator.Management.Response.{
  StaticHeader, JsonValue, json_response, refused, json_failed, exceeded_error, maximum_for,
  is_no_content, encode_response, encoded, json_content_type, prometheus_content_type,
}
use c37_118_simulator.Management.Response.Writer.{concat, json_response-concat}
use c37_118_simulator.Management.Response.Reader.{read_response, head_lines, encode_response-read}

token-iff-decimal_example :
    (parse_canonical_decimal_token (codes "42") ≡ some 42)
    ↔ ((0 < 42) × (42 ≤ max_word) × (codes "42" ≡ decimal 42))
token-iff-decimal_example = token-iff-decimal (codes "42") 42

abbrev cursor : ConsoleStateCursor
cursor = record { process_identity = replicate 64 b'a'; controller_revision = 7; offset = 48 }

route_for-console_cursor_example :
    route_for (some (codes "GET")) (
      some (
        codes "/v1/state?"
        ++ (codes "format=console-v1&cursor=" ++ console_cursor (replicate 64 b'a') 7 48)))
    ≡ ok (to_console_state (some cursor))
route_for-console_cursor_example =
    route_for-console_cursor cursor
      (record { identity = refl; revision = omega arith; within = omega arith })

abbrev headers : List Header
headers =
    record { name = codes "HOST"; value = codes " localhost" }
    ∷ record { name = codes "Content-Length"; value = codes "2" }
    ∷ []

abbrev framing : RequestFraming
framing = record { content_length = some 2; content_type = none }

headers_accepted : inspect_headers headers ≡ ok framing
unfolding inspect_headers see_headers see_header is_named parse_content_length fold_digits
headers_accepted = refl

inspect_headers-Framed_example : Framed headers framing
inspect_headers-Framed_example = inspect_headers-Framed headers framing headers_accepted

route_for-Reaches_example :
    Returns
      (λ route. some (codes "POST") ≡ some (method_text route))
      (route_for (some (codes "POST")) (some (codes "/v1/scenarios/confirm")))
route_for-Reaches_example =
    route_for-Reaches (some (codes "POST")) (some (codes "/v1/scenarios/confirm"))

-- Libraries that take the first five bytes for the head of a GET.
abbrev readers : Readers
readers = record {
  read_head = λ input.
      if ltb (length input) 5
      then partial
      else whole (record {
        header_end = 5;
        method = some (codes "GET");
        path = some (codes "/healthz");
        version = some 1;
        headers = record { name = codes "Host"; value = codes "h" } ∷ [];
      });
  read_prepare = λ body. none;
  read_clear = λ body. none;
  read_token = λ body. none;
}

parse-Answers_example : Answers readers (codes "GET /") (parse readers (codes "GET /"))
parse-Answers_example = parse-Answers readers (codes "GET /")

abbrev empty_object : JsonValue
empty_object = record { pieces = codes "{" ∷ codes "}" ∷ []; fails = false }

json_response-concat_example : json_response http_ok empty_object [] ≡ (
    if ltb (maximum_for http_ok) (length (concat empty_object.pieces))
    then refused (exceeded_error (is_no_content http_ok))
    else if empty_object.fails
    then refused json_failed
    else encode_response http_ok json_content_type (concat empty_object.pieces) [])
json_response-concat_example = json_response-concat http_ok empty_object []

abbrev allow : List StaticHeader
allow = (codes "Allow", codes "GET") ∷ []

encode_response-read_example :
    (response : Bytes) × (encode_response http_ok prometheus_content_type (codes "x 1") allow
      ≡ encoded response)
    × (read_response 6 response
        ≡ some (head_lines http_ok prometheus_content_type 3 allow, codes "x 1"))
encode_response-read_example =
    encode_response-read http_ok prometheus_content_type (codes "x 1") allow refl (omega arith) refl
      ((refl, refl), tt)
