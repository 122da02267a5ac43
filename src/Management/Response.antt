-- ===== src/Management/Response.antt =====
-- The responses that src/management.rs encodes. A JSON value is the pieces that the serializer
-- writes, in order, and whether it fails of itself at the end.
pub mod Reader
pub mod Writer
use c37_118_simulator.Prelude.{
  ℕ, ◌+◌, ◌-◌, ◌*◌, ◌≡◌, refl, Bool, true, false, not, Option, none, some, List, [], ◌∷◌, ◌++◌,
  length, ltb, if◌then◌else◌,
}
use c37_118_simulator.Prelude.Text.{Bytes, codes, is_empty}
use c37_118_simulator.Prelude.Decimal.{decimal}
use c37_118_simulator.Management.Errors.{
  AllowedMethod, allow_get, allow_post, ParseError, error_status, allowed_method, StatusCode,
  no_content, code_and_reason,
}

abbrev pub max_response_body_bytes : ℕ
max_response_body_bytes = 64 * 1024

abbrev pub json_content_type : Bytes
json_content_type = codes "application/json; charset=utf-8"

abbrev pub prometheus_content_type : Bytes
prometheus_content_type = codes "text/plain; version=0.0.4; charset=utf-8"

abbrev pub empty_content_type : Bytes
empty_content_type = codes "text/plain; charset=utf-8"

abbrev pub StaticHeader : Type 0
StaticHeader = Bytes × Bytes

pub data ResponseEncodeError : Type 0 where
  json_failed : ResponseEncodeError
  response_too_large : ℕ → ℕ → ResponseEncodeError
  no_content_body : ℕ → ResponseEncodeError

pub data Encoded : Type 0 where
  encoded : Bytes → Encoded
  refused : ResponseEncodeError → Encoded

abbrev pub line_end : Bytes
line_end = 13 ∷ 10 ∷ []

unfoldable pub append_static_headers : Bytes → List StaticHeader → Bytes
append_static_headers response [] = response
append_static_headers response ((name, value) ∷ headers) =
    append_static_headers (response ++ (name ++ (codes ": " ++ (value ++ line_end)))) headers

abbrev pub status_line : ℕ × Bytes → Bytes
status_line (code, reason) = codes "HTTP/1.1 " ++ (decimal code ++ (codes " " ++ reason))

abbrev pub is_no_content : StatusCode → Bool
is_no_content no_content = true
is_no_content other = false

abbrev pub connection_close : Bytes
connection_close = codes "Connection: close" ++ (line_end ++ line_end)

-- The two ends of `encode_response`.
abbrev pub encode_no_content : Bytes → List StaticHeader → Encoded
encode_no_content body headers =
    if not (is_empty body)
    then refused (no_content_body (length body))
    else encoded (
        append_static_headers (status_line (code_and_reason no_content) ++ line_end) headers
        ++ connection_close)

abbrev pub encode_with_body : StatusCode → Bytes → Bytes → List StaticHeader → Encoded
encode_with_body status content_type body headers =
    if ltb max_response_body_bytes (length body)
    then refused (response_too_large (length body) max_response_body_bytes)
    else encoded (
        (append_static_headers
            (status_line (code_and_reason status)
              ++ (line_end
                  ++ (codes "Content-Type: "
                      ++ (content_type
                          ++ (line_end
                              ++ (codes "Content-Length: "
                                  ++ (decimal (length body) ++ line_end)))))))
            headers
          ++ connection_close)
        ++ body)

unfoldable pub encode_response : StatusCode → Bytes → Bytes → List StaticHeader → Encoded
encode_response status content_type body headers =
    if is_no_content status
    then encode_no_content body headers
    else encode_with_body status content_type body headers

-- `BoundedJsonWriter`
pub record BoundedJsonWriter : Type 0 where
  pub body : Bytes
  pub maximum : ℕ
  pub exceeded : Bool

-- What `serde_json::to_writer` comes to: the writer as it leaves it, and whether it succeeded.
pub record Written : Type 0 where
  pub writer : BoundedJsonWriter
  pub succeeded : Bool

pub record JsonValue : Type 0 where
  pub pieces : List Bytes
  pub fails : Bool

-- `Write::write`; a piece that does not fit is not written at all.
abbrev pub fits : BoundedJsonWriter → Bytes → Bool
fits w buffer = not (ltb (w.maximum - length w.body) (length buffer))

unfoldable pub write_pieces : List Bytes → Bool → BoundedJsonWriter → Written
write_pieces [] fails w = record { writer = w; succeeded = not fails }
write_pieces (piece ∷ pieces) fails w =
    let rest = write_pieces pieces fails (record w { body = w.body ++ piece }) in
    if fits w piece
    then rest
    else record { writer = record w { exceeded = true }; succeeded = false }

abbrev pub exceeded_error : Bool → ResponseEncodeError
exceeded_error true = no_content_body 1
exceeded_error false = response_too_large (max_response_body_bytes + 1) max_response_body_bytes

abbrev pub respond_written : StatusCode → List StaticHeader → Written → Encoded
respond_written status headers w =
    if w.succeeded
    then encode_response status json_content_type w.writer.body headers
    else if w.writer.exceeded
    then refused (exceeded_error (is_no_content status))
    else refused json_failed

abbrev pub maximum_for : StatusCode → ℕ
maximum_for status = if is_no_content status then 0 else max_response_body_bytes

unfoldable pub json_response : StatusCode → JsonValue → List StaticHeader → Encoded
json_response status value headers = respond_written status headers (
    write_pieces value.pieces value.fails
      (record { body = []; maximum = maximum_for status; exceeded = false }))

abbrev pub json_success : StatusCode → JsonValue → Encoded
json_success status value = json_response status value []

abbrev pub allow_headers : Option AllowedMethod → List StaticHeader
allow_headers none = []
allow_headers (some allow_get) = (codes "Allow", codes "GET") ∷ []
allow_headers (some allow_post) = (codes "Allow", codes "POST") ∷ []

-- `envelope` is the value that `ErrorEnvelope` serializes to for the error.
unfoldable pub parse_error_response : (ParseError → JsonValue) → ParseError → Encoded
parse_error_response envelope e =
    json_response (error_status e) (envelope e) (allow_headers (allowed_method e))

abbrev pub prometheus_text : StatusCode → Bytes → Encoded
prometheus_text status body = encode_response status prometheus_content_type body []

unfoldable pub empty_response : StatusCode → Encoded
empty_response status = encode_response status empty_content_type [] []
