-- ===== src/Management/Errors.antt =====
-- The errors and the statuses of src/management.rs, and what it says of each.
use c37_118_simulator.Prelude.{ℕ, Option, none, some}
use c37_118_simulator.Prelude.Text.{Bytes, codes}

pub data AllowedMethod : Type 0 where
  allow_get allow_post : AllowedMethod

pub data ParseError : Type 0 where
  request_too_large incomplete_at_limit malformed_request too_many_headers : ParseError
  unsupported_http_version missing_host duplicate_host invalid_host : ParseError
  unsupported_transfer_encoding duplicate_content_length invalid_content_length : ParseError
  duplicate_content_type unsupported_media_type content_length_required : ParseError
  body_too_large body_not_allowed trailing_data unknown_path invalid_json_body : ParseError
  invalid_target invalid_token invalid_query : ParseError
  method_not_allowed : AllowedMethod → ParseError

pub data StatusCode : Type 0 where
  http_ok accepted no_content bad_request not_found http_method_not_allowed : StatusCode
  not_acceptable payload_too_large http_unsupported_media_type : StatusCode
  internal_server_error service_unavailable : StatusCode

-- `ParseError::code`
unfoldable pub error_code : ParseError → Bytes
error_code request_too_large = codes "request_too_large"
error_code incomplete_at_limit = codes "incomplete_at_limit"
error_code malformed_request = codes "malformed_request"
error_code too_many_headers = codes "too_many_headers"
error_code unsupported_http_version = codes "unsupported_http_version"
error_code missing_host = codes "missing_host"
error_code duplicate_host = codes "duplicate_host"
error_code invalid_host = codes "invalid_host"
error_code unsupported_transfer_encoding = codes "unsupported_transfer_encoding"
error_code duplicate_content_length = codes "duplicate_content_length"
error_code invalid_content_length = codes "invalid_content_length"
error_code duplicate_content_type = codes "duplicate_content_type"
error_code unsupported_media_type = codes "unsupported_media_type"
error_code content_length_required = codes "content_length_required"
error_code body_too_large = codes "body_too_large"
error_code body_not_allowed = codes "body_not_allowed"
error_code trailing_data = codes "trailing_data"
error_code (method_not_allowed method) = codes "method_not_allowed"
error_code unknown_path = codes "unknown_path"
error_code invalid_json_body = codes "invalid_json_body"
error_code invalid_target = codes "invalid_target"
error_code invalid_token = codes "invalid_token"
error_code invalid_query = codes "invalid_query"

-- `ParseError::message`
unfoldable pub message : ParseError → Bytes
message request_too_large = codes "request exceeds the 8192-byte limit"
message incomplete_at_limit = codes "request is incomplete at the 8192-byte limit"
message malformed_request = codes "request is not valid HTTP/1.1"
message too_many_headers = codes "request has too many headers"
message unsupported_http_version = codes "only HTTP/1.1 is supported"
message missing_host = codes "HTTP/1.1 requests require a host header"
message duplicate_host = codes "host must appear exactly once"
message invalid_host =
    codes "host must be nonempty and contain no ASCII whitespace or control characters"
message unsupported_transfer_encoding = codes "transfer encoding is not supported"
message duplicate_content_length = codes "content-length must appear at most once"
message invalid_content_length = codes "content-length must be a single unsigned decimal integer"
message duplicate_content_type = codes "content-type must appear at most once"
message unsupported_media_type =
    codes "POST requests must use application/json when content-type is provided"
message content_length_required = codes "POST requests require content-length"
message body_too_large = codes "request body exceeds the 8192-byte limit"
message body_not_allowed = codes "GET requests must not include a body"
message trailing_data = codes "request contains trailing bytes"
message (method_not_allowed method) = codes "method is not allowed for this path"
message unknown_path = codes "path is not supported"
message invalid_json_body = codes "request body must be a valid JSON object"
message invalid_target = codes "target stream_id must be greater than zero"
message invalid_token = codes "token must be greater than zero"
message invalid_query = codes "query parameters are not valid for this endpoint"

-- `ParseError::status`
unfoldable pub error_status : ParseError → StatusCode
error_status request_too_large = payload_too_large
error_status incomplete_at_limit = payload_too_large
error_status malformed_request = bad_request
error_status too_many_headers = bad_request
error_status unsupported_http_version = bad_request
error_status missing_host = bad_request
error_status duplicate_host = bad_request
error_status invalid_host = bad_request
error_status unsupported_transfer_encoding = bad_request
error_status duplicate_content_length = bad_request
error_status invalid_content_length = bad_request
error_status duplicate_content_type = bad_request
error_status unsupported_media_type = http_unsupported_media_type
error_status content_length_required = bad_request
error_status body_too_large = payload_too_large
error_status body_not_allowed = bad_request
error_status trailing_data = bad_request
error_status (method_not_allowed method) = http_method_not_allowed
error_status unknown_path = not_found
error_status invalid_json_body = bad_request
error_status invalid_target = bad_request
error_status invalid_token = bad_request
error_status invalid_query = bad_request

unfoldable pub allowed_method : ParseError → Option AllowedMethod
allowed_method (method_not_allowed method) = some method
allowed_method error = none

-- `StatusCode::code_and_reason`
unfoldable pub code_and_reason : StatusCode → ℕ × Bytes
code_and_reason http_ok = (200, codes "OK")
code_and_reason accepted = (202, codes "Accepted")
code_and_reason no_content = (204, codes "No Content")
code_and_reason bad_request = (400, codes "Bad Request")
code_and_reason not_found = (404, codes "Not Found")
code_and_reason http_method_not_allowed = (405, codes "Method Not Allowed")
code_and_reason not_acceptable = (406, codes "Not Acceptable")
code_and_reason payload_too_large = (413, codes "Payload Too Large")
code_and_reason http_unsupported_media_type = (415, codes "Unsupported Media Type")
code_and_reason internal_server_error = (500, codes "Internal Server Error")
code_and_reason service_unavailable = (503, codes "Service Unavailable")
