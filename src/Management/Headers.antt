-- ===== src/Management/Headers.antt =====
-- What src/management.rs reads of the headers of a request.
pub mod Values
pub mod Once
use c37_118_simulator.Prelude.{
  ℕ, zero, suc, ◌+◌, ◌≡◌, refl, Bool, true, false, not, ◌&&◌, ◌||◌, Option, none, some, List, [],
  ◌∷◌, ◌==◌, ltb, if◌then◌else◌,
}
use c37_118_simulator.Prelude.Text.{
  Bytes, codes, any, is_empty, is_ascii_whitespace, is_ascii_control, eq_ignore_ascii_case,
}
use c37_118_simulator.Management.Errors.{
  missing_host, duplicate_host, invalid_host, unsupported_transfer_encoding,
  duplicate_content_length, duplicate_content_type,
}
use c37_118_simulator.Management.Requests.{Checked, ok, err, guard, ◌>>=◌, ◌>>◌}
use c37_118_simulator.Management.Numbers.{parse_content_length}

-- `httparse::Header`
pub record Header : Type 0 where
  pub name : Bytes
  pub value : Bytes

pub record RequestFraming : Type 0 where
  pub content_length : Option ℕ
  pub content_type : Option Bytes

-- The variables of the loop over the headers.
pub record Seen : Type 0 where
  pub framing : RequestFraming
  pub host_count : ℕ

abbrev pub trim_leading_http_whitespace : Bytes → Bytes
trim_leading_http_whitespace [] = []
trim_leading_http_whitespace (b ∷ bs) =
    if (b == b' ') || (b == 9) then trim_leading_http_whitespace bs else b ∷ bs

abbrev pub is_valid_host : Bytes → Bool
is_valid_host bs =
    not (is_empty bs) && not (any (λ b. is_ascii_whitespace b || is_ascii_control b) bs)

unfoldable pub is_named : Header → Bytes → Bool
is_named header name = eq_ignore_ascii_case header.name name

abbrev pub is_none {ℓ} : {A : Type ℓ} → Option A → Bool
is_none none = true
is_none (some a) = false

-- The four tests of one turn of the loop, in their order.
abbrev pub see_host : Header → Seen → Checked Seen
see_host header seen =
    if is_named header (codes "host")
    then (guard (is_valid_host (trim_leading_http_whitespace header.value)) invalid_host
        >> ok (record seen { host_count = seen.host_count + 1 }))
    else ok seen

abbrev pub see_transfer_encoding : Header → Seen → Checked Seen
see_transfer_encoding header seen =
    if is_named header (codes "transfer-encoding")
    then err unsupported_transfer_encoding
    else ok seen

abbrev pub see_content_length : Header → Seen → Checked Seen
see_content_length header seen =
    if is_named header (codes "content-length")
    then (guard (is_none seen.framing.content_length) duplicate_content_length
        >> (parse_content_length header.value >>= λ length.
            ok (record seen { framing = record seen.framing { content_length = some length } })))
    else ok seen

abbrev pub see_content_type : Header → Seen → Checked Seen
see_content_type header seen =
    if is_named header (codes "content-type")
    then (guard (is_none seen.framing.content_type) duplicate_content_type
        >> ok (record seen { framing = record seen.framing { content_type = some header.value } }))
    else ok seen

unfoldable pub see_header : Header → Seen → Checked Seen
see_header header seen = do
  s₁ ← see_host header seen
  s₂ ← see_transfer_encoding header s₁
  s₃ ← see_content_length header s₂
  see_content_type header s₃

unfoldable pub see_headers : List Header → Seen → Checked Seen
see_headers [] seen = ok seen
see_headers (header ∷ headers) seen = do seen' ← see_header header seen; see_headers headers seen'

abbrev pub nothing_seen : Seen
nothing_seen = record {
  framing = record { content_length = none; content_type = none };
  host_count = 0;
}

unfoldable pub inspect_headers : List Header → Checked RequestFraming
inspect_headers headers = do
  seen ← see_headers headers nothing_seen
  guard (not (seen.host_count == 0)) missing_host
  guard (not (ltb 1 seen.host_count)) duplicate_host
  ok seen.framing
