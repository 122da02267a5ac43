-- ===== src/Management/Response/Reader.antt =====
-- How a client reads the responses of src/management.rs: lines up to an empty one, then the body.
use c37_118_simulator.Prelude.{
  ℕ, zero, suc, ◌+◌, ◌≤◌, ◌<◌, ◌≡◌, refl, sym, ap, ◌∙◌, false, Option, none, some, List, [], ◌∷◌,
  ◌++◌, map, append_assoc, append-nil, length, All, ◌==◌, if◌then◌else◌, arith, ltb-eq-false,
}
use c37_118_simulator.Prelude.Text.{Bytes, codes, contains_byte, is_empty, contains_byte-append}
use c37_118_simulator.Prelude.Decimal.{decimal, decimal-clear}
use c37_118_simulator.Management.Errors.{StatusCode, code_and_reason}
use c37_118_simulator.Management.Response.{
  StaticHeader, append_static_headers, status_line, connection_close, line_end,
  max_response_body_bytes, is_no_content, encode_response, encoded,
}

-- The bytes before the first carriage return, and those after the line feed that follows it.
abbrev pub before_line : ℕ → Option (Bytes × Bytes) → Option (Bytes × Bytes)
before_line b none = none
before_line b (some (line, rest)) = some (b ∷ line, rest)

take_line : Bytes → Option (Bytes × Bytes)
take_line [] = none
take_line (b ∷ []) = none
take_line (b ∷ c ∷ bs) =
    if b == 13
    then (if c == 10 then some ([], bs) else none)
    else before_line b (take_line (c ∷ bs))

abbrev pub push_line : Bytes → Option (List Bytes × Bytes) → Option (List Bytes × Bytes)
push_line line none = none
push_line line (some (lines, body)) = some (line ∷ lines, body)

abbrev pub read_after :
    Option (Bytes × Bytes) → (Bytes → Option (List Bytes × Bytes)) → Option (List Bytes × Bytes)
read_after none more = none
read_after (some (line, rest)) more =
    if is_empty line then some ([], rest) else push_line line (more rest)

-- The lines up to the first empty one, and what comes after it.
unfoldable pub read_response : ℕ → Bytes → Option (List Bytes × Bytes)
unfolding take_line
read_response zero bs = none
read_response (suc fuel) bs = read_after (take_line bs) (λ rest. read_response fuel rest)

take_line-append :
    (line rest : Bytes)
    → contains_byte 13 line ≡ false
    → take_line (line ++ (line_end ++ rest)) ≡ some (line, rest)
unfolding take_line
take_line-append [] rest h = refl
take_line-append (b ∷ []) rest h = ground (arith, h)
take_line-append (b ∷ c ∷ line) rest h = ground (arith, h, take_line-append (c ∷ line) rest)

abbrev pub join : List Bytes → Bytes
join [] = []
join (line ∷ lines) = line ++ (line_end ++ join lines)

-- A line of a head.
abbrev pub IsLine : Bytes → Type 0
IsLine line = (contains_byte 13 line ≡ false) × (is_empty line ≡ false)

read_response-join :
    (fuel : ℕ) (lines : List Bytes) (body : Bytes)
    → length lines < fuel
    → All IsLine lines
    → read_response fuel (join lines ++ (line_end ++ body)) ≡ some (lines, body)
unfolding read_response
read_response-join zero lines body h w = absurd (omega arith)
read_response-join (suc fuel) [] body h w = refl
read_response-join (suc fuel) (line ∷ lines) body h w =
    ap (read_response (suc fuel)) (append_assoc line (line_end ++ join lines) (line_end ++ body))
    ∙ ap (λ o. read_after o (λ rest. read_response fuel rest))
        (take_line-append line (join lines ++ (line_end ++ body)) w.0.0)
    ∙ ap
        (λ b.
          if b
          then some ([], join lines ++ (line_end ++ body))
          else push_line line (read_response fuel (join lines ++ (line_end ++ body))))
        w.0.1
    ∙ ap (push_line line) (read_response-join fuel lines body (omega arith) w.1)

abbrev pub header_line : StaticHeader → Bytes
header_line (name, value) = name ++ (codes ": " ++ value)

append_static_headers-join :
    (response : Bytes) (headers : List StaticHeader)
    → append_static_headers response headers ≡ response ++ join (map header_line headers)
unfolding append_static_headers
append_static_headers-join response [] = sym (append-nil response)
append_static_headers-join response ((name, value) ∷ headers) =
    append_static_headers-join (response ++ (name ++ (codes ": " ++ (value ++ line_end)))) headers
    ∙ simp append_assoc

-- The lines that `encode_response` writes before the body.
abbrev pub head_lines : StatusCode → Bytes → ℕ → List StaticHeader → List Bytes
head_lines status content_type n headers =
    status_line (code_and_reason status)
    ∷ (codes "Content-Type: " ++ content_type)
    ∷ (codes "Content-Length: " ++ decimal n)
    ∷ (map header_line headers ++ codes "Connection: close" ∷ [])

join-append : (xs ys : List Bytes) → join (xs ++ ys) ≡ join xs ++ join ys
join-append [] ys = refl
join-append (x ∷ xs) ys = simp (join-append xs ys, append_assoc)

reason-clear : (status : StatusCode) → contains_byte 13 (code_and_reason status).1 ≡ false
unfolding code_and_reason
reason-clear status = ground arith

status_line-clear :
    (status : StatusCode) → contains_byte 13 (status_line (code_and_reason status)) ≡ false
status_line-clear status = go (code_and_reason status) (reason-clear status)
  where
    go : (c : ℕ × Bytes) → contains_byte 13 c.1 ≡ false → contains_byte 13 (status_line c) ≡ false
    go (code, reason) h =
        contains_byte-append 13 (codes "HTTP/1.1 ") (decimal code ++ (codes " " ++ reason)) refl (
          contains_byte-append 13 (decimal code) (codes " " ++ reason) (decimal-clear 13 code refl)
            h)

status_line-full : (c : ℕ × Bytes) → is_empty (status_line c) ≡ false
status_line-full (code, reason) = refl

-- A static header whose parts hold no carriage return.
abbrev pub IsClear : StaticHeader → Type 0
IsClear (name, value) = (contains_byte 13 name ≡ false) × (contains_byte 13 value ≡ false)

header_lines-IsLine :
    (headers : List StaticHeader)
    → All IsClear headers
    → All IsLine (map header_line headers ++ codes "Connection: close" ∷ [])
header_lines-IsLine [] w = ((refl, refl), tt)
header_lines-IsLine ((name, value) ∷ headers) w = (
  (contains_byte-append 13 name (codes ": " ++ value) w.0.0 w.0.1, full name),
  header_lines-IsLine headers w.1,
)
  where
    full : (n : Bytes) → is_empty (n ++ (codes ": " ++ value)) ≡ false
    full [] = refl
    full (b ∷ bs) = refl

length-header_lines :
    (headers : List StaticHeader)
    → length (map header_line headers ++ codes "Connection: close" ∷ []) ≡ length headers + 1
length-header_lines [] = refl
length-header_lines (h ∷ headers) = omega (arith, length-header_lines headers)

regroup :
    (a b c d e f : Bytes)
    → a ++ (line_end ++ (b ++ (c ++ (line_end ++ (d ++ (e ++ line_end)))))) ++ f
      ≡ a ++ (line_end ++ ((b ++ c) ++ (line_end ++ ((d ++ e) ++ (line_end ++ f)))))
regroup a b c d e f = simp append_assoc

-- A client that reads lines up to an empty one gets back from an encoded response, of a status with
-- a body, its status line, its content type, the decimal length of the body, the other headers and
-- the body itself: for a body within the limit, and a content type and headers that hold no
-- carriage return.
pub encode_response-read :
    (status : StatusCode) (content_type body : Bytes) (headers : List StaticHeader)
    → is_no_content status ≡ false
    → length body ≤ max_response_body_bytes
    → contains_byte 13 content_type ≡ false
    → All IsClear headers
    → (response : Bytes) × (encode_response status content_type body headers ≡ encoded response)
      × (read_response (length headers + 5) response
          ≡ some (head_lines status content_type (length body) headers, body))
unfolding encode_response
encode_response-read status content_type body headers st fits clear w = (
  _,
  rw (st, ltb-eq-false max_response_body_bytes (length body) fits) refl,
  ap (read_response (length headers + 5)) whole
      ∙ read_response-join (length headers + 5)
          (head_lines status content_type (length body) headers) body
          (omega (arith, length-header_lines headers))
          (
            (status_line-clear status, status_line-full (code_and_reason status)),
            (
              (clear, refl),
              ((decimal-clear 13 (length body) refl, refl), header_lines-IsLine headers w),
            ),
          ),
)
  where
    whole :
        (append_static_headers
              (status_line (code_and_reason status)
                ++ (line_end
                    ++ (codes "Content-Type: "
                        ++ (content_type
                            ++ (line_end
                                ++ (codes "Content-Length: "
                                    ++ (decimal (length body) ++ line_end)))))))
              headers
            ++ connection_close)
          ++ body
        ≡ join (head_lines status content_type (length body) headers) ++ (line_end ++ body)
    whole =
        rw
          (
            append_static_headers-join
                (status_line (code_and_reason status)
                  ++ (line_end
                      ++ (codes "Content-Type: "
                          ++ (content_type
                              ++ (line_end
                                  ++ (codes "Content-Length: "
                                      ++ (decimal (length body) ++ line_end)))))))
                headers,
            join-append (map header_line headers) (codes "Connection: close" ∷ []),
          )
          (simp append_assoc)
