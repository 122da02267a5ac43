-- ===== src/Management/Parse/Accepted.antt =====
-- What `parse` of src/management.rs accepts, and when it asks for more.
use c37_118_simulator.Prelude.{
  ℕ, ◌+◌, ◌≤◌, ◌<◌, ◌≡◌, refl, Bool, true, false, not, ◌&&◌, ◌||◌, Option, some, List, [], ◌∷◌,
  length, take, drop, ◌==◌, leb, ltb, arith, Bool-cases, inl, inr,
}
use c37_118_simulator.Prelude.Text.{Bytes}
use c37_118_simulator.Prelude.Decimal.{max_word}
use c37_118_simulator.Management.Errors.{
  ParseError, body_too_large, body_not_allowed, request_too_large, unsupported_media_type,
  unsupported_http_version,
}
use c37_118_simulator.Management.Requests.{ManagementRequest, Checked, ok, err, panicked, guard}
use c37_118_simulator.Management.Returns.{Returns, Returns-bind}
use c37_118_simulator.Management.Numbers.{parse_content_length}
use c37_118_simulator.Management.Headers.{
  Header, RequestFraming, Seen, see_header, see_headers, inspect_headers, nothing_seen,
}
use c37_118_simulator.Management.Headers.Once.{Framed, inspect_headers-Framed}
use c37_118_simulator.Management.Route.{Route, requires_json_body, route_for}
use c37_118_simulator.Management.Route.Methods.{method_text, route_for-Reaches}
use c37_118_simulator.Management.Parse.{
  max_request_bytes, Head, whole, partial, head_too_many_headers, head_error, HeadStatus, Readers,
  ParseOutcome, complete, incomplete, error, ended, ◌&=◌, incomplete_or_at_limit, body_length,
  has_json_type, dispatch, parse_prepare, parse_clear, parse_scenario_token_request, parse_body,
  parse_sized, parse_routed, parse_headed, is_version_1_1, parse_status, parse,
}

see_header-Returns : (h : Header) (s : Seen) → Returns (λ _. Unit {0}) (see_header h s)
unfolding see_header parse_content_length
see_header-Returns h s = ground arith

see_headers-Returns : (hs : List Header) (s : Seen) → Returns (λ _. Unit {0}) (see_headers hs s)
unfolding see_headers
see_headers-Returns [] s = tt
see_headers-Returns (h ∷ hs) s =
    Returns-bind (λ _. Unit {0}) (λ _. Unit {0}) (see_header h s) (λ s'. see_headers hs s')
      (see_header-Returns h s) (λ s' _. see_headers-Returns hs s')

inspect_headers-Returns : (hs : List Header) → Returns (λ _. Unit {0}) (inspect_headers hs)
unfolding inspect_headers
inspect_headers-Returns hs = ground (arith, see_headers-Returns hs nothing_seen)

-- A request that `parse` accepts.
pub record Accepted (r : Readers) (input : Bytes) (request : ManagementRequest) : Type 0 where
  pub head : Head
  pub framing : RequestFraming
  pub route : Route
  pub size : ℕ
  pub read : r.read_head input ≡ whole head
  pub version : head.version ≡ some 1
  pub framed : Framed head.headers framing
  pub routed : route_for head.method head.path ≡ ok route
  pub typed : requires_json_body route ≡ true → has_json_type framing.content_type ≡ true
  pub sized : length input ≡ head.header_end + size
  pub within : length input ≤ max_request_bytes
  pub without_body : requires_json_body route ≡ false → size ≡ 0
  pub with_body : requires_json_body route ≡ true → framing.content_length ≡ some size
  pub answered : dispatch r route (take size (drop head.header_end input)) ≡ ok request

-- A parse that ends with an accepted request, asks for more of a request below the limit, or
-- refuses it.
abbrev pub Answers : Readers → Bytes → ParseOutcome → Type 0
Answers r input (complete request) = Accepted r input request
Answers r input incomplete = length input < max_request_bytes
Answers r input (error e) = Unit {0}
Answers r input ended = ⊥

module _ (r : Readers) (input : Bytes) where
  after_guard :
      (b : Bool) (e : ParseError) (k : ParseOutcome)
      → (b ≡ true → Answers r input k)
      → Answers r input (guard b e &= λ _. k)
  after_guard true e k h = h refl
  after_guard false e k h = tt

  after_step :
      {A : Type 0} (Q : A → Type 0) (m : Checked A) (f : A → ParseOutcome)
      → Returns Q m
      → ((a : A) → m ≡ ok a → Answers r input (f a))
      → Answers r input (m &= f)
  after_step Q (ok a) f q h = h a refl
  after_step Q (err e) f q h = tt
  after_step Q panicked f q h = q

  short-Answers :
      length input ≤ max_request_bytes → Answers r input (incomplete_or_at_limit (length input))
  short-Answers h = ground (arith, h)

  dispatch-Returns :
      (route : Route) (body : Bytes) → Returns (λ _. Unit {0}) (dispatch r route body)
  unfolding dispatch parse_prepare parse_clear parse_scenario_token_request
  dispatch-Returns route body = ground arith

  body_length-Returns : (o : Option ℕ) (b : Bool) → Returns (λ _. Unit {0}) (body_length o b)
  body_length-Returns o b = ground arith

  required_length :
      (o : Option ℕ) (b : Bool) (n : ℕ) → body_length o b ≡ ok n → b ≡ true → o ≡ some n
  required_length o b n h k = ground arith

  module _ (small : length input ≤ max_request_bytes) (head : Head)
      (read : r.read_head input ≡ whole head) where
    body-Answers :
        (framing : RequestFraming) (route : Route) (n : ℕ)
        → head.version ≡ some 1
        → Framed head.headers framing
        → route_for head.method head.path ≡ ok route
        → (requires_json_body route ≡ true → has_json_type framing.content_type ≡ true)
        → body_length framing.content_length (requires_json_body route) ≡ ok n
        → (requires_json_body route || (n == 0)) ≡ true
        → Answers r input (parse_body r input head route n)
    body-Answers framing route n version framed routed typed given fits =
        elim (Bool-cases (ltb (length input) (head.header_end + n))) [
          | inl short ↦ rw (short) (short-Answers small)
          | inr reached ↦
              rw (reached) (elim (Bool-cases (ltb (head.header_end + n) (length input))) [
                | inl long ↦ rw (long) tt
                | inr exact ↦ rw (exact) (
                    after_step (λ _. Unit {0})
                      (dispatch r route (take n (drop head.header_end input)))
                      (λ request. complete request)
                      (dispatch-Returns route (take n (drop head.header_end input)))
                      (λ request e. record {
                        head = head;
                        framing = framing;
                        route = route;
                        size = n;
                        read = read;
                        version = version;
                        framed = framed;
                        routed = routed;
                        typed = typed;
                        sized = ground (arith, reached, exact);
                        within = small;
                        without_body = λ h. ground (arith, fits, h);
                        with_body =
                            required_length framing.content_length (requires_json_body route) n
                              given;
                        answered = e;
                      }))
              ])
        ]

    routed-Answers :
        (framing : RequestFraming) (route : Route)
        → head.version ≡ some 1
        → Framed head.headers framing
        → route_for head.method head.path ≡ ok route
        → Answers r input (parse_routed r input head framing route)
    routed-Answers framing route version framed routed =
        after_guard (not (requires_json_body route) || has_json_type framing.content_type)
          unsupported_media_type
          (body_length framing.content_length (requires_json_body route) &= λ n.
            parse_sized r input head route n)
          (λ typed.
            after_step (λ _. Unit {0})
              (body_length framing.content_length (requires_json_body route))
              (λ n. parse_sized r input head route n)
              (body_length-Returns framing.content_length (requires_json_body route))
              (λ n given.
                after_guard (not (ltb max_request_bytes n)) body_too_large
                  (guard (requires_json_body route || (n == 0)) body_not_allowed &= λ _.
                    guard
                      (leb (head.header_end + n) max_word
                        && leb (head.header_end + n) max_request_bytes)
                      request_too_large
                    &= λ _. parse_body r input head route n)
                  (λ _.
                    after_guard (requires_json_body route || (n == 0)) body_not_allowed
                      (guard
                          (leb (head.header_end + n) max_word
                            && leb (head.header_end + n) max_request_bytes)
                          request_too_large
                        &= λ _. parse_body r input head route n)
                      (λ fits.
                        after_guard
                          (leb (head.header_end + n) max_word
                            && leb (head.header_end + n) max_request_bytes)
                          request_too_large (parse_body r input head route n)
                          (λ _.
                            body-Answers framing route n version framed routed
                              (λ h. ground (arith, typed, h)) given fits)))))

    version_lem : (o : Option ℕ) → is_version_1_1 r o ≡ true → o ≡ some 1
    version_lem o h = ground arith

    headed-Answers : Answers r input (parse_headed r input head)
    headed-Answers =
        after_guard (is_version_1_1 r head.version) unsupported_http_version
          (inspect_headers head.headers &= λ framing.
            route_for head.method head.path &= λ route. parse_routed r input head framing route)
          (λ version.
            after_step (λ _. Unit {0}) (inspect_headers head.headers)
              (λ framing.
                route_for head.method head.path &= λ route. parse_routed r input head framing route)
              (inspect_headers-Returns head.headers)
              (λ framing e.
                after_step (λ route. head.method ≡ some (method_text route))
                  (route_for head.method head.path)
                  (λ route. parse_routed r input head framing route)
                  (route_for-Reaches head.method head.path)
                  (λ route routed.
                    routed-Answers framing route (version_lem head.version version)
                      (inspect_headers-Framed head.headers framing e) routed)))

-- Whatever the libraries read, `parse` ends with an accepted request, an error, or the wish for
-- more bytes. What it accepts is of HTTP/1.1, has headers that are framed, a route, and a body that
-- begins after the head and ends with the input, within the limit: with no bytes for a GET, and for
-- a POST of the content length given and of a JSON type where it names one. It asks for more only
-- below the limit.
pub parse-Answers : (r : Readers) (input : Bytes) → Answers r input (parse r input)
unfolding parse
parse-Answers r input = elim (Bool-cases (ltb max_request_bytes (length input))) [
  | inl large ↦ rw (large) tt
  | inr fits ↦ rw (fits) (go (ground (arith, fits)) (r.read_head input) refl)
]
  where
    go :
        length input ≤ max_request_bytes
        → (s : HeadStatus) → r.read_head input ≡ s
        → Answers r input (parse_status r input s)
    go small (whole head) e = headed-Answers r input small head e
    go small partial e = short-Answers r input small
    go small head_too_many_headers e = tt
    go small head_error e = tt
