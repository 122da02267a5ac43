-- ===== src/Management/Headers/Once.antt =====
-- How often `inspect_headers` of src/management.rs lets a header occur.
use c37_118_simulator.Prelude.{
  ℕ, ◌+◌, ◌≡◌, refl, sym, ap, ◌∙◌, Bool, true, false, not, ◌==◌, ltb, Option, none, some, List, [],
  ◌∷◌, All, arith, subst, Option-cases, inl, inr,
}
use c37_118_simulator.Prelude.Text.{Bytes, codes}
use c37_118_simulator.Management.Errors.{missing_host, duplicate_host}
use c37_118_simulator.Management.Requests.{ok, guard, ◌>>◌, guard-ok, >>=-eq-ok}
use c37_118_simulator.Management.Numbers.{parse_content_length}
use c37_118_simulator.Management.Headers.Values.{
  Spells, parse_content_length-Spells, NamesHost, trim-NamesHost,
}
use c37_118_simulator.Management.Headers.{
  Header, RequestFraming, Seen, trim_leading_http_whitespace, is_valid_host, is_named, see_header,
  see_headers, nothing_seen, inspect_headers,
}

abbrev pub bit : Bool → ℕ
bit true = 1
bit false = 0

abbrev pub given : {A : Type 0} → Option A → ℕ
given none = 0
given (some a) = 1

-- How many headers have a name, in any case.
abbrev pub count : Bytes → List Header → ℕ
count name [] = 0
count name (h ∷ hs) = bit (is_named h name) + count name hs

ok_inj : {A : Type 0} {a b : A} → ok a ≡ ok b → a ≡ b
ok_inj h = cc

-- What one header does to the variables of the loop.
record Step (h : Header) (s s' : Seen) : Type 0 where
  hosts : s'.host_count ≡ s.host_count + bit (is_named h (codes "host"))
  host_valid :
      is_named h (codes "host") ≡ true → is_valid_host (trim_leading_http_whitespace h.value) ≡ true
  not_chunked : is_named h (codes "transfer-encoding") ≡ false
  lengths :
      given s'.framing.content_length
      ≡ given s.framing.content_length + bit (is_named h (codes "content-length"))
  types :
      given s'.framing.content_type
      ≡ given s.framing.content_type + bit (is_named h (codes "content-type"))
  keeps : (n : ℕ) → s.framing.content_length ≡ some n → s'.framing.content_length ≡ some n
  reads :
      (n : ℕ)
      → is_named h (codes "content-length") ≡ true
      → s'.framing.content_length ≡ some n
      → parse_content_length h.value ≡ ok n

see_header-Step : (h : Header) (s s' : Seen) → see_header h s ≡ ok s' → Step h s s'
unfolding see_header
see_header-Step h s s' e = ground arith

record Steps (hs : List Header) (s s' : Seen) : Type 0 where
  hosts : s'.host_count ≡ s.host_count + count (codes "host") hs
  host_valid :
      All
        (λ (h : Header).
          is_named h (codes "host") ≡ true
          → is_valid_host (trim_leading_http_whitespace h.value) ≡ true)
        hs
  not_chunked : count (codes "transfer-encoding") hs ≡ 0
  lengths :
      given s'.framing.content_length
      ≡ given s.framing.content_length + count (codes "content-length") hs
  types :
      given s'.framing.content_type ≡ given s.framing.content_type + count (codes "content-type") hs
  keeps : (n : ℕ) → s.framing.content_length ≡ some n → s'.framing.content_length ≡ some n
  reads :
      (n : ℕ)
      → s'.framing.content_length ≡ some n
      → All
          (λ (h : Header).
            is_named h (codes "content-length") ≡ true → parse_content_length h.value ≡ ok n)
          hs

see_headers-Steps : (hs : List Header) (s s' : Seen) → see_headers hs s ≡ ok s' → Steps hs s s'
unfolding see_headers
see_headers-Steps [] s s' e = subst (Steps [] s) (ok_inj e) (record {
  hosts = omega arith;
  host_valid = tt;
  not_chunked = refl;
  lengths = omega arith;
  types = omega arith;
  keeps = λ n h. h;
  reads = λ n h. tt;
})
see_headers-Steps (h ∷ hs) s s' e =
    let (m, first, rest) = >>=-eq-ok (see_header h s) (λ m. see_headers hs m) s' e in
    let a = see_header-Step h s m first in
    let b = see_headers-Steps hs m s' rest in
    record {
      hosts = omega (arith, a.hosts, b.hosts);
      host_valid = (a.host_valid, b.host_valid);
      not_chunked =
          ap (λ t. bit t + count (codes "transfer-encoding") hs) a.not_chunked
          ∙ omega (arith, b.not_chunked);
      lengths = omega (arith, a.lengths, b.lengths);
      types = omega (arith, a.types, b.types);
      keeps = λ n x. b.keeps n (a.keeps n x);
      reads = λ n x. (λ named. a.reads n named (length_of n x named m a b), b.reads n x);
    }
  where
    length_of :
        (n : ℕ)
        → s'.framing.content_length ≡ some n
        → is_named h (codes "content-length") ≡ true
        → (m : Seen) → Step h s m
        → Steps hs m s'
        → m.framing.content_length ≡ some n
    length_of n x named m a b = elim (Option-cases m.framing.content_length) [
      | inl missing ↦ absurd (
          omega (
            arith,
            sym (ap given missing)
                ∙ a.lengths
                ∙ ap (λ t. given s.framing.content_length + bit t) named,
          ))
      | inr (k, e') ↦ e' ∙ sym (b.keeps k e') ∙ x
    ]

-- What the headers of a request that are accepted are like.
pub record Framed (hs : List Header) (f : RequestFraming) : Type 0 where
  pub one_host : count (codes "host") hs ≡ 1
  pub host_valid : All (λ (h : Header). is_named h (codes "host") ≡ true → NamesHost h.value) hs
  pub not_chunked : count (codes "transfer-encoding") hs ≡ 0
  pub lengths : given f.content_length ≡ count (codes "content-length") hs
  pub types : given f.content_type ≡ count (codes "content-type") hs
  pub reads :
      (n : ℕ)
      → f.content_length ≡ some n
      → All (λ (h : Header). is_named h (codes "content-length") ≡ true → Spells h.value n) hs

All-imp :
    {P Q : Header → Type 0} (hs : List Header) → ((h : Header) → P h → Q h) → All P hs → All Q hs
All-imp [] f a = tt
All-imp (h ∷ hs) f a = (f h a.0, All-imp hs f a.1)

one_left : (n : ℕ) → not (n == 0) ≡ true → not (ltb 1 n) ≡ true → n ≡ 1
one_left n h k = ground arith

-- Headers that are accepted name one host, whose value is a text without blanks and control
-- characters, after blanks if any; they name no transfer encoding, and a content length and a
-- content type at most once, which are there in the result exactly where they are named. The value
-- of the content length is digits, at least one, and the length is the number that they stand for,
-- a `u64`.
pub inspect_headers-Framed :
    (hs : List Header) (f : RequestFraming) → inspect_headers hs ≡ ok f → Framed hs f
unfolding inspect_headers
inspect_headers-Framed hs f e =
    let (s, ran, e₁) =
      >>=-eq-ok (see_headers hs nothing_seen)
        (λ s.
          guard (not (s.host_count == 0)) missing_host
          >> (guard (not (ltb 1 s.host_count)) duplicate_host >> ok s.framing))
        f e in
    let (some_host, e₂) =
      guard-ok (not (s.host_count == 0)) missing_host
        (guard (not (ltb 1 s.host_count)) duplicate_host >> ok s.framing) f e₁ in
    let (few, e₃) = guard-ok (not (ltb 1 s.host_count)) duplicate_host (ok s.framing) f e₂ in
    let w = see_headers-Steps hs nothing_seen s ran in
    subst (Framed hs) (ok_inj e₃) (record {
      one_host = omega (arith, w.hosts, one_left s.host_count some_host few);
      host_valid = All-imp hs (λ h v named. trim-NamesHost h.value (v named)) w.host_valid;
      not_chunked = w.not_chunked;
      lengths = omega (arith, w.lengths);
      types = omega (arith, w.types);
      reads = λ n x.
          All-imp hs (λ h r named. parse_content_length-Spells h.value n (r named)) (w.reads n x);
    })
