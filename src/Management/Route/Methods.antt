-- ===== src/Management/Route/Methods.antt =====
-- Which method reaches which route of src/management.rs.
use c37_118_simulator.Prelude.{
  ◌≡◌, refl, true, false, Option, none, some, List, [], ◌∷◌, arith, if◌then◌else◌, ap, ◌∙◌, inl,
  inr, Bool-cases, not,
}
use c37_118_simulator.Prelude.Text.{
  Bytes, codes, bytes_eqb, bytes_eqb_iff, split_once, split, contains_byte, is_empty,
}
use c37_118_simulator.Management.Errors.{
  AllowedMethod, allow_get, allow_post, method_not_allowed, invalid_query,
}
use c37_118_simulator.Management.Requests.{ok_or, guard, ◌>>◌, ◌>>=◌, ConsoleStateCursor}
use c37_118_simulator.Management.Returns.{Returns, Returns-bind, Returns-weaken}
use c37_118_simulator.Management.Numbers.{parse_decimal_u64}
use c37_118_simulator.Management.Route.{
  Route, requires_json_body, Parameters, scan_parameters, put_parameter, parse_console_cursor,
  cursor_of, console_route, parse_console_state_route, is_get_path, is_post_path, allowed_for,
  method_name, select, split_target, route_of, route_for,
}

-- The method that a route is for.
abbrev pub method_of : Route → AllowedMethod
method_of route = if requires_json_body route then allow_post else allow_get

cursor_of-Returns : (parts : List Bytes) → Returns (λ _. Unit {0}) (cursor_of parts)
unfolding parse_decimal_u64
cursor_of-Returns [] = tt
cursor_of-Returns (a ∷ []) = tt
cursor_of-Returns (a ∷ b ∷ []) = tt
cursor_of-Returns (a ∷ b ∷ c ∷ parts) = ground arith

put_parameter-Returns :
    (pair : Bytes × Bytes) (ps : Parameters) → Returns (λ _. Unit {0}) (put_parameter pair ps)
unfolding parse_console_cursor
put_parameter-Returns (n, v) ps = ground (arith, cursor_of-Returns (split b':' v))

scan_parameters-Returns :
    (parts : List Bytes) (ps : Parameters) → Returns (λ _. Unit {0}) (scan_parameters parts ps)
unfolding scan_parameters
scan_parameters-Returns [] ps = tt
scan_parameters-Returns (p ∷ parts) ps =
    go (split_once b'=' p) (λ ps'. scan_parameters-Returns parts ps')
  where
    go :
        (o : Option (Bytes × Bytes))
        → ((ps' : Parameters) → Returns (λ _. Unit {0}) (scan_parameters parts ps'))
        → Returns
            (λ _. Unit {0})
            (ok_or o invalid_query >>= λ pair.
              put_parameter pair ps >>= λ ps'. scan_parameters parts ps')
    go none ih = tt
    go (some pair) ih =
        Returns-bind (λ _. Unit {0}) (λ _. Unit {0}) (put_parameter pair ps)
          (λ ps'. scan_parameters parts ps') (put_parameter-Returns pair ps) (λ ps' _. ih ps')

console_route-Returns :
    (f : Option Bytes) (c : Option ConsoleStateCursor)
    → Returns (λ r. requires_json_body r ≡ false) (console_route f c)
console_route-Returns none c = tt
console_route-Returns (some f) c = ground arith

parse_console_state_route-Returns :
    (q : Bytes) → Returns (λ r. requires_json_body r ≡ false) (parse_console_state_route q)
unfolding parse_console_state_route
parse_console_state_route-Returns q = elim (Bool-cases (not (is_empty q))) [
  | inl full ↦ rw (full) (
      Returns-bind (λ _. Unit {0}) (λ r. requires_json_body r ≡ false)
        (scan_parameters (split b'&' q) (record { format = none; cursor = none }))
        (λ ps. console_route ps.format ps.cursor)
        (scan_parameters-Returns (split b'&' q) (record { format = none; cursor = none }))
        (λ ps _. console_route-Returns ps.format ps.cursor))
  | inr empty ↦ rw (empty) tt
]

select-get :
    (path : Bytes) (q : Option Bytes)
    → is_get_path path ≡ true
    → Returns (λ r. requires_json_body r ≡ false) (select path q)
select-get path none h = ground (arith, h)
select-get path (some q) h = ground (arith, parse_console_state_route-Returns q)

select-post :
    (path : Bytes) (q : Option Bytes)
    → is_get_path path ≡ false
    → is_post_path path ≡ true
    → Returns (λ r. requires_json_body r ≡ true) (select path q)
select-post path none g h = ground (arith, g, h)
select-post path (some q) g h = ground (arith, g, h)

-- The method of the request is the one of its route.
abbrev pub Reaches : Bytes → Route → Type 0
Reaches method r = method ≡ method_name (method_of r)

allowed-Returns :
    (method path : Bytes) (q : Option Bytes)
    → Returns (Reaches method) (
        allowed_for path >>= λ allowed.
        guard (bytes_eqb method (method_name allowed)) (method_not_allowed allowed)
        >> select path q)
allowed-Returns method path q = elim (Bool-cases (is_get_path path)) [
  | inl get ↦ rw (get) (elim (Bool-cases (bytes_eqb method (codes "GET"))) [
    | inl same ↦ rw (same) (
        Returns-weaken (λ r. requires_json_body r ≡ false) (Reaches method) (select path q)
          (select-get path q get)
          (λ r h. (bytes_eqb_iff method (codes "GET")).0 same ∙ rw (h) refl))
    | inr other ↦ rw (other) tt
  ])
  | inr not_get ↦ rw (not_get) (elim (Bool-cases (is_post_path path)) [
    | inl post ↦ rw (post) (elim (Bool-cases (bytes_eqb method (codes "POST"))) [
      | inl same ↦ rw (same) (
          Returns-weaken (λ r. requires_json_body r ≡ true) (Reaches method) (select path q)
            (select-post path q not_get post)
            (λ r h. (bytes_eqb_iff method (codes "POST")).0 same ∙ rw (h) refl))
      | inr other ↦ rw (other) tt
    ])
    | inr neither ↦ rw (neither) tt
  ])
]

pub route_of-Returns : (method target : Bytes) → Returns (Reaches method) (route_of method target)
unfolding route_of
route_of-Returns method target = go (split_once b'?' target)
  where
    go :
        (o : Option (Bytes × Bytes))
        → Returns (Reaches method) (
            split_target target o >>= λ parts. allowed_for parts.0 >>= λ allowed.
            guard (bytes_eqb method (method_name allowed)) (method_not_allowed allowed)
            >> select parts.0 parts.1)
    go none = allowed-Returns method target none
    go (some (path, query)) = elim (Bool-cases (not (contains_byte b'?' query))) [
      | inl single ↦ rw (single) (allowed-Returns method path (some query))
      | inr more ↦ rw (more) tt
    ]

abbrev pub method_text : Route → Bytes
method_text route = if requires_json_body route then codes "POST" else codes "GET"

-- Whatever the method and the target of a request are, looking for its route does not come to the
-- `unreachable!`, and a route that is found needs a JSON body exactly where the method is POST; all
-- other routes are for GET.
pub route_for-Reaches :
    (method target : Option Bytes)
    → Returns (λ route. method ≡ some (method_text route)) (route_for method target)
unfolding route_for
route_for-Reaches none target = tt
route_for-Reaches (some m) none = tt
route_for-Reaches (some m) (some t) =
    Returns-weaken (Reaches m) (λ route. some m ≡ some (method_text route)) (route_of m t)
      (route_of-Returns m t) (λ r h. ap some h ∙ ap some (named r))
  where
    named : (r : Route) → method_name (method_of r) ≡ method_text r
    named r = ground arith
