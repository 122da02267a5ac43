-- ===== src/Server/Connection/Framing.antt =====
-- `ReceiveBuffer::next_command` of src/server.rs: how it cuts commands from a stream of bytes.
use c37_118_simulator.Prelude.{
  suc, [], ◌∷◌, set, length-take, length-drop, copy_at-suc, subst, ℕ, ◌+◌, ◌-◌, ◌≤◌, ◌≡◌, refl, sym,
  ap, ◌∙◌, Option, none, some, List, length, take, drop, copy_at, ltb, arith, Bool-cases, inl, inr,
}
use c37_118_simulator.Wire.V2 as V2
use c37_118_simulator.Wire.V3 as V3
use c37_118_simulator.Server.Connection.{
  WireVersion, v2, v3, ReceivedCommand, rejected, ReceiveBuffer, command, read_frame, declared_size,
  consume, deliver, next_command,
}

-- A frame that is read has at least the bytes of an empty frame.
frame_has_bytes :
    (v : WireVersion) (bytes : List ℕ) (c : ReceivedCommand)
    → read_frame v bytes ≡ some c
    → 16 ≤ length bytes
unfolding V2.parse V2.parse_with_limit V3.parse V3.parse_with_limit
frame_has_bytes v2 bytes c h = ground (arith, h)
frame_has_bytes v3 bytes c h = ground (arith, h)

take-copy_at : (xs vs : List ℕ) → length vs ≤ length xs → take (length vs) (copy_at xs 0 vs) ≡ vs
take-copy_at xs [] h = refl
take-copy_at [] (v ∷ vs) h = absurd (omega (arith, h))
take-copy_at (x ∷ xs) (v ∷ vs) h =
    ap (λ ys. take (suc (length vs)) (set ys 0 v)) (copy_at-suc x xs vs 0)
    ∙ ap (λ ys. v ∷ ys) (take-copy_at xs vs (omega (arith, h)))

-- One command was cut from the front of what the buffer held.
pub record Cut (v : WireVersion) (b b' : ReceiveBuffer) (c : ReceivedCommand) : Type 0 where
  pub size : ℕ
  pub enough : 16 ≤ size
  pub within_limit : size ≤ b.limit
  pub count : b'.length + size ≡ b.length
  pub rest : take b'.length b'.bytes ≡ drop size (take b.length b.bytes)
  pub frame : read_frame v (take size b.bytes) ≡ some c
  pub same_limit : b'.limit ≡ b.limit

deliver-eq-command :
    (b b' : ReceiveBuffer) (n : ℕ) (o : Option ReceivedCommand) (c : ReceivedCommand)
    → deliver b n o ≡ (b', command c)
    → (o ≡ some c) × (consume b n ≡ b')
deliver-eq-command b b' n none c h = absurd (ground (arith, ap (λ x. x.1) h))
deliver-eq-command b b' n (some d) c h = (ground (arith, ap (λ x. x.1) h), ap (λ x. x.0) h)

consume-rest :
    (b : ReceiveBuffer) (n : ℕ)
    → b.length ≤ length b.bytes
    → n ≤ b.length
    → take (b.length - n) (copy_at b.bytes 0 (drop n (take b.length b.bytes)))
      ≡ drop n (take b.length b.bytes)
consume-rest b n fits within =
    let size : length (drop n (take b.length b.bytes)) ≡ b.length - n =
      omega (arith, length-drop n (take b.length b.bytes), length-take b.length b.bytes) in
    ap (λ k. take k (copy_at b.bytes 0 (drop n (take b.length b.bytes)))) (sym size)
    ∙ take-copy_at b.bytes (drop n (take b.length b.bytes)) (omega (arith, size))

next_command-steps :
    (v : WireVersion) (b b' : ReceiveBuffer) (c : ReceivedCommand)
    → next_command v b ≡ (b', command c)
    → (declared_size b ≤ b.limit)
      × (declared_size b ≤ b.length)
      × (deliver b (declared_size b) (read_frame v (take (declared_size b) b.bytes))
          ≡ (b', command c))
unfolding next_command
next_command-steps v b b' c h = elim (Bool-cases (ltb b.length 4)) [
  | inl short ↦ absurd (ground (arith, ap (λ x. x.1) h, short))
  | inr long ↦ elim (Bool-cases (ltb b.limit (declared_size b))) [
    | inl over ↦ absurd (ground (arith, ap (λ x. x.1) h, long, over))
    | inr under ↦ elim (Bool-cases (ltb b.length (declared_size b))) [
      | inl part ↦ absurd (ground (arith, ap (λ x. x.1) h, long, under, part))
      | inr whole ↦ (
        ground (arith, under),
        ground (arith, whole),
        sym (
              rw (long, under, whole)
                (refl
                  {a = deliver b (declared_size b)
                    (read_frame v (take (declared_size b) b.bytes))}))
            ∙ h,
      )
    ]
  ]
]

-- A command that the buffer gives was read from a whole frame at the front of the bytes in use: the
-- frame has at least 16 bytes and no more than the limit, and what is left is exactly the bytes
-- that followed it.
pub next_command-Cut :
    (v : WireVersion) (b b' : ReceiveBuffer) (c : ReceivedCommand)
    → b.length ≤ length b.bytes
    → next_command v b ≡ (b', command c)
    → Cut v b b' c
unfolding consume
next_command-Cut v b b' c fits h =
    let (limited, within, delivered) = next_command-steps v b b' c h in
    let (frame, same) = deliver-eq-command b b' (declared_size b) _ c delivered in
    subst (λ x. Cut v b x c) same
      (record {
        size = declared_size b;
        enough = omega (
          arith,
          frame_has_bytes v (take (declared_size b) b.bytes) c frame,
          length-take (declared_size b) b.bytes,
        );
        within_limit = limited;
        count = omega (arith, within);
        rest = consume-rest b (declared_size b) fits within;
        frame = frame;
        same_limit = refl;
      })

pub next_command-shrinks :
    (v : WireVersion) (b b' : ReceiveBuffer) (c : ReceivedCommand)
    → next_command v b ≡ (b', command c)
    → b'.length + 16 ≤ b.length
unfolding consume
next_command-shrinks v b b' c h =
    let (limited, within, delivered) = next_command-steps v b b' c h in
    let (frame, same) = deliver-eq-command b b' (declared_size b) _ c delivered in
    subst (λ (x : ReceiveBuffer). x.length + 16 ≤ b.length) same
      (omega (
        arith,
        within,
        frame_has_bytes v (take (declared_size b) b.bytes) c frame,
        length-take (declared_size b) b.bytes,
      ))

rejected_version :
    (v v' : WireVersion) (bytes : List ℕ) (i : ℕ)
    → read_frame v bytes ≡ some (rejected i v')
    → v' ≡ v
rejected_version v2 v' bytes i h = ground (arith, h)
rejected_version v3 v' bytes i h = ground (arith, h)

-- A request is rejected under the version of its endpoint.
pub next_command-rejected :
    (v v' : WireVersion) (b b' : ReceiveBuffer) (i : ℕ)
    → next_command v b ≡ (b', command (rejected i v'))
    → v' ≡ v
next_command-rejected v v' b b' i h =
    let (limited, within, delivered) = next_command-steps v b b' (rejected i v') h in
    rejected_version v v' (take (declared_size b) b.bytes) i
      (deliver-eq-command b b' (declared_size b) _ (rejected i v') delivered).0
