-- ===== src/Management/Response/Writer.antt =====
-- The bounded writer of src/management.rs against the JSON text as a whole.
use c37_118_simulator.Prelude.{
  ℕ, ◌+◌, ◌-◌, ◌≤◌, ◌<◌, ◌≡◌, refl, sym, ap, ◌∙◌, Bool, true, false, not, List, [], ◌∷◌, ◌++◌,
  append_assoc, append-nil, length, length-append, ltb, dec_lt, lt→ltb, ltb-eq-false, if◌then◌else◌,
  arith,
}
use c37_118_simulator.Prelude.Text.{Bytes}
use c37_118_simulator.Management.Errors.{StatusCode}
use c37_118_simulator.Management.Response.{
  StaticHeader, refused, json_failed, BoundedJsonWriter, JsonValue, write_pieces, exceeded_error,
  maximum_for, is_no_content, json_content_type, encode_response, json_response,
}

abbrev pub concat : List Bytes → Bytes
concat [] = []
concat (piece ∷ pieces) = piece ++ concat pieces

abbrev extended : BoundedJsonWriter → Bytes → BoundedJsonWriter
extended w bytes = record w { body = w.body ++ bytes }

write_pieces-fit :
    (pieces : List Bytes) (fails : Bool) (w : BoundedJsonWriter)
    → length w.body + length (concat pieces) ≤ w.maximum
    → write_pieces pieces fails w
      ≡ record { writer = extended w (concat pieces); succeeded = not fails }
unfolding write_pieces
write_pieces-fit [] fails w h =
    ap (λ (b : Bytes). record { writer = record w { body = b }; succeeded = not fails })
      (sym (append-nil w.body))
write_pieces-fit (piece ∷ pieces) fails w h =
    rw
      (ltb-eq-false (w.maximum - length w.body) (length piece)
        (omega (arith, length-append piece (concat pieces))))
      (write_pieces-fit pieces fails (extended w piece)
          (omega (arith, h, length-append piece (concat pieces), length-append w.body piece))
        ∙ ap (λ (b : Bytes). record { writer = record w { body = b }; succeeded = not fails })
            (append_assoc w.body piece (concat pieces)))

write_pieces-exceed :
    (pieces : List Bytes) (fails : Bool) (w : BoundedJsonWriter)
    → length w.body ≤ w.maximum
    → w.maximum < length w.body + length (concat pieces)
    → ((write_pieces pieces fails w).succeeded ≡ false)
      × ((write_pieces pieces fails w).writer.exceeded ≡ true)
unfolding write_pieces
write_pieces-exceed [] fails w h k = absurd (omega arith)
write_pieces-exceed (piece ∷ pieces) fails w h k =
    elim (dec_lt (w.maximum - length w.body) (length piece)) [
      | yes over ↦ rw (lt→ltb (w.maximum - length w.body) (length piece) over) (refl, refl)
      | no under ↦ rw (ltb-eq-false (w.maximum - length w.body) (length piece) (omega arith)) (
          write_pieces-exceed pieces fails (extended w piece)
            (omega (arith, length-append w.body piece, under, h))
            (omega (arith, k, length-append piece (concat pieces), length-append w.body piece)))
    ]

abbrev empty_writer : ℕ → BoundedJsonWriter
empty_writer n = record { body = []; maximum = n; exceeded = false }

-- A JSON response that is written in pieces through the bounded writer is the response to the whole
-- text where the text fits the limit of its status; where it does not, it is refused as too large,
-- or as the body of a response that has none, however the text is cut into pieces. A value that
-- fits and cannot be serialized is refused as such.
pub json_response-concat :
    (status : StatusCode) (value : JsonValue) (headers : List StaticHeader)
    → json_response status value headers ≡ (
        if ltb (maximum_for status) (length (concat value.pieces))
        then refused (exceeded_error (is_no_content status))
        else if value.fails
        then refused json_failed
        else encode_response status json_content_type (concat value.pieces) headers)
unfolding json_response
json_response-concat status value headers =
    elim (dec_lt (maximum_for status) (length (concat value.pieces))) [
      | yes over ↦
          let (failed, exceeded) =
            write_pieces-exceed value.pieces value.fails (empty_writer (maximum_for status))
              (omega arith) (omega (arith, over)) in
          rw (lt→ltb (maximum_for status) (length (concat value.pieces)) over, failed, exceeded)
            refl
      | no under ↦
          rw
            (
              ltb-eq-false (maximum_for status) (length (concat value.pieces))
                  (omega (arith, under)),
              write_pieces-fit value.pieces value.fails (empty_writer (maximum_for status))
                  (omega (arith, under)),
            )
            (ground arith)
    ]
