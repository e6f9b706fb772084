-- ===== src/Xdr/Writer/Spans.antt =====
-- The writers of a byte string, an optional, an array and a list append their XDR form.
use mountx.Common.{
  ℕ, zero, ◌+◌, ◌-◌, ◌%◌, ◌^◌, ◌≤◌, min, ◌≡◌, sym, ap, ◌∙◌, true, false, List, [], ◌∷◌, ◌++◌, ltb,
  length, take, arith, Bool-cases, inl, inr, length-replicate, append-nil, append_assoc,
}
use mountx.Xdr.{Bytes, xdr_align, xdr_pad, to_be}
use mountx.Xdr.Writer.{
  XdrWriter, written, room, set_at, write_u32, write_bool, write_fixed_opaque, write_var_opaque,
  write_string, write_raw, write_items, write_array, write_list,
}
use mountx.Xdr.Writer.Refinement.{
  room-HasRoom, put-Appends, Appends, Appends-then, write_u32-Appends, write_bool-Appends,
  bool_bytes, padded, zeros, take-set_at, length-set_at, take-front,
}

fill_span :
    (value roomy : Bytes) (start pad : ℕ)
    → start + (length value + pad) ≤ length roomy
    → (take
          (start + (length value + pad))
          (set_at (start + length value) (zeros pad) (set_at start value roomy))
        ≡ take start roomy ++ value ++ zeros pad)
      × (length (set_at (start + length value) (zeros pad) (set_at start value roomy))
          ≡ length roomy)
fill_span value roomy start pad h =
    let copy = set_at start value roomy in
    let same = length-set_at start value roomy (omega (arith, h)) in
    let size = length-replicate pad zero in
    let sum : start + (length value + pad) ≡ start + length value + length (zeros pad) =
      omega (arith, size) in
    (
      ap (λ n. take n (set_at (start + length value) (zeros pad) copy)) sum
          ∙ take-set_at (start + length value) (zeros pad) copy (omega (arith, h, same))
          ∙ ap (λ x. x ++ zeros pad) (take-set_at start value roomy (omega (arith, h))),
      length-set_at (start + length value) (zeros pad) copy (omega (arith, h, same, size)) ∙ same,
    )

copy_span :
    (value roomy : Bytes) (start pad : ℕ)
    → pad ≡ 0
    → start + (length value + pad) ≤ length roomy
    → take (start + (length value + pad)) (set_at start value roomy)
      ≡ take start roomy ++ value ++ zeros pad
copy_span value roomy start pad none_left h =
    let sum : start + (length value + pad) ≡ start + length value = omega (arith, none_left) in
    ap (λ n. take n (set_at start value roomy)) sum
    ∙ take-set_at start value roomy (omega (arith, h))
    ∙ sym (append-nil (take start roomy ++ value))
    ∙ ap (λ n. take start roomy ++ value ++ zeros n) (sym none_left)

-- The copy and the fill cover the whole span, whatever the buffer held.
pub write_fixed_opaque-Appends :
    (value : Bytes) → Appends (write_fixed_opaque value (length value)) (padded value)
unfolding write_fixed_opaque written xdr_align
write_fixed_opaque-Appends value w v =
    let pad = xdr_pad (length value) in
    let span = length value + pad in
    let h = room-HasRoom span w v in
    let roomy = (room span w).buffer in
    let filled = fill_span value roomy w.length pad h.space in
    let whole : take (min (length value) (length value)) value ≡ value =
      ap (take (min (length value) (length value))) (sym (append-nil value))
      ∙ take-front (min (length value) (length value)) value [] (omega arith) in
    let least : min (length value) (length value) ≡ length value = omega arith in
    let gap : span - length value ≡ pad = omega arith in
    elim (Bool-cases (ltb (length value) span)) [
      | inl e ↦
          rw (whole, least, e, gap, h.ends)
            (
              record {
                fits = omega (arith, filled.1, h.space);
                some_room = omega (arith, filled.1, h.larger, v.some_room);
              },
              filled.0
                  ∙ ap (λ x. x ++ value ++ zeros pad) h.keeps
                  ∙ append_assoc (written w) value (zeros pad),
            )
      | inr e ↦
          let none_left : pad ≡ 0 = ground arith in
          let same = length-set_at w.length value roomy (omega (arith, h.space)) in
          rw (whole, least, e, h.ends)
            (
              record {
                fits = omega (arith, same, h.space);
                some_room = omega (arith, same, h.larger, v.some_room);
              },
              copy_span value roomy w.length pad none_left h.space
                  ∙ ap (λ x. x ++ value ++ zeros pad) h.keeps
                  ∙ append_assoc (written w) value (zeros pad),
            )
    ]

abbrev pub var_opaque_bytes : Bytes → Bytes
var_opaque_bytes value = to_be 4 (length value % 2 ^ 32) ++ padded value

pub write_var_opaque-Appends :
    (value : Bytes) → Appends (write_var_opaque value) (var_opaque_bytes value)
unfolding write_var_opaque
write_var_opaque-Appends value =
    Appends-then (write_u32 (length value)) (write_fixed_opaque value (length value))
      (to_be 4 (length value % 2 ^ 32)) (padded value) (write_u32-Appends (length value))
      (write_fixed_opaque-Appends value)

pub write_string-Appends :
    {Text : Type 0} (encode : Text → Bytes) (text : Text)
    → Appends (write_string encode text) (var_opaque_bytes (encode text))
unfolding write_string
write_string-Appends encode text = write_var_opaque-Appends (encode text)

pub write_raw-Appends : (value : Bytes) → Appends (write_raw value) value
unfolding write_raw
write_raw-Appends value = put-Appends value

module _ {A : Type 0} (write : A → XdrWriter → XdrWriter) (form : A → Bytes)
    (appends : (a : A) → Appends (write a) (form a)) where
  abbrev pub items_bytes : List A → Bytes
  items_bytes [] = []
  items_bytes (a ∷ rest) = form a ++ items_bytes rest

  abbrev pub array_bytes : List A → Bytes
  array_bytes values = to_be 4 (length values % 2 ^ 32) ++ items_bytes values

  abbrev pub list_bytes : List A → Bytes
  list_bytes [] = bool_bytes false
  list_bytes (a ∷ rest) = bool_bytes true ++ (form a ++ list_bytes rest)

  write_items-Appends : (values : List A) → Appends (write_items write values) (items_bytes values)
  unfolding write_items
  write_items-Appends [] w v = (v, sym (append-nil (written w)))
  write_items-Appends (a ∷ rest) w v =
      Appends-then (write a) (write_items write rest) (form a) (items_bytes rest) (appends a)
        (write_items-Appends rest) w v

  pub write_array-Appends :
      (values : List A) → Appends (write_array write values) (array_bytes values)
  unfolding write_array
  write_array-Appends values =
      Appends-then (write_u32 (length values)) (write_items write values)
        (to_be 4 (length values % 2 ^ 32)) (items_bytes values) (write_u32-Appends (length values))
        (write_items-Appends values)

  pub write_list-Appends : (values : List A) → Appends (write_list write values) (list_bytes values)
  unfolding write_list
  write_list-Appends [] = write_bool-Appends false
  write_list-Appends (a ∷ rest) =
      Appends-then (write_bool true) (λ w. write_list write rest (write a w)) (bool_bytes true)
        (form a ++ list_bytes rest) (write_bool-Appends true)
        (Appends-then (write a) (write_list write rest) (form a) (list_bytes rest) (appends a)
          (write_list-Appends rest))
