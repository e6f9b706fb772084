-- ===== src/Xdr/RoundTrip.antt =====
-- What the writer writes the reader reads back: byte strings, arrays and lists, as whole messages.
use mountx.Common.{
  ℕ, zero, suc, ◌+◌, ◌*◌, ◌%◌, ◌^◌, ◌<◌, ◌≤◌, ◌≡◌, refl, sym, ap, ◌∙◌, true, false, some, List, [],
  ◌∷◌, ◌++◌, ◌==◌, nat_eq, ltb, length, arith, length-append, append-nil, All,
}
use mountx.Common.Result.{ok}
use mountx.Xdr.{
  Bytes, Read, to_be, var_opaque, items, fitting, array, list, list_from, new_reader, end,
  decode_xdr,
}
use mountx.Xdr.Numbers.{length-to_be}
use mountx.Xdr.Writer.{
  XdrWriter, written, new_writer, write_var_opaque, write_array, write_list, encode_xdr,
}
use mountx.Xdr.Writer.Refinement.{
  Appends, new_writer-IsWriter, bool_bytes, padded, written-new_writer,
}
use mountx.Xdr.Writer.Spans.{
  var_opaque_bytes, items_bytes, array_bytes, list_bytes, write_var_opaque-Appends,
  write_array-Appends, write_list-Appends,
}
use mountx.Xdr.Reads.{
  after, Stands, Reads, Stands-first, Stands-after, after-append, u32-Reads, bool-Reads,
  var_opaque-Reads, room_left,
}

module _ {A : Type 0} (read : Read A) (write : A → XdrWriter → XdrWriter) (form : A → Bytes)
    (appends : (a : A) → Appends (write a) (form a)) (IsGood : A → Type 0)
    (reads : (a : A) → IsGood a → Reads read (form a) a) where
  abbrev items_form : List A → Bytes
  items_form = items_bytes write form appends

  abbrev list_form : List A → Bytes
  list_form = list_bytes write form appends

  items-Reads :
      (values : List A)
      → All IsGood values
      → Reads (items read (length values)) (items_form values) values
  unfolding items
  items-Reads [] good x post s = ap (λ n. ok ([], record x { offset = n })) (omega arith)
  items-Reads (a ∷ rest) good x post s =
      let behind = after (length (form a)) x in
      let next = Stands-after x (form a) (items_form rest) post s in
      rw
        (
          reads a good.0 x (items_form rest ++ post)
              (Stands-first x (form a) (items_form rest) post s),
          items-Reads rest good.1 behind post next,
        )
        (ap (λ r. ok (a ∷ rest, r)) (after-append x (form a) (items_form rest)))

  list_from-Reads :
      (most left : ℕ) (values : List A)
      → length values ≤ left
      → All IsGood values
      → Reads (list_from read most left) (list_form values) values
  unfolding list_from
  list_from-Reads most zero [] h good x post s = rw (bool-Reads false x post s) refl
  list_from-Reads most (suc left) [] h good x post s = rw (bool-Reads false x post s) refl
  list_from-Reads most zero (a ∷ rest) h good x post s = absurd (omega (arith, h))
  list_from-Reads most (suc left) (a ∷ rest) h good x post s =
      let head = bool_bytes true in
      let tail = form a ++ list_form rest in
      let body = after (length head) x in
      let at_body = Stands-after x head tail post s in
      let behind = after (length (form a)) body in
      let next = Stands-after body (form a) (list_form rest) post at_body in
      rw
        (
          bool-Reads true x (tail ++ post) (Stands-first x head tail post s),
          reads a good.0 body (list_form rest ++ post)
              (Stands-first body (form a) (list_form rest) post at_body),
          list_from-Reads most left rest (omega (arith, h)) good.1 behind post next,
        )
        (ap (λ r. ok (a ∷ rest, r))
          (after-append body (form a) (list_form rest) ∙ after-append x head tail))

-- A value that is written to a new writer and read as a whole message.
decode_xdr-encode_xdr :
    {A : Type 0}
    → (read : Read A) (write : XdrWriter → XdrWriter) (bs : Bytes) (a : A) (capacity : ℕ)
    → Appends write bs
    → Reads read bs a
    → decode_xdr (encode_xdr write (some capacity)) read ≡ ok a
unfolding decode_xdr encode_xdr new_reader end
decode_xdr-encode_xdr read write bs a capacity appends reads =
    let made : written (write (new_writer capacity)) ≡ bs =
      (appends (new_writer capacity) (new_writer-IsWriter capacity)).1
      ∙ ap (λ start. start ++ bs) (written-new_writer capacity) in
    let stands : Stands (new_reader bs 0) bs [] = record {
      inside = omega arith;
      ahead = sym (append-nil bs);
    } in
    let done : (length bs == (0 + length bs)) ≡ true = ground arith in
    rw (made, reads (new_reader bs 0) [] stands, done) refl

-- An XDR list of byte strings is read back whole, where neither the list nor any of the strings is
-- longer than the reader's limits, and a length fits its four bytes.
pub list-write_list :
    (most limit capacity : ℕ) (values : List Bytes)
    → length values ≤ most
    → limit < 2 ^ 32
    → All (λ value. length value ≤ limit) values
    → decode_xdr
        (encode_xdr (write_list write_var_opaque values) (some capacity))
        (list (var_opaque limit) most)
      ≡ ok values
unfolding list
list-write_list most limit capacity values h k good =
    decode_xdr-encode_xdr (list (var_opaque limit) most) (write_list write_var_opaque values)
      (list_bytes write_var_opaque var_opaque_bytes write_var_opaque-Appends values) values capacity
      (write_list-Appends write_var_opaque var_opaque_bytes write_var_opaque-Appends values)
      (list_from-Reads (var_opaque limit) write_var_opaque var_opaque_bytes write_var_opaque-Appends
        (λ value. length value ≤ limit)
        (λ value short. var_opaque-Reads limit value short (omega (arith, short, k))) most most
        values h good)

module _ {A : Type 0} (read : Read A) (write : A → XdrWriter → XdrWriter) (form : A → Bytes)
    (appends : (a : A) → Appends (write a) (form a)) (IsGood : A → Type 0)
    (reads : (a : A) → IsGood a → Reads read (form a) a)
    (word : (a : A) → 4 ≤ length (form a)) where
  length-items_bytes :
      (values : List A) → 4 * length values ≤ length (items_bytes write form appends values)
  length-items_bytes [] = omega arith
  length-items_bytes (a ∷ rest) = omega (
    arith,
    length-append (form a) (items_bytes write form appends rest),
    word a,
    length-items_bytes rest,
  )

  pub array-Reads :
      (most : ℕ) (values : List A)
      → length values ≤ most
      → length values < 2 ^ 32
      → All IsGood values
      → Reads (array read most) (array_bytes write form appends values) values
  unfolding array fitting
  array-Reads most values h k good x post s =
      let count = length values % 2 ^ 32 in
      let head = to_be 4 count in
      let body = items_bytes write form appends values in
      let behind = after (length head) x in
      let next = Stands-after x head body post s in
      let whole : count ≡ length values = omega (arith, k) in
      let few : ltb most count ≡ false = ground (arith, h, whole) in
      let fit : ltb (length x.bytes) (x.offset + length head + 4 * count) ≡ false =
        ground (arith, whole, length-items_bytes values, room_left behind body post next) in
      rw
        (u32-Reads count (omega arith) x (body ++ post) (Stands-first x head body post s), few, fit)
        (ap (λ n. items read n behind) whole
          ∙ items-Reads read write form appends IsGood reads values good behind post next
          ∙ ap (λ r. ok (values, r)) (after-append x head body))

-- An XDR array of byte strings is read back whole, where neither the array nor any of the strings
-- is longer than the reader's limits, and the lengths fit their four bytes.
pub array-write_array :
    (most limit capacity : ℕ) (values : List Bytes)
    → length values ≤ most
    → most < 2 ^ 32
    → limit < 2 ^ 32
    → All (λ value. length value ≤ limit) values
    → decode_xdr
        (encode_xdr (write_array write_var_opaque values) (some capacity))
        (array (var_opaque limit) most)
      ≡ ok values
array-write_array most limit capacity values h few k good =
    decode_xdr-encode_xdr (array (var_opaque limit) most) (write_array write_var_opaque values)
      (array_bytes write_var_opaque var_opaque_bytes write_var_opaque-Appends values) values
      capacity
      (write_array-Appends write_var_opaque var_opaque_bytes write_var_opaque-Appends values)
      (array-Reads (var_opaque limit) write_var_opaque var_opaque_bytes write_var_opaque-Appends
        (λ value. length value ≤ limit)
        (λ value short. var_opaque-Reads limit value short (omega (arith, short, k)))
        (λ value. omega (
          arith,
          length-append (to_be 4 (length value % 2 ^ 32)) (padded value),
          length-to_be 4 (length value % 2 ^ 32),
        ))
        most values h (omega (arith, h, few)) good)
