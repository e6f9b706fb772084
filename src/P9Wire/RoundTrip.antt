-- ===== src/P9Wire/RoundTrip.antt =====
-- A message of any fields is read back whole.
use mountx.Common.{
  ℕ, ◌≡◌, refl, true, false, Option, none, some, List, [], ◌∷◌, ◌==◌, nat_eq, map, ltb, length,
  arith, All,
}
use mountx.Common.Result.{ok, ◌>>=◌}
use mountx.Xdr.{Bytes, Read, new_reader}
use mountx.Xdr.Reads.{Reads}
use mountx.Xdr.Writer.{new_writer}
use mountx.Xdr.Writer.Refinement.{Appends, Appends-then}
use mountx.Xdr.Chains.{Reads-done, Reads-then, Appends-done, written-Appends, whole-Reads}
use mountx.P9Wire.{
  P9Writer, p9_max_item, u8, u16, u32, u64, string, qid, blob, end, decode_p9, write_u8, write_u16,
  write_u32, write_u64, write_raw, write_string, write_qid, write_blob, encode_p9,
}
use mountx.P9Wire.Numbers.{
  number_bytes, u8-Reads, u16-Reads, u32-Reads, u64-Reads, write_u8-Appends, write_u16-Appends,
  write_u32-Appends, write_u64-Appends, write_raw-Appends,
}
use mountx.P9Wire.Fields.{
  Field, byte, short, word, long, text, file, data_of, shape_of, read_field, read_fields,
  write_field, write_fields, IsField, field_bytes, fields_bytes, string-Reads, blob-Reads,
  qid-Reads, write_qid-Appends, qid_bytes,
}

Reads-map :
    {A B : Type 0} (read : Read A) (f : A → B) (bs : Bytes) (a : A)
    → Reads read bs a
    → Reads (λ r. read r >>= λ p. ok (f p.0, p.1)) bs (f a)
Reads-map read f bs a h x post s = rw (h x post s) refl

module _ {Text : Type 0} (encode : Text → Bytes) (decode : Bytes → Text) where
  abbrev bytes_of : Field Text → Bytes
  bytes_of = field_bytes encode decode

  abbrev all_bytes : List (Field Text) → Bytes
  all_bytes = fields_bytes encode decode

  field-Reads :
      (field : Field Text)
      → IsField encode decode field
      → Reads (read_field encode decode (shape_of field)) (bytes_of field) field
  field-Reads (byte v) h = Reads-map u8 byte (number_bytes 1 v) v (u8-Reads v h)
  field-Reads (short v) h = Reads-map u16 short (number_bytes 2 v) v (u16-Reads v h)
  field-Reads (word v) h = Reads-map u32 word (number_bytes 4 v) v (u32-Reads v h)
  field-Reads (long v) h = Reads-map u64 long (number_bytes 8 v) v (u64-Reads v h)
  field-Reads (text v) h =
      Reads-map (string decode 0xffff) text (bytes_of (text v)) v (string-Reads encode decode v h)
  field-Reads (file q) (h, k, l) = Reads-map qid file (qid_bytes q) q (qid-Reads q h k l)
  field-Reads (data_of v) h =
      Reads-map (blob p9_max_item) data_of (bytes_of (data_of v)) v (blob-Reads encode decode v h)

  fields-Reads :
      (fields : List (Field Text))
      → All (IsField encode decode) fields
      → Reads (read_fields encode decode (map shape_of fields)) (all_bytes fields) fields
  fields-Reads [] h x post s = Reads-done [] x post s
  fields-Reads (field ∷ fields) (h, hs) x post s =
      Reads-then (read_field encode decode (shape_of field)) _ (bytes_of field) (all_bytes fields)
        field (field ∷ fields) (field-Reads field h)
        (Reads-map (read_fields encode decode (map shape_of fields)) (◌∷◌ field) (all_bytes fields)
          fields (fields-Reads fields hs))
        x post s

  -- The write of a field that throws nothing.
  plain : Field Text → P9Writer → P9Writer
  plain (byte v) w = write_u8 v w
  plain (short v) w = write_u16 v w
  plain (word v) w = write_u32 v w
  plain (long v) w = write_u64 v w
  plain (text v) w = write_raw (encode v) (write_u16 (length (encode v)) w)
  plain (file q) w = write_qid q w
  plain (data_of v) w = write_blob v w

  write_field-plain :
      (field : Field Text) (w : P9Writer)
      → IsField encode decode field
      → write_field encode decode field w ≡ ok (plain field w)
  unfolding plain write_string
  write_field-plain (byte v) w h = refl
  write_field-plain (short v) w h = refl
  write_field-plain (word v) w h = refl
  write_field-plain (long v) w h = refl
  write_field-plain (text v) w (kept, h) =
      let fits : ltb 0xffff (length (encode v)) ≡ false = ground (arith, h) in rw fits refl
  write_field-plain (file q) w h = refl
  write_field-plain (data_of v) w h = refl

  plain-Appends : (field : Field Text) → Appends (plain field) (bytes_of field)
  unfolding plain write_blob
  plain-Appends (byte v) = write_u8-Appends v
  plain-Appends (short v) = write_u16-Appends v
  plain-Appends (word v) = write_u32-Appends v
  plain-Appends (long v) = write_u64-Appends v
  plain-Appends (text v) =
      Appends-then (write_u16 (length (encode v))) (write_raw (encode v)) _ (encode v)
        (write_u16-Appends (length (encode v))) (write_raw-Appends (encode v))
  plain-Appends (file q) = write_qid-Appends q
  plain-Appends (data_of v) =
      Appends-then (write_u32 (length v)) (write_raw v) _ v (write_u32-Appends (length v))
        (write_raw-Appends v)

  all_plain : List (Field Text) → P9Writer → P9Writer
  all_plain [] w = w
  all_plain (field ∷ fields) w = all_plain fields (plain field w)

  write_fields-all_plain :
      (fields : List (Field Text)) (w : P9Writer)
      → All (IsField encode decode) fields
      → write_fields encode decode fields w ≡ ok (all_plain fields w)
  unfolding all_plain
  write_fields-all_plain [] w h = refl
  write_fields-all_plain (field ∷ fields) w (h, hs) =
      rw (write_field-plain field w h) (write_fields-all_plain fields (plain field w) hs)

  all_plain-Appends : (fields : List (Field Text)) → Appends (all_plain fields) (all_bytes fields)
  unfolding all_plain
  all_plain-Appends [] = Appends-done
  all_plain-Appends (field ∷ fields) =
      Appends-then (plain field) (all_plain fields) (bytes_of field) (all_bytes fields)
        (plain-Appends field) (all_plain-Appends fields)

  -- A message of any fields that is written into a writer of any capacity is decoded whole to the
  -- same fields, with nothing left over, if its numbers fit their bytes, its texts are at most 65535
  -- bytes that UTF-8 keeps, and its payloads are within the ceiling of 16 MiB.
  pub decode_p9-encode_p9 :
      (fields : List (Field Text)) (capacity : Option ℕ)
      → All (IsField encode decode) fields
      → (encode_p9 (write_fields encode decode fields) capacity >>= λ bytes.
          decode_p9 bytes (read_fields encode decode (map shape_of fields)))
        ≡ ok fields
  unfolding encode_p9 decode_p9 new_reader end
  decode_p9-encode_p9 fields capacity h =
      let size : ℕ = elim capacity [ none ↦ 256 | some size ↦ size ] in
      let bs = all_bytes fields in
      let done : (length bs == length bs) ≡ true = ground arith in
      rw
        (
          write_fields-all_plain fields (new_writer size) h,
          written-Appends (all_plain fields) bs size (all_plain-Appends fields),
          whole-Reads (read_fields encode decode (map shape_of fields)) bs fields
              (fields-Reads fields h),
          done,
        )
        refl
