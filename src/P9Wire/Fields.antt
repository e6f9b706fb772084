-- ===== src/P9Wire/Fields.antt =====
-- A 9P message is a struct written field by field: any fields that are written are read back.
use mountx.Common.{
  ℕ, ◌*◌, ◌^◌, ◌<◌, ◌≤◌, ◌≡◌, ap, false, List, [], ◌∷◌, ◌++◌, nat_eq, ltb, length, arith,
}
use mountx.Common.Result.{Result, ok, ◌>>=◌}
use mountx.Xdr.{Bytes, Read}
use mountx.Xdr.Reads.{after, Reads, Stands-first, Stands-after, after-append}
use mountx.Xdr.Writer.Refinement.{Appends, Appends-then}
use mountx.Xdr.Chains.{Reads-done, Reads-then, Appends-done}
use mountx.P9Wire.{
  P9Error, P9Writer, P9Qid, p9_max_item, u8, u16, u32, u64, string, qid, blob, write_u8, write_u16,
  write_u32, write_u64, write_string, write_qid, write_blob,
}
use mountx.P9Wire.Numbers.{
  number_bytes, u8-Reads, u16-Reads, u32-Reads, u64-Reads, raw-Reads, write_u8-Appends,
  write_u32-Appends, write_u64-Appends,
}

pub data Field (Text : Type 0) : Type 0 where
  byte : ℕ → Field Text
  short : ℕ → Field Text
  word : ℕ → Field Text
  long : ℕ → Field Text
  text : Text → Field Text
  file : P9Qid → Field Text
  data_of : Bytes → Field Text

pub data Shape : Type 0 where
  byte_shape : Shape
  short_shape : Shape
  word_shape : Shape
  long_shape : Shape
  text_shape : Shape
  file_shape : Shape
  data_shape : Shape

module _ {Text : Type 0} where
  abbrev pub shape_of : Field Text → Shape
  shape_of (byte value) = byte_shape
  shape_of (short value) = short_shape
  shape_of (word value) = word_shape
  shape_of (long value) = long_shape
  shape_of (text value) = text_shape
  shape_of (file value) = file_shape
  shape_of (data_of value) = data_shape

pub qid_bytes : P9Qid → Bytes
qid_bytes q = number_bytes 1 q.type ++ (number_bytes 4 q.version ++ (number_bytes 8 q.path ++ []))

module _ {Text : Type 0} (encode : Text → Bytes) (decode : Bytes → Text) where
  abbrev pub read_field : Shape → Read (Field Text)
  read_field byte_shape r = do (value, r) ← u8 r; ok (byte value, r)
  read_field short_shape r = do (value, r) ← u16 r; ok (short value, r)
  read_field word_shape r = do (value, r) ← u32 r; ok (word value, r)
  read_field long_shape r = do (value, r) ← u64 r; ok (long value, r)
  read_field text_shape r = do (value, r) ← string decode 0xffff r; ok (text value, r)
  read_field file_shape r = do (value, r) ← qid r; ok (file value, r)
  read_field data_shape r = do (value, r) ← blob p9_max_item r; ok (data_of value, r)

  abbrev pub read_fields : List Shape → Read (List (Field Text))
  read_fields [] r = ok ([], r)
  read_fields (shape ∷ shapes) r = do
    (field, r) ← read_field shape r
    (fields, r) ← read_fields shapes r
    ok (field ∷ fields, r)

  abbrev pub write_field : Field Text → P9Writer → Result P9Error P9Writer
  write_field (byte value) w = ok (write_u8 value w)
  write_field (short value) w = ok (write_u16 value w)
  write_field (word value) w = ok (write_u32 value w)
  write_field (long value) w = ok (write_u64 value w)
  write_field (text value) w = write_string encode value w
  write_field (file value) w = ok (write_qid value w)
  write_field (data_of value) w = ok (write_blob value w)

  abbrev pub write_fields : List (Field Text) → P9Writer → Result P9Error P9Writer
  write_fields [] w = ok w
  write_fields (field ∷ fields) w = do w ← write_field field w; write_fields fields w

  -- A number fits its bytes, a text its count, and UTF-8 keeps it; a payload is within the ceiling.
  abbrev pub IsField : Field Text → Type 0
  IsField (byte value) = value < 256
  IsField (short value) = value < 2 ^ 16
  IsField (word value) = value < 2 ^ 32
  IsField (long value) = value < 2 ^ 64
  IsField (text value) = (decode (encode value) ≡ value) × (length (encode value) ≤ 0xffff)
  IsField (file q) = (q.type < 256) × (q.version < 2 ^ 32) × (q.path < 2 ^ 64)
  IsField (data_of value) = length value ≤ 16 * 1024 * 1024

  abbrev pub field_bytes : Field Text → Bytes
  field_bytes (byte value) = number_bytes 1 value
  field_bytes (short value) = number_bytes 2 value
  field_bytes (word value) = number_bytes 4 value
  field_bytes (long value) = number_bytes 8 value
  field_bytes (text value) = number_bytes 2 (length (encode value)) ++ encode value
  field_bytes (file value) = qid_bytes value
  field_bytes (data_of value) = number_bytes 4 (length value) ++ value

  abbrev pub fields_bytes : List (Field Text) → Bytes
  fields_bytes [] = []
  fields_bytes (field ∷ fields) = field_bytes field ++ fields_bytes fields

  pub string-Reads :
      (value : Text)
      → IsField (text value)
      → Reads (string decode 0xffff) (field_bytes (text value)) value
  unfolding string
  string-Reads value (kept, h) x post s =
      let bytes = encode value in
      let head = number_bytes 2 (length bytes) in
      let fits : ltb 0xffff (length bytes) ≡ false = ground (arith, h) in
      rw
        (
          u16-Reads (length bytes) (omega (arith, h)) x (bytes ++ post)
              (Stands-first x head bytes post s),
          fits,
          raw-Reads bytes (after (length head) x) post (Stands-after x head bytes post s),
          kept,
        )
        (ap (λ r. ok (value, r)) (after-append x head bytes))

  pub blob-Reads :
      (value : Bytes)
      → length value ≤ 16 * 1024 * 1024
      → Reads (blob p9_max_item) (field_bytes (data_of value)) value
  unfolding blob
  blob-Reads value h x post s =
      let head = number_bytes 4 (length value) in
      let fits : ltb (16 * 1024 * 1024) (length value) ≡ false = ground (arith, h) in
      rw
        (
          u32-Reads (length value) (omega (arith, h)) x (value ++ post)
              (Stands-first x head value post s),
          fits,
          raw-Reads value (after (length head) x) post (Stands-after x head value post s),
        )
        (ap (λ r. ok (value, r)) (after-append x head value))

pub qid-Reads :
    (q : P9Qid) → q.type < 256 → q.version < 2 ^ 32 → q.path < 2 ^ 64 → Reads qid (qid_bytes q) q
unfolding qid qid_bytes
qid-Reads q h k l = Reads-then u8 _ _ _ q.type q (u8-Reads q.type h) (
    Reads-then u32 _ _ _ q.version q (u32-Reads q.version k)
      (Reads-then u64 _ _ _ q.path q (u64-Reads q.path l) (Reads-done q)))

pub write_qid-Appends : (q : P9Qid) → Appends (write_qid q) (qid_bytes q)
unfolding write_qid qid_bytes
write_qid-Appends q =
    Appends-then (write_u8 q.type) (λ w. write_u64 q.path (write_u32 q.version w)) _ _
      (write_u8-Appends q.type)
      (Appends-then (write_u32 q.version) (write_u64 q.path) _ _ (write_u32-Appends q.version)
        (Appends-then (write_u64 q.path) (λ w. w) _ [] (write_u64-Appends q.path) Appends-done))
