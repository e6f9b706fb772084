-- ===== src/P9Wire.antt =====
-- src/9p/wire.ts: the reader and the writer of one 9P message.
-- The file repeats the buffers of src/nfs/xdr.ts word for word: a position that `#need` checks, and
-- bytes that `#room` doubles. So a reader, a writer and an error are those of Xdr, `need` and `put`
-- too; what 9P does on them is here. UTF-8 is a parameter.
pub mod Numbers
pub mod Fields
pub mod RoundTrip
pub mod Tests
use mountx.Common.{
  ℕ, zero, suc, ◌+◌, ◌-◌, ◌*◌, ◌/◌, ◌%◌, ◌^◌, Bool, true, false, Option, none, some, List, [], ◌∷◌,
  ◌++◌, ◌==◌, nat_eq, ltb, leb, if◌then◌else◌, length, take, drop,
}
use mountx.Common.Result.{Result, ok, err, ◌>>=◌}
use mountx.Xdr.{
  Bytes, XdrError, over_limit, trailing, text_too_long, cannot_patch, XdrReader, Read, new_reader,
  need, copy_bytes, remaining,
}
use mountx.Xdr.Writer.{XdrWriter, new_writer, written, put, set_at}

abbrev pub P9Error : Type 0
P9Error = XdrError

abbrev pub P9Reader : Type 0
P9Reader = XdrReader

abbrev pub P9Writer : Type 0
P9Writer = XdrWriter

pub record P9Qid : Type 0 where
  pub type : ℕ
  pub version : ℕ
  pub path : ℕ

abbrev pub p9_max_string : ℕ
p9_max_string = 0xffff

abbrev pub p9_max_item : ℕ
p9_max_item = 16 * 1024 * 1024

-- The little-endian bytes of a number, and the number of little-endian bytes.
unfoldable pub to_le : ℕ → ℕ → Bytes
to_le zero v = []
to_le (suc k) v = v % 256 ∷ to_le k (v / 256)

unfoldable pub from_le : Bytes → ℕ
from_le [] = 0
from_le (b ∷ bs) = b + 256 * from_le bs

-- A number of so many bytes.
abbrev pub number : ℕ → Read ℕ
number k r = do (start, r') ← need k r; ok (from_le (copy_bytes r.bytes start k), r')

pub u8 : Read ℕ
u8 r = number 1 r

pub u16 : Read ℕ
u16 r = number 2 r

pub u32 : Read ℕ
u32 r = number 4 r

pub u64 : Read ℕ
u64 r = number 8 r

pub raw : ℕ → Read Bytes
raw count r = do (start, r') ← need count r; ok (copy_bytes r.bytes start count, r')

pub string : {Text : Type 0} → (Bytes → Text) → ℕ → Read Text
string decode most r = do
  (size, r') ← u16 r
  if ltb most size
      then err (over_limit size most (r'.offset - 2))
      else (do (bytes, r'') ← raw size r'; ok (decode bytes, r''))

pub qid : Read P9Qid
qid r = do
  (type, r) ← u8 r
  (version, r) ← u32 r
  (path, r) ← u64 r
  ok (record { type = type; version = version; path = path }, r)

pub blob : ℕ → Read Bytes
blob most r = do
  (size, r') ← u32 r
  if ltb most size then err (over_limit size most (r'.offset - 4)) else raw size r'

pub rest : Read Bytes
rest r = raw (remaining r) r

-- `remaining !== 0`, on numbers with a sign.
pub end : P9Reader → Result P9Error (Unit {0})
end r = if length r.bytes == r.offset then ok tt else err (trailing (remaining r) r.offset)

unfoldable pub decode_p9 : {A : Type 0} → Bytes → Read A → Result P9Error A
decode_p9 bytes read = do (value, r) ← read (new_reader bytes 0); done ← end r; ok value

abbrev pub write_number : ℕ → ℕ → P9Writer → P9Writer
write_number k value w = put (to_le k (value % 256 ^ k)) w

pub write_u8 : ℕ → P9Writer → P9Writer
write_u8 value w = write_number 1 value w

pub write_u16 : ℕ → P9Writer → P9Writer
write_u16 value w = write_number 2 value w

pub write_u32 : ℕ → P9Writer → P9Writer
write_u32 value w = write_number 4 value w

pub write_u64 : ℕ → P9Writer → P9Writer
write_u64 value w = write_number 8 value w

pub write_raw : Bytes → P9Writer → P9Writer
write_raw value w = put value w

pub write_string : {Text : Type 0} → (Text → Bytes) → Text → P9Writer → Result P9Error P9Writer
write_string encode value w =
    let encoded = encode value in
    if ltb p9_max_string (length encoded)
    then err (text_too_long (length encoded))
    else ok (write_raw encoded (write_u16 (length encoded) w))

pub write_qid : P9Qid → P9Writer → P9Writer
write_qid value w = write_u64 value.path (write_u32 value.version (write_u8 value.type w))

pub write_blob : Bytes → P9Writer → P9Writer
write_blob value w = write_raw value (write_u32 (length value) w)

pub patch_u32 : ℕ → ℕ → P9Writer → Result P9Error P9Writer
patch_u32 at value w =
    if ltb w.length (at + 4)
    then err (cannot_patch at w.length)
    else ok (record w { buffer = set_at at (to_le 4 (value % 256 ^ 4)) w.buffer })

-- A writer that is called by reference is passed along; 256 is the capacity that is not given.
unfoldable pub encode_p9 : (P9Writer → Result P9Error P9Writer) → Option ℕ → Result P9Error Bytes
encode_p9 write capacity = do
  w ← write (new_writer (elim capacity [ none ↦ 256 | some size ↦ size ]))
  ok (written w)

pub string_byte_length : {Text : Type 0} → (Text → Bytes) → Text → ℕ
string_byte_length encode value = length (encode value)
