-- ===== src/Xdr.antt =====
-- src/nfs/xdr.ts: the reader of one XDR message, and the numbers on the wire.
-- A byte is a number below 256. An `XdrError` keeps the numbers of its message and the offset, and not
-- the words. `decode` and `encode` of a string are the host's UTF-8 codec, a parameter.
pub mod Writer
pub mod Numbers
pub mod Reads
pub mod Bounds
pub mod RoundTrip
pub mod Chains
pub mod Tests
use mountx.Common.{
  ℕ, zero, suc, ◌+◌, ◌-◌, ◌*◌, ◌/◌, ◌%◌, ◌^◌, Bool, true, false, not, ◌&&◌, ◌||◌, Option, none,
  some, List, [], ◌∷◌, ◌++◌, ◌==◌, nat_eq, ltb, leb, if◌then◌else◌, length, take, drop,
}
use mountx.Common.Int.{ℤ, pos, negsuc}
use mountx.Common.Result.{Result, ok, err, ◌>>=◌}

abbrev pub Bytes : Type 0
Bytes = List ℕ

pub data XdrError : Type 0 where
  truncated : ℕ → ℕ → ℕ → XdrError
  not_a_bool : ℕ → ℕ → XdrError
  over_limit : ℕ → ℕ → ℕ → XdrError
  cannot_fit : ℕ → ℕ → XdrError
  too_long : ℕ → ℕ → XdrError
  trailing : ℕ → ℕ → XdrError
  cannot_truncate : ℕ → ℕ → XdrError
  not_a_call : ℕ → ℕ → XdrError
  not_a_reply : ℕ → ℕ → XdrError
  unknown_status : ℕ → XdrError
  no_fragment_size : XdrError
  text_too_long : ℕ → XdrError
  cannot_patch : ℕ → ℕ → XdrError
  record_too_long : ℕ → ℕ → XdrError
  too_many_fragments : ℕ → ℕ → XdrError

unfoldable pub xdr_pad : ℕ → ℕ
xdr_pad n = (4 - n % 4) % 4

pub xdr_align : ℕ → ℕ
xdr_align n = n + xdr_pad n

abbrev pub xdr_max_item : ℕ
xdr_max_item = 16 * 1024 * 1024

-- The big-endian bytes of a number, and the number of big-endian bytes.
unfoldable pub to_be : ℕ → ℕ → Bytes
to_be zero v = []
to_be (suc k) v = to_be k (v / 256) ++ v % 256 ∷ []

unfoldable pub from_be : ℕ → Bytes → ℕ
from_be acc [] = acc
from_be acc (b ∷ bs) = from_be (acc * 256 + b) bs

-- The two's complement of `w` bits.
pub signed : ℕ → ℕ → ℤ
signed w n = if ltb n (2 ^ (w - 1)) then pos n else negsuc (2 ^ w - 1 - n)

pub record XdrReader : Type 0 where
  pub bytes : Bytes
  pub offset : ℕ

unfoldable pub new_reader : Bytes → ℕ → XdrReader
new_reader bytes offset = record { bytes = bytes; offset = offset }

pub remaining : XdrReader → ℕ
remaining r = length r.bytes - r.offset

pub at_end : XdrReader → Bool
at_end r = leb (length r.bytes) r.offset

-- A read: its value and the reader after it, or what it throws.
abbrev pub Read : Type 0 → Type 0
Read A = XdrReader → Result XdrError (A × XdrReader)

-- `#need`: the offset before the step.
pub need : ℕ → Read ℕ
need count r =
    if ltb (length r.bytes) (r.offset + count)
    then err (truncated count (remaining r) r.offset)
    else ok (r.offset, record r { offset = r.offset + count })

-- `copyBytes(bytes, start, start + size)`
pub copy_bytes : Bytes → ℕ → ℕ → Bytes
copy_bytes bytes start size = take size (drop start bytes)

pub u32 : Read ℕ
u32 r = do (start, r') ← need 4 r; ok (from_be 0 (copy_bytes r.bytes start 4), r')

pub i32 : Read ℤ
i32 r = do (start, r') ← need 4 r; ok (signed 32 (from_be 0 (copy_bytes r.bytes start 4)), r')

pub u64 : Read ℕ
u64 r = do (start, r') ← need 8 r; ok (from_be 0 (copy_bytes r.bytes start 8), r')

pub i64 : Read ℤ
i64 r = do (start, r') ← need 8 r; ok (signed 64 (from_be 0 (copy_bytes r.bytes start 8)), r')

pub bool : Read Bool
bool r = do
  (value, r') ← u32 r
  if ltb 1 value then err (not_a_bool value (r'.offset - 4)) else ok (value == 1, r')

pub fixed_opaque : ℕ → Read Bytes
fixed_opaque size r = do
  (start, r') ← need (xdr_align size) r
  ok (copy_bytes r.bytes start size, r')

pub var_opaque : ℕ → Read Bytes
var_opaque most r = do
  (size, r') ← u32 r
  if ltb most size then err (over_limit size most (r'.offset - 4)) else fixed_opaque size r'

pub string : {Text : Type 0} → (Bytes → Text) → ℕ → Read Text
string decode most r = do (bytes, r') ← var_opaque most r; ok (decode bytes, r')

module _ {A : Type 0} (read : Read A) where
  pub optional : Read (Option A)
  optional r = do
    (present, r') ← bool r
    if present then (do (value, r'') ← read r'; ok (some value, r'')) else ok (none, r')

  pub items : ℕ → Read (List A)
  items zero r = ok ([], r)
  items (suc n) r = do (value, r') ← read r; (rest, r'') ← items n r'; ok (value ∷ rest, r'')

  -- `count > remaining / 4` on numbers with fractions.
  pub fitting : ℕ → ℕ → Read (List A)
  fitting most count r =
      if ltb most count || ltb (length r.bytes) (r.offset + 4 * count)
      then err (cannot_fit count (r.offset - 4))
      else items count r

  pub array : ℕ → Read (List A)
  array most r = do (count, r') ← u32 r; fitting most count r'

  -- `left` is what `max` has left: the walk ends at the latest where it is used up.
  pub list_from : ℕ → ℕ → Read (List A)
  list_from most zero r = do
    (next, r') ← bool r
    if next then err (too_long most r'.offset) else ok ([], r')
  list_from most (suc left) r = do
    (next, r') ← bool r
    if next
        then (do
          (value, r'') ← read r'
          (rest, r''') ← list_from most left r''
          ok (value ∷ rest, r'''))
        else ok ([], r')

  pub list : ℕ → Read (List A)
  list most r = list_from most most r

pub rest : Read Bytes
rest r = do
  (start, r') ← need (remaining r) r
  ok (copy_bytes r.bytes start (length r.bytes - start), r')

pub end : XdrReader → Result XdrError (Unit {0})
end r = if length r.bytes == r.offset then ok tt else err (trailing (remaining r) r.offset)

pub decode_xdr : {A : Type 0} → Bytes → Read A → Result XdrError A
decode_xdr bytes read = do (value, r) ← read (new_reader bytes 0); done ← end r; ok value
