-- ===== src/Xdr/Writer.antt =====
-- src/nfs/xdr.ts: the growable writer.
-- `buffer` is the whole of `#bytes`, of which the first `length` are written.
pub mod Refinement
pub mod Spans
pub mod Words
use mountx.Common.{
  ℕ, zero, suc, ◌+◌, ◌-◌, ◌*◌, ◌%◌, ◌^◌, min, max, Bool, true, false, Option, none, some, List, [],
  ◌∷◌, ◌++◌, ltb, if◌then◌else◌, length, take, drop, replicate,
}
use mountx.Common.Int.{ℤ, pos, negsuc}
use mountx.Common.Result.{Result, ok, err}
use mountx.Xdr.{Bytes, XdrError, cannot_truncate, xdr_align, to_be}

pub record XdrWriter : Type 0 where
  pub buffer : Bytes
  pub length : ℕ

pub new_writer : ℕ → XdrWriter
new_writer capacity = record { buffer = replicate (max 16 capacity) 0; length = 0 }

-- `this.#bytes.slice(0, this.#length)`, and what `view` shows.
pub written : XdrWriter → Bytes
written w = take w.length w.buffer

pub reallocate : ℕ → XdrWriter → XdrWriter
reallocate capacity w = record w {
  buffer = take w.length w.buffer ++ replicate (capacity - w.length) 0;
}

pub ensure : ℕ → XdrWriter → XdrWriter
ensure count w =
    if ltb (length w.buffer) (w.length + count) then reallocate (w.length + count) w else w

-- `while (capacity < needed) capacity *= 2`
pub doubled : ℕ → ℕ → ℕ → ℕ
doubled zero needed capacity = capacity
doubled (suc fuel) needed capacity =
    if ltb capacity needed then doubled fuel needed (capacity * 2) else capacity

-- A capacity is at least one, so that `needed` rounds are enough.
pub grow : ℕ → XdrWriter → XdrWriter
grow needed w = reallocate (doubled needed needed (length w.buffer * 2)) w

-- The offset before the step is the length of the writer before it.
pub room : ℕ → XdrWriter → XdrWriter
room count w =
    let needed = w.length + count in
    let grown = if ltb (length w.buffer) needed then grow needed w else w in
    record grown { length = needed }

-- The bytes of a buffer, replaced from an offset on.
pub set_at : ℕ → Bytes → Bytes → Bytes
set_at start bytes buffer = take start buffer ++ bytes ++ drop (start + length bytes) buffer

abbrev pub put : Bytes → XdrWriter → XdrWriter
put bytes w =
    let roomy = room (length bytes) w in
    record roomy { buffer = set_at w.length bytes roomy.buffer }

pub truncate : ℕ → XdrWriter → Result XdrError XdrWriter
truncate size w =
    if ltb w.length size
    then err (cannot_truncate size w.length)
    else ok (record w { length = size })

-- The bits of a signed number.
pub bits : ℕ → ℤ → ℕ
bits w (pos n) = n % 2 ^ w
bits w (negsuc n) = 2 ^ w - 1 - n % 2 ^ w

pub write_u32 : ℕ → XdrWriter → XdrWriter
write_u32 value w = put (to_be 4 (value % 2 ^ 32)) w

pub write_i32 : ℤ → XdrWriter → XdrWriter
write_i32 value w = put (to_be 4 (bits 32 value)) w

pub write_u64 : ℕ → XdrWriter → XdrWriter
write_u64 value w = put (to_be 8 (value % 2 ^ 64)) w

pub write_i64 : ℤ → XdrWriter → XdrWriter
write_i64 value w = put (to_be 8 (bits 64 value)) w

pub write_bool : Bool → XdrWriter → XdrWriter
write_bool value w = write_u32 (if value then 1 else 0) w

-- The bytes, then zeros in the rest of the span.
pub write_fixed_opaque : Bytes → ℕ → XdrWriter → XdrWriter
write_fixed_opaque value size w =
    let span = xdr_align size in
    let copied = min (length value) size in
    let roomy = room span w in
    let copy = set_at w.length (take copied value) roomy.buffer in
    record roomy {
      buffer =
          if ltb copied span
          then set_at (w.length + copied) (replicate (span - copied) 0) copy
          else copy;
    }

pub write_var_opaque : Bytes → XdrWriter → XdrWriter
write_var_opaque value w = write_fixed_opaque value (length value) (write_u32 (length value) w)

pub write_string : {Text : Type 0} → (Text → Bytes) → Text → XdrWriter → XdrWriter
write_string encode value w = write_var_opaque (encode value) w

module _ {A : Type 0} (write : A → XdrWriter → XdrWriter) where
  pub write_optional : Option A → XdrWriter → XdrWriter
  write_optional none w = write_bool false w
  write_optional (some value) w = write value (write_bool true w)

  pub write_items : List A → XdrWriter → XdrWriter
  write_items [] w = w
  write_items (value ∷ rest) w = write_items rest (write value w)

  pub write_array : List A → XdrWriter → XdrWriter
  write_array values w = write_items values (write_u32 (length values) w)

  pub write_list : List A → XdrWriter → XdrWriter
  write_list [] w = write_bool false w
  write_list (value ∷ rest) w = write_list rest (write value (write_bool true w))

pub write_raw : Bytes → XdrWriter → XdrWriter
write_raw value w = put value w

unfoldable pub encode_xdr : (XdrWriter → XdrWriter) → Option ℕ → Bytes
encode_xdr write none = written (write (new_writer 512))
encode_xdr write (some capacity) = written (write (new_writer capacity))

pub string_byte_length : {Text : Type 0} → (Text → Bytes) → Text → ℕ
string_byte_length encode value = length (encode value)
