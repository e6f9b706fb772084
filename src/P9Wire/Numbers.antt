-- ===== src/P9Wire/Numbers.antt =====
-- The little-endian bytes of a number, and the reads and the writes of numbers.
use mountx.Common.{ℕ, zero, suc, ◌/◌, ◌%◌, ◌^◌, ◌<◌, ◌≡◌, refl, sym, ap, ◌∙◌, [], length, arith}
use mountx.Xdr.{Bytes, copy_bytes}
use mountx.Xdr.Reads.{Reads, need-Stands, copy_bytes-Stands, Stands-nil}
use mountx.Xdr.Writer.Refinement.{Appends, put-Appends}
use mountx.P9Wire.{
  to_le, from_le, number, u8, u16, u32, u64, raw, write_u8, write_u16, write_u32, write_u64,
  write_raw,
}

pub length-to_le : (k v : ℕ) → length (to_le k v) ≡ k
unfolding to_le
length-to_le zero v = refl
length-to_le (suc k) v = omega (arith, length-to_le k (v / 256))

pub from_le-to_le : (k v : ℕ) → v < 256 ^ k → from_le (to_le k v) ≡ v
unfolding to_le from_le
from_le-to_le zero v h = omega (arith, h)
from_le-to_le (suc k) v h = omega (arith, from_le-to_le k (v / 256) (omega (arith, h)))

abbrev pub number_bytes : ℕ → ℕ → Bytes
number_bytes k value = to_le k (value % 256 ^ k)

number-Reads :
    (k value : ℕ)
    → value < 256 ^ k
    → value % 256 ^ k ≡ value
    → Reads (number k) (number_bytes k value) value
number-Reads k value h whole x post s =
    let bs = number_bytes k value in
    let size = length-to_le k (value % 256 ^ k) in
    let copied : copy_bytes x.bytes x.offset k ≡ bs =
      ap (copy_bytes x.bytes x.offset) (sym size)
      ∙ copy_bytes-Stands x bs [] post (Stands-nil x bs post s) in
    let value_of : from_le bs ≡ value =
      ap (λ n. from_le (to_le k n)) whole ∙ from_le-to_le k value h in
    rw (need-Stands k x bs post s (sym size), copied, value_of) refl

pub u8-Reads : (value : ℕ) → value < 256 → Reads u8 (number_bytes 1 value) value
unfolding u8
u8-Reads value h = number-Reads 1 value (omega (arith, h)) (omega (arith, h))

pub u16-Reads : (value : ℕ) → value < 2 ^ 16 → Reads u16 (number_bytes 2 value) value
unfolding u16
u16-Reads value h = number-Reads 2 value (omega (arith, h)) (omega (arith, h))

pub u32-Reads : (value : ℕ) → value < 2 ^ 32 → Reads u32 (number_bytes 4 value) value
unfolding u32
u32-Reads value h = number-Reads 4 value (omega (arith, h)) (omega (arith, h))

pub u64-Reads : (value : ℕ) → value < 2 ^ 64 → Reads u64 (number_bytes 8 value) value
unfolding u64
u64-Reads value h = number-Reads 8 value (omega (arith, h)) (omega (arith, h))

pub raw-Reads : (value : Bytes) → Reads (raw (length value)) value value
unfolding raw
raw-Reads value x post s =
    rw
      (
        need-Stands (length value) x value post s refl,
        copy_bytes-Stands x value [] post (Stands-nil x value post s),
      )
      refl

pub write_u8-Appends : (value : ℕ) → Appends (write_u8 value) (number_bytes 1 value)
unfolding write_u8
write_u8-Appends value = put-Appends (number_bytes 1 value)

pub write_u16-Appends : (value : ℕ) → Appends (write_u16 value) (number_bytes 2 value)
unfolding write_u16
write_u16-Appends value = put-Appends (number_bytes 2 value)

pub write_u32-Appends : (value : ℕ) → Appends (write_u32 value) (number_bytes 4 value)
unfolding write_u32
write_u32-Appends value = put-Appends (number_bytes 4 value)

pub write_u64-Appends : (value : ℕ) → Appends (write_u64 value) (number_bytes 8 value)
unfolding write_u64
write_u64-Appends value = put-Appends (number_bytes 8 value)

pub write_raw-Appends : (value : Bytes) → Appends (write_raw value) value
unfolding write_raw
write_raw-Appends value = put-Appends value
