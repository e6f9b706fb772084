-- ===== src/Xdr/Tests.antt =====
-- Messages at concrete values.
use mountx.Common.{◌≡◌, ◌≤◌, ◌+◌, refl, List, [], ◌∷◌, arith, some, nat_eq}
use mountx.Common.Int.{negsuc}
use mountx.Common.Result.{ok, err}
use mountx.Xdr.{
  Bytes, truncated, not_a_bool, xdr_pad, xdr_align, to_be, from_be, signed, need, copy_bytes, u32,
  i32, bool, fixed_opaque, var_opaque, items, fitting, array, list, list_from, new_reader, end,
  decode_xdr, remaining,
}
use mountx.Xdr.Writer.{write_var_opaque, write_array, write_list, encode_xdr}
use mountx.Xdr.Bounds.{var_opaque-bounded, list-bounded}
use mountx.Xdr.RoundTrip.{list-write_list, array-write_array}

program : Unit {0}
unfolding to_be from_be signed need copy_bytes u32 i32 bool fixed_opaque var_opaque items fitting
    array list list_from new_reader end decode_xdr remaining xdr_pad xdr_align encode_xdr
program = tt

abbrev values : List Bytes
values = (1 ∷ 2 ∷ 3 ∷ []) ∷ [] ∷ (255 ∷ []) ∷ []

short_string : decode_xdr (0 ∷ 0 ∷ 0 ∷ 3 ∷ 1 ∷ 2 ∷ 3 ∷ []) (var_opaque 9) ≡ err (truncated 4 3 4)
unfolding program
short_string = refl

no_bool : decode_xdr (0 ∷ 0 ∷ 0 ∷ 2 ∷ []) bool ≡ err (not_a_bool 2 0)
unfolding program
no_bool = refl

minus_two : decode_xdr (255 ∷ 255 ∷ 255 ∷ 254 ∷ []) i32 ≡ ok (negsuc 1)
unfolding program
minus_two = refl

list-write_list_example :
    decode_xdr (encode_xdr (write_list write_var_opaque values) (some 4)) (list (var_opaque 3) 3)
    ≡ ok values
list-write_list_example =
    list-write_list 3 3 4 values (omega arith) (omega arith)
      (omega arith, (omega arith, (omega arith, tt)))

array-write_array_example :
    decode_xdr (encode_xdr (write_array write_var_opaque values) (some 4)) (array (var_opaque 3) 3)
    ≡ ok values
array-write_array_example =
    array-write_array 3 3 4 values (omega arith) (omega arith) (omega arith)
      (omega arith, (omega arith, (omega arith, tt)))

abbrev message : Bytes
message = 0 ∷ 0 ∷ 0 ∷ 1 ∷ 0 ∷ 0 ∷ 0 ∷ 1 ∷ 7 ∷ 0 ∷ 0 ∷ 0 ∷ 0 ∷ 0 ∷ 0 ∷ 0 ∷ []

var_opaque-bounded_example : (1 ≤ 9) × (12 ≡ 4 + 4 + 4) × (12 ≤ 16)
unfolding program
var_opaque-bounded_example =
    var_opaque-bounded 9 (7 ∷ []) (new_reader message 4) (new_reader message 12) refl

list-bounded_example : 1 ≤ 2
unfolding program
list-bounded_example =
    list-bounded (var_opaque 9) 2 ((7 ∷ []) ∷ []) (new_reader message 0) (new_reader message 16)
      refl
