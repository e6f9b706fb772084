-- ===== src/P9Wire/Tests.antt =====
-- Messages at concrete values. Text is its own bytes here.
use mountx.Common.{◌≡◌, refl, List, [], ◌∷◌, arith, some, map, nat_eq}
use mountx.Common.Result.{ok, err, ◌>>=◌}
use mountx.Xdr.{Bytes, cannot_patch}
use mountx.P9Wire.{to_le, from_le, write_string, patch_u32, encode_p9, decode_p9}
use mountx.P9Wire.Fields.{
  Field, byte, short, word, text, file, data_of, shape_of, read_fields, write_fields,
}
use mountx.P9Wire.RoundTrip.{decode_p9-encode_p9}

program : Unit {0}
unfolding to_le from_le patch_u32 write_string
program = tt

abbrev same : Bytes → Bytes
same name = name

-- Twalk of fid 1 to fid 2 by one name, with a qid and a payload behind it.
abbrev walk : List (Field Bytes)
walk =
    word 27
    ∷ byte 110
    ∷ short 7
    ∷ word 1
    ∷ word 2
    ∷ short 1
    ∷ text (97 ∷ 98 ∷ [])
    ∷ file (record { type = 128; version = 0; path = 9 })
    ∷ data_of (1 ∷ 2 ∷ 3 ∷ [])
    ∷ []

little_end_first : to_le 4 0x01020304 ≡ 4 ∷ 3 ∷ 2 ∷ 1 ∷ []
unfolding program
little_end_first = refl

back_again : from_le (to_le 8 0xfedcba9876543210) ≡ 0xfedcba9876543210
unfolding program
back_again = refl

no_word_to_patch :
    patch_u32 0 7 (record { buffer = 1 ∷ 2 ∷ 0 ∷ 0 ∷ []; length = 2 }) ≡ err (cannot_patch 0 2)
unfolding program
no_word_to_patch = refl

decode_p9-encode_p9_example :
    (encode_p9 (write_fields same same walk) (some 16) >>= λ bytes.
    decode_p9 bytes (read_fields same same (map shape_of walk)))
    ≡ ok walk
decode_p9-encode_p9_example = decode_p9-encode_p9 same same walk (some 16) (
  omega arith,
  (
    omega arith,
    (
      omega arith,
      (
        omega arith,
        (
          omega arith,
          (
            omega arith,
            ((refl, omega arith), ((omega arith, omega arith, omega arith), (omega arith, tt))),
          ),
        ),
      ),
    ),
  ),
)
