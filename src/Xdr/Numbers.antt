-- ===== src/Xdr/Numbers.antt =====
-- The big-endian bytes of a number.
use mountx.Common.{
  ℕ, zero, suc, ◌+◌, ◌*◌, ◌/◌, ◌%◌, ◌^◌, ◌<◌, ◌≡◌, refl, ◌∙◌, [], ◌∷◌, ◌++◌, length, arith,
  length-append,
}
use mountx.Xdr.{Bytes, to_be, from_be}

pub length-to_be : (k v : ℕ) → length (to_be k v) ≡ k
unfolding to_be
length-to_be zero v = refl
length-to_be (suc k) v =
    omega (arith, length-append (to_be k (v / 256)) (v % 256 ∷ []), length-to_be k (v / 256))

from_be-snoc : (acc b : ℕ) (bs : Bytes) → from_be acc (bs ++ b ∷ []) ≡ from_be acc bs * 256 + b
unfolding from_be
from_be-snoc acc b [] = refl
from_be-snoc acc b (a ∷ bs) = from_be-snoc (acc * 256 + a) b bs

pub from_be-to_be : (k v : ℕ) → v < 256 ^ k → from_be 0 (to_be k v) ≡ v
unfolding to_be from_be
from_be-to_be zero v h = omega (arith, h)
from_be-to_be (suc k) v h =
    from_be-snoc 0 (v % 256) (to_be k (v / 256))
    ∙ omega (arith, from_be-to_be k (v / 256) (omega (arith, h)))
