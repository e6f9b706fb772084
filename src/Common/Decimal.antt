-- ===== src/Common/Decimal.antt =====
-- `${n}` for a number, and keys that are built of such parts with a separator between them.
use Prim.Native.Nat.{ℕ, zero, suc, ◌+◌, ◌-◌, ◌*◌, ◌/◌, ◌%◌, ◌<◌}
use mathlib.Core.Path.{◌≡◌, refl, sym, ap, ◌∙◌}
use mathlib.Core.Bool.{Bool, true, not}
use mathlib.Core.Logic.{inl, inr}
use mathlib.Core.List.{[], ◌∷◌, ◌++◌}
use native.Mathlib.Omega.{arith}
use mountx.Common.Tests.{Text, nat_eq, ◌==◌, ltb, if◌then◌else◌, Bool-cases}
use mountx.Common.Lists.{all, all-append}

-- The digits of a number, the first of `fuel` calls for the last digit.
digits : ℕ → ℕ → Text
digits zero n = []
digits (suc fuel) n =
    let more = digits fuel (n / 10) in
    let last = (b'0' + n % 10) ∷ [] in if ltb n 10 then last else more ++ last

unfoldable pub decimal : ℕ → Text
unfolding digits
decimal n = digits (suc n) n

value_from : ℕ → Text → ℕ
value_from acc [] = acc
value_from acc (c ∷ s) = value_from (acc * 10 + (c - b'0')) s

value_from-append :
    (acc : ℕ) (s : Text) (c : ℕ) → value_from acc (s ++ c ∷ []) ≡ value_from acc s * 10 + (c - b'0')
unfolding value_from
value_from-append acc [] c = refl
value_from-append acc (d ∷ s) c = value_from-append (acc * 10 + (d - b'0')) s c

value_from-digits : (fuel n : ℕ) → n < fuel → value_from 0 (digits fuel n) ≡ n
unfolding digits
value_from-digits zero n h = absurd (omega arith)
value_from-digits (suc fuel) n h = elim (Bool-cases (ltb n 10)) [
  | inl small ↦ rw small (unfold value_from in ground arith)
  | inr big ↦ rw big (
      value_from-append 0 (digits fuel (n / 10)) (b'0' + n % 10)
      ∙ ground (arith, value_from-digits fuel (n / 10)))
]

pub decimal_injective : (m n : ℕ) → decimal m ≡ decimal n → m ≡ n
unfolding decimal
decimal_injective m n e =
    sym (value_from-digits (suc m) m (omega arith))
    ∙ ap (value_from 0) e
    ∙ value_from-digits (suc n) n (omega arith)

-- The separator does not stand in the text.
abbrev pub lacks : ℕ → Text → Bool
lacks c = all (λ d. not (d == c))

digits-lacks : (fuel n : ℕ) → lacks b':' (digits fuel n) ≡ true
unfolding digits
digits-lacks zero n = refl
digits-lacks (suc fuel) n = ground (
  arith,
  digits-lacks fuel (n / 10),
  all-append (λ (d : ℕ). not (d == b':')) (digits fuel (n / 10)) ((b'0' + n % 10) ∷ []),
)

pub decimal-lacks : (n : ℕ) → lacks b':' (decimal n) ≡ true
unfolding decimal
decimal-lacks n = digits-lacks (suc n) n

-- The text up to the first separator, and the text behind it, can be read back.
pub separated_injective :
    (c : ℕ) (s t x y : Text)
    → lacks c s ≡ true
    → lacks c t ≡ true
    → s ++ c ∷ x ≡ t ++ c ∷ y
    → (s ≡ t) × (x ≡ y)
separated_injective c [] [] x y h k e = (refl, ground arith)
separated_injective c [] (b ∷ t) x y h k e = absurd (ground arith)
separated_injective c (a ∷ s) [] x y h k e = absurd (ground arith)
separated_injective c (a ∷ s) (b ∷ t) x y h k e =
    let (same, rest) = separated_injective c s t x y (ground arith) (ground arith) (ground arith) in
    (ground arith, rest)
