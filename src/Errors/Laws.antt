-- ===== src/Errors/Laws.antt =====
-- What a reply's errno says of the error.
use mountx.Common.{
  ℕ, ◌^◌, ◌⊎◌, Bool-cases, any, ◌==◌, nat_eq, false, Text, ◌<◌, ◌≡◌, refl, true, Option, none, some,
  arith, Option-cases, inl, inr, text_eq, ==_iff, ==_refl, ◌↔◌,
}
use mountx.Common.Int.{pos, abs}
use mountx.Common.Assoc.{lookup}
use mountx.Errors.{
  ErrnoCode, eperm, errno, name, by_name, FsErrorOptions, fs_error, Thrown, no_object, object,
  JsNumber, finite, infinite, not_a_number, whole, Reported, number, inherited_names, number_of,
  eio, thrown, errno_of, is_fs_error, known, numeric,
}

by_name-name : (c : ErrnoCode) → lookup (name c) by_name ≡ some c
unfolding lookup by_name
by_name-name eperm = refl
by_name-name _ = refl

name_injective : (c d : ErrnoCode) → name c ≡ name d → c ≡ d
name_injective c d e = cc (by_name-name c, by_name-name d)

errno_pos : (c : ErrnoCode) → 0 < errno c
unfolding errno
errno_pos eperm = omega arith
errno_pos _ = omega arith

errno_small : (c : ErrnoCode) → errno c < 2 ^ 32
unfolding errno
errno_small eperm = omega arith
errno_small _ = omega arith

known-name : (c : ErrnoCode) → known (some (name c)) ≡ some (number_of c)
unfolding known
known-name c = rw (by_name-name c, known) refl

-- The errno that a transport replies with for an error that a driver built by `fsError` is the
-- Linux number of its code, whatever options it was built with.
pub errno_of-fs_error :
    (c : ErrnoCode) (o : FsErrorOptions)
    → errno_of (thrown (fs_error c o)) ≡ number (whole (pos (errno c)))
unfolding errno_of thrown fs_error
errno_of-fs_error c o = rw (known-name c, errno_of) refl

-- An integer that four bytes hold and that is not 0.
abbrev pub IsErrno : Reported → Type 0
IsErrno (number (finite (pos n) ℕ.zero)) = (0 < n) × (n < 2 ^ 32)
IsErrno _ = ⊥

abbrev pub HasOwnCode : Option Text → Type 0
HasOwnCode none = Unit
HasOwnCode (some code) = any (λ n. n == code) inherited_names ≡ false

abbrev pub HasInteger : Option JsNumber → Type 0
HasInteger none = Unit
HasInteger (some (finite n ℕ.zero)) = abs n < 2 ^ 32
HasInteger (some _) = ⊥

known_cases :
    (code : Option Text)
    → HasOwnCode code
    → (known code ≡ none) ⊎ ((c : ErrnoCode) × (known code ≡ some (number_of c)))
unfolding known
known_cases none h = inl refl
known_cases (some code) h = elim (Option-cases (lookup code by_name)) [
  | inl e ↦ inl (rw (e, h) refl)
  | inr (c, e) ↦ inr (c, rw e refl)
]

-- No inherited name for a code, and for an errno an integer whose size four bytes hold.
abbrev pub IsUsual : Thrown → Type 0
IsUsual no_object = Unit
IsUsual (object code n) = HasOwnCode code × HasInteger n

number_of-IsErrno : (c : ErrnoCode) → IsErrno (number_of c)
number_of-IsErrno c = (errno_pos c, errno_small c)

numeric-IsErrno : (n : Option JsNumber) → HasInteger n → IsErrno (numeric n)
unfolding numeric
numeric-IsErrno none h = number_of-IsErrno eio
numeric-IsErrno (some (finite n ℕ.zero)) h = elim (Bool-cases (abs n == 0)) [
  | inl e ↦ rw e (number_of-IsErrno eio)
  | inr e ↦ rw e (ground (arith, e, ==_iff (abs n) 0), h)
]
numeric-IsErrno (some (finite n (ℕ.suc d))) h = absurd h
numeric-IsErrno (some (infinite negative)) h = absurd h
numeric-IsErrno (some not_a_number) h = absurd h

-- A reply to a thrown value carries an integer from 1 to 2^32 - 1, so that no failure is reported as a
-- success, unless the code of the value is a name that every object inherits or its errno is a
-- number other than an integer below 2^32 in size.
pub errno_of-IsErrno : (t : Thrown) → IsUsual t → IsErrno (errno_of t)
unfolding errno_of
errno_of-IsErrno no_object h = number_of-IsErrno eio
errno_of-IsErrno (object code n) (own, small) = elim (known_cases code own) [
  | inl e ↦ rw (e, errno_of) (numeric-IsErrno n small)
  | inr (c, e) ↦ rw (e, errno_of) (number_of-IsErrno c)
]

-- `isFsError` with a code accepts an error of `fsError` exactly if that is the code it was built
-- with.
is_fs_error-fs_error_iff :
    (c d : ErrnoCode) (o : FsErrorOptions)
    → (is_fs_error (thrown (fs_error c o)) (some d) ≡ true) ↔ (c ≡ d)
unfolding is_fs_error thrown fs_error
is_fs_error-fs_error_iff c d o =
    (λ h. name_injective c d ((==_iff _ _).0 h), λ e. rw e (==_refl (name d)))
