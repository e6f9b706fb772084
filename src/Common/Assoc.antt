-- ===== src/Common/Assoc.antt =====
-- A JavaScript `Map` and `Set`: insertion-ordered lists, with the laws of their operations.
use mathlib.Core.Path.{◌≡◌, refl}
use mathlib.Core.Bool.{Bool, false, ◌||◌, ◌&&◌, not}
use mathlib.Core.List.{List, [], ◌∷◌, ◌++◌}
use mathlib.Core.Option.{Option, none, some}
use native.Mathlib.Omega.{arith}
use mountx.Common.Tests.{Eq, ◌==◌, ==_iff, if◌then◌else◌}

module _ {ℓ κ} {K : Type ℓ} {V : Type κ} ⦃e : Eq K⦄ where
  unfoldable pub lookup : K → List (K × V) → Option V
  lookup key [] = none
  lookup key ((first, value) ∷ entries) = if first == key then some value else lookup key entries

  -- `set` keeps the place of a key that is there, and appends one that is not.
  unfoldable pub insert : K → V → List (K × V) → List (K × V)
  insert key value [] = (key, value) ∷ []
  insert key value ((first, old) ∷ entries) =
      if first == key then (first, value) ∷ entries else (first, old) ∷ insert key value entries

  unfoldable pub delete : K → List (K × V) → List (K × V)
  delete key [] = []
  delete key ((first, old) ∷ entries) =
      if first == key then delete key entries else (first, old) ∷ delete key entries

  pub lookup-delete :
      (gone key : K) (entries : List (K × V))
      → lookup key (delete gone entries) ≡ (if gone == key then none else lookup key entries)
  unfolding delete lookup
  lookup-delete gone key [] = ground arith
  lookup-delete gone key ((first, old) ∷ entries) =
      ground (
        arith,
        lookup-delete gone key entries,
        ==_iff first gone,
        ==_iff first key,
        ==_iff gone key,
      )

  pub lookup-insert :
      (new key : K) (value : V) (entries : List (K × V))
      → lookup key (insert new value entries)
        ≡ (if new == key then some value else lookup key entries)
  unfolding insert lookup
  lookup-insert new key value [] = refl
  lookup-insert new key value ((first, old) ∷ entries) = ground (
    arith,
    lookup-insert new key value entries,
    ==_iff first new,
    ==_iff first key,
    ==_iff new key,
  )

  -- No key stands twice.
  abbrev pub HasDistinctKeys : List (K × V) → Type κ
  HasDistinctKeys [] = Unit
  HasDistinctKeys ((k, v) ∷ m) = (lookup k m ≡ none) × HasDistinctKeys m

  pub insert-HasDistinctKeys :
      (k : K) (v : V) (m : List (K × V)) → HasDistinctKeys m → HasDistinctKeys (insert k v m)
  unfolding lookup insert
  insert-HasDistinctKeys k v [] h = (refl, tt)
  insert-HasDistinctKeys k v ((i, w) ∷ m) h =
      ground
        (arith, ==_iff i k, ==_iff k i, lookup-insert k i v m, insert-HasDistinctKeys k v m h.1)

  pub delete-HasDistinctKeys :
      (k : K) (m : List (K × V)) → HasDistinctKeys m → HasDistinctKeys (delete k m)
  unfolding lookup delete
  delete-HasDistinctKeys k [] h = tt
  delete-HasDistinctKeys k ((i, w) ∷ m) h =
      ground (arith, ==_iff k i, lookup-delete k i m, delete-HasDistinctKeys k m h.1)

module _ {ℓ} {A : Type ℓ} ⦃e : Eq A⦄ where
  unfoldable pub contains : A → List A → Bool
  contains a [] = false
  contains a (x ∷ xs) = x == a || contains a xs

  unfoldable pub add : A → List A → List A
  unfolding contains
  add a xs = if contains a xs then xs else xs ++ a ∷ []

  unfoldable pub discard : A → List A → List A
  discard a [] = []
  discard a (x ∷ xs) = if x == a then discard a xs else x ∷ discard a xs

  contains-snoc : (a b : A) (xs : List A) → contains b (xs ++ a ∷ []) ≡ contains b xs || a == b
  unfolding contains
  contains-snoc a b [] = ground arith
  contains-snoc a b (x ∷ xs) = ground (arith, contains-snoc a b xs)

  pub contains-add : (a b : A) (xs : List A) → contains b (add a xs) ≡ contains b xs || a == b
  unfolding add
  contains-add a b xs = ground (arith, ==_iff a b, contains-snoc a b xs)

  pub contains-discard :
      (a b : A) (xs : List A) → contains b (discard a xs) ≡ contains b xs && not (a == b)
  unfolding contains discard
  contains-discard a b [] = refl
  contains-discard a b (x ∷ xs) =
      ground (arith, ==_iff x a, ==_iff x b, ==_iff a b, contains-discard a b xs)
