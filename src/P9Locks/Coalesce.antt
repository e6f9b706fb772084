-- ===== src/P9Locks/Coalesce.antt =====
-- Merging: `coalesce` and `replaceRange` keep every byte's owner and type.
use mathlib.Core.List.{reverse, reverse-cons}
use mountx.Common.{
  ℕ, ◌≤◌, ◌≡◌, refl, sym, ap, subst, ◌∙◌, Bool, true, ◌||◌, some, List, [], ◌∷◌, ◌++◌, Text, ◌==◌,
  ==_iff, nat_eq, text_eq, if◌then◌else◌, any, any-append, find, max, All, arith, Bool-cases,
  Option-cases, inl, inr,
}
use mountx.P9Locks.{
  Lock, group_key_of, extend_last, joins, merge, coalesce_from, coalesce, replace_range,
  subtract_range, sort,
}
use mountx.P9Locks.Ranges.{
  covers, holds, hits, owner_of_group, holds-subtract_range, holds-sort, StartsBy, IsSorted,
  sort-IsSorted,
}

any-reverse {ℓ} : {A : Type ℓ} (p : A → Bool) (xs : List A) → any p (reverse xs) ≡ any p xs
any-reverse p [] = refl
any-reverse p (x ∷ xs) =
    ap (any p) (reverse-cons x xs)
    ∙ any-append p (reverse xs) (x ∷ [])
    ∙ ground (arith, any-reverse p xs)

-- A range that is extended over one that touches it covers the bytes of both.
covers-extend :
    (o : Text) (b t : ℕ) (last lock : Lock)
    → last.owner_key ≡ lock.owner_key
    → last.start ≤ lock.start
    → joins lock last ≡ true
    → covers o b t (record last { end = max last.end lock.end })
      ≡ covers o b t last || covers o b t lock
covers-extend o b t last lock same before touch = ground (arith, ap (λ (k : Text). k == o) same)

same_owner :
    (last lock : Lock)
    → (group_key_of last == group_key_of lock) ≡ true
    → last.owner_key ≡ lock.owner_key
same_owner last lock e = owner_of_group last lock ((==_iff _ _).0 e)

some_of : (m last : Lock) → some m ≡ some last → m ≡ last
some_of m last e = ground arith

swapped : (p q r s : Bool) → p ≡ q || r → p || s ≡ r || (q || s)
swapped p q r s e = ground arith

behind : (p q r s : Bool) → p ≡ r || s → q || p ≡ r || (q || s)
behind p q r s e = ground arith

holds-extend_last :
    (o : Text) (b t : ℕ) (lock last : Lock) (merged : List Lock)
    → find (λ l. group_key_of l == group_key_of lock) merged ≡ some last
    → StartsBy lock.start merged
    → joins lock last ≡ true
    → holds o b t (extend_last (group_key_of lock) lock.end merged)
      ≡ covers o b t lock || holds o b t merged
unfolding holds extend_last
holds-extend_last o b t lock last [] e h j = cc
holds-extend_last o b t lock last (m ∷ merged) e (h, hs) j =
    elim (Bool-cases (group_key_of m == group_key_of lock)) [
      | inl k ↦
          let found : m ≡ last = some_of m last (rw k at e) in
          let touch : joins lock m ≡ true = subst (λ x. joins lock x ≡ true) (sym found) j in
          rw k (
            swapped _ _ _ (any (covers o b t) merged)
              (covers-extend o b t m lock (same_owner m lock k) h touch))
      | inr k ↦ rw k (
          behind _ (covers o b t m) (covers o b t lock) _
            (holds-extend_last o b t lock last merged (rw k at e) hs j))
    ]

holds-merge :
    (o : Text) (b t : ℕ) (lock : Lock) (merged : List Lock)
    → StartsBy lock.start merged
    → holds o b t (merge lock merged) ≡ covers o b t lock || holds o b t merged
unfolding merge
holds-merge o b t lock merged h =
    elim (Option-cases (find (λ l. group_key_of l == group_key_of lock) merged)) [
      | inl e ↦ rw (e, merge) (unfold holds in refl)
      | inr (last, e) ↦ elim (Bool-cases (joins lock last)) [
        | inl j ↦ rw (e, merge, j) (holds-extend_last o b t lock last merged e h j)
        | inr j ↦ rw (e, merge, j) (unfold holds in refl)
      ]
    ]

StartsBy-mono : (m n : ℕ) (locks : List Lock) → m ≤ n → StartsBy m locks → StartsBy n locks
StartsBy-mono m n [] h k = tt
StartsBy-mono m n (l ∷ locks) h (k, ks) = (omega arith, StartsBy-mono m n locks h ks)

StartsBy-extend_last :
    (n : ℕ) (key : Text) (e : ℕ) (locks : List Lock)
    → StartsBy n locks
    → StartsBy n (extend_last key e locks)
unfolding extend_last
StartsBy-extend_last n key e [] h = tt
StartsBy-extend_last n key e (l ∷ locks) (h, hs) = elim (Bool-cases (group_key_of l == key)) [
  | inl k ↦ rw k (h, hs)
  | inr k ↦ rw k (h, StartsBy-extend_last n key e locks hs)
]

StartsBy-merge :
    (n : ℕ) (lock : Lock) (merged : List Lock)
    → lock.start ≤ n
    → StartsBy n merged
    → StartsBy n (merge lock merged)
unfolding merge
StartsBy-merge n lock merged h k =
    elim (Option-cases (find (λ l. group_key_of l == group_key_of lock) merged)) [
      | inl e ↦ rw (e, merge) (h, k)
      | inr (last, e) ↦ elim (Bool-cases (joins lock last)) [
        | inl j ↦ rw (e, merge, j) (StartsBy-extend_last n (group_key_of lock) lock.end merged k)
        | inr j ↦ rw (e, merge, j) (h, k)
      ]
    ]

-- Every merged range starts by the next one's start.
abbrev Ready : List Lock → List Lock → Type 0
Ready merged [] = Unit {0}
Ready merged (lock ∷ rest) = StartsBy lock.start merged

regroup : (p q r s : Bool) → p ≡ q || r → p || s ≡ r || (q || s)
regroup p q r s e = ground arith

holds-coalesce_from :
    (o : Text) (b t : ℕ) (merged locks : List Lock)
    → Ready merged locks
    → IsSorted locks
    → holds o b t (coalesce_from merged locks) ≡ holds o b t merged || holds o b t locks
unfolding coalesce_from
holds-coalesce_from o b t merged [] r s =
    unfold holds in any-reverse (covers o b t) merged ∙ ground arith
holds-coalesce_from o b t merged (lock ∷ rest) r (s, ss) =
    holds-coalesce_from o b t (merge lock merged) rest (ready rest s) ss
    ∙ unfold holds in regroup _ (covers o b t lock) _ _ (holds-merge o b t lock merged r)
  where
    ready :
        (rest : List Lock) → All (λ l. lock.start ≤ l.start) rest → Ready (merge lock merged) rest
    ready [] s = tt
    ready (next ∷ rest) (s, ss) =
        StartsBy-merge next.start lock merged s (StartsBy-mono lock.start next.start merged s r)

pub holds-coalesce :
    (o : Text) (b t : ℕ) (locks : List Lock) → holds o b t (coalesce locks) ≡ holds o b t locks
unfolding coalesce
holds-coalesce o b t locks =
    holds-coalesce_from o b t [] (sort locks) (first (sort locks)) (sort-IsSorted locks)
    ∙ unfold holds in holds-sort o b t locks
  where
    first : (locks : List Lock) → Ready [] locks
    first [] = tt
    first (lock ∷ rest) = tt

-- After `replaceRange` the owner of the new range holds exactly its bytes under its type, and every
-- other byte of every owner is held as before.
pub holds-replace_range :
    (o : Text) (b t : ℕ) (locks : List Lock) (granted : Lock)
    → holds o b t (replace_range locks granted) ≡ (
        if hits o b granted.owner_key granted.start granted.end
        then granted.type == t
        else holds o b t locks)
unfolding replace_range
holds-replace_range o b t locks granted =
    let left = subtract_range locks granted.owner_key granted.start granted.end in
    holds-coalesce o b t (left ++ granted ∷ [])
    ∙ unfold holds in
      any-append (covers o b t) left (granted ∷ [])
      ∙ ground (
        arith,
        holds-subtract_range o b t locks granted.owner_key granted.start granted.end,
        ==_iff o granted.owner_key,
        ==_iff granted.owner_key o,
      )
