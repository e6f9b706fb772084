-- ===== src/P9Locks/Ranges.antt =====
-- The range algebra byte by byte: which owner holds which byte, and how.
use mountx.Common.{
  ℕ, ◌≤◌, ◌≡◌, ◌↔◌, refl, ◌∙◌, Bool, not, ◌&&◌, ◌||◌, List, [], ◌∷◌, Text, ◌==◌, ==_iff, nat_eq,
  text_eq, ltb, leb, any, any-append, All, arith, Bool-cases, inl, inr,
}
use mountx.Common.Decimal.{decimal, decimal_injective, decimal-lacks, separated_injective}
use mountx.P9Locks.{
  Lock, LockRequest, to_u32, key_of, owner_key_of, group_key_of, overlaps, pieces, subtract_range,
  sort_in, sort,
}

-- Byte `b` is held by the owner `o` under a lock of type `t`.
abbrev pub covers : Text → ℕ → ℕ → Lock → Bool
covers o b t lock = lock.owner_key == o && (leb lock.start b && ltb b lock.end) && lock.type == t

unfoldable pub holds : Text → ℕ → ℕ → List Lock → Bool
holds o b t locks = any (covers o b t) locks

-- Byte `b` of the range, and the owner `o` that it is taken from.
abbrev pub hits : Text → ℕ → Text → ℕ → ℕ → Bool
hits o b owner start end = o == owner && (leb start b && ltb b end)

pub key_of_injective : (m n : ℕ) (x y : Text) → key_of m x ≡ key_of n y → (m ≡ n) × (x ≡ y)
key_of_injective m n x y e =
    let (same, rest) =
      separated_injective b':' (decimal m) (decimal n) x y (decimal-lacks m) (decimal-lacks n) e in
    (decimal_injective m n same, rest)

-- Two requests have the same owner key exactly if they name the same process of the same client,
-- whatever characters the client's name holds.
owner_key_of-eq_iff :
    (r s : LockRequest)
    → (owner_key_of r ≡ owner_key_of s)
      ↔ ((to_u32 r.proc_id ≡ to_u32 s.proc_id) × (r.client_id ≡ s.client_id))
unfolding owner_key_of
owner_key_of-eq_iff r s = (
  key_of_injective (to_u32 r.proc_id) (to_u32 s.proc_id) r.client_id s.client_id,
  λ h. rw (h.0, h.1),
)

pub owner_of_group : (l m : Lock) → group_key_of l ≡ group_key_of m → l.owner_key ≡ m.owner_key
unfolding group_key_of
owner_of_group l m e =
    let (_, rest) = key_of_injective l.holder m.holder _ _ e in
    (key_of_injective l.fid m.fid l.owner_key m.owner_key rest).1

holds-pieces :
    (o : Text) (b t : ℕ) (lock : Lock) (owner : Text) (start end : ℕ)
    → holds o b t (pieces lock owner start end)
      ≡ covers o b t lock && not (hits o b owner start end)
unfolding holds pieces overlaps
holds-pieces o b t lock owner start end =
    ground (arith, ==_iff lock.owner_key owner, ==_iff lock.owner_key o, ==_iff o owner)

both_and : (p q r s n : Bool) → p ≡ r && n → q ≡ s && n → p || q ≡ (r || s) && n
both_and p q r s n e f = ground arith

-- `subtractRange` takes the range's bytes from the one owner, and nothing else from anybody.
pub holds-subtract_range :
    (o : Text) (b t : ℕ) (locks : List Lock) (owner : Text) (start end : ℕ)
    → holds o b t (subtract_range locks owner start end)
      ≡ holds o b t locks && not (hits o b owner start end)
unfolding subtract_range holds
holds-subtract_range o b t [] owner start end = refl
holds-subtract_range o b t (lock ∷ locks) owner start end =
    any-append (covers o b t) (pieces lock owner start end) (subtract_range locks owner start end)
    ∙ both_and _ _ (covers o b t lock) (holds o b t locks) _
        (holds-pieces o b t lock owner start end) (holds-subtract_range o b t locks owner start end)

holds-sort_in :
    (o : Text) (b t : ℕ) (lock : Lock) (locks : List Lock)
    → holds o b t (sort_in lock locks) ≡ covers o b t lock || holds o b t locks
unfolding holds sort_in
holds-sort_in o b t lock [] = refl
holds-sort_in o b t lock (next ∷ rest) = elim (Bool-cases (leb lock.start next.start)) [
  | inl e ↦ rw e
  | inr e ↦ rw e (ground (arith, holds-sort_in o b t lock rest))
]

pub holds-sort :
    (o : Text) (b t : ℕ) (locks : List Lock) → holds o b t (sort locks) ≡ holds o b t locks
unfolding holds sort
holds-sort o b t [] = refl
holds-sort o b t (lock ∷ locks) =
    ground (arith, holds-sort_in o b t lock (sort locks), holds-sort o b t locks)

-- Ranges that start at or before `n`, and lists in the order of their starts.
abbrev pub StartsBy : ℕ → List Lock → Type 0
StartsBy n locks = All (λ l. l.start ≤ n) locks

abbrev pub IsSorted : List Lock → Type 0
IsSorted [] = Unit {0}
IsSorted (lock ∷ locks) = All (λ l. lock.start ≤ l.start) locks × IsSorted locks

All-sort_in :
    (n : ℕ) (lock : Lock) (locks : List Lock)
    → n ≤ lock.start
    → All (λ l. n ≤ l.start) locks
    → All (λ l. n ≤ l.start) (sort_in lock locks)
unfolding sort_in
All-sort_in n lock [] h k = (h, tt)
All-sort_in n lock (next ∷ rest) h (k, ks) = ground (arith, All-sort_in n lock rest h ks, k, ks)

All-mono :
    (m n : ℕ) (locks : List Lock)
    → m ≤ n
    → All (λ l. n ≤ l.start) locks
    → All (λ l. m ≤ l.start) locks
All-mono m n [] h k = tt
All-mono m n (lock ∷ locks) h (k, ks) = (omega arith, All-mono m n locks h ks)

sort_in-IsSorted :
    (lock : Lock) (locks : List Lock) → IsSorted locks → IsSorted (sort_in lock locks)
unfolding sort_in
sort_in-IsSorted lock [] h = (tt, tt)
sort_in-IsSorted lock (next ∷ rest) (h, hs) = elim (Bool-cases (leb lock.start next.start)) [
  | inl e ↦
      let first : lock.start ≤ next.start = ground arith in
      rw e ((first, All-mono lock.start next.start rest first h), (h, hs))
  | inr e ↦ rw e (All-sort_in next.start lock rest (ground arith) h, sort_in-IsSorted lock rest hs)
]

pub sort-IsSorted : (locks : List Lock) → IsSorted (sort locks)
unfolding sort
sort-IsSorted [] = tt
sort-IsSorted (lock ∷ locks) = sort_in-IsSorted lock (sort locks) (sort-IsSorted locks)
