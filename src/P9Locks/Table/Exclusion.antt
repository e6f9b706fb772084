-- ===== src/P9Locks/Table/Exclusion.antt =====
-- Mutual exclusion: a byte that is held for writing is held by one owner, after any calls.
use mountx.Common.{
  ℕ, ◌≡◌, ◌≢◌, Bool, true, false, ◌&&◌, List, [], ◌∷◌, Text, ◌==◌, ==_iff, nat_eq, text_eq, ltb,
  leb, filter, any, arith, Bool-cases, inl, inr,
}
use mountx.P9Locks.{
  wrlck, Lock, LockRequest, owner_key_of, overlaps, conflicts, subtract_range, replace_range,
}
use mountx.P9Locks.Ranges.{covers, holds, holds-subtract_range}
use mountx.P9Locks.Table.{granted}
use mountx.P9Locks.Table.Effects.{holds-granted}

-- An owner that holds a byte for writing is its only owner.
abbrev pub IsExclusive : List Lock → Type 0
IsExclusive locks =
    (b : ℕ) (o p : Text) (type : ℕ)
    → holds o b wrlck locks ≡ true
    → holds p b type locks ≡ true
    → o ≡ p

conflict_free :
    (owner : Text) (start end wanted : ℕ) (o : Text) (b type : ℕ) (locks : List Lock)
    → any (λ l. overlaps l start end && conflicts l owner wanted) locks ≡ false
    → holds o b type locks ≡ true
    → (leb start b && ltb b end) ≡ true
    → (o == owner) ≡ false
    → (type ≢ wrlck) × (wanted ≢ wrlck)
unfolding holds overlaps conflicts
conflict_free owner start end wanted o b type [] free h r e = cc
conflict_free owner start end wanted o b type (l ∷ locks) free h r e =
    elim (Bool-cases (covers o b type l)) [
      | inl c ↦ ground (arith, ==_iff l.owner_key o, ==_iff l.owner_key owner, ==_iff o owner)
      | inr c ↦
          conflict_free owner start end wanted o b type locks (ground arith) (ground arith) r e
    ]

-- Fewer ranges are still exclusive.
weaker :
    (locks fewer : List Lock)
    → ((o : Text) (b type : ℕ) → holds o b type fewer ≡ true → holds o b type locks ≡ true)
    → IsExclusive locks
    → IsExclusive fewer
weaker locks fewer sub x b o p type h k = x b o p type (sub o b wrlck h) (sub p b type k)

pub subtract_range-IsExclusive :
    (locks : List Lock) (owner : Text) (start end : ℕ)
    → IsExclusive locks
    → IsExclusive (subtract_range locks owner start end)
subtract_range-IsExclusive locks owner start end =
    weaker locks (subtract_range locks owner start end)
      (λ o b type h. ground (arith, holds-subtract_range o b type locks owner start end))

holds_of_filter :
    (keep : Lock → Bool) (o : Text) (b type : ℕ) (locks : List Lock)
    → holds o b type (filter keep locks) ≡ true
    → holds o b type locks ≡ true
unfolding holds
holds_of_filter keep o b type [] h = h
holds_of_filter keep o b type (l ∷ locks) h = ground (arith, holds_of_filter keep o b type locks)

pub filter-IsExclusive :
    (keep : Lock → Bool) (locks : List Lock) → IsExclusive locks → IsExclusive (filter keep locks)
filter-IsExclusive keep locks =
    weaker locks (filter keep locks) (λ o b type. holds_of_filter keep o b type locks)

pub replace_range-IsExclusive :
    (holder : ℕ) (r : LockRequest) (start end : ℕ) (locks : List Lock)
    → any (λ l. overlaps l start end && conflicts l (owner_key_of r) r.type) locks ≡ false
    → IsExclusive locks
    → IsExclusive (replace_range locks (granted holder r r.type start end))
replace_range-IsExclusive holder r start end locks free x b o p type h k =
    let owner = owner_key_of r in
    let free_of = conflict_free owner start end r.type in
    ground (
      arith,
      holds-granted holder r start end o b wrlck locks,
      holds-granted holder r start end p b type locks,
      free_of o b wrlck locks free,
      free_of p b type locks free,
      x b o p type,
      ==_iff o owner,
      ==_iff p owner,
    )
