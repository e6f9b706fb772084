-- ===== src/DavLocks/Leases.antt =====
-- The lease of a granted lock, and the cap of the table.
use mountx.Common.{
  ℕ, suc, ◌+◌, ◌*◌, ◌≡◌, refl, sym, inl, inr, ◌≤◌, Bool, true, false, Option, none, some, List, [],
  ◌∷◌, Text, ==_iff, nat_eq, text_eq, if◌then◌else◌, leb, length, arith, Bool-cases, Option-cases,
}
use mountx.Common.Int.{ℤ, pos, negsuc}
use mountx.Common.Assoc.{lookup, insert, delete, lookup-insert, insert-HasDistinctKeys}
use mountx.DavLocks.Grants.{IsValid, sweep-IsValid, sweep-sweep, conflict-table, lookup-unexpired}
use mountx.DavLocks.Histories.{Call, create_call, refresh_call, remove_call, read_call, step}
use mountx.DavLocks.{
  Timeout, infinite, seconds, DavLock, DavLockRequest, DavLockGrant, granted, full, DavLockTable,
  unexpired, sweep, size, find_lock, conflict, granted_timeout, new_lock, add_lock, take_lock,
  create, restarted, refresh, remove, bounded,
}

bounded-bounds : (n : ℤ) (most : ℕ) → 1 ≤ most → (1 ≤ bounded n most) × (bounded n most ≤ most)
bounded-bounds (pos n) most h = (omega arith, omega arith)
bounded-bounds (negsuc n) most h = (omega arith, omega arith)

module _ {Node : Type 0} where
  grant_injective : (l m : DavLock Node) → granted l ≡ granted m → l ≡ m
  grant_injective l m e = cc

  -- What a grant leaves: the swept table with the new lock.
  abbrev Placed :
      DavLockRequest Node
      → Text
      → ℕ
      → DavLockTable Node
      → DavLockTable Node × DavLockGrant Node
      → DavLock Node
      → Type 0
  Placed r token now t after l =
      (l ≡ new_lock r token now (sweep now t)) × (after.0 ≡ add_lock l (sweep now t))

  take_lock-Placed :
      (r : DavLockRequest Node) (token : Text) (now : ℕ) (t : DavLockTable Node) (l : DavLock Node)
      → (take_lock r token now (sweep now t)).1 ≡ granted l
      → Placed r token now t (take_lock r token now (sweep now t)) l
  unfolding take_lock size
  take_lock-Placed r token now t l =
      rw sweep-sweep (placed (leb (sweep now t).max_locks (length (sweep now t).locks)))
    where
      outcome : Bool → DavLockTable Node × DavLockGrant Node
      outcome c = if c then (sweep now t, full) else (
        add_lock (new_lock r token now (sweep now t)) (sweep now t),
        granted (new_lock r token now (sweep now t)),
      )

      placed : (c : Bool) → (outcome c).1 ≡ granted l → Placed r token now t (outcome c) l
      placed true h = absurd cc
      placed false h = let same = sym (grant_injective _ _ h) in (same, rw same refl)

  create-Placed :
      (r : DavLockRequest Node) (token : Text) (now : ℕ) (t : DavLockTable Node) (l : DavLock Node)
      → (create r token now t).1 ≡ granted l
      → Placed r token now t (create r token now t) l
  unfolding create
  create-Placed r token now t l =
      elim (Option-cases (conflict r.path r.depth r.exclusive now t).1) [
        | inl clear ↦ rw (clear, create) (rw conflict-table (take_lock-Placed r token now t l))
        | inr (m, e) ↦ rw (e, create) (λ h. absurd cc)
      ]

  -- In a valid table a lock that was just granted is found under its token until its lease lapses,
  -- and not after that.
  pub find_lock-create :
      (r : DavLockRequest Node) (token : Text) (now later : ℕ) (t : DavLockTable Node)
      (l : DavLock Node)
      → IsValid t
      → (create r token now t).1 ≡ granted l
      → (find_lock token later (create r token now t).0).1
        ≡ (if leb l.expires_at later then none else some l)
  unfolding find_lock sweep add_lock new_lock
  find_lock-create r token now later t l v h =
      let (made, placed) = create-Placed r token now t l h in
      let named : l.token ≡ token = rw made refl in
      let locks = insert l.token l (sweep now t).locks in
      let d =
        insert-HasDistinctKeys l.token l (sweep now t).locks (sweep-IsValid now t v).distinct in
      rw placed (
        ground (
          arith,
          lookup-unexpired later token locks d,
          lookup-insert l.token token l (sweep now t).locks,
          ==_iff l.token token,
          named,
        ))

  granted_timeout-bounds :
      (asked : Option Timeout) (t : DavLockTable Node)
      → 1 ≤ t.default_timeout
      → t.default_timeout ≤ t.max_timeout
      → (1 ≤ granted_timeout asked t) × (granted_timeout asked t ≤ t.max_timeout)
  unfolding granted_timeout
  granted_timeout-bounds none t h k = (h, k)
  granted_timeout-bounds (some infinite) t h k = (omega (arith, h, k), omega arith)
  granted_timeout-bounds (some (seconds n)) t h k =
      bounded-bounds n t.max_timeout (omega (arith, h, k))

  -- Where the table's default lease is at least a second and at most its longest, the lease of a
  -- granted lock is so too, whatever the client asked for, and the lock lapses that many seconds
  -- after the call.
  pub create-lease :
      (r : DavLockRequest Node) (token : Text) (now : ℕ) (t : DavLockTable Node) (l : DavLock Node)
      → 1 ≤ t.default_timeout
      → t.default_timeout ≤ t.max_timeout
      → (create r token now t).1 ≡ granted l
      → (1 ≤ l.timeout_seconds)
        × (l.timeout_seconds ≤ t.max_timeout)
        × (l.expires_at ≡ now + l.timeout_seconds * 1000)
  unfolding new_lock sweep
  create-lease r token now t l h k e =
      let (made, placed) = create-Placed r token now t l e in
      let bounds = granted_timeout-bounds r.timeout_seconds (sweep now t) h k in
      rw made (bounds.0, bounds.1, refl)

  abbrev IsCapped : DavLockTable Node → Type 0
  IsCapped t = length t.locks ≤ t.max_locks

  length-insert :
      (k : Text) (l : DavLock Node) (es : List (Text × DavLock Node))
      → length (insert k l es) ≡ (
          if (elim (lookup k es) [ none ↦ true | some m ↦ false ])
          then suc (length es)
          else length es)
  unfolding insert lookup
  length-insert k l [] = refl
  length-insert k l ((j, m) ∷ es) = ground (arith, length-insert k l es, Option-cases (lookup k es))

  length-delete : (k : Text) (es : List (Text × DavLock Node)) → length (delete k es) ≤ length es
  unfolding delete
  length-delete k [] = omega arith
  length-delete k ((j, m) ∷ es) = ground (arith, length-delete k es)

  length-unexpired :
      (now : ℕ) (es : List (Text × DavLock Node)) → length (unexpired now es) ≤ length es
  unfolding unexpired
  length-unexpired now [] = omega arith
  length-unexpired now ((j, m) ∷ es) = ground (arith, length-unexpired now es)

  sweep-IsCapped : (now : ℕ) (t : DavLockTable Node) → IsCapped t → IsCapped (sweep now t)
  unfolding sweep
  sweep-IsCapped now t c = omega (arith, length-unexpired now t.locks, c)

  take_lock-IsCapped :
      (r : DavLockRequest Node) (token : Text) (now : ℕ) (t : DavLockTable Node)
      → IsCapped t
      → IsCapped (take_lock r token now t).0
  unfolding take_lock size add_lock
  take_lock-IsCapped r token now t c =
      let swept = sweep now t in
      elim (Bool-cases (leb swept.max_locks (length swept.locks))) [
        | inl e ↦ rw e (sweep-IsCapped now t c)
        | inr e ↦
            let lock = new_lock r token now swept in
            rw e (ground (arith, e, length-insert lock.token lock swept.locks))
      ]

  create-IsCapped :
      (r : DavLockRequest Node) (token : Text) (now : ℕ) (t : DavLockTable Node)
      → IsCapped t
      → IsCapped (create r token now t).0
  unfolding create
  create-IsCapped r token now t c =
      let swept_capped = sweep-IsCapped now t c in
      elim (Option-cases (conflict r.path r.depth r.exclusive now t).1) [
        | inl clear ↦
            rw (clear, create)
              (rw conflict-table (take_lock-IsCapped r token now (sweep now t) swept_capped))
        | inr (m, e) ↦ rw (e, create) (rw conflict-table swept_capped)
      ]

  refresh-IsCapped :
      (token : Text) (asked : Option Timeout) (now : ℕ) (t : DavLockTable Node)
      → IsCapped t
      → IsCapped (refresh token asked now t).0
  unfolding refresh find_lock
  refresh-IsCapped token asked now t c =
      let swept = sweep now t in
      elim (Option-cases (lookup token swept.locks)) [
        | inl e ↦ rw (e, refresh) (sweep-IsCapped now t c)
        | inr (l, e) ↦
            rw (e, refresh)
              (ground (
                arith,
                e,
                length-insert token (restarted l asked now swept) swept.locks,
                sweep-IsCapped now t c,
              ))
      ]

  -- A table that is within its cap is so after every call.
  pub step-capped :
      (call : Call Node) (t : DavLockTable Node)
      → length t.locks ≤ t.max_locks
      → length ((step call t).locks) ≤ (step call t).max_locks
  unfolding step remove size
  step-capped (create_call r token now) t c = create-IsCapped r token now t c
  step-capped (refresh_call token asked now) t c = refresh-IsCapped token asked now t c
  step-capped (remove_call token) t c = omega (arith, length-delete token t.locks, c)
  step-capped (read_call now) t c = sweep-IsCapped now t c
