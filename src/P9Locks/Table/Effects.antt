-- ===== src/P9Locks/Table/Effects.antt =====
-- What the calls of the clients do to the bytes that are held.
use mountx.Common.{
  ℕ, ◌<◌, ◌≡◌, false, not, ◌&&◌, List, Text, ◌==◌, ==_iff, nat_eq, text_eq, if◌then◌else◌, any,
  length, arith, Bool-cases, inl, inr, ◌⊎◌,
}
use mountx.Common.Result.{ok}
use mountx.P9Locks.{
  rdlck, wrlck, unlck, lock_success, Lock, LockRequest, LockTable, owner_key_of, range_of, overlaps,
  conflicts, replace_range,
}
use mountx.P9Locks.Ranges.{holds, hits, holds-subtract_range}
use mountx.P9Locks.Coalesce.{holds-replace_range}
use mountx.P9Locks.Table.{at, require_held_type, unlock, granted, grant, take, lock}
use mountx.P9Locks.Table.Names.{at-grant, at-unlock}

-- What a call of `lock` that succeeds has done.
pub data Succeeded (holder : ℕ) (r : LockRequest) (start end : ℕ) (t t' : LockTable) : Type 0 where
  released :
      r.type ≡ unlck
      → t' ≡ unlock r.path (owner_key_of r) start end t
      → Succeeded holder r start end t t'
  taken :
      (r.type ≡ rdlck) ⊎ (r.type ≡ wrlck)
      → any (λ l. overlaps l start end && conflicts l (owner_key_of r) r.type) (at r.path t) ≡ false
      → length (at r.path t) < t.max_per_file
      → t' ≡ grant r.path (granted holder r r.type start end) t
      → Succeeded holder r start end t t'

take-Succeeded :
    (holder : ℕ) (r : LockRequest) (start end : ℕ) (t t' : LockTable)
    → take holder r start end t ≡ ok (lock_success, t')
    → Succeeded holder r start end t t'
unfolding take require_held_type
take-Succeeded holder r start end t t' h =
    taken (ground arith) (ground arith) (ground arith) (ground arith)

pub lock-Succeeded :
    (holder : ℕ) (r : LockRequest) (start end : ℕ) (t t' : LockTable)
    → range_of r.start r.length ≡ ok (start, end)
    → lock holder r t ≡ ok (lock_success, t')
    → Succeeded holder r start end t t'
unfolding lock
lock-Succeeded holder r start end t t' e h = elim (Bool-cases (r.type == unlck)) [
  | inl u ↦ released (ground arith) (ground arith)
  | inr u ↦ take-Succeeded holder r start end t t' (ground arith)
]

pub holds-granted :
    (holder : ℕ) (r : LockRequest) (start end : ℕ) (o : Text) (b type : ℕ) (locks : List Lock)
    → holds o b type (replace_range locks (granted holder r r.type start end))
      ≡ (if hits o b (owner_key_of r) start end then r.type == type else holds o b type locks)
unfolding granted
holds-granted holder r start end o b type locks =
    holds-replace_range o b type locks (granted holder r r.type start end)

-- A `Tlock` that succeeds changes the bytes of its range, in its file and for its owner, to its
-- type, or to none if it unlocks; every other byte of every file and owner is held as before.
pub holds-lock :
    (holder : ℕ) (r : LockRequest) (start end : ℕ) (t t' : LockTable) (q o : Text) (b type : ℕ)
    → range_of r.start r.length ≡ ok (start, end)
    → lock holder r t ≡ ok (lock_success, t')
    → holds o b type (at q t') ≡ (
        if r.path == q && hits o b (owner_key_of r) start end
        then not (r.type == unlck) && r.type == type
        else holds o b type (at q t))
holds-lock holder r start end t t' q o b type e h =
    effect (lock-Succeeded holder r start end t t' e h)
  where
    effect :
        Succeeded holder r start end t t'
        → holds o b type (at q t') ≡ (
            if r.path == q && hits o b (owner_key_of r) start end
            then not (r.type == unlck) && r.type == type
            else holds o b type (at q t))
    effect (released u s) = ground (
      arith,
      at-unlock r.path q (owner_key_of r) start end t,
      holds-subtract_range o b type (at r.path t) (owner_key_of r) start end,
      ==_iff r.path q,
    )
    effect (taken k free room s) =
        let l = granted holder r r.type start end in
        let parts = holds-granted holder r start end o b type (at r.path t) in
        ground (arith, at-grant r.path q l t, parts, ==_iff r.path q)
