-- ===== src/P9Locks/Table/Histories.antt =====
-- The table after any calls of its clients: the calls keep it valid.
use mountx.Common.{
  ℕ, ◌≡◌, ◌≢◌, refl, Bool, true, false, not, ◌&&◌, Option, none, List, [], ◌∷◌, ◌++◌, Text, ◌==◌,
  nat_eq, text_eq, if◌then◌else◌, length, All, drop, arith, Bool-cases, Option-cases, inl, inr, ◌⊎◌,
}
use mountx.Common.Result.{Result, ok, err, Result-cases}
use mountx.Common.Assoc.{HasDistinctKeys, lookup, insert-HasDistinctKeys, delete-HasDistinctKeys}
use mountx.Errors.{ErrnoCode}
use mountx.FilePath.{slash, is_path_inside}
use mountx.P9Locks.{
  wrlck, unlck, lock_success, Lock, LockRequest, LockTable, LockedFile, owner_key_of, range_of,
  subtract_range,
}
use mountx.P9Locks.Ranges.{holds}
use mountx.P9Locks.Table.{
  create, at, with_files, forget, require_held_type, set_locks, open_file, bind, unlock, granted,
  grant, take, lock, drop_from, release_fid, release_all, remap, release,
}
use mountx.P9Locks.Table.Names.{
  at-forget, at-grant, at-unlock, IsMap, at-drop_from, at-remap, remap-IsMap,
}
use mountx.P9Locks.Table.Exclusion.{
  IsExclusive, subtract_range-IsExclusive, filter-IsExclusive, replace_range-IsExclusive,
}
use mountx.P9Locks.Table.Effects.{Succeeded, released, taken, lock-Succeeded}

pub record IsValid (t : LockTable) : Type 0 where
  pub distinct : IsMap t
  pub exclusive : (q : Text) → IsExclusive (at q t)

-- The calls that reach a table, each through a client's handle.
pub data Call : Type 0 where
  locks : (holder : ℕ) → LockRequest → Call
  releases_fid : (holder fid : ℕ) → Call
  releases_all : (holder : ℕ) → Call
  renames : (from to : Text) → Call
  releases : (path : Text) → Call

abbrev after : LockTable → Result ErrnoCode (ℕ × LockTable) → LockTable
after t (ok (status, t')) = t'
after t (err e) = t

-- A call that throws leaves the table as it was.
unfoldable pub step : LockTable → Call → LockTable
step t (locks holder r) = after t (lock holder r t)
step t (releases_fid holder fid) = release_fid holder fid t
step t (releases_all holder) = release_all holder t
step t (renames from to) = remap from to t
step t (releases path) = release path t

-- The root is not renamed.
abbrev pub IsLegal : Call → Type 0
IsLegal (renames from to) = (from ≢ slash ∷ []) × (to ≢ slash ∷ [])
IsLegal _ = Unit {0}

nil-IsExclusive : IsExclusive []
unfolding holds
nil-IsExclusive b o p type h k = cc

if-IsExclusive :
    (c : Bool) (xs ys : List Lock)
    → IsExclusive xs
    → IsExclusive ys
    → IsExclusive (if c then xs else ys)
if-IsExclusive true xs ys h k = h
if-IsExclusive false xs ys h k = k

-- A call that does not succeed changes nothing.
take-changes :
    (holder : ℕ) (r : LockRequest) (start end : ℕ) (t : LockTable)
    → (after t (take holder r start end t) ≡ t)
      ⊎ (take holder r start end t ≡ ok (lock_success, after t (take holder r start end t)))
unfolding take require_held_type
take-changes holder r start end t = ground arith

lock-changes :
    (holder : ℕ) (r : LockRequest) (t : LockTable)
    → (after t (lock holder r t) ≡ t)
      ⊎ ((start : ℕ) × (end : ℕ) × (range_of r.start r.length ≡ ok (start, end))
          × (lock holder r t ≡ ok (lock_success, after t (lock holder r t))))
unfolding lock
lock-changes holder r t = elim (Result-cases (range_of r.start r.length)) [
  | inr (x, e) ↦ inl (rw (e, lock))
  | inl ((start, end), e) ↦ elim (Bool-cases (r.type == unlck)) [
    | inl u ↦ inr (start, end, e, rw (e, lock, u))
    | inr u ↦ elim (take-changes holder r start end t) [
      | inl same ↦ inl (rw (e, lock, u) same)
      | inr done ↦ inr (start, end, e, rw (e, lock, u) done)
    ]
  ]
]

unlock-IsMap :
    (p owner : Text) (start end : ℕ) (t : LockTable) → IsMap t → IsMap (unlock p owner start end t)
unfolding unlock set_locks forget
unlock-IsMap p owner start end t d = elim (Option-cases (lookup p t.files)) [
  | inl e ↦ rw (e, unlock) d
  | inr (file, e) ↦
      let left = subtract_range file.locks owner start end in
      elim (Bool-cases (length left == 0)) [
        | inl z ↦ rw (e, unlock, z) (delete-HasDistinctKeys p t.files d)
        | inr z ↦
            rw (e, unlock, z) (insert-HasDistinctKeys p (record file { locks = left }) t.files d)
      ]
]

grant-IsMap : (p : Text) (l : Lock) (t : LockTable) → IsMap t → IsMap (grant p l t)
unfolding grant open_file bind
grant-IsMap p l t d = elim (Option-cases (lookup p t.files)) [
  | inl e ↦ rw (e, open_file) (insert-HasDistinctKeys p _ _ (insert-HasDistinctKeys p _ t.files d))
  | inr (file, e) ↦ rw (e, open_file) (insert-HasDistinctKeys p _ t.files d)
]

Succeeded-IsValid :
    (holder : ℕ) (r : LockRequest) (start end : ℕ) (t t' : LockTable)
    → Succeeded holder r start end t t'
    → IsValid t
    → IsValid t'
Succeeded-IsValid holder r start end t t' (released u s) v = rw s (record {
  distinct = unlock-IsMap r.path (owner_key_of r) start end t v.distinct;
  exclusive = λ q. rw (at-unlock r.path q (owner_key_of r) start end t) (
      if-IsExclusive (r.path == q) _ _
        (subtract_range-IsExclusive (at r.path t) (owner_key_of r) start end (v.exclusive r.path))
        (v.exclusive q));
})
Succeeded-IsValid holder r start end t t' (taken k free room s) v = rw s (record {
  distinct = grant-IsMap r.path (granted holder r r.type start end) t v.distinct;
  exclusive = λ q. rw (at-grant r.path q (granted holder r r.type start end) t) (
      if-IsExclusive (r.path == q) _ _
        (replace_range-IsExclusive holder r start end (at r.path t) free (v.exclusive r.path))
        (v.exclusive q));
})

lock-IsValid :
    (holder : ℕ) (r : LockRequest) (t : LockTable) → IsValid t → IsValid (after t (lock holder r t))
lock-IsValid holder r t v = elim (lock-changes holder r t) [
  | inl same ↦ rw same v
  | inr (start, end, e, done) ↦
      Succeeded-IsValid holder r start end t (after t (lock holder r t))
        (lock-Succeeded holder r start end t (after t (lock holder r t)) e done) v
]

lookup_of_drop :
    (m : Lock → Bool) (q : Text) (files : List (Text × LockedFile))
    → lookup q files ≡ none
    → lookup q (drop_from m files) ≡ none
unfolding lookup drop_from
lookup_of_drop m q [] h = refl
lookup_of_drop m q ((p, file) ∷ files) h = ground (arith, lookup_of_drop m q files)

drop_from-HasDistinctKeys :
    (m : Lock → Bool) (files : List (Text × LockedFile))
    → HasDistinctKeys files
    → HasDistinctKeys (drop_from m files)
unfolding drop_from
drop_from-HasDistinctKeys m [] d = tt
drop_from-HasDistinctKeys m ((p, file) ∷ files) (new, d) =
    ground (arith, drop_from-HasDistinctKeys m files d, lookup_of_drop m p files new)

drop-IsValid :
    (m : Lock → Bool) (t : LockTable) → IsValid t → IsValid (with_files t (drop_from m t.files))
drop-IsValid m t v = record {
  distinct = drop_from-HasDistinctKeys m t.files v.distinct;
  exclusive = λ q.
      rw (at-drop_from m q t v.distinct)
        (filter-IsExclusive (λ l. not (m l)) (at q t) (v.exclusive q));
}

release-IsValid : (p : Text) (t : LockTable) → IsValid t → IsValid (release p t)
unfolding release forget
release-IsValid p t v = elim (Option-cases (lookup p t.files)) [
  | inl e ↦ rw (e, release) v
  | inr (file, e) ↦
      rw (e, release)
        (record {
          distinct = delete-HasDistinctKeys p t.files v.distinct;
          exclusive = λ q.
              unfold forget in
              rw (at-forget p q t)
                (if-IsExclusive (p == q) [] (at q t) nil-IsExclusive (v.exclusive q));
        })
]

remap-IsValid :
    (from to : Text) (t : LockTable)
    → from ≢ slash ∷ []
    → to ≢ slash ∷ []
    → IsValid t
    → IsValid (remap from to t)
remap-IsValid from to t hf ht v = record {
  distinct = remap-IsMap from to t v.distinct;
  exclusive = λ q. rw (at-remap from to q t hf ht v.distinct) (
      if-IsExclusive (from == to) _ _ (v.exclusive q) (
        if-IsExclusive (is_path_inside q to) _ _
          (if-IsExclusive (is_path_inside (from ++ drop (length to) q) to) _ _ nil-IsExclusive
            (v.exclusive (from ++ drop (length to) q)))
          (if-IsExclusive (is_path_inside q from) _ _ nil-IsExclusive (v.exclusive q))));
}

step-IsValid : (c : Call) (t : LockTable) → IsLegal c → IsValid t → IsValid (step t c)
unfolding step release_fid release_all
step-IsValid (locks holder r) t h v = lock-IsValid holder r t v
step-IsValid (releases_fid holder fid) t h v =
    drop-IsValid (λ l. l.holder == holder && l.fid == fid) t v
step-IsValid (releases_all holder) t h v = drop-IsValid (λ l. l.holder == holder) t v
step-IsValid (renames from to) t h v = remap-IsValid from to t h.0 h.1 v
step-IsValid (releases path) t h v = release-IsValid path t v

unfoldable pub run : List Call → LockTable → LockTable
unfolding step
run [] t = t
run (c ∷ cs) t = run cs (step t c)

run-IsValid : (cs : List Call) (t : LockTable) → All IsLegal cs → IsValid t → IsValid (run cs t)
unfolding run
run-IsValid [] t h v = v
run-IsValid (c ∷ cs) t h v = run-IsValid cs (step t c) h.1 (step-IsValid c t h.0 v)

create-IsValid : (limit : Option ℕ) → IsValid (create limit)
unfolding create at lookup
create-IsValid limit = record { distinct = tt; exclusive = λ q. nil-IsExclusive }

-- After any calls of any clients, of which none renames the root, an owner that holds a byte of a
-- file for writing is the only owner that holds it, in whatever way.
pub run_exclusive :
    (limit : Option ℕ) (cs : List Call) (q : Text) (b : ℕ) (o p : Text) (type : ℕ)
    → All IsLegal cs
    → holds o b wrlck (at q (run cs (create limit))) ≡ true
    → holds p b type (at q (run cs (create limit))) ≡ true
    → o ≡ p
run_exclusive limit cs q b o p type h =
    (run-IsValid cs (create limit) h (create-IsValid limit)).exclusive q b o p type
