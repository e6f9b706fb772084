-- ===== src/P9Locks.antt =====
-- src/9p/locks.ts: byte-range locks on files, shared by every 9P client of a server.
-- A thrown error is its code. `bigint`s are ℤ until `rangeOf` has accepted them.
pub mod Table
pub mod Ranges
pub mod Coalesce
use mathlib.Core.List.{reverse}
use mountx.Common.{
  ℕ, suc, ◌+◌, ◌-◌, ◌%◌, ◌^◌, Bool, true, false, not, ◌&&◌, ◌||◌, Option, none, some, List, [], ◌∷◌,
  ◌++◌, Text, ◌==◌, nat_eq, text_eq, ltb, leb, if◌then◌else◌, filter, any, find, length, max,
}
use mountx.Common.Int.{ℤ, pos, negsuc}
use mountx.Common.Result.{Result, ok, err, ◌>>=◌}
use mountx.Common.Assoc.{lookup, insert, delete, add, discard}
use mountx.Common.Decimal.{decimal}
use mountx.Errors.{ErrnoCode, einval}
use mountx.Subtree.{SubtreeRemapOps, remap_subtree}

-- src/9p/constants.ts
abbrev pub rdlck : ℕ
rdlck = 0

abbrev pub wrlck : ℕ
wrlck = 1

abbrev pub unlck : ℕ
unlck = 2

abbrev pub lock_success : ℕ
lock_success = 0

abbrev pub lock_blocked : ℕ
lock_blocked = 1

abbrev pub lock_error : ℕ
lock_error = 2

pub lock_eof_end : ℕ
lock_eof_end = 2 ^ 64

abbrev pub default_max_locks_per_file : ℕ
default_max_locks_per_file = 1024

pub record Lock : Type 0 where
  pub start : ℕ
  pub end : ℕ
  pub type : ℕ
  pub owner_key : Text
  pub proc_id : ℕ
  pub client_id : Text
  pub holder : ℕ
  pub fid : ℕ

pub record LockRequest : Type 0 where
  pub path : Text
  pub fid : ℕ
  pub type : ℕ
  pub start : ℤ
  pub length : ℤ
  pub proc_id : ℕ
  pub client_id : Text

pub record LockHolder : Type 0 where
  pub type : ℕ
  pub start : ℕ
  pub length : ℕ
  pub proc_id : ℕ
  pub client_id : Text

-- A name's entry: its `paths` hold just that name.
pub record LockedFile : Type 0 where
  pub paths : List Text
  pub locks : List Lock

pub record LockTable : Type 0 where
  pub files : List (Text × LockedFile)
  pub max_per_file : ℕ
  pub next_client_id : ℕ

-- `n >>> 0`
abbrev pub to_u32 : ℕ → ℕ
to_u32 n = n % 2 ^ 32

-- `${procId}:${clientId}`
abbrev pub key_of : ℕ → Text → Text
key_of n rest = decimal n ++ b':' ∷ rest

pub owner_key_of : LockRequest → Text
owner_key_of request = key_of (to_u32 request.proc_id) request.client_id

pub range_of : ℤ → ℤ → Result ErrnoCode (ℕ × ℕ)
unfolding lock_eof_end
range_of (pos start) (pos length) =
    let end = if length == 0 then lock_eof_end else start + length in
    if ltb lock_eof_end end then err einval else ok (start, end)
range_of _ _ = err einval

length_of : Lock → ℕ
unfolding lock_eof_end
length_of lock = if lock.end == lock_eof_end then 0 else lock.end - lock.start

holder_of : Lock → LockHolder
unfolding length_of
holder_of lock = record {
  type = lock.type;
  start = lock.start;
  length = length_of lock;
  proc_id = lock.proc_id;
  client_id = lock.client_id;
}

pub overlaps : Lock → ℕ → ℕ → Bool
overlaps lock start end = ltb lock.start end && ltb start lock.end

pub conflicts : Lock → Text → ℕ → Bool
conflicts lock owner_key type =
    not (lock.owner_key == owner_key) && (lock.type == wrlck || type == wrlck)

-- `${holder}:${fid}:${ownerKey}`
pub group_key_of : Lock → Text
group_key_of lock = key_of lock.holder (key_of lock.fid lock.owner_key)

-- What is left of one range without `[start, end)`.
pub pieces : Lock → Text → ℕ → ℕ → List Lock
unfolding overlaps
pieces lock owner_key start end =
    if not (lock.owner_key == owner_key) || not (overlaps lock start end)
    then lock ∷ []
    else (if ltb lock.start start then record lock { end = start } ∷ [] else [])
      ++ (if ltb end lock.end then record lock { start = end } ∷ [] else [])

pub subtract_range : List Lock → Text → ℕ → ℕ → List Lock
unfolding pieces
subtract_range [] owner_key start end = []
subtract_range (lock ∷ locks) owner_key start end =
    pieces lock owner_key start end ++ subtract_range locks owner_key start end

-- `sort` by start, which is stable.
pub sort_in : Lock → List Lock → List Lock
sort_in lock [] = lock ∷ []
sort_in lock (next ∷ rest) =
    if leb lock.start next.start then lock ∷ next ∷ rest else next ∷ sort_in lock rest

pub sort : List Lock → List Lock
unfolding sort_in
sort [] = []
sort (lock ∷ locks) = sort_in lock (sort locks)

-- `last.end = max(last.end, end)` for the last range of a group. `merged` has the newest range
-- first, so that `lastOf.get(groupKey)` is its first range of that group.
pub extend_last : Text → ℕ → List Lock → List Lock
extend_last key end [] = []
extend_last key end (last ∷ merged) =
    if group_key_of last == key
    then record last { end = max last.end end } ∷ merged
    else last ∷ extend_last key end merged

abbrev pub joins : Lock → Lock → Bool
joins lock last = last.type == lock.type && leb lock.start last.end

pub merge : Lock → List Lock → List Lock
unfolding extend_last
merge lock merged = elim (find (λ last. group_key_of last == group_key_of lock) merged) [
  | none ↦ lock ∷ merged
  | some last ↦
      if joins lock last then extend_last (group_key_of lock) lock.end merged else lock ∷ merged
]

-- The loop of `coalesce`.
pub coalesce_from : List Lock → List Lock → List Lock
unfolding merge
coalesce_from merged [] = reverse merged
coalesce_from merged (lock ∷ rest) = coalesce_from (merge lock merged) rest

pub coalesce : List Lock → List Lock
unfolding sort coalesce_from
coalesce locks = coalesce_from [] (sort locks)

pub replace_range : List Lock → Lock → List Lock
unfolding subtract_range coalesce
replace_range locks granted =
    coalesce (subtract_range locks granted.owner_key granted.start granted.end ++ granted ∷ [])
