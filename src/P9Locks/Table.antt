-- ===== src/P9Locks/Table.antt =====
-- src/9p/locks.ts: the lock table and the calls of its clients.
pub mod Names
pub mod Effects
pub mod Exclusion
pub mod Histories
pub mod Queries
mod Tests
use mountx.Common.{
  ℕ, suc, ◌+◌, Bool, not, ◌&&◌, Option, none, some, List, [], ◌∷◌, Text, ◌==◌, nat_eq, text_eq, leb,
  if◌then◌else◌, filter, any, find, length, max,
}
use mountx.Common.Result.{Result, ok, err, ◌>>=◌}
use mountx.Common.Assoc.{lookup, insert, delete, add, discard}
use mountx.Errors.{ErrnoCode, einval}
use mountx.Subtree.{SubtreeRemapOps, remap_subtree}
use mountx.P9Locks.{
  rdlck, wrlck, unlck, lock_success, lock_blocked, lock_error, default_max_locks_per_file, Lock,
  LockRequest, LockHolder, LockedFile, LockTable, to_u32, owner_key_of, range_of, holder_of,
  overlaps, conflicts, subtract_range, replace_range,
}

-- The constructor.
pub create : Option ℕ → LockTable
create limit = record {
  files = [];
  max_per_file = max 1 (elim limit [ none ↦ default_max_locks_per_file | some n ↦ n ]);
  next_client_id = 1;
}

abbrev pub locks_of : Option LockedFile → List Lock
locks_of none = []
locks_of (some file) = file.locks

pub at : Text → LockTable → List Lock
unfolding lookup
at path table = locks_of (lookup path table.files)

total : List (Text × LockedFile) → ℕ
total [] = 0
total ((path, file) ∷ files) = length file.locks + total files

pub size : LockTable → ℕ
unfolding total
size table = total table.files

-- The id of a new client's handle.
pub client : LockTable → LockTable × ℕ
client table = (record table { next_client_id = suc table.next_client_id }, table.next_client_id)

pub count_in : ℕ → List (Text × LockedFile) → ℕ
count_in holder [] = 0
count_in holder ((path, file) ∷ files) =
    length (filter (λ lock. lock.holder == holder) file.locks) + count_in holder files

pub held : ℕ → LockTable → ℕ
unfolding count_in
held holder table = count_in holder table.files

abbrev pub with_files : LockTable → List (Text × LockedFile) → LockTable
with_files table files = record table { files = files }

pub bind : LockedFile → Text → LockTable → LockTable
unfolding add insert
bind file path table =
    with_files table (insert path (record file { paths = add path file.paths }) table.files)

-- `#forget`; the entry that it takes out of the map is not reached again.
pub forget : Text → LockTable → LockTable
unfolding delete
forget path table = with_files table (delete path table.files)

pub require_held_type : ℕ → Result ErrnoCode ℕ
require_held_type type = if not (type == rdlck) && not (type == wrlck) then err einval else ok type

-- `Tgetlock`.
pub getlock : LockRequest → LockTable → Result ErrnoCode (Option LockHolder)
getlock request table = do
  (start, end) ← range_of request.start request.length
  type ← require_held_type request.type
  let owner_key = owner_key_of request
  ok
      (elim (find (λ held. overlaps held start end && conflicts held owner_key type)
        (at request.path table)) [ none ↦ none | some held ↦ some (holder_of held) ])

-- `file.locks = locks`, and the entry goes if none are left.
pub set_locks : Text → LockedFile → List Lock → LockTable → LockTable
unfolding insert forget
set_locks path file locks table =
    if length locks == 0
    then forget path table
    else with_files table (insert path (record file { locks = locks }) table.files)

pub unlock : Text → Text → ℕ → ℕ → LockTable → LockTable
unlock path owner_key start end table = elim (lookup path table.files) [
  | none ↦ table
  | some file ↦ set_locks path file (subtract_range file.locks owner_key start end) table
]

-- The range that a request is granted.
pub granted : ℕ → LockRequest → ℕ → ℕ → ℕ → Lock
granted holder request type start end = record {
  start = start;
  end = end;
  type = type;
  owner_key = owner_key_of request;
  proc_id = to_u32 request.proc_id;
  client_id = request.client_id;
  holder = holder;
  fid = request.fid;
}

-- `existing ?? this.#bind(new LockedFile(), path)`: the file, and the table that holds it.
pub open_file : Option LockedFile → Text → LockTable → LockedFile × LockTable
unfolding bind
open_file (some file) path table = (file, table)
open_file none path table =
    (record { paths = path ∷ []; locks = [] }, bind (record { paths = []; locks = [] }) path table)

-- The file's ranges with one more.
pub grant : Text → Lock → LockTable → LockTable
grant path lock table =
    let (file, opened) = open_file (lookup path table.files) path table in
    with_files opened
      (insert path (record file { locks = replace_range file.locks lock }) opened.files)

-- `#lock` behind its test for `UNLCK`.
pub take : ℕ → LockRequest → ℕ → ℕ → LockTable → Result ErrnoCode (ℕ × LockTable)
take holder request start end table = do
  type ← require_held_type request.type
  let locks = at request.path table
  ok (
      if any (λ held. overlaps held start end && conflicts held (owner_key_of request) type) locks
      then (lock_blocked, table)
      else if leb table.max_per_file (length locks)
      then (lock_error, table)
      else (lock_success, grant request.path (granted holder request type start end) table))

-- `Tlock`, with the status of the reply.
pub lock : ℕ → LockRequest → LockTable → Result ErrnoCode (ℕ × LockTable)
lock holder request table = do
  (start, end) ← range_of request.start request.length
  if request.type == unlck
      then ok (lock_success, unlock request.path (owner_key_of request) start end table)
      else take holder request start end table

pub drop_from : (Lock → Bool) → List (Text × LockedFile) → List (Text × LockedFile)
drop_from matches [] = []
drop_from matches ((path, file) ∷ files) =
    let kept = filter (λ lock. not (matches lock)) file.locks in
    let rest = drop_from matches files in
    if length kept == length file.locks
    then (path, file) ∷ rest
    else if length kept == 0
    then rest
    else (path, record file { locks = kept }) ∷ rest

pub release_fid : ℕ → ℕ → LockTable → LockTable
release_fid holder fid table =
    with_files table (drop_from (λ lock. lock.holder == holder && lock.fid == fid) table.files)

pub release_all : ℕ → LockTable → LockTable
release_all holder table = with_files table (drop_from (λ lock. lock.holder == holder) table.files)

pub remap_ops : SubtreeRemapOps LockTable LockedFile
unfolding bind forget delete discard
remap_ops = record {
  by_path = λ table. table.files;
  detach = λ file path table. forget path table;
  release = λ file path table.
      (with_files table (delete path table.files), record file { paths = discard path file.paths });
  attach = λ file path table. bind file path table;
}

-- `renamed`
pub remap : Text → Text → LockTable → LockTable
remap from to table = if from == to then table else remap_subtree remap_ops from to table

-- `released`
pub release : Text → LockTable → LockTable
unfolding lookup forget
release path table = elim (lookup path table.files) [ none ↦ table | some file ↦ forget path table ]
