-- ===== src/P9Locks/Table/Tests.antt =====
-- Two clients on one file, and the theorems of the lock table on their calls.
use mountx.Common.{
  ℕ, ◌≡◌, ◌↔◌, refl, true, false, none, some, List, [], ◌∷◌, Text, literal, arith, nat_eq, text_eq,
}
use mountx.Common.Int.{pos}
use mountx.Common.Result.{ok}
use mountx.Common.Assoc.{lookup, insert, delete}
use mountx.Common.Decimal.{decimal}
use mountx.FilePath.{is_path_inside}
use mountx.Subtree.{remap_subtree}
use mountx.Subtree.Laws.{name_of}
use mountx.Subtree.Renames.{name_of-remap_subtree}
use mountx.P9Locks.{
  rdlck, wrlck, unlck, lock_blocked, Lock, LockRequest, LockHolder, LockTable, owner_key_of,
  group_key_of, range_of, replace_range, subtract_range, holder_of, overlaps, conflicts,
}
use mountx.P9Locks.Ranges.{holds}
use mountx.P9Locks.Coalesce.{holds-replace_range}
use mountx.P9Locks.Table.{
  create, at, grant, granted, take, lock, getlock, unlock, set_locks, open_file, require_held_type,
  release_all, held, remap, remap_ops, drop_from,
}
use mountx.P9Locks.Table.Names.{at-remap, remap_ops-RemapLaws}
use mountx.P9Locks.Table.Effects.{holds-lock}
use mountx.P9Locks.Table.Histories.{Call, locks, step, run, run_exclusive}
use mountx.P9Locks.Table.Queries.{lock-blocked_iff, held-release_all}

program : Unit {0}
unfolding create at lock take unlock set_locks grant granted open_file require_held_type
    owner_key_of range_of overlaps conflicts replace_range subtract_range lookup insert holds
    decimal group_key_of getlock holder_of release_all held drop_from remap remap_subtree remap_ops
    delete
program = tt

abbrev file : Text
file = literal "/d/f"

abbrev ask : ℕ → ℕ → ℕ → ℕ → LockRequest
ask process type start length = record {
  path = file;
  fid = 1;
  type = type;
  start = pos start;
  length = pos length;
  proc_id = process;
  client_id = literal "host";
}

abbrev calls : List Call
calls = locks 1 (ask 7 wrlck 0 10) ∷ locks 2 (ask 8 rdlck 20 0) ∷ []

busy : LockTable
unfolding program run step
busy = run calls (create none)

abbrev own : Text
own = literal "7:host"

history : Unit {0}
unfolding program run step busy
history = tt

statuses :
    (lock 2 (ask 8 rdlck 5 1) busy ≡ ok (lock_blocked, busy))
    × (getlock (ask 8 rdlck 5 1) busy
        ≡ ok (
            some (record {
              type = wrlck;
              start = 0;
              length = 10;
              proc_id = 7;
              client_id = literal "host";
            })))
    × (getlock (ask 7 wrlck 5 1) busy ≡ ok none)
    × (held 2 (release_all 2 busy) ≡ 0)
unfolding history
statuses = (refl, refl, refl, refl)

split_and_joined :
    (at file (run (locks 1 (ask 7 unlck 3 2) ∷ locks 1 (ask 7 wrlck 3 2) ∷ []) busy) ≡ at file busy)
    × (at (literal "/e/f") (remap (literal "/d") (literal "/e") busy) ≡ at file busy)
unfolding history is_path_inside
split_and_joined = (refl, refl)

run_exclusive_example : own ≡ own
unfolding program run step
run_exclusive_example = run_exclusive none calls file 5 own own wrlck (tt, (tt, tt)) refl refl

holds-lock_example : holds own 5 wrlck (at file (step busy (locks 1 (ask 7 unlck 3 4)))) ≡ false
unfolding history
holds-lock_example =
    holds-lock 1 (ask 7 unlck 3 4) 3 7 busy (step busy (locks 1 (ask 7 unlck 3 4))) file own 5 wrlck
      refl refl

lock-blocked_iff_example :
    (lock 2 (ask 8 rdlck 5 1) busy ≡ ok (lock_blocked, busy))
    ↔ ((h : LockHolder) × (getlock (ask 8 rdlck 5 1) busy ≡ ok (some h)))
lock-blocked_iff_example = lock-blocked_iff 2 (ask 8 rdlck 5 1) busy (omega arith)

held-release_all_example : held 1 (release_all 1 busy) ≡ 0
unfolding history
held-release_all_example = (held-release_all 1 busy (refl, tt)).0

abbrev asked : Lock
asked = record {
  start = 3;
  end = 7;
  type = rdlck;
  owner_key = own;
  proc_id = 7;
  client_id = literal "host";
  holder = 1;
  fid = 1;
}

holds-replace_range_example : holds own 5 rdlck (replace_range (at file busy) asked) ≡ true
unfolding history
holds-replace_range_example = holds-replace_range own 5 rdlck (at file busy) asked

at-remap_example : at (literal "/e/f") (remap (literal "/d") (literal "/e") busy) ≡ at file busy
unfolding history is_path_inside
at-remap_example =
    at-remap (literal "/d") (literal "/e") (literal "/e/f") busy (λ e. cc) (λ e. cc) (refl, tt)

name_of-remap_subtree_example :
    name_of remap_ops
      (λ f. f.locks)
      (literal "/e/f")
      (remap_subtree remap_ops (literal "/d") (literal "/e") busy)
    ≡ some (at file busy)
unfolding history is_path_inside
name_of-remap_subtree_example =
    name_of-remap_subtree remap_ops (λ f. f.locks) remap_ops-RemapLaws (literal "/d") (literal "/e")
      (λ e. cc) (λ e. cc) (literal "/e/f") busy (refl, tt)
