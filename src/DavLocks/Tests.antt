-- ===== src/DavLocks/Tests.antt =====
-- Locks at a depth, leases and lapses at concrete requests.
use mountx.Common.{
  ℕ, ◌≡◌, refl, Bool, true, false, none, some, List, [], ◌∷◌, Text, literal, text_eq, ◌≤◌, ◌||◌,
  ◌*◌, ◌+◌, length, arith,
}
use mountx.Common.Int.{pos}
use mountx.Common.Assoc.{lookup, insert}
use mountx.FilePath.{is_path_inside}
use mountx.DavLocks.{
  infinity, infinite, seconds, DavLock, DavLockRequest, conflicted, full, DavLockTableOptions,
  create_table, sweep, unexpired, select, size, in_scope, covering, within, find_lock, candidates,
  conflict, granted_timeout, new_lock, add_lock, take_lock, create, restarted, refresh, remove,
  remaining,
}
use mountx.DavLocks.Histories.{
  Call, create_call, refresh_call, step, run, run_compatible, create_table-IsValid,
}
use mountx.DavLocks.Leases.{find_lock-create, create-lease, step-capped}

program : Unit {0}
unfolding create_table sweep unexpired select size in_scope covering within find_lock candidates
    conflict granted_timeout new_lock add_lock take_lock create restarted refresh remove remaining
    step run lookup insert is_path_inside
program = tt

abbrev ask : Text → Bool → DavLockRequest ℕ
ask path exclusive = record {
  path = path;
  collection = true;
  depth = infinity;
  exclusive = exclusive;
  owner = none;
  timeout_seconds = some (seconds (pos 5));
}

abbrev options : DavLockTableOptions
options = record { default_timeout_seconds = none; max_timeout_seconds = none; max_locks = some 2 }

abbrev above : Text
above = literal "/a"

abbrev below : Text
below = literal "/a/b"

abbrev calls : List (Call ℕ)
calls =
    create_call (ask above false) (literal "t") 1000
    ∷ create_call (ask below false) (literal "u") 2000
    ∷ create_call (ask below true) (literal "v") 2500
    ∷ []

shared : Text → Text → ℕ → DavLock ℕ
shared token path now = record {
  token = token;
  path = path;
  collection = true;
  depth = infinity;
  exclusive = false;
  owner = none;
  timeout_seconds = 5;
  expires_at = now + 5 * 1000;
}

-- The third request is exclusive and stopped.
both_stand :
    (run calls (create_table options)).locks
    ≡ (literal "t", shared (literal "t") above 1000)
      ∷ (literal "u", shared (literal "u") below 2000)
      ∷ []
unfolding program shared
both_stand = refl

-- When the first lease is over its lock is gone, and a subtree lock is stopped by the other one.
stopped_from_below :
    (create (ask (literal "/") true) (literal "w") 6500 (run calls (create_table options))).1
    ≡ conflicted (shared (literal "u") below 2000)
unfolding program shared
stopped_from_below = refl

cap_reached :
    (create (ask (literal "/z") true) (literal "w") 3000 (run calls (create_table options))).1
    ≡ full
unfolding program
cap_reached = refl

run_compatible_example : false || false ≡ false
unfolding program shared
run_compatible_example =
    run_compatible options calls (literal "t") (literal "u") below (shared (literal "t") above 1000)
      (shared (literal "u") below 2000) refl refl refl refl refl refl

find_lock-create_example :
    (find_lock
      (literal "t")
      6000
      (create (ask above true) (literal "t") 1000 (create_table options)).0).1
    ≡ none
unfolding program
find_lock-create_example =
    find_lock-create (ask above true) (literal "t") 1000 6000 (create_table options)
      (new_lock (ask above true) (literal "t") 1000 (create_table options))
      (create_table-IsValid options) refl

create-lease_example : (1 ≤ 5) × (5 ≤ 3600) × (6000 ≡ 1000 + 5 * 1000)
unfolding program
create-lease_example =
    create-lease (ask above true) (literal "t") 1000 (create_table options)
      (new_lock (ask above true) (literal "t") 1000 (create_table options)) (omega arith)
      (omega arith) refl

step-capped_example :
    length (
      (step
        (refresh_call (literal "u") (some infinite) 3000)
        (run calls (create_table options))).locks)
    ≤ 2
unfolding program
step-capped_example =
    step-capped (refresh_call (literal "u") (some infinite) 3000) (run calls (create_table options))
      (omega arith)
