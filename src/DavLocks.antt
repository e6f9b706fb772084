-- ===== src/DavLocks.antt =====
-- src/webdav/locks.ts: the write locks of a WebDAV share, and the lease of each.
-- `Node` is the parsed `<owner>` element, which the table keeps and never reads. A time is a number
-- of milliseconds. `newToken` is the host's random source: `create` takes the token that it minted.
pub mod Scope
pub mod Grants
pub mod Histories
pub mod Leases
pub mod Tests
use mountx.Common.{
  ℕ, ◌+◌, ◌-◌, ◌*◌, ◌/◌, min, max, Bool, true, false, ◌&&◌, ◌||◌, Option, none, some, List, [], ◌∷◌,
  ◌++◌, Text, ◌==◌, text_eq, ltb, leb, if◌then◌else◌, length, map, find,
}
use mountx.Common.Int.{ℤ, pos, negsuc}
use mountx.Common.Assoc.{lookup, insert, delete}
use mountx.FilePath.{is_path_inside}

abbrev pub default_lock_timeout_seconds : ℕ
default_lock_timeout_seconds = 600

abbrev pub max_lock_timeout_seconds : ℕ
max_lock_timeout_seconds = 3600

abbrev pub default_max_locks : ℕ
default_max_locks = 4096

pub data LockDepth : Type 0 where
  zero_depth : LockDepth
  infinity : LockDepth

abbrev pub is_infinity : LockDepth → Bool
is_infinity zero_depth = false
is_infinity infinity = true

-- `number | "infinite"`, of a number that is an integer.
pub data Timeout : Type 0 where
  infinite : Timeout
  seconds : ℤ → Timeout

pub record DavLock (Node : Type 0) : Type 0 where
  pub token : Text
  pub path : Text
  pub collection : Bool
  pub depth : LockDepth
  pub exclusive : Bool
  pub owner : Option Node
  pub timeout_seconds : ℕ
  pub expires_at : ℕ

pub record DavLockRequest (Node : Type 0) : Type 0 where
  pub path : Text
  pub collection : Bool
  pub depth : LockDepth
  pub exclusive : Bool
  pub owner : Option Node
  pub timeout_seconds : Option Timeout

pub data DavLockGrant (Node : Type 0) : Type 0 where
  granted : DavLock Node → DavLockGrant Node
  conflicted : DavLock Node → DavLockGrant Node
  full : DavLockGrant Node

pub record DavLockTableOptions : Type 0 where
  pub default_timeout_seconds : Option ℕ
  pub max_timeout_seconds : Option ℕ
  pub max_locks : Option ℕ

pub record DavLockTable (Node : Type 0) : Type 0 where
  pub locks : List (Text × DavLock Node)
  pub default_timeout : ℕ
  pub max_timeout : ℕ
  pub max_locks : ℕ

-- `option ?? fallback`
abbrev pub or_default : Option ℕ → ℕ → ℕ
or_default none n = n
or_default (some m) n = m

-- `Math.max(1, Math.min(Math.trunc(requested), maxTimeout))`
abbrev pub bounded : ℤ → ℕ → ℕ
bounded (pos n) most = max 1 (min n most)
bounded (negsuc n) most = 1

module _ {Node : Type 0} where
  pub create_table : DavLockTableOptions → DavLockTable Node
  create_table options = record {
    locks = [];
    default_timeout = or_default options.default_timeout_seconds default_lock_timeout_seconds;
    max_timeout = or_default options.max_timeout_seconds max_lock_timeout_seconds;
    max_locks = or_default options.max_locks default_max_locks;
  }

  -- The walk deletes the current entry only, so it keeps the entries with time left.
  pub unexpired : ℕ → List (Text × DavLock Node) → List (Text × DavLock Node)
  unexpired now [] = []
  unexpired now ((token, lock) ∷ rest) =
      let later = unexpired now rest in
      if leb lock.expires_at now then later else (token, lock) ∷ later

  pub sweep : ℕ → DavLockTable Node → DavLockTable Node
  sweep now t = record t { locks = unexpired now t.locks }

  abbrev pub values : List (Text × DavLock Node) → List (DavLock Node)
  values [] = []
  values ((token, lock) ∷ rest) = lock ∷ values rest

  pub select : (DavLock Node → Bool) → List (DavLock Node) → List (DavLock Node)
  select p [] = []
  select p (lock ∷ rest) = if p lock then lock ∷ select p rest else select p rest

  pub size : ℕ → DavLockTable Node → DavLockTable Node × ℕ
  size now t = let swept = sweep now t in (swept, length swept.locks)

  pub all_locks : ℕ → DavLockTable Node → DavLockTable Node × List (DavLock Node)
  all_locks now t = let swept = sweep now t in (swept, values swept.locks)

  pub in_scope : DavLock Node → Text → Bool
  in_scope lock path = lock.path == path || is_infinity lock.depth && is_path_inside path lock.path

  pub covering : Text → ℕ → DavLockTable Node → DavLockTable Node × List (DavLock Node)
  covering path now t =
      let swept = sweep now t in (swept, select (λ lock. in_scope lock path) (values swept.locks))

  pub within : Text → ℕ → DavLockTable Node → DavLockTable Node × List (DavLock Node)
  within path now t =
      let swept = sweep now t in
      (swept, select (λ lock. is_path_inside lock.path path) (values swept.locks))

  pub find_lock : Text → ℕ → DavLockTable Node → DavLockTable Node × Option (DavLock Node)
  find_lock token now t = let swept = sweep now t in (swept, lookup token swept.locks)

  pub candidates :
      Text → LockDepth → ℕ → DavLockTable Node → DavLockTable Node × List (DavLock Node)
  candidates path zero_depth now t = covering path now t
  candidates path infinity now t =
      let (t', above) = covering path now t in
      let (t'', below) = within path now t' in (t'', above ++ below)

  pub conflict :
      Text → LockDepth → Bool → ℕ → DavLockTable Node → DavLockTable Node × Option (DavLock Node)
  conflict path depth exclusive now t =
      let (t', locks) = candidates path depth now t in
      (t', find (λ lock. exclusive || lock.exclusive) locks)

  pub granted_timeout : Option Timeout → DavLockTable Node → ℕ
  granted_timeout none t = t.default_timeout
  granted_timeout (some infinite) t = t.max_timeout
  granted_timeout (some (seconds n)) t = bounded n t.max_timeout

  pub new_lock : DavLockRequest Node → Text → ℕ → DavLockTable Node → DavLock Node
  new_lock request token now t = record {
    token = token;
    path = request.path;
    collection = request.collection;
    depth = request.depth;
    exclusive = request.exclusive;
    owner = request.owner;
    timeout_seconds = granted_timeout request.timeout_seconds t;
    expires_at = now + granted_timeout request.timeout_seconds t * 1000;
  }

  pub add_lock : DavLock Node → DavLockTable Node → DavLockTable Node
  add_lock lock t = record t { locks = insert lock.token lock t.locks }

  pub take_lock :
      DavLockRequest Node → Text → ℕ → DavLockTable Node → DavLockTable Node × DavLockGrant Node
  take_lock request token now t =
      let (swept, live) = size now t in
      let lock = new_lock request token now swept in
      if leb swept.max_locks live then (swept, full) else (add_lock lock swept, granted lock)

  pub create :
      DavLockRequest Node → Text → ℕ → DavLockTable Node → DavLockTable Node × DavLockGrant Node
  create request token now t =
      let (swept, stop) = conflict request.path request.depth request.exclusive now t in
      elim stop [ some lock ↦ (swept, conflicted lock) | none ↦ take_lock request token now swept ]

  pub restarted : DavLock Node → Option Timeout → ℕ → DavLockTable Node → DavLock Node
  restarted existing requested now t = record existing {
    timeout_seconds = granted_timeout requested t;
    expires_at = now + granted_timeout requested t * 1000;
  }

  pub refresh :
      Text → Option Timeout → ℕ → DavLockTable Node → DavLockTable Node × Option (DavLock Node)
  refresh token requested now t =
      let (swept, found) = find_lock token now t in
      elim found [
        | none ↦ (swept, none)
        | some existing ↦
            (let lock = restarted existing requested now swept in
              (record swept { locks = insert token lock swept.locks }, some lock))
      ]

  pub remove : Text → DavLockTable Node → DavLockTable Node × Bool
  remove token t = (
    record t { locks = delete token t.locks },
    elim (lookup token t.locks) [ none ↦ false | some lock ↦ true ],
  )

  -- `Math.max(0, Math.floor((expiresAt - now) / 1000))`: what is below zero is none left.
  pub remaining : DavLock Node → ℕ → ℕ
  remaining lock now = (lock.expires_at - now) / 1000
