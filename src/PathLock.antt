-- ===== src/PathLock.antt =====
-- src/lock.ts: the single writer, many readers lock of a session's path map.
-- A call runs without a break from one `await` to the next: those are the steps. Writes are
-- numbered by their calls, and the number of a write stands for its gate and its result too; 0 is
-- the promise that `#tail` starts with. A function may settle either way: `finally` does not tell.
pub mod Invariant
pub mod Reads
pub mod Writes
pub mod Exclusion
pub mod Turns
pub mod Liveness
pub mod Tests
use mountx.Common.{
  ℕ, zero, suc, ◌+◌, ◌≡◌, Bool, true, false, not, Option, none, some, List, [], ◌∷◌, ◌++◌, ◌==◌,
  nat_eq, if◌then◌else◌, filter, All,
}

-- Where a read stands: before its call, at `await this.#gate`, in its function, or behind it.
pub data Reader : Type 0 where
  not_called : Reader
  waiting : ℕ → Reader
  reading : Reader
  settled : Reader
  returned : Reader

-- Where a write stands: `queued` behind a result, at `Promise.allSettled` of the readers that it
-- found, in its function, or behind `finally`.
pub data Writer : Type 0 where
  no_writer : Writer
  queued : ℕ → Writer
  draining : List ℕ → Writer
  writing : Writer
  finished : Writer

pub record PathLock : Type 0 where
  pub tail : ℕ
  pub gate : Option ℕ
  pub active : List ℕ
  pub readers : ℕ → Reader
  pub writers : ℕ → Writer

abbrev pub update : {A : Type 0} → (ℕ → A) → ℕ → A → ℕ → A
update f i a j = if j == i then a else f j

abbrev pub new_lock : PathLock
new_lock = record {
  tail = 0;
  gate = none;
  active = [];
  readers = λ r. not_called;
  writers = λ w. if w == 0 then finished else no_writer;
}

-- The test of the `while` loop, and the start of the function behind it.
unfoldable pub enter : ℕ → PathLock → PathLock
enter r s = elim s.gate [
  | some w ↦ record s { readers = update s.readers r (waiting w) }
  | none ↦ record s { readers = update s.readers r reading; active = s.active ++ r ∷ [] }
]

unfoldable pub settle : ℕ → PathLock → PathLock
settle r s = record s { readers = update s.readers r settled }

unfoldable pub leave : ℕ → PathLock → PathLock
leave r s = record s {
  readers = update s.readers r returned;
  active = filter (λ q. not (q == r)) s.active;
}

unfoldable pub write : PathLock → PathLock
write s = record s { tail = suc s.tail; writers = update s.writers (suc s.tail) (queued s.tail) }

unfoldable pub run : ℕ → PathLock → PathLock
run w s = record s { gate = some w; writers = update s.writers w (draining s.active) }

unfoldable pub call_fn : ℕ → PathLock → PathLock
call_fn w s = record s { writers = update s.writers w writing }

unfoldable pub finish : ℕ → PathLock → PathLock
finish w s = record s { gate = none; writers = update s.writers w finished }

abbrev pub HasSettled : Reader → Type 0
HasSettled settled = Unit
HasSettled returned = Unit
HasSettled _ = ⊥

-- What happens once the calls are there: functions settle, and what waits for them goes on.
pub data Progress (s : PathLock) : PathLock → Type 0 where
  wakes : (r w : ℕ) → s.readers r ≡ waiting w → s.writers w ≡ finished → Progress s (enter r s)
  settles : (r : ℕ) → s.readers r ≡ reading → Progress s (settle r s)
  leaves : (r : ℕ) → s.readers r ≡ settled → Progress s (leave r s)
  runs : (w v : ℕ) → s.writers w ≡ queued v → s.writers v ≡ finished → Progress s (run w s)
  drained :
      (w : ℕ) (found : List ℕ)
      → s.writers w ≡ draining found
      → All (λ r. HasSettled (s.readers r)) found
      → Progress s (call_fn w s)
  finishes : (w : ℕ) → s.writers w ≡ writing → Progress s (finish w s)

pub data Step (s : PathLock) : PathLock → Type 0 where
  reads : (r : ℕ) → s.readers r ≡ not_called → Step s (enter r s)
  writes : Step s (write s)
  goes_on : {t : PathLock} → Progress s t → Step s t

pub data Reach : PathLock → Type 0 where
  start : Reach new_lock
  later : {s t : PathLock} → Reach s → Step s t → Reach t
