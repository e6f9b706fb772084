-- ===== src/PathLock/Liveness.antt =====
-- The turn of every call can come.
use mountx.Common.{ap, ◌∙◌, none, ℕ, zero, suc, ◌+◌, ◌-◌, ◌≤◌, ◌≡◌, subst, nat_eq, arith}
use mountx.PathLock.{
  finished, enter, wakes, waiting, reading, queued, writing, PathLock, finish, finishes, Reach,
}
use mountx.PathLock.Invariant.{
  Stage, idle, drains, runs_fn, first, IsSound, update-same, queued_only,
}
use mountx.PathLock.Reads.{enter-open}
use mountx.PathLock.Writes.{finish-IsSound}
use mountx.PathLock.Turns.{Settles, now, then, Settles-then, Turn, drains-Turn, next-Turn}
use mountx.PathLock.Exclusion.{Reach-Sound}

-- The writes before it finish one after another.
comes_to :
    (k done : ℕ) (stage : Stage) (s : PathLock)
    → IsSound done stage s
    → suc (done + k) ≤ s.tail
    → (t : PathLock) × Settles s t × (t.writers (suc (done + k)) ≡ writing)
unfolding finish
comes_to zero done stage s v h =
    let (t, turn) = next-Turn done stage s v (omega (arith, h)) in
    let number : suc done ≡ suc (done + 0) = omega arith in
    (t, turn.path, subst (λ n. t.writers n ≡ writing) number turn.sound.current)
comes_to (suc k) done stage s v h =
    let (t, turn) = next-Turn done stage s v (omega (arith, h)) in
    let (u, more, e) =
      comes_to k (suc done) idle (finish (suc done) t) (finish-IsSound done t turn.sound)
        (omega (arith, h, turn.tail)) in
    let number : suc (suc done + k) ≡ suc (done + suc k) = omega arith in
    (
      u,
      Settles-then turn.path (then (finishes (suc done) turn.sound.current) more),
      subst (λ n. u.writers n ≡ writing) number e,
    )

queued_write-runs :
    (s : PathLock) (w u : ℕ)
    → Reach s
    → s.writers w ≡ queued u
    → (t : PathLock) × Settles s t × (t.writers w ≡ writing)
queued_write-runs s w u reach e =
    let (done, stage, v) = Reach-Sound reach in
    let (number, behind, called) = queued_only done stage s v w u e in
    let enough = least stage behind in
    let (t, path, f) = comes_to (u - done) done stage s v (omega (arith, called, number, enough)) in
    let same : suc (done + (u - done)) ≡ w = omega (arith, number, enough) in
    (t, path, subst (λ n. t.writers n ≡ writing) same f)
  where
    least : {done : ℕ} (stage : Stage) → first stage done ≤ u → done ≤ u
    least idle h = h
    least (drains found) h = omega (arith, h)
    least runs_fn h = omega (arith, h)

-- The write whose gate is shut runs and finishes, and its gate opens.
record Open (s t : PathLock) : Type 0 where
  path : Settles s t
  gate : t.gate ≡ none
  waits : (r w : ℕ) → s.readers r ≡ waiting w → t.readers r ≡ waiting w
  ended : (r w : ℕ) → s.readers r ≡ waiting w → t.writers w ≡ finished

finish-Open :
    (done : ℕ) (s t : PathLock)
    → ((r w : ℕ) → s.readers r ≡ waiting w → w ≤ suc done)
    → Turn done s t
    → Open s (finish (suc done) t)
unfolding finish
finish-Open done s t asked turn =
    let over = finish-IsSound done t turn.sound in
    record {
      path = Settles-then turn.path (then (finishes (suc done) turn.sound.current) now);
      gate = over.gate;
      waits = turn.waits;
      ended = λ r w e. over.ended w (asked r w e);
    }

gate-Open :
    (done : ℕ) (stage : Stage) (s : PathLock) → IsSound done stage s → (t : PathLock) × Open s t
gate-Open done idle s v = (
  s,
  record {
    path = now;
    gate = v.gate;
    waits = λ r w e. e;
    ended = λ r w e. v.ended w (v.asked r w e);
  },
)
gate-Open done (drains found) s v =
    let (t, turn) = drains-Turn done found s v in
    (finish (suc done) t, finish-Open done s t v.asked turn)
gate-Open done runs_fn s v =
    let (t, turn) = next-Turn done runs_fn s v v.bound in
    (finish (suc done) t, finish-Open done s t v.asked turn)

waiting_read-reads :
    (s : PathLock) (r w : ℕ)
    → Reach s
    → s.readers r ≡ waiting w
    → (t : PathLock) × Settles s t × (t.readers r ≡ reading)
waiting_read-reads s r w reach e =
    let (done, stage, v) = Reach-Sound reach in
    let (t, opened) = gate-Open done stage s v in
    let wake = wakes r w (opened.waits r w e) (opened.ended r w e) in
    (
      enter r t,
      Settles-then opened.path (then wake now),
      ap (λ u. u.readers r) (enter-open r t opened.gate) ∙ update-same t.readers r reading,
    )

-- A call of the lock, by its number.
pub data Caller : Type 0 where
  a_read : ℕ → Caller
  a_write : ℕ → Caller

-- It waits for a gate, or behind an earlier write.
abbrev pub IsWaiting : Caller → PathLock → Type 0
IsWaiting (a_read r) s = (w : ℕ) × (s.readers r ≡ waiting w)
IsWaiting (a_write w) s = (u : ℕ) × (s.writers w ≡ queued u)

abbrev pub IsInFunction : Caller → PathLock → Type 0
IsInFunction (a_read r) s = s.readers r ≡ reading
IsInFunction (a_write w) s = s.writers w ≡ writing

-- From every reachable state in which a read waits for a gate or a write is queued, some run of steps
-- without any further call brings that call to its function. In the run the functions of other
-- reads and writes settle, as many as are in its way; a function that never settles can hold up
-- the calls behind it.
pub waiting_call_proceeds :
    (s : PathLock) (c : Caller)
    → Reach s
    → IsWaiting c s
    → (t : PathLock) × Settles s t × IsInFunction c t
waiting_call_proceeds s (a_read r) reach (w, e) = waiting_read-reads s r w reach e
waiting_call_proceeds s (a_write w) reach (u, e) = queued_write-runs s w u reach e
