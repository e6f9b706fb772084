-- ===== src/PathLock/Tests.antt =====
-- A read and two writes at concrete states.
use mountx.Common.{ℕ, ◌≡◌, ◌≢◌, refl, [], ◌∷◌, arith, nat_eq, some}
use mountx.PathLock.{
  reading, waiting, writing, finished, PathLock, new_lock, enter, settle, leave, write, run,
  call_fn, finish, settles, runs, drained, finishes, reads, writes, goes_on, Reach, start, later,
}
use mountx.PathLock.Exclusion.{write_excludes, writes_in_order}
use mountx.PathLock.Liveness.{a_read, a_write, waiting_call_proceeds}
use mountx.PathLock.Turns.{Settles}

program : Unit {0}
unfolding enter settle leave write run call_fn finish
program = tt

abbrev two_queued : PathLock
two_queued = write (write (enter 5 new_lock))

abbrev first_writes : PathLock
first_writes = call_fn 1 (settle 5 (run 1 two_queued))

abbrev second_runs : PathLock
second_runs = run 2 (finish 1 first_writes)

a_read_waits : (enter 6 (run 1 two_queued)).readers 6 ≡ waiting 1
unfolding program
a_read_waits = refl

the_gate_opens : second_runs.gate ≡ some 2
unfolding program
the_gate_opens = refl

two_queued-reached : Reach two_queued
unfolding program
two_queued-reached = later (later (later start (reads 5 refl)) writes) writes

first_writes-reached : Reach first_writes
unfolding program
first_writes-reached =
    later
      (later (later two_queued-reached (goes_on (runs 1 0 refl refl))) (goes_on (settles 5 refl)))
      (goes_on (drained 1 (5 ∷ []) refl (tt, tt)))

second_runs-reached : Reach second_runs
unfolding program
second_runs-reached =
    later (later first_writes-reached (goes_on (finishes 1 refl))) (goes_on (runs 2 1 refl refl))

write_excludes_example : (◌≡◌ {A = ℕ} 1 1) × (first_writes.readers 5 ≢ reading)
unfolding program
write_excludes_example = write_excludes first_writes 1 1 5 first_writes-reached refl refl

writes_in_order_example : second_runs.writers 1 ≡ finished
unfolding program
writes_in_order_example = writes_in_order second_runs 1 2 second_runs-reached (omega arith) tt

abbrev one_waits : PathLock
one_waits = enter 6 (run 1 two_queued)

one_waits-reached : Reach one_waits
unfolding program
one_waits-reached = later (later two_queued-reached (goes_on (runs 1 0 refl refl))) (reads 6 refl)

a_write_proceeds : (t : PathLock) × Settles two_queued t × (t.writers 2 ≡ writing)
unfolding program
a_write_proceeds = waiting_call_proceeds two_queued (a_write 2) two_queued-reached (1, refl)

waiting_call_proceeds_example : (t : PathLock) × Settles one_waits t × (t.readers 6 ≡ reading)
unfolding program
waiting_call_proceeds_example =
    waiting_call_proceeds one_waits (a_read 6) one_waits-reached (1, refl)
