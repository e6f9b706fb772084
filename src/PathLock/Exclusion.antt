-- ===== src/PathLock/Exclusion.antt =====
-- What the lock excludes.
use mountx.Common.{ℕ, suc, ◌≤◌, ◌<◌, ◌≡◌, ◌≢◌, refl, sym, ap, ◌∙◌, subst, arith}
use mountx.PathLock.{
  reading, Writer, no_writer, queued, draining, writing, finished, PathLock, Progress, wakes,
  settles, leaves, runs, drained, finishes, Step, reads, writes, goes_on, Reach, start, later, run,
  call_fn, finish,
}
use mountx.PathLock.Invariant.{
  Stage, idle, drains, runs_fn, first, HasBegun, IsSound, finished_only, queued_only, draining_only,
  writing_only,
}
use mountx.PathLock.Reads.{enter-IsSound, settle-IsSound, leave-IsSound}
use mountx.PathLock.Writes.{
  new_lock-IsSound, write-IsSound, run-IsSound, call_fn-IsSound, finish-IsSound,
}

abbrev pub Sound : PathLock → Type 0
Sound s = (done : ℕ) × (stage : Stage) × IsSound done stage s

-- Only the write behind the last finished one can run, and nothing else is there then.
first_idle :
    (done v : ℕ) (stage : Stage) → first stage done ≤ v → v ≤ done → (stage ≡ idle) × (v ≡ done)
first_idle done v idle h k = (refl, omega (arith, h, k))
first_idle done v (drains found) h k = absurd (omega (arith, h, k))
first_idle done v runs_fn h k = absurd (omega (arith, h, k))

pub Progress-Sound : {s t : PathLock} → Progress s t → Sound s → Sound t
Progress-Sound {s} (wakes r w e _) (done, stage, v) =
    (done, stage, enter-IsSound done stage s r v (λ h. subst HasBegun e h))
Progress-Sound {s} (settles r _) (done, stage, v) = (done, stage, settle-IsSound done stage s r v)
Progress-Sound {s} (leaves r _) (done, stage, v) = (done, stage, leave-IsSound done stage s r v)
Progress-Sound {s} (runs w u e f) (done, stage, v) =
    let (number, behind, called) = queued_only done stage s v w u e in
    let (still, same) = first_idle done u stage behind (finished_only done stage s v u f) in
    let now : w ≡ suc done = number ∙ ap suc same in
    subst (λ n. Sound (run n s)) (sym now)
      (
        done,
        drains s.active,
        run-IsSound done s (subst (λ g. IsSound done g s) still v) (omega (arith, called, now)),
      )
Progress-Sound {s} (drained w found e h) (done, stage, v) =
    let (now, same) = draining_only done stage s v w found e in
    subst (λ n. Sound (call_fn n s)) (sym now)
      (done, runs_fn, call_fn-IsSound done found s (subst (λ g. IsSound done g s) same v) h)
Progress-Sound {s} (finishes w e) (done, stage, v) =
    let (now, same) = writing_only done stage s v w e in
    subst (λ n. Sound (finish n s)) (sym now)
      (suc done, idle, finish-IsSound done s (subst (λ g. IsSound done g s) same v))

Step-Sound : {s t : PathLock} → Step s t → Sound s → Sound t
Step-Sound {s} (reads r e) (done, stage, v) =
    (done, stage, enter-IsSound done stage s r v (λ h. subst HasBegun e h))
Step-Sound {s} writes (done, stage, v) = (done, stage, write-IsSound done stage s v)
Step-Sound (goes_on p) v = Progress-Sound p v

pub Reach-Sound : {s : PathLock} → Reach s → Sound s
Reach-Sound start = (0, idle, new_lock-IsSound)
Reach-Sound (later before step) = Step-Sound step (Reach-Sound before)

-- However the calls interleave, while the function of a write runs there is no other write whose
-- function runs, and no read whose function runs.
pub write_excludes :
    (s : PathLock) (w v r : ℕ)
    → Reach s
    → s.writers w ≡ writing
    → s.writers v ≡ writing
    → (v ≡ w) × (s.readers r ≢ reading)
write_excludes s w v r reach e f =
    let (done, stage, sound) = Reach-Sound reach in
    let (now, same) = writing_only done stage s sound w e in
    let (too, _) = writing_only done stage s sound v f in
    (too ∙ sym now, (subst (λ g. IsSound done g s) same sound).seen r)

abbrev pub HasRun : Writer → Type 0
HasRun (draining found) = Unit
HasRun writing = Unit
HasRun finished = Unit
HasRun _ = ⊥

-- Writes run in the order of their calls: one whose turn has come finds all earlier ones finished,
-- whichever way they ended.
pub writes_in_order :
    (s : PathLock) (v w : ℕ) → Reach s → v < w → HasRun (s.writers w) → s.writers v ≡ finished
writes_in_order s v w reach h has = named (s.writers w) refl has
  where
    sound : Sound s
    sound = Reach-Sound reach

    ended : w ≤ suc sound.0 → s.writers v ≡ finished
    ended k = sound.2.ended v (omega (arith, h, k))

    named : (now : Writer) → s.writers w ≡ now → HasRun now → s.writers v ≡ finished
    named (draining found) e has =
        let (now, _) = draining_only sound.0 sound.1 s sound.2 w found e in
        ended (omega (arith, now))
    named writing e has =
        let (now, _) = writing_only sound.0 sound.1 s sound.2 w e in ended (omega (arith, now))
    named finished e has =
        let k = finished_only sound.0 sound.1 s sound.2 w e in ended (omega (arith, k))
    named no_writer e has = absurd has
    named (queued u) e has = absurd has
