-- ===== src/PathLock/Writes.antt =====
-- Every step of a write keeps the invariant, and a new lock has it.
use mountx.Common.{
  ℕ, suc, ◌≤◌, ◌≡◌, ◌≢◌, refl, sym, ◌∙◌, subst, true, List, [], ◌∷◌, ◌==◌, nat_eq, All, arith,
  Bool-cases, inl, inr, ==_iff,
}
use mountx.PathLock.{
  Writer, no_writer, queued, draining, writing, finished, PathLock, update, new_lock, write, run,
  call_fn, finish, HasSettled,
}
use mountx.PathLock.Invariant.{
  Stage, idle, drains, runs_fn, is_in, first, IsAt, IsSound, update-same, update-other,
}

pub new_lock-IsSound : IsSound 0 idle new_lock
new_lock-IsSound = record {
  ended = λ w h. let e : w ≡ 0 = omega (arith, h) in rw e refl;
  current = tt;
  waits = λ w h k. absurd (omega (arith, k));
  fresh = λ w h. ground (arith, ==_iff w 0);
  bound = omega arith;
  gate = refl;
  seen = λ r e. absurd cc;
  asked = λ r w e. absurd cc;
  begun = λ r e. absurd cc;
  found = λ r e. absurd cc;
}

-- The same writer at the numbers that a step does not touch.
elsewhere :
    (s : PathLock) (w : ℕ) (a b : Writer) (u : ℕ)
    → u ≢ w
    → s.writers u ≡ b
    → update s.writers w a u ≡ b
elsewhere s w a b u h e = update-other s.writers w a u h ∙ e

pub write-IsSound :
    (done : ℕ) (stage : Stage) (s : PathLock) → IsSound done stage s → IsSound done stage (write s)
unfolding write
write-IsSound done stage s v =
    let new = queued s.tail in
    record {
      ended = λ w h.
          elsewhere s (suc s.tail) new finished w (λ e. omega (arith, e, h, below stage v.bound))
            (v.ended w h);
      current = at stage v.bound v.current;
      waits = λ w h k. elim (Bool-cases (w == s.tail)) [
        | inl e ↦
            let same : w ≡ s.tail = ground (arith, ==_iff w s.tail) in
            subst (λ n. update s.writers (suc s.tail) new (suc n) ≡ queued n) (sym same)
              (update-same s.writers (suc s.tail) new)
        | inr e ↦
            let off : w ≢ s.tail = λ same. ground (arith, ==_iff w s.tail) in
            elsewhere s (suc s.tail) new (queued w) (suc w) (λ same. off (omega (arith, same)))
              (v.waits w h (ground (arith, ==_iff w s.tail)))
      ];
      fresh = λ w h.
          elsewhere s (suc s.tail) new no_writer w (λ e. omega (arith, e, h))
            (v.fresh w (omega (arith, h)));
      bound = omega (arith, v.bound);
      gate = v.gate;
      seen = v.seen;
      asked = v.asked;
      begun = v.begun;
      found = v.found;
    }
  where
    below : (now : Stage) → first now done ≤ s.tail → done ≤ s.tail
    below idle h = h
    below (drains found) h = omega (arith, h)
    below runs_fn h = omega (arith, h)

    at :
        (now : Stage)
        → first now done ≤ s.tail
        → IsAt now (s.writers (suc done))
        → IsAt now (update s.writers (suc s.tail) (queued s.tail) (suc done))
    at idle h e = tt
    at (drains found) h e =
        elsewhere s (suc s.tail) (queued s.tail) (draining found) (suc done)
          (λ same. omega (arith, same, h)) e
    at runs_fn h e =
        elsewhere s (suc s.tail) (queued s.tail) writing (suc done) (λ same. omega (arith, same, h))
          e

pub run-IsSound :
    (done : ℕ) (s : PathLock)
    → IsSound done idle s
    → suc done ≤ s.tail
    → IsSound done (drains s.active) (run (suc done) s)
unfolding run
run-IsSound done s v h = record {
  ended = λ w k.
      elsewhere s (suc done) (draining s.active) finished w (λ e. omega (arith, e, k))
        (v.ended w k);
  current = update-same s.writers (suc done) (draining s.active);
  waits = λ w k l.
      elsewhere s (suc done) (draining s.active) (queued w) (suc w) (λ e. omega (arith, e, k))
        (v.waits w (omega (arith, k)) l);
  fresh = λ w k.
      elsewhere s (suc done) (draining s.active) no_writer w (λ e. omega (arith, e, k, h))
        (v.fresh w k);
  bound = h;
  gate = refl;
  seen = v.seen;
  asked = λ r w e. omega (arith, v.asked r w e);
  begun = v.begun;
  found = v.begun;
}

All-is_in : (P : ℕ → Type 0) (rs : List ℕ) (r : ℕ) → All P rs → is_in r rs ≡ true → P r
All-is_in P [] r h e = absurd cc
All-is_in P (q ∷ rs) r (h, hs) e = elim (Bool-cases (q == r)) [
  | inl same ↦ subst P (ground (arith, ==_iff q r)) h
  | inr other ↦ All-is_in P rs r hs (ground arith)
]

pub call_fn-IsSound :
    (done : ℕ) (found : List ℕ) (s : PathLock)
    → IsSound done (drains found) s
    → All (λ r. HasSettled (s.readers r)) found
    → IsSound done runs_fn (call_fn (suc done) s)
unfolding call_fn
call_fn-IsSound done found s v h = record {
  ended = λ w k. elsewhere s (suc done) writing finished w (λ e. omega (arith, e, k)) (v.ended w k);
  current = update-same s.writers (suc done) writing;
  waits = λ w k l.
      elsewhere s (suc done) writing (queued w) (suc w) (λ e. omega (arith, e, k)) (v.waits w k l);
  fresh = λ w k.
      elsewhere s (suc done) writing no_writer w (λ e. omega (arith, e, k, v.bound)) (v.fresh w k);
  bound = v.bound;
  gate = v.gate;
  seen =
      λ r e. subst HasSettled e (All-is_in (λ r. HasSettled (s.readers r)) found r h (v.seen r e));
  asked = v.asked;
  begun = v.begun;
  found = λ r e. absurd cc;
}

pub finish-IsSound :
    (done : ℕ) (s : PathLock)
    → IsSound done runs_fn s
    → IsSound (suc done) idle (finish (suc done) s)
unfolding finish
finish-IsSound done s v = record {
  ended = λ w k. elim (Bool-cases (w == suc done)) [
    | inl e ↦ rw e refl
    | inr e ↦ rw e (v.ended w (ground (arith, ==_iff w (suc done))))
  ];
  current = tt;
  waits = λ w k l.
      elsewhere s (suc done) finished (queued w) (suc w) (λ e. omega (arith, e, k)) (v.waits w k l);
  fresh = λ w k.
      elsewhere s (suc done) finished no_writer w (λ e. omega (arith, e, k, v.bound)) (v.fresh w k);
  bound = v.bound;
  gate = refl;
  seen = λ r e. absurd (v.seen r e);
  asked = v.asked;
  begun = v.begun;
  found = λ r e. absurd cc;
}
