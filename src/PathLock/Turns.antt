-- ===== src/PathLock/Turns.antt =====
-- The next write comes to its function, once what it has found settles.
use mountx.Common.{
  ap, ◌∙◌, ℕ, suc, ◌≤◌, ◌≡◌, refl, sym, subst, true, List, [], ◌∷◌, ◌==◌, nat_eq, All, arith,
  Bool-cases, inl, inr, ◌⊎◌, ==_iff,
}
use mountx.PathLock.{
  Reader, not_called, waiting, reading, settled, returned, PathLock, update, settle, run, call_fn,
  HasSettled, Progress, settles, runs, drained,
}
use mountx.PathLock.Invariant.{Stage, idle, drains, runs_fn, is_in, HasBegun, IsSound, update-same}
use mountx.PathLock.Reads.{update-HasBegun, settle-IsSound}
use mountx.PathLock.Writes.{run-IsSound, call_fn-IsSound}

-- Steps without a new call.
pub data Settles : PathLock → PathLock → Type 0 where
  now : {s : PathLock} → Settles s s
  then : {s t u : PathLock} → Progress s t → Settles t u → Settles s u

pub Settles-then : {s t u : PathLock} → Settles s t → Settles t u → Settles s u
Settles-then now q = q
Settles-then (then step p) q = then step (Settles-then p q)

begun_cases : (a : Reader) → HasBegun a → (a ≡ reading) ⊎ HasSettled a
begun_cases reading h = inl refl
begun_cases settled h = inr tt
begun_cases returned h = inr tt
begun_cases not_called h = absurd h
begun_cases (waiting w) h = absurd h

update-HasSettled :
    (f : ℕ → Reader) (r q : ℕ) → HasSettled (f q) → HasSettled (update f r settled q)
update-HasSettled f r q h = elim (Bool-cases (q == r)) [ inl e ↦ rw e tt | inr e ↦ rw e h ]

still_waits :
    (f : ℕ → Reader) (r q w : ℕ)
    → f r ≡ reading
    → f q ≡ waiting w
    → update f r settled q ≡ waiting w
still_waits f r q w running e = elim (Bool-cases (q == r)) [
  | inl h ↦
      let same : q ≡ r = ground (arith, ==_iff q r) in
      let both : f q ≡ reading = ap f same ∙ running in absurd cc
  | inr h ↦ rw h e
]

All-is_in_of : (P : ℕ → Type 0) (rs : List ℕ) → ((r : ℕ) → is_in r rs ≡ true → P r) → All P rs
All-is_in_of P [] h = tt
All-is_in_of P (r ∷ rs) h =
    (h r (ground (arith, ==_iff r r)), All-is_in_of P rs (λ q e. h q (ground arith)))

All-map : (P Q : ℕ → Type 0) (rs : List ℕ) → ((r : ℕ) → P r → Q r) → All P rs → All Q rs
All-map P Q [] f h = tt
All-map P Q (r ∷ rs) f (h, hs) = (f r h, All-map P Q rs f hs)

module _ (done : ℕ) (stage : Stage) where
  record Settled (rs : List ℕ) (s t : PathLock) : Type 0 where
    path : Settles s t
    sound : IsSound done stage t
    tail : t.tail ≡ s.tail
    all : All (λ r. HasSettled (t.readers r)) rs
    waits : (r w : ℕ) → s.readers r ≡ waiting w → t.readers r ≡ waiting w
    stays : (r : ℕ) → HasSettled (s.readers r) → HasSettled (t.readers r)

  -- The functions of some reads settle, one after another.
  settle_all :
      (rs : List ℕ) (s : PathLock)
      → IsSound done stage s
      → All (λ r. HasBegun (s.readers r)) rs
      → (t : PathLock) × Settled rs s t
  unfolding settle
  settle_all [] s v h = (
    s,
    record { path = now; sound = v; tail = refl; all = tt; waits = λ r w e. e; stays = λ r h. h },
  )
  settle_all (r ∷ rs) s v (h, hs) = elim (begun_cases (s.readers r) h) [
    | inr already ↦
        let (t, later) = settle_all rs s v hs in
        (
          t,
          record {
            path = later.path;
            sound = later.sound;
            tail = later.tail;
            all = (later.stays r already, later.all);
            waits = later.waits;
            stays = later.stays;
          },
        )
    | inl running ↦
        let s' = settle r s in
        let begun =
          All-map (λ q. HasBegun (s.readers q)) (λ q. HasBegun (s'.readers q)) rs
            (λ q. update-HasBegun s.readers r settled q tt) hs in
        let (t, later) = settle_all rs s' (settle-IsSound done stage s r v) begun in
        let at : HasSettled (s'.readers r) =
          subst HasSettled (sym (update-same s.readers r settled)) tt in
        (
          t,
          record {
            path = then (settles r running) later.path;
            sound = later.sound;
            tail = later.tail;
            all = (later.stays r at, later.all);
            waits = λ q w e. later.waits q w (still_waits s.readers r q w running e);
            stays = λ q k. later.stays q (update-HasSettled s.readers r q k);
          },
        )
  ]

-- The write behind the last finished one comes to its function, and what waits for a gate still does.
pub record Turn (done : ℕ) (s t : PathLock) : Type 0 where
  pub path : Settles s t
  pub sound : IsSound done runs_fn t
  pub tail : t.tail ≡ s.tail
  pub waits : (r w : ℕ) → s.readers r ≡ waiting w → t.readers r ≡ waiting w

pub drains-Turn :
    (done : ℕ) (found : List ℕ) (s : PathLock)
    → IsSound done (drains found) s
    → (t : PathLock) × Turn done s t
unfolding call_fn
drains-Turn done found s v =
    let begun = All-is_in_of (λ r. HasBegun (s.readers r)) found v.found in
    let (t, still) = settle_all done (drains found) found s v begun in
    let w = still.sound in
    (
      call_fn (suc done) t,
      record {
        path = Settles-then still.path (then (drained (suc done) found w.current still.all) now);
        sound = call_fn-IsSound done found t w still.all;
        tail = still.tail;
        waits = still.waits;
      },
    )

pub next-Turn :
    (done : ℕ) (stage : Stage) (s : PathLock)
    → IsSound done stage s
    → suc done ≤ s.tail
    → (t : PathLock) × Turn done s t
unfolding run
next-Turn done runs_fn s v h =
    (s, record { path = now; sound = v; tail = refl; waits = λ r w e. e })
next-Turn done (drains found) s v h = drains-Turn done found s v
next-Turn done idle s v h =
    let step = runs (suc done) done (v.waits done (omega arith) h) (v.ended done (omega arith)) in
    let (t, turn) = drains-Turn done s.active (run (suc done) s) (run-IsSound done s v h) in
    (
      t,
      record {
        path = then step turn.path;
        sound = turn.sound;
        tail = turn.tail;
        waits = turn.waits;
      },
    )
