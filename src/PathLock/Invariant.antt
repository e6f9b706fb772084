-- ===== src/PathLock/Invariant.antt =====
-- What holds of the lock at all times.
use mountx.Common.{
  ℕ, zero, suc, ◌≤◌, ◌<◌, ◌≡◌, ◌≢◌, refl, ap, ◌∙◌, Bool, true, Option, none, some, List, [], ◌==◌,
  nat_eq, any, arith, Bool-cases, inl, inr, ◌⊎◌, ==_iff, leb,
}
use mountx.PathLock.{
  Reader, waiting, reading, settled, returned, Writer, no_writer, queued, draining, writing,
  finished, PathLock, update,
}

-- What the write behind the last finished one does.
pub data Stage : Type 0 where
  idle : Stage
  drains : List ℕ → Stage
  runs_fn : Stage

abbrev pub is_in : ℕ → List ℕ → Bool
is_in r rs = any (λ q. q == r) rs

-- The first number whose successor is the number of a queued write.
abbrev pub first : Stage → ℕ → ℕ
first idle done = done
first (drains found) done = suc done
first runs_fn done = suc done

abbrev pub gate_of : Stage → ℕ → Option ℕ
gate_of idle done = none
gate_of (drains found) done = some (suc done)
gate_of runs_fn done = some (suc done)

abbrev pub IsAt : Stage → Writer → Type 0
IsAt idle w = Unit
IsAt (drains found) w = w ≡ draining found
IsAt runs_fn w = w ≡ writing

abbrev pub IsSeen : Stage → List ℕ → ℕ → Type 0
IsSeen idle active r = is_in r active ≡ true
IsSeen (drains found) active r = is_in r found ≡ true
IsSeen runs_fn active r = ⊥

abbrev pub HasBegun : Reader → Type 0
HasBegun reading = Unit
HasBegun settled = Unit
HasBegun returned = Unit
HasBegun _ = ⊥

abbrev pub found_of : Stage → List ℕ
found_of idle = []
found_of (drains found) = found
found_of runs_fn = []

pub record IsSound (done : ℕ) (stage : Stage) (s : PathLock) : Type 0 where
  pub ended : (w : ℕ) → w ≤ done → s.writers w ≡ finished
  pub current : IsAt stage (s.writers (suc done))
  pub waits : (w : ℕ) → first stage done ≤ w → suc w ≤ s.tail → s.writers (suc w) ≡ queued w
  pub fresh : (w : ℕ) → s.tail < w → s.writers w ≡ no_writer
  pub bound : first stage done ≤ s.tail
  pub gate : s.gate ≡ gate_of stage done
  pub seen : (r : ℕ) → s.readers r ≡ reading → IsSeen stage s.active r
  pub begun : (r : ℕ) → is_in r s.active ≡ true → HasBegun (s.readers r)
  pub asked : (r w : ℕ) → s.readers r ≡ waiting w → w ≤ first stage done
  pub found : (r : ℕ) → is_in r (found_of stage) ≡ true → HasBegun (s.readers r)

pub update-same : {A : Type 0} (f : ℕ → A) (i : ℕ) (a : A) → update f i a i ≡ a
update-same f i a = ground (arith, ==_iff i i)

pub update-other : {A : Type 0} (f : ℕ → A) (i : ℕ) (a : A) (j : ℕ) → j ≢ i → update f i a j ≡ f j
update-other f i a j h = ground (arith, ==_iff j i)

abbrev pub IsActive : Stage → Type 0
IsActive idle = ⊥
IsActive (drains found) = Unit
IsActive runs_fn = Unit

-- Where a write of any number stands.
data Place (done : ℕ) (stage : Stage) (s : PathLock) (w : ℕ) : Type 0 where
  behind : w ≤ done → s.writers w ≡ finished → Place done stage s w
  at_it : w ≡ suc done → IsActive stage → Place done stage s w
  ahead :
      (u : ℕ)
      → w ≡ suc u
      → first stage done ≤ u
      → suc u ≤ s.tail
      → s.writers w ≡ queued u
      → Place done stage s w
  nowhere : s.tail < w → s.writers w ≡ no_writer → Place done stage s w

module _ (done : ℕ) where
  ahead_or_at :
      (stage : Stage) (u : ℕ) → done ≤ u → (first stage done ≤ u) ⊎ ((u ≡ done) × IsActive stage)
  ahead_or_at idle u h = inl h
  ahead_or_at (drains found) u h = elim (Bool-cases (u == done)) [
    | inl e ↦ inr (ground (arith, ==_iff u done), tt)
    | inr e ↦ inl (ground (arith, ==_iff u done))
  ]
  ahead_or_at runs_fn u h = elim (Bool-cases (u == done)) [
    | inl e ↦ inr (ground (arith, ==_iff u done), tt)
    | inr e ↦ inl (ground (arith, ==_iff u done))
  ]

module _ (done : ℕ) (stage : Stage) (s : PathLock) (v : IsSound done stage s) where
  place : (w : ℕ) → Place done stage s w
  place zero = behind (omega arith) (v.ended 0 (omega arith))
  place (suc u) = elim (Bool-cases (leb (suc u) done)) [
    | inl e ↦ let h : suc u ≤ done = ground arith in behind h (v.ended (suc u) h)
    | inr e ↦ elim (Bool-cases (leb (suc u) s.tail)) [
      | inr e' ↦ let h : s.tail < suc u = ground arith in nowhere h (v.fresh (suc u) h)
      | inl e' ↦
          let h : suc u ≤ s.tail = ground arith in
          elim (ahead_or_at done stage u (ground arith)) [
            | inl k ↦ ahead u refl k h (v.waits u k h)
            | inr (same, active) ↦ at_it (ap suc same) active
          ]
    ]
  ]

  -- The write behind the last finished one, where it has started.
  at_current :
      (w : ℕ)
      → w ≡ suc done
      → IsActive stage
      → ((found : List ℕ) × (stage ≡ drains found) × (s.writers w ≡ draining found))
        ⊎ ((stage ≡ runs_fn) × (s.writers w ≡ writing))
  at_current w e active = named stage refl active v.current
    where
      named :
          (now : Stage)
          → stage ≡ now
          → IsActive now
          → IsAt now (s.writers (suc done))
          → ((found : List ℕ) × (stage ≡ drains found) × (s.writers w ≡ draining found))
            ⊎ ((stage ≡ runs_fn) × (s.writers w ≡ writing))
      named idle same a at = absurd a
      named (drains found) same a at = inl (found, same, ap s.writers e ∙ at)
      named runs_fn same a at = inr (same, ap s.writers e ∙ at)

  pub finished_only : (w : ℕ) → s.writers w ≡ finished → w ≤ done
  finished_only w e = elim (place w) [
    | behind h _ ↦ h
    | at_it same active ↦ elim (at_current w same active) [
      | inl (found, _, at) ↦ absurd cc
      | inr (_, at) ↦ absurd cc
    ]
    | ahead u _ _ _ at ↦ absurd cc
    | nowhere _ at ↦ absurd cc
  ]

  pub queued_only :
      (w u : ℕ) → s.writers w ≡ queued u → (w ≡ suc u) × (first stage done ≤ u) × (w ≤ s.tail)
  queued_only w u e = elim (place w) [
    | behind _ at ↦ absurd cc
    | at_it same active ↦ elim (at_current w same active) [
      | inl (found, _, at) ↦ absurd cc
      | inr (_, at) ↦ absurd cc
    ]
    | ahead u' same h k at ↦
        let one : u ≡ u' = cc in
        (omega (arith, same, one), omega (arith, h, one), omega (arith, k, same))
    | nowhere _ at ↦ absurd cc
  ]

  pub draining_only :
      (w : ℕ) (found : List ℕ)
      → s.writers w ≡ draining found
      → (w ≡ suc done) × (stage ≡ drains found)
  draining_only w found e = elim (place w) [
    | behind _ at ↦ absurd cc
    | at_it same active ↦ elim (at_current w same active) [
      | inl (found', now, at) ↦ (same, cc)
      | inr (_, at) ↦ absurd cc
    ]
    | ahead u _ _ _ at ↦ absurd cc
    | nowhere _ at ↦ absurd cc
  ]

  pub writing_only : (w : ℕ) → s.writers w ≡ writing → (w ≡ suc done) × (stage ≡ runs_fn)
  writing_only w e = elim (place w) [
    | behind _ at ↦ absurd cc
    | at_it same active ↦ elim (at_current w same active) [
      | inl (found, _, at) ↦ absurd cc
      | inr (now, at) ↦ (same, now)
    ]
    | ahead u _ _ _ at ↦ absurd cc
    | nowhere _ at ↦ absurd cc
  ]
