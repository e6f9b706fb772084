-- ===== src/PathLock/Reads.antt =====
-- Every step of a read keeps the invariant.
use mountx.Common.{
  suc, ◌≤◌, ◌≢◌, ℕ, ◌≡◌, refl, sym, ◌∙◌, subst, true, false, not, none, some, List, [], ◌∷◌, ◌++◌,
  ◌==◌, nat_eq, if◌then◌else◌, filter, arith, Bool-cases, inl, inr, ◌||◌, ==_iff, any-append,
  Option-cases,
}
use mountx.PathLock.{
  Reader, waiting, reading, settled, returned, PathLock, update, enter, settle, leave,
}
use mountx.PathLock.Invariant.{
  Stage, idle, drains, runs_fn, is_in, first, gate_of, IsSeen, HasBegun, IsSound,
}

pub update-HasBegun :
    (f : ℕ → Reader) (r : ℕ) (a : Reader) (q : ℕ)
    → HasBegun a
    → HasBegun (f q)
    → HasBegun (update f r a q)
update-HasBegun f r a q ha hq = elim (Bool-cases (q == r)) [ inl e ↦ rw e ha | inr e ↦ rw e hq ]

other-HasBegun :
    (f : ℕ → Reader) (r : ℕ) (a : Reader) (q : ℕ)
    → (HasBegun (f r) → ⊥)
    → HasBegun (f q)
    → HasBegun (update f r a q)
other-HasBegun f r a q hr hq = elim (Bool-cases (q == r)) [
  | inl e ↦
      let same : q ≡ r = ground (arith, ==_iff q r) in
      absurd (hr (subst (λ p. HasBegun (f p)) same hq))
  | inr e ↦ rw e hq
]

-- A read that waits is not the one that goes on.
unasked :
    (f : ℕ → Reader) (r : ℕ) (a : Reader) (q w : ℕ)
    → a ≢ waiting w
    → update f r a q ≡ waiting w
    → f q ≡ waiting w
unasked f r a q w h e = elim (Bool-cases (q == r)) [
  | inl same ↦ let at : update f r a q ≡ a = rw same refl in absurd (h (sym at ∙ e))
  | inr other ↦ let at : update f r a q ≡ f q = rw other refl in sym at ∙ e
]

is_in-append : (q r : ℕ) (rs : List ℕ) → is_in q (rs ++ r ∷ []) ≡ is_in q rs || (r == q)
is_in-append q r rs = ground (arith, any-append (λ p. p == q) rs (r ∷ []))

module _ (done : ℕ) (stage : Stage) (s : PathLock) (v : IsSound done stage s) where
  gate_only : s.gate ≡ none → stage ≡ idle
  gate_only e = named stage (sym e ∙ v.gate)
    where
      named : (now : Stage) → none ≡ gate_of now done → now ≡ idle
      named idle h = refl
      named (drains found) h = absurd cc
      named runs_fn h = absurd cc

  gate_number : (w : ℕ) → s.gate ≡ some w → w ≤ first stage done
  gate_number w e = named stage (sym v.gate ∙ e)
    where
      named : (now : Stage) → gate_of now done ≡ some w → w ≤ first now done
      named idle h = absurd cc
      named (drains found) h = let same : suc done ≡ w = cc in omega (arith, same)
      named runs_fn h = let same : suc done ≡ w = cc in omega (arith, same)

  waits-IsSound :
      (r w : ℕ)
      → w ≤ first stage done
      → (HasBegun (s.readers r) → ⊥)
      → IsSound done stage (record s { readers = update s.readers r (waiting w) })
  waits-IsSound r w k h = record {
    ended = v.ended;
    current = v.current;
    waits = v.waits;
    fresh = v.fresh;
    bound = v.bound;
    gate = v.gate;
    seen = λ q e. elim (Bool-cases (q == r)) [
      | inl same ↦ let at : update s.readers r (waiting w) q ≡ waiting w = rw same refl in absurd cc
      | inr other ↦
          let at : update s.readers r (waiting w) q ≡ s.readers q = rw other refl in
          v.seen q (sym at ∙ e)
    ];
    asked = λ q u e. elim (Bool-cases (q == r)) [
      | inl same ↦
          let at : update s.readers r (waiting w) q ≡ waiting w = rw same refl in
          let one : w ≡ u = cc in omega (arith, k, one)
      | inr other ↦
          let at : update s.readers r (waiting w) q ≡ s.readers q = rw other refl in
          v.asked q u (sym at ∙ e)
    ];
    begun = λ q e. other-HasBegun s.readers r (waiting w) q h (v.begun q e);
    found = λ q e. other-HasBegun s.readers r (waiting w) q h (v.found q e);
  }

reads-IsSound :
    (done : ℕ) (s : PathLock) (r : ℕ)
    → IsSound done idle s
    → IsSound done idle
        (record s { readers = update s.readers r reading; active = s.active ++ r ∷ [] })
reads-IsSound done s r v = record {
  asked = λ q w e. v.asked q w (unasked s.readers r reading q w (λ e. cc) e);
  ended = v.ended;
  current = v.current;
  waits = v.waits;
  fresh = v.fresh;
  bound = v.bound;
  gate = v.gate;
  seen = λ q e. elim (Bool-cases (r == q)) [
    | inl same ↦ ground (arith, is_in-append q r s.active)
    | inr other ↦
        let off : (q == r) ≡ false = ground (arith, ==_iff q r, ==_iff r q) in
        let at : update s.readers r reading q ≡ s.readers q = rw off refl in
        let old = v.seen q (sym at ∙ e) in ground (arith, is_in-append q r s.active, old)
  ];
  begun = λ q e. elim (Bool-cases (q == r)) [
    | inl same ↦ rw same tt
    | inr other ↦
        let off : (r == q) ≡ false = ground (arith, ==_iff q r, ==_iff r q) in
        let old : is_in q s.active ≡ true = ground (arith, is_in-append q r s.active) in
        rw other (v.begun q old)
  ];
  found = λ q e. absurd cc;
}

pub enter-open :
    (r : ℕ) (s : PathLock)
    → s.gate ≡ none
    → enter r s ≡ record s { readers = update s.readers r reading; active = s.active ++ r ∷ [] }
unfolding enter
enter-open r s e = rw e refl

enter-gate :
    (r w : ℕ) (s : PathLock)
    → s.gate ≡ some w
    → enter r s ≡ record s { readers = update s.readers r (waiting w) }
unfolding enter
enter-gate r w s e = rw e refl

pub enter-IsSound :
    (done : ℕ) (stage : Stage) (s : PathLock) (r : ℕ)
    → IsSound done stage s
    → (HasBegun (s.readers r) → ⊥)
    → IsSound done stage (enter r s)
enter-IsSound done stage s r v h = elim (Option-cases s.gate) [
  | inl e ↦
      let still = gate_only done stage s v e in
      subst (λ now. IsSound done now (enter r s)) (sym still)
        (subst (IsSound done idle) (sym (enter-open r s e))
          (reads-IsSound done s r (subst (λ now. IsSound done now s) still v)))
  | inr (w, e) ↦
      subst (IsSound done stage) (sym (enter-gate r w s e))
        (waits-IsSound done stage s v r w (gate_number done stage s v w e) h)
]

pub settle-IsSound :
    (done : ℕ) (stage : Stage) (s : PathLock) (r : ℕ)
    → IsSound done stage s
    → IsSound done stage (settle r s)
unfolding settle
settle-IsSound done stage s r v = record {
  asked = λ q w e. v.asked q w (unasked s.readers r settled q w (λ e. cc) e);
  ended = v.ended;
  current = v.current;
  waits = v.waits;
  fresh = v.fresh;
  bound = v.bound;
  gate = v.gate;
  seen = λ q e. elim (Bool-cases (q == r)) [
    | inl same ↦ let at : update s.readers r settled q ≡ settled = rw same refl in absurd cc
    | inr other ↦
        let at : update s.readers r settled q ≡ s.readers q = rw other refl in v.seen q (sym at ∙ e)
  ];
  begun = λ q e. update-HasBegun s.readers r settled q tt (v.begun q e);
  found = λ q e. update-HasBegun s.readers r settled q tt (v.found q e);
}

is_in-filter :
    (q r : ℕ) (rs : List ℕ)
    → is_in q (filter (λ p. not (p == r)) rs) ≡ (if q == r then false else is_in q rs)
is_in-filter q r [] = ground arith
is_in-filter q r (p ∷ rs) = ground (arith, is_in-filter q r rs, ==_iff p r, ==_iff q r, ==_iff p q)

pub leave-IsSound :
    (done : ℕ) (stage : Stage) (s : PathLock) (r : ℕ)
    → IsSound done stage s
    → IsSound done stage (leave r s)
unfolding leave
leave-IsSound done stage s r v = record {
  asked = λ q w e. v.asked q w (unasked s.readers r returned q w (λ e. cc) e);
  ended = v.ended;
  current = v.current;
  waits = v.waits;
  fresh = v.fresh;
  bound = v.bound;
  gate = v.gate;
  seen = λ q e. elim (Bool-cases (q == r)) [
    | inl same ↦ let at : update s.readers r returned q ≡ returned = rw same refl in absurd cc
    | inr other ↦
        let at : update s.readers r returned q ≡ s.readers q = rw other refl in
        kept stage q other (v.seen q (sym at ∙ e))
  ];
  begun = λ q e.
      update-HasBegun s.readers r returned q tt
        (v.begun q (ground (arith, is_in-filter q r s.active)));
  found = λ q e. update-HasBegun s.readers r returned q tt (v.found q e);
}
  where
    kept :
        (now : Stage) (q : ℕ)
        → (q == r) ≡ false
        → IsSeen now s.active q
        → IsSeen now (filter (λ p. not (p == r)) s.active) q
    kept idle q other h = ground (arith, is_in-filter q r s.active)
    kept (drains found) q other h = h
    kept runs_fn q other h = h
