-- ===== src/DavLocks/Histories.antt =====
-- The lock table after any calls.
use mountx.Common.{
  ℕ, ◌≡◌, inl, inr, Bool, true, false, ◌||◌, Option, none, some, List, [], ◌∷◌, Text, ◌==◌, ==_iff,
  nat_eq, text_eq, leb, length, arith, all, Bool-cases, Option-cases,
}
use mountx.Common.Assoc.{
  lookup, insert, delete, lookup-insert, lookup-delete, insert-HasDistinctKeys,
  delete-HasDistinctKeys,
}
use mountx.DavLocks.Scope.{is_absolute, overlap}
use mountx.DavLocks.Grants.{
  Compatible, IsValid, sweep-IsValid, sweep-sweep, conflict-table, conflict-none,
}
use mountx.DavLocks.{
  Timeout, DavLock, DavLockRequest, DavLockTable, DavLockTableOptions, create_table, sweep, size,
  in_scope, find_lock, conflict, new_lock, add_lock, take_lock, create, restarted, refresh, remove,
}

-- The calls that change the table; `read_call` is any of those that only sweep it.
pub data Call (Node : Type 0) : Type 0 where
  create_call : DavLockRequest Node → Text → ℕ → Call Node
  refresh_call : Text → Option Timeout → ℕ → Call Node
  remove_call : Text → Call Node
  read_call : ℕ → Call Node

module _ {Node : Type 0} where
  swapped : (l m : DavLock Node) → Compatible l m → Compatible m l
  swapped l m c q hm hl = ground (arith, c q hl hm)

  insert-IsValid :
      (k : Text) (l : DavLock Node) (t : DavLockTable Node)
      → IsValid t
      → is_absolute l.path ≡ true
      → ((j : Text) (m : DavLock Node)
          → (k == j) ≡ false
          → lookup j t.locks ≡ some m
          → Compatible m l)
      → IsValid (record t { locks = insert k l t.locks })
  insert-IsValid k l t v a c = record {
    distinct = insert-HasDistinctKeys k l t.locks v.distinct;
    absolute = λ j m h. ground (arith, lookup-insert k j l t.locks, v.absolute j m, h, a);
    apart = λ i j m n ne hi hj. elim (Bool-cases (k == i)) [
      | inl ki ↦
          let other : (k == j) ≡ false = ground (arith, ==_iff k i, ne) in
          let here : m ≡ l = ground (arith, lookup-insert k i l t.locks, hi, ki) in
          let there : lookup j t.locks ≡ some n =
            ground (arith, lookup-insert k j l t.locks, hj, other) in
          rw here (swapped n l (c j n other there))
      | inr ki ↦ elim (Bool-cases (k == j)) [
        | inl kj ↦
            let here : n ≡ l = ground (arith, lookup-insert k j l t.locks, hj, kj) in
            let there : lookup i t.locks ≡ some m =
              ground (arith, lookup-insert k i l t.locks, hi, ki) in
            rw here (c i m ki there)
        | inr kj ↦
            v.apart i j m n ne (ground (arith, lookup-insert k i l t.locks, hi, ki))
              (ground (arith, lookup-insert k j l t.locks, hj, kj))
      ]
    ];
  }

  delete-IsValid :
      (k : Text) (t : DavLockTable Node)
      → IsValid t
      → IsValid (record t { locks = delete k t.locks })
  delete-IsValid k t v = record {
    distinct = delete-HasDistinctKeys k t.locks v.distinct;
    absolute = λ j m h. v.absolute j m (was j m h);
    apart = λ i j m n ne hi hj. v.apart i j m n ne (was i m hi) (was j n hj);
  }
    where
      was :
          (j : Text) (m : DavLock Node)
          → lookup j (delete k t.locks) ≡ some m
          → lookup j t.locks ≡ some m
      was j m h = ground (arith, lookup-delete k j t.locks)

  -- A request that no lock stops can stand beside every lock of the table.
  clear_of :
      (r : DavLockRequest Node) (token : Text) (now : ℕ) (t : DavLockTable Node)
      → IsValid t
      → is_absolute r.path ≡ true
      → (conflict r.path r.depth r.exclusive now t).1 ≡ none
      → (k : Text) (l : DavLock Node) → lookup k (sweep now t).locks ≡ some l
      → Compatible l (new_lock r token now (sweep now t))
  unfolding new_lock
  clear_of r token now t v a clear k l h q hl hm =
      let meet =
        overlap l (new_lock r token now (sweep now t)) q ((sweep-IsValid now t v).absolute k l h) a
          hl hm in
      ground (arith, conflict-none r.path r.depth r.exclusive now t clear k l h meet)

  take_lock-IsValid :
      (r : DavLockRequest Node) (token : Text) (now : ℕ) (t : DavLockTable Node)
      → IsValid t
      → is_absolute r.path ≡ true
      → (conflict r.path r.depth r.exclusive now t).1 ≡ none
      → IsValid (take_lock r token now (sweep now t)).0
  unfolding take_lock size add_lock new_lock
  take_lock-IsValid r token now t v a clear =
      let swept = sweep now t in
      let swept_valid = sweep-IsValid now t v in
      rw sweep-sweep (elim (Bool-cases (leb swept.max_locks (length swept.locks))) [
        | inl e ↦ rw e swept_valid
        | inr e ↦ rw e (
            insert-IsValid token (new_lock r token now swept) swept swept_valid
              (unfold new_lock in a) (λ k l ne h. clear_of r token now t v a clear k l h))
      ])

  pub create-IsValid :
      (r : DavLockRequest Node) (token : Text) (now : ℕ) (t : DavLockTable Node)
      → IsValid t
      → is_absolute r.path ≡ true
      → IsValid (create r token now t).0
  unfolding create
  create-IsValid r token now t v a =
      elim (Option-cases (conflict r.path r.depth r.exclusive now t).1) [
        | inl clear ↦
            rw (clear, create) (rw conflict-table (take_lock-IsValid r token now t v a clear))
        | inr (l, e) ↦ rw (e, create) (rw conflict-table (sweep-IsValid now t v))
      ]

  restarted-Compatible :
      (l m : DavLock Node) (requested : Option Timeout) (now : ℕ) (t : DavLockTable Node)
      → Compatible m l
      → Compatible m (restarted l requested now t)
  unfolding restarted in_scope
  restarted-Compatible l m requested now t c = unfold in_scope in c

  pub refresh-IsValid :
      (token : Text) (requested : Option Timeout) (now : ℕ) (t : DavLockTable Node)
      → IsValid t
      → IsValid (refresh token requested now t).0
  unfolding refresh find_lock
  refresh-IsValid token requested now t v =
      let swept = sweep now t in
      let sv = sweep-IsValid now t v in
      elim (Option-cases (lookup token swept.locks)) [
        | inl e ↦ rw (e, refresh) sv
        | inr (l, e) ↦
            rw (e, refresh)
              (insert-IsValid token (restarted l requested now swept) swept sv
                (unfold restarted in sv.absolute token l e)
                (λ k m ne h.
                  restarted-Compatible l m requested now swept (
                    sv.apart k token m l (ground (arith, ne, ==_iff token k, ==_iff k token)) h e)))
      ]

  unfoldable pub step : Call Node → DavLockTable Node → DavLockTable Node
  step (create_call r token now) t = (create r token now t).0
  step (refresh_call token requested now) t = (refresh token requested now t).0
  step (remove_call token) t = (remove token t).0
  step (read_call now) t = (size now t).0

  unfoldable pub run : List (Call Node) → DavLockTable Node → DavLockTable Node
  run [] t = t
  run (call ∷ calls) t = run calls (step call t)

  -- The session passes driver paths.
  abbrev pub absolute_call : Call Node → Bool
  absolute_call (create_call r token now) = is_absolute r.path
  absolute_call (refresh_call token requested now) = true
  absolute_call (remove_call token) = true
  absolute_call (read_call now) = true

  step-IsValid :
      (call : Call Node) (t : DavLockTable Node)
      → IsValid t
      → absolute_call call ≡ true
      → IsValid (step call t)
  unfolding step remove size
  step-IsValid (create_call r token now) t v a = create-IsValid r token now t v a
  step-IsValid (refresh_call token requested now) t v a = refresh-IsValid token requested now t v
  step-IsValid (remove_call token) t v a = delete-IsValid token t v
  step-IsValid (read_call now) t v a = sweep-IsValid now t v

  run-IsValid :
      (calls : List (Call Node)) (t : DavLockTable Node)
      → IsValid t
      → all absolute_call calls ≡ true
      → IsValid (run calls t)
  unfolding run
  run-IsValid [] t v a = v
  run-IsValid (call ∷ calls) t v a =
      run-IsValid calls (step call t) (step-IsValid call t v (ground arith)) (ground arith)

  pub create_table-IsValid : (o : DavLockTableOptions) → IsValid (create_table {Node = Node} o)
  unfolding create_table lookup
  create_table-IsValid o = record {
    distinct = tt;
    absolute = λ k l h. absurd cc;
    apart = λ j k l m ne h i. absurd cc;
  }

  -- After any calls with driver paths on a new table, two locks under different tokens that cover
  -- one path are both shared: an exclusive lock covers a path alone, at whatever depth each was
  -- taken and in whatever order.
  pub run_compatible :
      (o : DavLockTableOptions) (calls : List (Call Node)) (j k q : Text) (l m : DavLock Node)
      → all absolute_call calls ≡ true
      → (j == k) ≡ false
      → lookup j (run calls (create_table o)).locks ≡ some l
      → lookup k (run calls (create_table o)).locks ≡ some m
      → in_scope l q ≡ true
      → in_scope m q ≡ true
      → l.exclusive || m.exclusive ≡ false
  run_compatible o calls j k q l m a ne hj hk =
      (run-IsValid calls (create_table o) (create_table-IsValid o) a).apart j k l m ne hj hk q
