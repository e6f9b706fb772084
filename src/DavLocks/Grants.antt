-- ===== src/DavLocks/Grants.antt =====
-- A table whose locks can stand together, and that every call leaves it so.
use mountx.Common.{
  ℕ, ◌≡◌, refl, ap, inl, inr, Bool, true, false, ◌&&◌, ◌||◌, Option, none, some, List, [], ◌∷◌,
  ◌++◌, Text, ◌==◌, ==_iff, nat_eq, text_eq, if◌then◌else◌, leb, arith, find, Bool-cases,
}
use mountx.Common.Assoc.{lookup, HasDistinctKeys}
use mountx.FilePath.{is_path_inside}
use mountx.DavLocks.Scope.{is_absolute}
use mountx.DavLocks.{
  LockDepth, zero_depth, infinity, is_infinity, DavLock, DavLockTable, unexpired, sweep, values,
  select, in_scope, covering, within, candidates, conflict,
}

module _ {Node : Type 0} where
  -- Whatever path two locks cover together, they are both shared.
  abbrev pub Compatible : DavLock Node → DavLock Node → Type 0
  Compatible l m =
      (q : Text) → in_scope l q ≡ true → in_scope m q ≡ true → l.exclusive || m.exclusive ≡ false

  pub record IsValid (t : DavLockTable Node) : Type 0 where
    pub distinct : HasDistinctKeys t.locks
    pub absolute :
        (k : Text) (l : DavLock Node) → lookup k t.locks ≡ some l → is_absolute l.path ≡ true
    pub apart :
        (j k : Text) (l m : DavLock Node)
        → (j == k) ≡ false
        → lookup j t.locks ≡ some l
        → lookup k t.locks ≡ some m
        → Compatible l m

  lookup-unexpired_absent :
      (now : ℕ) (k : Text) (es : List (Text × DavLock Node))
      → lookup k es ≡ none
      → lookup k (unexpired now es) ≡ none
  unfolding lookup unexpired
  lookup-unexpired_absent now k [] h = refl
  lookup-unexpired_absent now k ((j, l) ∷ es) h = ground (arith, lookup-unexpired_absent now k es)

  abbrev alive : ℕ → Option (DavLock Node) → Option (DavLock Node)
  alive now none = none
  alive now (some l) = if leb l.expires_at now then none else some l

  pub lookup-unexpired :
      (now : ℕ) (k : Text) (es : List (Text × DavLock Node))
      → HasDistinctKeys es
      → lookup k (unexpired now es) ≡ alive now (lookup k es)
  unfolding lookup unexpired
  lookup-unexpired now k [] d = refl
  lookup-unexpired now k ((j, l) ∷ es) d =
      ground
        (arith, lookup-unexpired now k es d.1, lookup-unexpired_absent now j es d.0, ==_iff j k)

  unexpired-distinct :
      (now : ℕ) (es : List (Text × DavLock Node))
      → HasDistinctKeys es
      → HasDistinctKeys (unexpired now es)
  unfolding unexpired
  unexpired-distinct now [] d = tt
  unexpired-distinct now ((j, l) ∷ es) d =
      ground (arith, unexpired-distinct now es d.1, lookup-unexpired_absent now j es d.0)

  pub sweep-IsValid : (now : ℕ) (t : DavLockTable Node) → IsValid t → IsValid (sweep now t)
  unfolding sweep
  sweep-IsValid now t v = record {
    distinct = unexpired-distinct now t.locks v.distinct;
    absolute = λ k l h. v.absolute k l (was k l h);
    apart = λ j k l m ne hj hk. v.apart j k l m ne (was j l hj) (was k m hk);
  }
    where
      was :
          (k : Text) (l : DavLock Node)
          → lookup k (unexpired now t.locks) ≡ some l
          → lookup k t.locks ≡ some l
      was k l h = ground (arith, lookup-unexpired now k t.locks v.distinct)

  find-append_none :
      (p : DavLock Node → Bool) (ls ms : List (DavLock Node))
      → find p (ls ++ ms) ≡ none
      → (find p ls ≡ none) × (find p ms ≡ none)
  find-append_none p [] ms h = (refl, h)
  find-append_none p (l ∷ ls) ms h = ground (arith, find-append_none p ls ms)

  find-select-none :
      (p c : DavLock Node → Bool) (k : Text) (l : DavLock Node) (es : List (Text × DavLock Node))
      → find p (select c (values es)) ≡ none
      → lookup k es ≡ some l
      → c l ≡ true
      → p l ≡ false
  unfolding lookup select
  find-select-none p c k l [] h e i = absurd cc
  find-select-none p c k l ((j, m) ∷ es) h e i = ground (arith, find-select-none p c k l es)

  unexpired-unexpired :
      (now : ℕ) (es : List (Text × DavLock Node))
      → unexpired now (unexpired now es) ≡ unexpired now es
  unfolding unexpired
  unexpired-unexpired now [] = refl
  unexpired-unexpired now ((j, l) ∷ es) = elim (Bool-cases (leb l.expires_at now)) [
    | inl e ↦ rw e (unexpired-unexpired now es)
    | inr e ↦ rw (e, e) (ap (◌∷◌ (j, l)) (unexpired-unexpired now es))
  ]

  pub sweep-sweep : (now : ℕ) (t : DavLockTable Node) → sweep now (sweep now t) ≡ sweep now t
  unfolding sweep
  sweep-sweep now t = rw (unexpired-unexpired now t.locks) refl

  pub conflict-table :
      (path : Text) (depth : LockDepth) (exclusive : Bool) (now : ℕ) (t : DavLockTable Node)
      → (conflict path depth exclusive now t).0 ≡ sweep now t
  unfolding conflict candidates covering within
  conflict-table path zero_depth exclusive now t = refl
  conflict-table path infinity exclusive now t = sweep-sweep now t

  -- Where no lock stops a request, those that cover its root or stand below it are shared with it.
  pub conflict-none :
      (path : Text) (depth : LockDepth) (exclusive : Bool) (now : ℕ) (t : DavLockTable Node)
      → (conflict path depth exclusive now t).1 ≡ none
      → (k : Text) (l : DavLock Node) → lookup k (sweep now t).locks ≡ some l
      → in_scope l path || is_infinity depth && is_path_inside l.path path ≡ true
      → exclusive || l.exclusive ≡ false
  unfolding conflict candidates covering within
  conflict-none path zero_depth exclusive now t h k l e i =
      find-select-none (λ m. exclusive || m.exclusive) (λ m. in_scope m path) k l
        (sweep now t).locks h e (ground arith)
  conflict-none path infinity exclusive now t h k l e i =
      let above = select (λ m. in_scope m path) (values (sweep now t).locks) in
      let below =
        select (λ m. is_path_inside m.path path) (values (sweep now (sweep now t)).locks) in
      let (none_above, none_below) =
        find-append_none (λ m. exclusive || m.exclusive) above below h in
      ground (
        arith,
        find-select-none (λ m. exclusive || m.exclusive) (λ m. in_scope m path) k l
            (sweep now t).locks none_above e,
        find-select-none (λ m. exclusive || m.exclusive) (λ m. is_path_inside m.path path) k l
            (sweep now (sweep now t)).locks none_below (rw sweep-sweep e),
      )
