-- ===== src/Inodes/Table/Histories.antt =====
-- The inode table after any lookups, forgets and removals, and what a forget leaves.
use mountx.Common.{
  ℕ, ◌-◌, ◌≡◌, Bool, true, Option, none, List, [], ◌∷◌, Text, ◌==◌, ==_iff, nat_eq, text_eq,
  if◌then◌else◌, arith, Bool-cases, Option-cases, inl, inr, ltb,
}
use mountx.Common.Int.{ℤ}
use mountx.Common.Assoc.{lookup, lookup-delete, contains}
use mountx.Inodes.{InodeTable, Stats, at, get, bind, create, owns, fuse_root_id}
use mountx.Inodes.Invariant.{WellFormed, paths_of}
use mountx.Inodes.Binding.{bind-WellFormed}
use mountx.Inodes.Table.{acquire, clear, clamped, forget, forget_inode, unbind}
use mountx.Inodes.Table.Lifetime.{
  lookup-delete_all, acquire-WellFormed, forget-WellFormed, unbind-WellFormed, create-WellFormed,
  clear-WellFormed,
}

pub data Call : Type 0 where
  bind_call : Text → Stats → Call
  acquire_call : ℕ → Call
  forget_call : ℕ → ℤ → Call
  unbind_call : Text → Call
  clear_call : Call

unfoldable pub step : Call → InodeTable → InodeTable
step (bind_call p stats) t = (bind p stats t).0
step (acquire_call n) t = acquire n t
step (forget_call n count) t = (forget n count t).0
step (unbind_call p) t = (unbind p t).0
step clear_call t = clear t

unfoldable pub run : List Call → InodeTable → InodeTable
run [] t = t
run (call ∷ calls) t = run calls (step call t)

step-WellFormed : (call : Call) (t : InodeTable) → WellFormed t → WellFormed (step call t)
unfolding step
step-WellFormed (bind_call p stats) t wf = bind-WellFormed p stats t wf
step-WellFormed (acquire_call n) t wf = acquire-WellFormed n t wf
step-WellFormed (forget_call n count) t wf = forget-WellFormed n count t wf
step-WellFormed (unbind_call p) t wf = unbind-WellFormed p t wf
step-WellFormed clear_call t wf = clear-WellFormed t wf

pub run-WellFormed : (calls : List Call) (t : InodeTable) → WellFormed t → WellFormed (run calls t)
unfolding run
run-WellFormed [] t wf = wf
run-WellFormed (call ∷ calls) t wf = run-WellFormed calls (step call t) (step-WellFormed call t wf)

-- After any binds, acquires, forgets, unbinds and clears on a new table, a path names a nodeid exactly if
-- the path is one of the paths of the inode with that nodeid.
pub run_paths :
    (use_driver_ino : Option Bool) (calls : List Call) (p : Text) (n : ℕ)
    → owns (at p (run calls (create use_driver_ino))) n
      ≡ contains p (paths_of n (run calls (create use_driver_ino)))
run_paths use_driver_ino calls p n =
    (run-WellFormed calls (create use_driver_ino) (create-WellFormed use_driver_ino)).paths p n

-- Where `forget` says of a well formed table that the inode went away, its nodeid is unknown from then on, every path that
-- named it names nothing, and every other path names what it did.
pub forget-gone :
    (n : ℕ) (count : ℤ) (q : Text) (t : InodeTable)
    → WellFormed t
    → (forget n count t).1 ≡ true
    → (get n (forget n count t).0 ≡ none)
      × (at q (forget n count t).0 ≡ (if owns (at q t) n then none else at q t))
unfolding forget forget_inode get at
forget-gone n count q t wf = elim (Option-cases (lookup n t.by_nodeid)) [
  | inl e ↦ rw e (λ h. absurd cc)
  | inr (inode, e) ↦ rw e (elim (Bool-cases (n == fuse_root_id)) [
    | inl root ↦ rw root (λ h. absurd cc)
    | inr other ↦ rw other (elim (Bool-cases (ltb 0 (inode.nlookup - clamped count))) [
      | inl kept ↦ rw kept (λ h. absurd cc)
      | inr gone ↦ rw gone (λ h. (
        ground (arith, lookup-delete n n t.by_nodeid, ==_iff n n),
        ground (arith, lookup-delete_all inode.paths q t.by_path, wf.paths q n, e),
      ))
    ])
  ])
]
