-- ===== src/Inodes/Table/Lifetime.antt =====
-- The end of an inode's names and of the inode: `unbind` and `forget`.
use mountx.Common.{
  ℕ, ◌-◌, ◌≡◌, refl, Bool, true, false, Option, none, some, List, [], ◌∷◌, Text, ◌==◌, ==_iff,
  nat_eq, text_eq, if◌then◌else◌, arith, Bool-cases, Option-cases, inl, inr, ltb,
}
use mountx.Common.Int.{ℤ}
use mountx.Common.Assoc.{
  lookup, insert, delete, lookup-insert, lookup-delete, HasDistinctKeys, contains,
  delete-HasDistinctKeys,
}
use mountx.FilePath.{slash}
use mountx.Inodes.{Inode, InodeTable, at, owns, drop_key, update, fuse_root_id, create}
use mountx.Inodes.Invariant.{paths_in, WellFormed, owns-drop_key}
use mountx.Inodes.Binding.{detach_path-WellFormed}
use mountx.Inodes.Table.{
  acquire, clear, cleared_root, acquire_inode, clamped, delete_all, drop_inode, forget_inode,
  forget, unbind, unbind_inode,
}

pub lookup-delete_all :
    (ps : List Text) (q : Text) (by_path : List (Text × ℕ))
    → lookup q (delete_all ps by_path) ≡ (if contains q ps then none else lookup q by_path)
unfolding delete_all contains
lookup-delete_all [] q by_path = refl
lookup-delete_all (p ∷ ps) q by_path =
    ground (arith, lookup-delete_all ps q (delete p by_path), lookup-delete p q by_path, ==_iff p q)

delete_all-distinct :
    (ps : List Text) (by_path : List (Text × ℕ))
    → HasDistinctKeys by_path
    → HasDistinctKeys (delete_all ps by_path)
unfolding delete_all
delete_all-distinct [] by_path d = d
delete_all-distinct (p ∷ ps) by_path d =
    delete_all-distinct ps (delete p by_path) (delete-HasDistinctKeys p by_path d)

disowned :
    (key : Option Text) (n : ℕ) (k : Text) (by_key : List (Text × ℕ))
    → (owns (lookup k by_key) n ≡ true → key ≡ some k)
    → owns (lookup k (drop_key key n by_key)) n ≡ false
disowned none n k by_key h = ground (arith, h)
disowned (some j) n k by_key h = ground (arith, h, lookup-delete j k by_key, ==_iff j k)

module _ (t : InodeTable) (wf : WellFormed t) (n : ℕ) (inode : Inode)
    (e : lookup n t.by_nodeid ≡ some inode) where
  drop_inode-WellFormed : WellFormed (drop_inode n inode t)
  unfolding at contains
  drop_inode-WellFormed = record {
    distinct = delete_all-distinct inode.paths t.by_path wf.distinct;
    paths = λ q m. ground (
      arith,
      lookup-delete_all inode.paths q t.by_path,
      lookup-delete n m t.by_nodeid,
      wf.paths q m,
      wf.paths q n,
      ==_iff n m,
      e,
    );
    keys = λ k m h. ground (
      arith,
      lookup-delete n m t.by_nodeid,
      owns-drop_key inode.key n m k t.by_key h,
      disowned inode.key n k t.by_key (λ o. ground (arith, wf.keys k n o, e)),
      wf.keys k m,
      ==_iff n m,
      h,
    );
    root_below = wf.root_below;
    fresh = λ m h. ground (arith, lookup-delete n m t.by_nodeid, wf.fresh m h);
  }

  update-WellFormed : (count : ℕ) → WellFormed (update n (record inode { nlookup = count }) t)
  unfolding at
  update-WellFormed count = record {
    distinct = wf.distinct;
    paths = λ q m. ground (arith, counted m, wf.paths q m, ==_iff n m, e);
    keys = λ k m h. ground (arith, counted m, wf.keys k m h, ==_iff n m, e);
    root_below = wf.root_below;
    fresh = λ m h. ground (arith, counted m, wf.fresh m h, wf.fresh n, ==_iff n m, e);
  }
    where
      counted :
          (m : ℕ)
          → lookup m (insert n (record inode { nlookup = count }) t.by_nodeid)
            ≡ (if n == m then some (record inode { nlookup = count }) else lookup m t.by_nodeid)
      counted m = lookup-insert n m (record inode { nlookup = count }) t.by_nodeid

-- `forget` keeps the table well formed, also where it drops the inode with all its paths.
pub forget-WellFormed :
    (n : ℕ) (count : ℤ) (t : InodeTable) → WellFormed t → WellFormed (forget n count t).0
unfolding forget forget_inode
forget-WellFormed n count t wf = elim (Option-cases (lookup n t.by_nodeid)) [
  | inl e ↦ rw e wf
  | inr (inode, e) ↦ rw e (elim (Bool-cases (n == fuse_root_id)) [
    | inl root ↦ rw root wf
    | inr other ↦ rw other (elim (Bool-cases (ltb 0 (inode.nlookup - clamped count))) [
      | inl kept ↦ rw kept (update-WellFormed t wf n inode e (inode.nlookup - clamped count))
      | inr gone ↦ rw gone (drop_inode-WellFormed t wf n inode e)
    ])
  ])
]

pub acquire-WellFormed : (n : ℕ) (t : InodeTable) → WellFormed t → WellFormed (acquire n t)
unfolding acquire acquire_inode
acquire-WellFormed n t wf = elim (Option-cases (lookup n t.by_nodeid)) [
  | inl e ↦ rw e wf
  | inr (inode, e) ↦ rw e (update-WellFormed t wf n inode e _)
]

pub unbind-WellFormed : (p : Text) (t : InodeTable) → WellFormed t → WellFormed (unbind p t).0
unfolding unbind unbind_inode
unbind-WellFormed p t wf = elim (Option-cases (at p t)) [
  | inl e ↦ rw e wf
  | inr (n, e) ↦ rw e (detach_path-WellFormed t n p wf (ground (arith, ==_iff n n)))
]

pub create-WellFormed : (use_driver_ino : Option Bool) → WellFormed (create use_driver_ino)
unfolding create lookup contains at
create-WellFormed use_driver_ino = record {
  distinct = (refl, tt);
  paths = λ p n. ground (arith, ==_iff (slash ∷ []) p, ==_iff fuse_root_id n);
  keys = λ k n h. absurd (ground arith);
  root_below = omega arith;
  fresh = λ n h. ground (arith, ==_iff fuse_root_id n);
}

paths_in-cleared_root :
    (root : Option Inode) → paths_in (some (cleared_root root)) ≡ (slash ∷ []) ∷ []
paths_in-cleared_root none = refl
paths_in-cleared_root (some root) = refl

pub clear-WellFormed : (t : InodeTable) → WellFormed t → WellFormed (clear t)
unfolding clear lookup contains at
clear-WellFormed t wf = record {
  distinct = (refl, tt);
  paths = λ p n. ground (
    arith,
    ==_iff (slash ∷ []) p,
    ==_iff fuse_root_id n,
    paths_in-cleared_root (lookup fuse_root_id t.by_nodeid),
  );
  keys = λ k n h. absurd (ground arith);
  root_below = wf.root_below;
  fresh = λ n h. ground (arith, ==_iff fuse_root_id n, wf.root_below, h);
}
