-- ===== src/Inodes/Names.antt =====
-- What each change of the table leaves under each path.
use mountx.Common.{
  ℕ, ◌≡◌, refl, ◌∙◌, false, Option, none, some, Text, ◌==◌, nat_eq, text_eq, if◌then◌else◌, arith,
  Bool-cases, Option-cases, inl, inr,
}
use mountx.Common.Assoc.{
  lookup, lookup-insert, lookup-delete, HasDistinctKeys, insert-HasDistinctKeys,
  delete-HasDistinctKeys,
}
use mountx.Inodes.{
  InodeTable, Stats, at, attach_inode, attach_path, detach_inode, detach_path, make, leave, adopt,
  adopt_inode, bind, choose, key_for, find_key,
}

pub at-attach_path :
    (n : ℕ) (p q : Text) (t : InodeTable)
    → at q (attach_path n p t) ≡ (if p == q then some n else at q t)
unfolding at attach_path attach_inode
at-attach_path n p q t = elim (Option-cases (lookup n t.by_nodeid)) [
  | inl e ↦ rw e (lookup-insert p q n t.by_path)
  | inr (inode, e) ↦ rw e (lookup-insert p q n t.by_path)
]

pub at-detach_path :
    (n : ℕ) (p q : Text) (t : InodeTable)
    → at q (detach_path n p t) ≡ (if p == q then none else at q t)
unfolding at detach_path detach_inode
at-detach_path n p q t = elim (Option-cases (lookup n t.by_nodeid)) [
  | inl e ↦ rw e (lookup-delete p q t.by_path)
  | inr (inode, e) ↦ rw e (lookup-delete p q t.by_path)
]

pub at-make :
    (found : Option ℕ) (key : Option Text) (q : Text) (t : InodeTable)
    → at q (make found key t).0 ≡ at q t
unfolding at make
at-make none key q t = refl
at-make (some n) key q t = refl

pub at-adopt :
    (n : ℕ) (key : Option Text) (q : Text) (t : InodeTable) → at q (adopt n key t) ≡ at q t
unfolding at adopt adopt_inode
at-adopt n key q t = elim (Option-cases (lookup n t.by_nodeid)) [
  | inl e ↦ rw e refl
  | inr (inode, e) ↦ rw e refl
]

at-leave :
    (previous : Option ℕ) (n : ℕ) (p q : Text) (t : InodeTable)
    → (p == q) ≡ false
    → at q (leave previous n p t) ≡ at q t
unfolding leave
at-leave none n p q t h = refl
at-leave (some m) n p q t h = ground (arith, at-detach_path m p q t)

-- After `bind` the path names the inode that it returned, and every other path names what it did.
pub at-bind :
    (p q : Text) (stats : Stats) (t : InodeTable)
    → at q (bind p stats t).0 ≡ (if p == q then some (bind p stats t).1 else at q t)
unfolding bind
at-bind p q stats t =
    let key = key_for stats t in
    let previous = at p t in
    let found = choose (find_key key t) previous key t in
    let (made, n) = make found key t in
    at-attach_path n p q (adopt n key (leave previous n p made)) ∙ elim (Bool-cases (p == q)) [
      | inl e ↦ rw e refl
      | inr e ↦ rw e (
          at-adopt n key q (leave previous n p made)
          ∙ at-leave previous n p q made e
          ∙ at-make found key q t)
    ]

pub attach_path-distinct :
    (n : ℕ) (p : Text) (t : InodeTable)
    → HasDistinctKeys t.by_path
    → HasDistinctKeys ((attach_path n p t).by_path)
unfolding attach_path attach_inode
attach_path-distinct n p t d = elim (Option-cases (lookup n t.by_nodeid)) [
  | inl e ↦ rw e (insert-HasDistinctKeys p n t.by_path d)
  | inr (inode, e) ↦ rw e (insert-HasDistinctKeys p n t.by_path d)
]

pub detach_path-distinct :
    (n : ℕ) (p : Text) (t : InodeTable)
    → HasDistinctKeys t.by_path
    → HasDistinctKeys ((detach_path n p t).by_path)
unfolding detach_path detach_inode
detach_path-distinct n p t d = elim (Option-cases (lookup n t.by_nodeid)) [
  | inl e ↦ rw e (delete-HasDistinctKeys p t.by_path d)
  | inr (inode, e) ↦ rw e (delete-HasDistinctKeys p t.by_path d)
]
