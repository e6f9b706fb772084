-- ===== src/Inodes/Identity.antt =====
-- One file, one nodeid: what `bind` does for an identity that it has seen.
use mountx.Common.{
  ℕ, ◌≡◌, refl, ap, ◌∙◌, Option, none, some, [], Text, ◌==◌, ==_iff, nat_eq, text_eq, arith,
  Bool-cases, Option-cases, inl, inr, ◌⊎◌,
}
use mountx.Common.Assoc.{lookup, insert, lookup-insert, discard}
use mountx.Inodes.{
  InodeTable, Stats, at, attach_inode, attach_path, detach_inode, detach_path, make, leave, adopt,
  adopt_inode, bind, choose, key_for, find_key, key_of, adopted,
}
use mountx.Inodes.Names.{at-make}
use mountx.Inodes.Invariant.{WellFormed, IsLive, key_at}
use mountx.Inodes.Binding.{choose-IsLive, make-IsLive, leave-IsLive, make-WellFormed}

attached :
    (n : ℕ) (p : Text) (t : InodeTable) → (attach_path n p t).use_driver_ino ≡ t.use_driver_ino
unfolding attach_path attach_inode
attached n p t = elim (Option-cases (lookup n t.by_nodeid)) [
  | inl e ↦ rw e refl
  | inr (inode, e) ↦ rw e refl
]

detached :
    (n : ℕ) (p : Text) (t : InodeTable) → (detach_path n p t).use_driver_ino ≡ t.use_driver_ino
unfolding detach_path detach_inode
detached n p t = elim (Option-cases (lookup n t.by_nodeid)) [
  | inl e ↦ rw e refl
  | inr (inode, e) ↦ rw e refl
]

adopted_option :
    (n : ℕ) (key : Option Text) (t : InodeTable) → (adopt n key t).use_driver_ino ≡ t.use_driver_ino
unfolding adopt adopt_inode
adopted_option n key t = elim (Option-cases (lookup n t.by_nodeid)) [
  | inl e ↦ rw e refl
  | inr (inode, e) ↦ rw e refl
]

left_option :
    (previous : Option ℕ) (n : ℕ) (p : Text) (t : InodeTable)
    → (leave previous n p t).use_driver_ino ≡ t.use_driver_ino
unfolding leave
left_option none n p t = refl
left_option (some m) n p t = elim (Bool-cases (m == n)) [
  | inl e ↦ rw e refl
  | inr e ↦ rw e (detached m p t)
]

made_option :
    (found : Option ℕ) (key : Option Text) (t : InodeTable)
    → (make found key t).0.use_driver_ino ≡ t.use_driver_ino
unfolding make
made_option none key t = refl
made_option (some n) key t = refl

-- What no step of `bind` changes.
pub kept_option :
    (p : Text) (stats : Stats) (t : InodeTable)
    → (bind p stats t).0.use_driver_ino ≡ t.use_driver_ino
unfolding bind
kept_option p stats t =
    let key = key_for stats t in
    let found = choose (find_key key t) (at p t) key t in
    let made = (make found key t).0 in
    let n = (make found key t).1 in
    let left = leave (at p t) n p made in
    attached n p (adopt n key left)
    ∙ adopted_option n key left
    ∙ left_option (at p t) n p made
    ∙ made_option found key t

-- The identity that `bind` files the path under finds the inode that it returns.
lookup-attach_path :
    (n : ℕ) (p k : Text) (t : InodeTable)
    → key_at n t ≡ some k
    → lookup k (attach_path n p t).by_key ≡ some n
unfolding attach_path attach_inode
lookup-attach_path n p k t h = elim (Option-cases (lookup n t.by_nodeid)) [
  | inl e ↦ absurd (ground (arith, e, h))
  | inr (inode, e) ↦
      let same : inode.key ≡ some k = ground (arith, e, h) in
      rw (e, same) (ground (arith, lookup-insert k k n t.by_key, ==_iff k k))
]

-- Before it is adopted, the inode of a path has this identity or none.
abbrev IsOpen : Option Text → Text → Type 0
IsOpen key k = (key ≡ none) ⊎ (key ≡ some k)

key_at-adopt :
    (n : ℕ) (k : Text) (t : InodeTable)
    → IsLive n t
    → IsOpen (key_at n t) k
    → key_at n (adopt n (some k) t) ≡ some k
unfolding adopt adopt_inode
key_at-adopt n k t (inode, e) open_key =
    let new = record inode { key = adopted inode.key (some k) } in
    let filed : lookup n (insert n new t.by_nodeid) ≡ some new =
      ground (arith, lookup-insert n n new t.by_nodeid, ==_iff n n) in
    rw e (
      ap key_of filed
      ∙ elim open_key [ inl h ↦ ground (arith, h, e) | inr h ↦ ground (arith, h, e) ])

key_at-leave :
    (previous : Option ℕ) (n : ℕ) (p : Text) (t : InodeTable)
    → key_at n (leave previous n p t) ≡ key_at n t
unfolding leave detach_path detach_inode
key_at-leave none n p t = refl
key_at-leave (some m) n p t = elim (Bool-cases (m == n)) [
  | inl same ↦ rw same refl
  | inr other ↦ rw other (elim (Option-cases (lookup m t.by_nodeid)) [
    | inl e ↦ rw e refl
    | inr (old, e) ↦
        let less = record old { paths = discard p old.paths } in
        let filed : lookup n (insert m less t.by_nodeid) ≡ lookup n t.by_nodeid =
          ground (arith, lookup-insert m n less t.by_nodeid, other) in
        rw e (ap key_of filed)
  ])
]

key_at-make_new :
    (k : Text) (t : InodeTable) → key_at (make none (some k) t).1 (make none (some k) t).0 ≡ some k
unfolding make
key_at-make_new k t = ap key_of filed
  where
    filed :
        lookup t.next_nodeid (
          insert t.next_nodeid
            (record { nodeid = t.next_nodeid; key = some k; nlookup = 0; paths = [] })
            t.by_nodeid)
        ≡ some (record { nodeid = t.next_nodeid; key = some k; nlookup = 0; paths = [] })
    filed = ground (
      arith,
      lookup-insert t.next_nodeid t.next_nodeid
          (record { nodeid = t.next_nodeid; key = some k; nlookup = 0; paths = [] }) t.by_nodeid,
      ==_iff t.next_nodeid t.next_nodeid,
    )

key_at-make_unknown :
    (previous : Option ℕ) (k : Text) (t : InodeTable)
    → IsOpen
        (key_at
          (make (choose none previous (some k) t) (some k) t).1
          (make (choose none previous (some k) t) (some k) t).0)
        k
unfolding choose
key_at-make_unknown none k t = inr (key_at-make_new k t)
key_at-make_unknown (some m) k t = elim (Option-cases (key_at m t)) [
  | inl e ↦ rw e (inl (unfold make in e))
  | inr (j, e) ↦ elim (Bool-cases (j == k)) [
    | inl same ↦ rw (e, same) (inr (unfold make in e ∙ ap some ((==_iff j k).0 same)))
    | inr other ↦ rw (e, other) (inr (key_at-make_new k t))
  ]
]

key_at-make :
    (previous : Option ℕ) (k : Text) (t : InodeTable)
    → WellFormed t
    → IsOpen
        (key_at
          (make (choose (lookup k t.by_key) previous (some k) t) (some k) t).1
          (make (choose (lookup k t.by_key) previous (some k) t) (some k) t).0)
        k
unfolding make choose
key_at-make previous k t wf = elim (Option-cases (lookup k t.by_key)) [
  | inr (n, e) ↦ rw e (inr (wf.keys k n (ground (arith, e, ==_iff n n))))
  | inl e ↦ rw e (key_at-make_unknown previous k t)
]

-- The identity that `bind` was given finds the inode that it returned.
lookup-bind :
    (p k : Text) (stats : Stats) (t : InodeTable)
    → WellFormed t
    → key_for stats t ≡ some k
    → lookup k (bind p stats t).0.by_key ≡ some (bind p stats t).1
unfolding bind
lookup-bind p k stats t wf e =
    let key = some k in
    let found = choose (lookup k t.by_key) (at p t) key t in
    let made = (make found key t).0 in
    let n = (make found key t).1 in
    let left = leave (at p t) n p made in
    let live =
      leave-IsLive (at p t) n p made (make-WellFormed found key t wf) (at-make found key p t)
        (make-IsLive found key t (λ m h. choose-IsLive (at p t) key p t m wf refl h)) in
    rw (e, bind)
      (lookup-attach_path n p k (adopt n key left)
        (key_at-adopt n k left live (rw key_at-leave (key_at-make (at p t) k t wf))))

key_for-bind :
    (p : Text) (stats : Stats) (t : InodeTable) → key_for stats (bind p stats t).0 ≡ key_for stats t
unfolding key_for
key_for-bind p stats t = rw kept_option refl

-- In a well formed table a second `bind` of a file with an identity, under whatever path, returns the nodeid of the first:
-- a hard link has the nodeid that the kernel knows.
pub bind_same_file :
    (p q k : Text) (stats : Stats) (t : InodeTable)
    → WellFormed t
    → key_for stats t ≡ some k
    → (bind q stats (bind p stats t).0).1 ≡ (bind p stats t).1
bind_same_file p q k stats t wf e =
    known (bind p stats t).0 (bind p stats t).1 (key_for-bind p stats t ∙ e)
      (lookup-bind p k stats t wf e)
  where
    known :
        (after : InodeTable) (n : ℕ)
        → key_for stats after ≡ some k
        → lookup k after.by_key ≡ some n
        → (bind q stats after).1 ≡ n
    known after n same found =
        unfold bind in rw same (rw found (unfold choose in unfold make in refl))
