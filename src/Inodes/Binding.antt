-- ===== src/Inodes/Binding.antt =====
-- `bind` keeps the table together, and hands out the inode that the kernel already knows.
use mountx.Common.{
  ℕ, ◌≡◌, refl, true, Option, none, some, [], Text, ◌==◌, ==_iff, nat_eq, text_eq, if◌then◌else◌,
  arith, Bool-cases, Option-cases, inl, inr,
}
use mountx.Common.Assoc.{lookup, insert, discard, lookup-insert, contains}
use mountx.Inodes.{
  Inode, InodeTable, Stats, at, attach_path, detach_inode, detach_path, make, leave, adopt,
  adopt_inode, bind, choose, key_for, find_key, owns, adopted,
}
use mountx.Inodes.Names.{at-detach_path, at-adopt, at-make}
use mountx.Inodes.Invariant.{
  WellFormed, IsLive, attach_inode-WellFormed, detach_inode-WellFormed, adopt_inode-WellFormed,
}

abbrev IsOwn : Text → ℕ → InodeTable → Type 0
IsOwn p n t = (m : ℕ) → owns (at p t) m ≡ true → n ≡ m

pub attach_path-WellFormed :
    (t : InodeTable) (n : ℕ) (p : Text)
    → WellFormed t
    → IsLive n t
    → IsOwn p n t
    → WellFormed (attach_path n p t)
unfolding attach_path
attach_path-WellFormed t n p wf (inode, e) free =
    rw e (attach_inode-WellFormed t wf n p inode e free)

-- An inode that a path names is filed.
pub IsLive-of_at :
    (t : InodeTable) (n : ℕ) (p : Text) → WellFormed t → owns (at p t) n ≡ true → IsLive n t
unfolding contains
IsLive-of_at t n p wf h = elim (Option-cases (lookup n t.by_nodeid)) [
  | inl e ↦ absurd (ground (arith, wf.paths p n, e))
  | inr live ↦ live
]

IsLive-of_key :
    (t : InodeTable) (n : ℕ) (k : Text)
    → WellFormed t
    → owns (lookup k t.by_key) n ≡ true
    → IsLive n t
IsLive-of_key t n k wf h = elim (Option-cases (lookup n t.by_nodeid)) [
  | inl e ↦ absurd (ground (arith, wf.keys k n h, e))
  | inr live ↦ live
]

pub detach_path-WellFormed :
    (t : InodeTable) (n : ℕ) (p : Text)
    → WellFormed t
    → owns (at p t) n ≡ true
    → WellFormed (detach_path n p t)
unfolding detach_path
detach_path-WellFormed t n p wf h =
    let (inode, e) = IsLive-of_at t n p wf h in
    rw e (detach_inode-WellFormed t wf n p inode e (λ m o. ground (arith, ==_iff n m)))

adopt-WellFormed :
    (t : InodeTable) (n : ℕ) (key : Option Text)
    → WellFormed t
    → IsLive n t
    → WellFormed (adopt n key t)
unfolding adopt
adopt-WellFormed t n key wf (inode, e) = rw e (adopt_inode-WellFormed t wf n [] inode e key)

abbrev fresh_inode : Option Text → InodeTable → Inode
fresh_inode key t = record { nodeid = t.next_nodeid; key = key; nlookup = 0; paths = [] }

lookup-make :
    (key : Option Text) (t : InodeTable) (m : ℕ)
    → lookup m (insert t.next_nodeid (fresh_inode key t) t.by_nodeid)
      ≡ (if t.next_nodeid == m then some (fresh_inode key t) else lookup m t.by_nodeid)
lookup-make key t m = lookup-insert t.next_nodeid m (fresh_inode key t) t.by_nodeid

pub make-WellFormed :
    (found : Option ℕ) (key : Option Text) (t : InodeTable)
    → WellFormed t
    → WellFormed (make found key t).0
unfolding make at contains
make-WellFormed (some n) key t wf = wf
make-WellFormed none key t wf = record {
  distinct = wf.distinct;
  root_below = omega (arith, wf.root_below);
  paths = λ p m. ground (
    arith,
    lookup-make key t m,
    wf.paths p m,
    wf.fresh t.next_nodeid (omega arith),
    ==_iff t.next_nodeid m,
  );
  keys = λ k m h. ground (
    arith,
    lookup-make key t m,
    wf.keys k m h,
    wf.fresh t.next_nodeid (omega arith),
    ==_iff t.next_nodeid m,
  );
  fresh =
      λ m h. ground (arith, lookup-make key t m, wf.fresh m (omega arith), ==_iff t.next_nodeid m);
}

pub make-IsLive :
    (found : Option ℕ) (key : Option Text) (t : InodeTable)
    → ((n : ℕ) → found ≡ some n → IsLive n t)
    → IsLive (make found key t).1 (make found key t).0
unfolding make
make-IsLive (some n) key t live = live n refl
make-IsLive none key t live = (fresh_inode key t, ground (arith, lookup-make key t t.next_nodeid))

pub choose-IsLive :
    (previous : Option ℕ) (key : Option Text) (p : Text) (t : InodeTable) (n : ℕ)
    → WellFormed t
    → at p t ≡ previous
    → choose (find_key key t) previous key t ≡ some n
    → IsLive n t
unfolding choose
choose-IsLive previous key p t n wf e h = elim (Option-cases (find_key key t)) [
  | inl none_found ↦ IsLive-of_at t n p wf (by_path previous e (rw none_found at h))
  | inr (m, found) ↦ IsLive_of_found key (ground (arith, found, h))
]
  where
    by_path :
        (previous : Option ℕ)
        → at p t ≡ previous
        → choose none previous key t ≡ some n
        → owns (at p t) n ≡ true
    by_path none e h = absurd (unfold choose in cc)
    by_path (some m) e h = unfold choose in ground (arith, ==_iff m n)

    IsLive_of_found : (key : Option Text) → find_key key t ≡ some n → IsLive n t
    IsLive_of_found none h = absurd cc
    IsLive_of_found (some k) h = IsLive-of_key t n k wf (ground (arith, ==_iff n n))

leave-WellFormed :
    (previous : Option ℕ) (n : ℕ) (p : Text) (t : InodeTable)
    → WellFormed t
    → at p t ≡ previous
    → WellFormed (leave previous n p t)
unfolding leave
leave-WellFormed none n p t wf e = wf
leave-WellFormed (some m) n p t wf e = elim (Bool-cases (m == n)) [
  | inl same ↦ rw same wf
  | inr other ↦ rw other (detach_path-WellFormed t m p wf (ground (arith, ==_iff m m)))
]

leave-IsOwn :
    (previous : Option ℕ) (n : ℕ) (p : Text) (t : InodeTable)
    → at p t ≡ previous
    → IsOwn p n (leave previous n p t)
unfolding leave
leave-IsOwn none n p t e m h = absurd (ground arith)
leave-IsOwn (some k) n p t e m h =
    ground (arith, at-detach_path k p p t, ==_iff k n, ==_iff k m, ==_iff p p)

pub leave-IsLive :
    (previous : Option ℕ) (n : ℕ) (p : Text) (t : InodeTable)
    → WellFormed t
    → at p t ≡ previous
    → IsLive n t
    → IsLive n (leave previous n p t)
unfolding leave detach_path detach_inode
leave-IsLive none n p t wf e live = live
leave-IsLive (some m) n p t wf e (inode, filed) = elim (Bool-cases (m == n)) [
  | inl same ↦ rw same (inode, filed)
  | inr other ↦
      let (old, held) = IsLive-of_at t m p wf (ground (arith, ==_iff m m)) in
      rw (other, held)
        (
          inode,
          ground (
            arith,
            lookup-insert m n (record old { paths = discard p old.paths }) t.by_nodeid,
            filed,
          ),
        )
]

adopt-IsLive : (n : ℕ) (key : Option Text) (t : InodeTable) → IsLive n t → IsLive n (adopt n key t)
unfolding adopt adopt_inode
adopt-IsLive n key t (inode, filed) =
    let kept = record inode { key = adopted inode.key key } in
    rw filed (kept, ground (arith, lookup-insert n n kept t.by_nodeid))

-- `bind` keeps the table well formed, whatever identity the driver reports and whatever the path
-- named before.
pub bind-WellFormed :
    (p : Text) (stats : Stats) (t : InodeTable) → WellFormed t → WellFormed (bind p stats t).0
unfolding bind
bind-WellFormed p stats t wf =
    let key = key_for stats t in
    let found = choose (find_key key t) (at p t) key t in
    let made = (make found key t).0 in
    let n = (make found key t).1 in
    let left = leave (at p t) n p made in
    let same = at-make found key p t in
    let made_wf = make-WellFormed found key t wf in
    let live =
      leave-IsLive (at p t) n p made made_wf same
        (make-IsLive found key t (λ m h. choose-IsLive (at p t) key p t m wf refl h)) in
    attach_path-WellFormed (adopt n key left) n p
      (adopt-WellFormed left n key (leave-WellFormed (at p t) n p made made_wf same) live)
      (adopt-IsLive n key left live)
      (λ m h. leave-IsOwn (at p t) n p made same m (rw at-adopt at h))
