-- ===== src/Inodes/Invariant.antt =====
-- What keeps the three maps of the table together, and that `bind` keeps it.
use mountx.Common.{
  ◌<◌, ℕ, ◌≡◌, ◌≤◌, true, false, Option, none, some, List, [], Text, ◌==◌, ==_iff, nat_eq, text_eq,
  if◌then◌else◌, arith, inr, ◌⊎◌,
}
use mountx.Common.Assoc.{
  lookup, insert, lookup-insert, lookup-delete, HasDistinctKeys, contains, add, discard,
  contains-add, contains-discard, insert-HasDistinctKeys, delete-HasDistinctKeys,
}
use mountx.Inodes.{
  fuse_root_id, Inode, InodeTable, at, attach_inode, detach_inode, adopt_inode, key_of, owns,
  drop_key, set_key, adopted,
}

abbrev pub paths_in : Option Inode → List Text
paths_in none = []
paths_in (some inode) = inode.paths

abbrev pub paths_of : ℕ → InodeTable → List Text
paths_of n t = paths_in (lookup n t.by_nodeid)

abbrev pub key_at : ℕ → InodeTable → Option Text
key_at n t = key_of (lookup n t.by_nodeid)

-- The path map and the paths of the objects are one relation; an object that an identity finds has
-- that identity; and nothing is filed under a nodeid that is still to be given out, which the root's
-- never is.
pub record WellFormed (t : InodeTable) : Type 0 where
  pub distinct : HasDistinctKeys t.by_path
  pub paths : (p : Text) (n : ℕ) → owns (at p t) n ≡ contains p (paths_of n t)
  pub keys : (k : Text) (n : ℕ) → owns (lookup k t.by_key) n ≡ true → key_at n t ≡ some k
  pub fresh : (n : ℕ) → t.next_nodeid ≤ n → lookup n t.by_nodeid ≡ none
  pub root_below : fuse_root_id < t.next_nodeid

abbrev pub IsLive : ℕ → InodeTable → Type 0
IsLive n t = (inode : Inode) × (lookup n t.by_nodeid ≡ some inode)

pub owns-set_key :
    (key : Option Text) (n m : ℕ) (k : Text) (by_key : List (Text × ℕ))
    → owns (lookup k (set_key key n by_key)) m ≡ true
    → (key ≡ some k) × (n ≡ m) ⊎ (owns (lookup k by_key) m ≡ true)
owns-set_key none n m k by_key h = inr h
owns-set_key (some j) n m k by_key h =
    ground (arith, lookup-insert j k n by_key, ==_iff j k, ==_iff n m)

pub owns-drop_key :
    (key : Option Text) (n m : ℕ) (k : Text) (by_key : List (Text × ℕ))
    → owns (lookup k (drop_key key n by_key)) m ≡ true
    → owns (lookup k by_key) m ≡ true
owns-drop_key none n m k by_key h = h
owns-drop_key (some j) n m k by_key h = ground (arith, lookup-delete j k by_key)

module _ (t : InodeTable) (wf : WellFormed t) (n : ℕ) (p : Text) (inode : Inode)
    (e : lookup n t.by_nodeid ≡ some inode) where
  abbrev with_paths : List Text → Inode
  with_paths ps = record inode { paths = ps }

  stored :
      (ps : List Text) (m : ℕ)
      → lookup m (insert n (with_paths ps) t.by_nodeid)
        ≡ (if n == m then some (with_paths ps) else lookup m t.by_nodeid)
  stored ps m = lookup-insert n m (with_paths ps) t.by_nodeid

  known : (m : ℕ) → t.next_nodeid ≤ m → (n == m) ≡ false
  known m h = ground (arith, ==_iff n m, wf.fresh m h, e)

  pub attach_inode-WellFormed :
      ((m : ℕ) → owns (at p t) m ≡ true → n ≡ m) → WellFormed (attach_inode (some inode) n p t)
  unfolding attach_inode at
  attach_inode-WellFormed free = record {
    distinct = insert-HasDistinctKeys p n t.by_path wf.distinct;
    paths = λ q m. ground (
      arith,
      lookup-insert p q n t.by_path,
      wf.paths q m,
      wf.paths p m,
      free m,
      stored (add p inode.paths) m,
      contains-add p q inode.paths,
      ==_iff p q,
      ==_iff n m,
      e,
    );
    keys = λ k m h. ground (
      arith,
      stored (add p inode.paths) m,
      owns-set_key inode.key n m k t.by_key h,
      wf.keys k m,
      ==_iff n m,
      e,
    );
    root_below = wf.root_below;
    fresh = λ m h. ground (arith, stored (add p inode.paths) m, wf.fresh m h, known m h);
  }

  pub detach_inode-WellFormed :
      ((m : ℕ) → owns (at p t) m ≡ true → n ≡ m) → WellFormed (detach_inode (some inode) n p t)
  unfolding detach_inode at
  detach_inode-WellFormed free = record {
    distinct = delete-HasDistinctKeys p t.by_path wf.distinct;
    paths = λ q m. ground (
      arith,
      lookup-delete p q t.by_path,
      wf.paths q m,
      wf.paths p m,
      free m,
      stored (discard p inode.paths) m,
      contains-discard p q inode.paths,
      ==_iff p q,
      ==_iff n m,
      e,
    );
    keys = λ k m h. ground (
      arith,
      stored (discard p inode.paths) m,
      owns-drop_key inode.key n m k t.by_key,
      wf.keys k m,
      ==_iff n m,
      e,
    );
    root_below = wf.root_below;
    fresh = λ m h. ground (arith, stored (discard p inode.paths) m, wf.fresh m h, known m h);
  }

  pub adopt_inode-WellFormed : (key : Option Text) → WellFormed (adopt_inode (some inode) n key t)
  unfolding adopt_inode at
  adopt_inode-WellFormed key = record {
    distinct = wf.distinct;
    paths = λ q m. ground (arith, rekeyed key m, wf.paths q m, ==_iff n m, e);
    keys = λ k m h. ground (arith, rekeyed key m, wf.keys k m h, ==_iff n m, e);
    root_below = wf.root_below;
    fresh = λ m h. ground (arith, rekeyed key m, wf.fresh m h, known m h);
  }
    where
      rekeyed :
          (key : Option Text) (m : ℕ)
          → lookup m (insert n (record inode { key = adopted inode.key key }) t.by_nodeid) ≡ (
              if n == m
              then some (record inode { key = adopted inode.key key })
              else lookup m t.by_nodeid)
      rekeyed key m = lookup-insert n m (record inode { key = adopted inode.key key }) t.by_nodeid
