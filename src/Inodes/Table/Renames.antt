-- ===== src/Inodes/Table/Renames.antt =====
-- The inode table as a table of the rename walk.
use mountx.Common.{
  ℕ, ◌≡◌, ◌≢◌, refl, sym, ◌∙◌, none, [], ◌∷◌, Text, ◌==◌, nat_eq, text_eq, if◌then◌else◌, length,
  arith, Option-cases, inl, inr, ◌++◌, drop,
}
use mountx.Common.Assoc.{lookup, lookup-delete, HasDistinctKeys, delete-HasDistinctKeys}
use mountx.FilePath.{slash}
use mountx.Subtree.Laws.{RemapLaws, name_of, renamed}
use mountx.Subtree.Renames.{name_of-remap_subtree, remap_subtree-HasDistinctKeys}
use mountx.Inodes.{InodeTable, at, attach_path, detach_path}
use mountx.Inodes.Names.{at-attach_path, at-detach_path, attach_path-distinct, detach_path-distinct}
use mountx.Inodes.Table.{remap_ops, remap, release_paths}

named-at : (q : Text) (t : InodeTable) → name_of remap_ops (λ n. n) q t ≡ at q t
unfolding at remap_ops
named-at q t = ground arith

at-release :
    (n : ℕ) (p q : Text) (t : InodeTable)
    → at q (remap_ops.release n p t).0 ≡ (if p == q then none else at q t)
unfolding at remap_ops release_paths
at-release n p q t = elim (Option-cases (lookup n t.by_nodeid)) [
  | inl e ↦ rw e (lookup-delete p q t.by_path)
  | inr (inode, e) ↦ rw e (lookup-delete p q t.by_path)
]

release-distinct :
    (n : ℕ) (p : Text) (t : InodeTable)
    → HasDistinctKeys t.by_path
    → HasDistinctKeys ((remap_ops.release n p t).0.by_path)
unfolding remap_ops release_paths
release-distinct n p t d = elim (Option-cases (lookup n t.by_nodeid)) [
  | inl e ↦ rw e (delete-HasDistinctKeys p t.by_path d)
  | inr (inode, e) ↦ rw e (delete-HasDistinctKeys p t.by_path d)
]

at_name : (q : Text) (t : InodeTable) → at q t ≡ name_of remap_ops (λ n. n) q t
at_name q t = sym (named-at q t)

remap_ops-RemapLaws : RemapLaws remap_ops (λ n. n)
unfolding remap_ops
remap_ops-RemapLaws = record {
  detach_name = λ n p q t.
      ground (arith, named-at q (detach_path n p t), named-at q t, at-detach_path n p q t);
  release_name = λ n p q t.
      ground (arith, named-at q (remap_ops.release n p t).0, named-at q t, at-release n p q t);
  release_view = λ n p t. refl;
  attach_name = λ n p q t.
      ground (arith, named-at q (attach_path n p t), named-at q t, at-attach_path n p q t);
  release_distinct = release-distinct;
  attach_distinct = attach_path-distinct;
  detach_distinct = detach_path-distinct;
}

-- Where neither name is the root and no path stands twice, `remap` moves the nodeid of every path at or below the source to the same place below the
-- destination, drops the paths that stood there, and leaves every other path with its nodeid.
pub remap_paths :
    (from to q : Text) (t : InodeTable)
    → from ≢ slash ∷ []
    → to ≢ slash ∷ []
    → HasDistinctKeys t.by_path
    → at q (remap from to t) ≡ renamed from to (λ p. at p t) q
unfolding remap
remap_paths from to q t hf ht d =
    at_name q (remap from to t)
    ∙ name_of-remap_subtree remap_ops (λ n. n) remap_ops-RemapLaws from to hf ht q t
        (unfold remap_ops in d)
    ∙ ground (arith, named-at q t, named-at (from ++ drop (length to) q) t)

pub remap-distinct :
    (from to : Text) (t : InodeTable)
    → HasDistinctKeys t.by_path
    → HasDistinctKeys ((remap from to t).by_path)
unfolding remap remap_ops
remap-distinct from to t d =
    remap_subtree-HasDistinctKeys remap_ops (λ n. n) remap_ops-RemapLaws from to t d
