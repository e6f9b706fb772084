-- ===== src/Inodes/Table.antt =====
-- src/fuse/inodes.ts: lookups and forgets, and the changes that a removal and a rename make.
pub mod Renames
pub mod Lifetime
pub mod Histories
pub mod Tests
use mountx.Common.{
  ℕ, ◌+◌, ◌-◌, Bool, true, false, ◌||◌, Option, none, some, List, [], ◌∷◌, Text, ◌==◌, nat_eq,
  text_eq, ltb, if◌then◌else◌, map,
}
use mountx.Common.Int.{ℤ, pos, negsuc}
use mountx.Common.Assoc.{lookup, insert, delete, discard}
use mountx.FilePath.{slash}
use mountx.Subtree.{SubtreeRemapOps, remap_subtree}
use mountx.Inodes.{Inode, InodeTable, fuse_root_id, at, attach_path, detach_path, drop_key, update}

pub acquire_inode : Option Inode → ℕ → InodeTable → InodeTable
acquire_inode none n t = t
acquire_inode (some inode) n t = update n (record inode { nlookup = inode.nlookup + 1 }) t

pub acquire : ℕ → InodeTable → InodeTable
unfolding acquire_inode
acquire n t = acquire_inode (lookup n t.by_nodeid) n t

-- `count > 0n ? count : 0n`
abbrev pub clamped : ℤ → ℕ
clamped (pos n) = n
clamped (negsuc n) = 0

pub delete_all : List Text → List (Text × ℕ) → List (Text × ℕ)
delete_all [] by_path = by_path
delete_all (path ∷ rest) by_path = delete_all rest (delete path by_path)

-- The count never shows below zero: an object whose count falls to zero or below is dropped.
abbrev pub drop_inode : ℕ → Inode → InodeTable → InodeTable
drop_inode n inode t = record t {
  by_path = delete_all inode.paths t.by_path;
  by_key = drop_key inode.key n t.by_key;
  by_nodeid = delete n t.by_nodeid;
}

pub forget_inode : Option Inode → ℕ → ℤ → InodeTable → InodeTable × Bool
forget_inode none n count t = (t, false)
forget_inode (some inode) n count t =
    let left = inode.nlookup - clamped count in
    if n == fuse_root_id
    then (t, false)
    else if ltb 0 left
    then (update n (record inode { nlookup = left }) t, false)
    else (drop_inode n inode t, true)

pub forget : ℕ → ℤ → InodeTable → InodeTable × Bool
unfolding forget_inode
forget n count t = forget_inode (lookup n t.by_nodeid) n count t

pub unbind_inode : Option ℕ → Text → InodeTable → InodeTable × Option ℕ
unbind_inode none path t = (t, none)
unbind_inode (some n) path t = (detach_path n path t, some n)

pub unbind : Text → InodeTable → InodeTable × Option ℕ
unfolding unbind_inode
unbind path t = unbind_inode (at path t) path t

pub release_paths : Option Inode → ℕ → Text → InodeTable → InodeTable
release_paths none n path t = record t { by_path = delete path t.by_path }
release_paths (some inode) n path t = record t {
  by_path = delete path t.by_path;
  by_nodeid = insert n (record inode { paths = discard path inode.paths }) t.by_nodeid;
}

pub remap_ops : SubtreeRemapOps InodeTable ℕ
unfolding release_paths
remap_ops = record {
  by_path = λ t. t.by_path;
  detach = detach_path;
  release = λ n path t. (release_paths (lookup n t.by_nodeid) n path t, n);
  attach = attach_path;
}

pub remap : Text → Text → InodeTable → InodeTable
unfolding remap_subtree remap_ops
remap from to t = remap_subtree remap_ops from to t

pub nodeids : InodeTable → List ℕ
nodeids t = map (λ entry. entry.0) t.by_nodeid

-- `this.root` is the object that the constructor made, whatever the maps hold.
abbrev pub cleared_root : Option Inode → Inode
cleared_root none = record {
  nodeid = fuse_root_id;
  key = none;
  nlookup = 1;
  paths = (slash ∷ []) ∷ [];
}
cleared_root (some root) = record root { paths = (slash ∷ []) ∷ [] }

pub clear : InodeTable → InodeTable
clear t = record t {
  by_nodeid = (fuse_root_id, cleared_root (lookup fuse_root_id t.by_nodeid)) ∷ [];
  by_path = (slash ∷ [], fuse_root_id) ∷ [];
  by_key = [];
}
