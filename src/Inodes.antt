-- ===== src/Inodes.antt =====
-- src/fuse/inodes.ts: the table of the inodes that the kernel can name.
-- An `Inode` is an object that three maps share. It is filed in `by_nodeid` when it is made, and
-- `by_path` and `by_key` hold its nodeid, which is never given to another object.
pub mod Table
pub mod Names
pub mod Invariant
pub mod Binding
pub mod Identity
use mountx.Common.{
  ℕ, suc, ◌+◌, ◌-◌, Bool, true, false, not, ◌&&◌, ◌||◌, Option, none, some, List, [], ◌∷◌, ◌++◌,
  Text, ◌==◌, nat_eq, text_eq, ltb, if◌then◌else◌, length,
}
use mountx.Common.Int.{ℤ, pos, negsuc}
use mountx.Common.Result.{Result, ok, err, ◌>>=◌}
use mountx.Common.Assoc.{lookup, insert, delete, add, discard}
use mountx.Common.Decimal.{decimal}
use mountx.Errors.{ErrnoCode, estale, enoent}
use mountx.FilePath.{slash}

abbrev pub fuse_root_id : ℕ
fuse_root_id = 1

pub record Inode : Type 0 where
  pub nodeid : ℕ
  pub key : Option Text
  pub nlookup : ℕ
  pub paths : List Text

-- What the table reads of a driver's `stat`.
pub record Stats : Type 0 where
  pub dev : ℕ
  pub ino : ℕ

pub record InodeTable : Type 0 where
  pub use_driver_ino : Bool
  pub by_nodeid : List (ℕ × Inode)
  pub by_path : List (Text × ℕ)
  pub by_key : List (Text × ℕ)
  pub next_nodeid : ℕ

pub identity_key : Stats → Option Text
identity_key stats =
    if ltb 0 stats.ino then some (decimal stats.dev ++ b':' ∷ decimal stats.ino) else none

pub create : Option Bool → InodeTable
create use_driver_ino = record {
  use_driver_ino = elim use_driver_ino [ none ↦ true | some b ↦ b ];
  by_nodeid =
      (
        fuse_root_id,
        record { nodeid = fuse_root_id; key = none; nlookup = 1; paths = (slash ∷ []) ∷ [] },
      )
      ∷ [];
  by_path = (slash ∷ [], fuse_root_id) ∷ [];
  by_key = [];
  next_nodeid = fuse_root_id + 1;
}

pub size : InodeTable → ℕ
size t = length t.by_nodeid

pub path_count : InodeTable → ℕ
path_count t = length t.by_path

pub get : ℕ → InodeTable → Option Inode
unfolding lookup
get nodeid t = lookup nodeid t.by_nodeid

pub require : ℕ → InodeTable → Result ErrnoCode Inode
unfolding get
require nodeid t = elim (get nodeid t) [ none ↦ err estale | some inode ↦ ok inode ]

pub at : Text → InodeTable → Option ℕ
unfolding lookup
at path t = lookup path t.by_path

pub path_of : Inode → Result ErrnoCode Text
path_of inode = elim inode.paths [ [] ↦ err enoent | path ∷ rest ↦ ok path ]

pub require_path : ℕ → InodeTable → Result ErrnoCode Text
require_path nodeid t = do inode ← require nodeid t; path_of inode

-- Writes to the fields of one object.
abbrev pub update : ℕ → Inode → InodeTable → InodeTable
update n inode t = record t { by_nodeid = insert n inode t.by_nodeid }

abbrev pub set_key : Option Text → ℕ → List (Text × ℕ) → List (Text × ℕ)
set_key none n by_key = by_key
set_key (some k) n by_key = insert k n by_key

-- `this.byKey.get(inode.key) === inode`, for the object with the nodeid `n`.
abbrev pub owns : Option ℕ → ℕ → Bool
owns none n = false
owns (some m) n = m == n

abbrev pub drop_key : Option Text → ℕ → List (Text × ℕ) → List (Text × ℕ)
drop_key none n by_key = by_key
drop_key (some k) n by_key = if owns (lookup k by_key) n then delete k by_key else by_key

pub release_key : ℕ → Inode → InodeTable → InodeTable
release_key n inode t = record t { by_key = drop_key inode.key n t.by_key }

-- An object that is not filed is one that nobody can see: what is left of a write to it is the map.
pub attach_inode : Option Inode → ℕ → Text → InodeTable → InodeTable
attach_inode none n path t = record t { by_path = insert path n t.by_path }
attach_inode (some inode) n path t = record t {
  by_nodeid = insert n (record inode { paths = add path inode.paths }) t.by_nodeid;
  by_path = insert path n t.by_path;
  by_key = set_key inode.key n t.by_key;
}

pub attach_path : ℕ → Text → InodeTable → InodeTable
unfolding attach_inode
attach_path n path t = attach_inode (lookup n t.by_nodeid) n path t

pub detach_inode : Option Inode → ℕ → Text → InodeTable → InodeTable
detach_inode none n path t = record t { by_path = delete path t.by_path }
detach_inode (some inode) n path t = record t {
  by_nodeid = insert n (record inode { paths = discard path inode.paths }) t.by_nodeid;
  by_path = delete path t.by_path;
  by_key =
      if length (discard path inode.paths) == 0 then drop_key inode.key n t.by_key else t.by_key;
}

pub detach_path : ℕ → Text → InodeTable → InodeTable
unfolding detach_inode
detach_path n path t = detach_inode (lookup n t.by_nodeid) n path t

-- `this.useDriverIno ? identityKey(stats) : undefined`
pub key_for : Stats → InodeTable → Option Text
unfolding identity_key
key_for stats t = if t.use_driver_ino then identity_key stats else none

abbrev pub find_key : Option Text → InodeTable → Option ℕ
find_key none t = none
find_key (some k) t = lookup k t.by_key

abbrev pub key_of : Option Inode → Option Text
key_of none = none
key_of (some inode) = inode.key

-- `previous.key === undefined || previous.key === key`
abbrev pub same_key : Option Text → Option Text → Bool
same_key none key = true
same_key (some k) none = false
same_key (some k) (some j) = k == j

-- `byKey ?? (sameFile ? previous : undefined)`
pub choose : Option ℕ → Option ℕ → Option Text → InodeTable → Option ℕ
choose (some n) previous key t = some n
choose none none key t = none
choose none (some n) key t = if same_key (key_of (lookup n t.by_nodeid)) key then some n else none

-- The object of `bind`, made and filed if there is none.
pub make : Option ℕ → Option Text → InodeTable → InodeTable × ℕ
make (some n) key t = (t, n)
make none key t = (
  record t {
    by_nodeid =
        insert t.next_nodeid (record { nodeid = t.next_nodeid; key = key; nlookup = 0; paths = [] })
          t.by_nodeid;
    next_nodeid = suc t.next_nodeid;
  },
  t.next_nodeid,
)

pub leave : Option ℕ → ℕ → Text → InodeTable → InodeTable
leave none n path t = t
leave (some m) n path t = if m == n then t else detach_path m path t

abbrev pub adopted : Option Text → Option Text → Option Text
adopted none key = key
adopted (some k) key = some k

pub adopt_inode : Option Inode → ℕ → Option Text → InodeTable → InodeTable
adopt_inode none n key t = t
adopt_inode (some inode) n key t = record t {
  by_nodeid = insert n (record inode { key = adopted inode.key key }) t.by_nodeid;
}

-- `if (key !== undefined && inode.key === undefined) inode.key = key`
pub adopt : ℕ → Option Text → InodeTable → InodeTable
unfolding adopt_inode
adopt n key t = adopt_inode (lookup n t.by_nodeid) n key t

pub bind : Text → Stats → InodeTable → InodeTable × ℕ
bind path stats t =
    let key = key_for stats t in
    let previous = at path t in
    let (made, n) = make (choose (find_key key t) previous key t) key t in
    (attach_path n path (adopt n key (leave previous n path made)), n)
