-- ===== src/Inodes/Table/Tests.antt =====
-- A hard link, a removal and a forget at concrete files.
use mountx.Common.{◌≡◌, refl, true, none, some, List, [], ◌∷◌, Text, literal, nat_eq, text_eq}
use mountx.Common.Int.{pos}
use mountx.Common.Decimal.{decimal}
use mountx.Common.Assoc.{lookup, insert, delete, add, discard, contains}
use mountx.FilePath.{is_path_inside}
use mountx.Subtree.{remap_subtree}
use mountx.Inodes.{
  Stats, InodeTable, identity_key, create, at, get, bind, key_for, choose, make, leave, adopt,
  adopt_inode, attach_path, attach_inode, detach_path, detach_inode,
}
use mountx.Inodes.Names.{at-bind}
use mountx.Inodes.Identity.{bind_same_file}
use mountx.Inodes.Invariant.{paths_of}
use mountx.Inodes.Table.{
  acquire, acquire_inode, forget, forget_inode, delete_all, unbind, unbind_inode, remap, remap_ops,
  release_paths, nodeids,
}
use mountx.Inodes.Table.Renames.{remap_paths}
use mountx.Inodes.Table.Lifetime.{create-WellFormed}
use mountx.Inodes.Table.Histories.{
  Call, bind_call, acquire_call, step, run, run-WellFormed, run_paths, forget-gone,
}

program : Unit {0}
unfolding create at get identity_key bind key_for choose make leave adopt adopt_inode attach_path
    attach_inode detach_path detach_inode acquire acquire_inode forget forget_inode delete_all
    unbind unbind_inode remap remap_ops release_paths remap_subtree is_path_inside step run lookup
    insert delete add discard contains decimal nodeids
program = tt

abbrev file : Stats
file = record { dev = 1; ino = 7 }

abbrev name_a : Text
name_a = literal "/d/a"

abbrev name_b : Text
name_b = literal "/b"

-- A file with two names, which the kernel looked up once.
abbrev calls : List Call
calls = bind_call name_a file ∷ bind_call name_b file ∷ acquire_call 2 ∷ []

linked : InodeTable
unfolding program
linked = run calls (create none)

one_nodeid : at name_b linked ≡ some 2
unfolding program linked
one_nodeid = refl

two_names : paths_of 2 linked ≡ name_a ∷ name_b ∷ []
unfolding program linked
two_names = refl

at-bind_example : at name_b (bind name_a file linked).0 ≡ some 2
unfolding program linked
at-bind_example = at-bind name_a name_b file linked

run_paths_example : true ≡ true
unfolding program
run_paths_example = run_paths none calls name_b 2

forget-gone_example :
    (get 2 (forget 2 (pos 1) linked).0 ≡ none) × (at name_b (forget 2 (pos 1) linked).0 ≡ none)
unfolding program linked
forget-gone_example =
    forget-gone 2 (pos 1) name_b linked
      (run-WellFormed calls (create none) (create-WellFormed none)) refl

remap_paths_example : at (literal "/e/a") (remap (literal "/d") (literal "/e") linked) ≡ some 2
unfolding program linked
remap_paths_example =
    remap_paths (literal "/d") (literal "/e") (literal "/e/a") linked (λ e. cc) (λ e. cc)
      (run-WellFormed calls (create none) (create-WellFormed none)).distinct

bind_same_file_example : (bind (literal "/c") file (bind (literal "/new") file linked).0).1 ≡ 2
unfolding program linked
bind_same_file_example =
    bind_same_file (literal "/new") (literal "/c") (literal "1:7") file linked
      (run-WellFormed calls (create none) (create-WellFormed none)) refl
