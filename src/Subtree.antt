-- ===== src/Subtree.antt =====
-- src/subtree.ts: the walk that a rename makes over a table's path map.
pub mod Laws
pub mod Renames
use mountx.Common.{
  ℕ, Bool, true, false, List, [], ◌∷◌, ◌++◌, Text, ◌==◌, text_eq, if◌then◌else◌, length, drop,
  filter, map,
}
use mountx.FilePath.{is_path_inside}

-- A table `S` with a path map to values `V`. A value is an object, of which `V` is a reference or a
-- copy; `release` is the walk's own `byPath.delete(from)` and `value.paths.delete(from)`, and returns
-- the value that it changes.
pub record SubtreeRemapOps (S V : Type 0) : Type 0 where
  pub by_path : S → List (Text × V)
  pub detach : V → Text → S → S
  pub release : V → Text → S → S × V
  pub attach : V → Text → S → S

pub record Move (V : Type 0) : Type 0 where
  pub value : V
  pub from : Text
  pub to : Text

module _ {S V : Type 0} (ops : SubtreeRemapOps S V) where
  -- `for (const [path, value] of byPath)`: a detach takes away the current key only, so the walk
  -- goes over the entries that were there at its start.
  pub detach_inside : Text → List (Text × V) → S → S
  detach_inside dir [] s = s
  detach_inside dir ((path, value) ∷ rest) s =
      detach_inside dir rest (if is_path_inside path dir then ops.detach value path s else s)

  pub moves : Text → Text → List (Text × V) → List (Move V)
  moves from to [] = []
  moves from to ((path, value) ∷ rest) =
      let later = moves from to rest in
      if is_path_inside path from
      then record { value = value; from = path; to = to ++ drop (length from) path } ∷ later
      else later

  pub release_all : List (Move V) → S → S × List (Move V)
  release_all [] s = (s, [])
  release_all (m ∷ ms) s =
      let (s', value) = ops.release m.value m.from s in
      let (s'', later) = release_all ms s' in (s'', record m { value = value } ∷ later)

  pub attach_all : List (Move V) → S → S
  attach_all [] s = s
  attach_all (m ∷ ms) s = attach_all ms (ops.attach m.value m.to s)

  unfoldable pub remap_subtree : Text → Text → S → S
  unfolding detach_inside moves release_all attach_all
  remap_subtree from to s =
      let cleared = if from == to then s else detach_inside to (ops.by_path s) s in
      let (bare, moved) = release_all (moves from to (ops.by_path cleared)) cleared in
      attach_all moved bare
