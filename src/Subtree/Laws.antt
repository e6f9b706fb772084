-- ===== src/Subtree/Laws.antt =====
-- What a rename does to the names of a table: an interface for the table's own operations, and the
-- result of the walk over them.
use mountx.Common.{
  ◌≡◌, refl, ◌∙◌, Bool, true, false, ◌&&◌, ◌||◌, Option, none, some, List, [], ◌∷◌, ◌++◌, Text,
  ◌==◌, ==_iff, text_eq, if◌then◌else◌, length, drop, arith, Bool-cases, inl, inr,
}
use mathlib.Core.Option
use mountx.Common.Assoc.{lookup, HasDistinctKeys}
use mountx.FilePath.{is_path_inside}
use mountx.Subtree.{SubtreeRemapOps, detach_inside}

-- What a path names, as far as `view` shows it of a value.
abbrev pub name_of : {S V W : Type 0} → SubtreeRemapOps S V → (V → W) → Text → S → Option W
name_of ops view q s = Option.map view (lookup q (ops.by_path s))

pub record RemapLaws {S V W : Type 0} (ops : SubtreeRemapOps S V) (view : V → W) : Type 0 where
  pub detach_name :
      (v : V) (p q : Text) (s : S)
      → name_of ops view q (ops.detach v p s) ≡ (if p == q then none else name_of ops view q s)
  pub release_name :
      (v : V) (p q : Text) (s : S)
      → name_of ops view q (ops.release v p s).0 ≡ (if p == q then none else name_of ops view q s)
  pub release_view : (v : V) (p : Text) (s : S) → view (ops.release v p s).1 ≡ view v
  pub attach_name :
      (v : V) (p q : Text) (s : S)
      → name_of ops view q (ops.attach v p s)
        ≡ (if p == q then some (view v) else name_of ops view q s)
  pub release_distinct :
      (v : V) (p : Text) (s : S)
      → HasDistinctKeys (ops.by_path s)
      → HasDistinctKeys (ops.by_path (ops.release v p s).0)
  pub attach_distinct :
      (v : V) (p : Text) (s : S)
      → HasDistinctKeys (ops.by_path s)
      → HasDistinctKeys (ops.by_path (ops.attach v p s))
  pub detach_distinct :
      (v : V) (p : Text) (s : S)
      → HasDistinctKeys (ops.by_path s)
      → HasDistinctKeys (ops.by_path (ops.detach v p s))

-- The name `q` after `from` was renamed to `to`: below `to` stands what stood below `from`, unless
-- that was below `to` itself and so was replaced; nothing is left below `from`.
abbrev pub renamed : {W : Type 0} → Text → Text → (Text → Option W) → Text → Option W
renamed from to before q =
    if from == to
    then before q
    else if is_path_inside q to
    then (let source = from ++ drop (length to) q in
        if is_path_inside source to then none else before source)
    else if is_path_inside q from
    then none
    else before q

module _ {V : Type 0} where
  -- The keys of the entries, below a directory.
  abbrev pub listed : Text → Text → List (Text × V) → Bool
  listed dir q [] = false
  listed dir q ((p, v) ∷ es) = is_path_inside p dir && p == q || listed dir q es

  pub is_path_inside_of_listed :
      (dir q : Text) (es : List (Text × V)) → listed dir q es ≡ true → is_path_inside q dir ≡ true
  is_path_inside_of_listed dir q [] h = cc
  is_path_inside_of_listed dir q ((p, v) ∷ es) h =
      ground (arith, ==_iff p q, is_path_inside_of_listed dir q es)

  pub lookup_of_not_listed :
      (dir q : Text) (es : List (Text × V))
      → is_path_inside q dir ≡ true
      → listed dir q es ≡ false
      → lookup q es ≡ none
  unfolding lookup
  lookup_of_not_listed dir q [] i h = refl
  lookup_of_not_listed dir q ((p, v) ∷ es) i h =
      ground (arith, ==_iff p q, lookup_of_not_listed dir q es)

module _ {S V W : Type 0} (ops : SubtreeRemapOps S V) (view : V → W)
    (laws : RemapLaws ops view) where
  pub name_of-detach_inside :
      (dir q : Text) (es : List (Text × V)) (s : S)
      → name_of ops view q (detach_inside ops dir es s)
        ≡ (if listed dir q es then none else name_of ops view q s)
  unfolding detach_inside
  name_of-detach_inside dir q [] s = refl
  name_of-detach_inside dir q ((p, v) ∷ es) s = elim (Bool-cases (is_path_inside p dir)) [
    | inl e ↦ rw e (
        name_of-detach_inside dir q es (ops.detach v p s)
        ∙ ground (arith, laws.detach_name v p q s))
    | inr e ↦ rw e (name_of-detach_inside dir q es s)
  ]

  pub detach_inside-HasDistinctKeys :
      (dir : Text) (es : List (Text × V)) (s : S)
      → HasDistinctKeys (ops.by_path s)
      → HasDistinctKeys (ops.by_path (detach_inside ops dir es s))
  unfolding detach_inside
  detach_inside-HasDistinctKeys dir [] s h = h
  detach_inside-HasDistinctKeys dir ((p, v) ∷ es) s h = elim (Bool-cases (is_path_inside p dir)) [
    | inl e ↦
        rw e
          (detach_inside-HasDistinctKeys dir es (ops.detach v p s) (laws.detach_distinct v p s h))
    | inr e ↦ rw e (detach_inside-HasDistinctKeys dir es s h)
  ]

  -- After the first pass nothing is named below the destination, and all else is as it was.
  pub name_of_cleared :
      (dir q : Text) (s : S)
      → name_of ops view q (detach_inside ops dir (ops.by_path s) s)
        ≡ (if is_path_inside q dir then none else name_of ops view q s)
  name_of_cleared dir q s =
      name_of-detach_inside dir q (ops.by_path s) s
      ∙ ground (
        arith,
        is_path_inside_of_listed dir q (ops.by_path s),
        lookup_of_not_listed dir q (ops.by_path s),
      )
