-- ===== src/FilePath/Inside.antt =====
-- `isPathInside`: a test on characters that means a test on segments.
use mountx.Common.{
  ◌≡◌, refl, ◌∙◌, Bool, true, false, ◌&&◌, ◌||◌, List, [], ◌∷◌, ◌++◌, Text, ◌==◌, nat_eq, text_eq,
  arith, all,
}
use mountx.FilePath.{
  slash, join, split_path, from_segments, is_normalized_path, starts_with, is_path_inside,
}
use mountx.FilePath.Segments.{no_slash, is_segment, is_plain}
use mountx.FilePath.Normal.{is_normalized_path-view, split_path-from_segments}

-- The segments `ds` stand at the front of `ps`.
unfoldable pub is_prefix : List Text → List Text → Bool
is_prefix [] ps = true
is_prefix (d ∷ ds) [] = false
is_prefix (d ∷ ds) (p ∷ ps) = p == d && is_prefix ds ps

inside : Text → Text → Bool
inside x y = x == y || starts_with x (y ++ slash ∷ [])

inside_last : (s t : Text) → no_slash s ≡ true → inside s t ≡ (s == t)
unfolding inside starts_with
inside_last [] [] h = refl
inside_last [] (b ∷ t) h = refl
inside_last (a ∷ s) [] h = ground arith
inside_last (a ∷ s) (b ∷ t) h = ground (arith, inside_last s t)

inside_deeper :
    (s t u : Text) → no_slash t ≡ true → no_slash s ≡ true → inside (s ++ slash ∷ u) t ≡ (s == t)
unfolding inside starts_with
inside_deeper [] [] u h k = ground arith
inside_deeper [] (b ∷ t) u h k = ground arith
inside_deeper (a ∷ s) [] u h k = ground arith
inside_deeper (a ∷ s) (b ∷ t) u h k = ground (arith, inside_deeper s t u)

inside_shorter : (s t v : Text) → no_slash s ≡ true → inside s (t ++ slash ∷ v) ≡ false
unfolding inside starts_with
inside_shorter [] [] v h = refl
inside_shorter [] (b ∷ t) v h = refl
inside_shorter (a ∷ s) [] v h = ground arith
inside_shorter (a ∷ s) (b ∷ t) v h = ground (arith, inside_shorter s t v)

inside_step :
    (s t u v : Text)
    → no_slash s ≡ true
    → no_slash t ≡ true
    → inside (s ++ slash ∷ u) (t ++ slash ∷ v) ≡ (s == t && inside u v)
unfolding inside starts_with
inside_step [] [] u v h k = ground arith
inside_step [] (b ∷ t) u v h k = ground arith
inside_step (a ∷ s) [] u v h k = ground arith
inside_step (a ∷ s) (b ∷ t) u v h k = ground (arith, inside_step s t u v)

no_slash_of : (s : Text) → is_segment s ≡ true → no_slash s ≡ true
unfolding is_segment
no_slash_of s h = ground arith

inside-join :
    (p d : Text) (ps ds : List Text)
    → all is_segment (p ∷ ps) ≡ true
    → all is_segment (d ∷ ds) ≡ true
    → inside (join (p ∷ ps)) (join (d ∷ ds)) ≡ is_prefix (d ∷ ds) (p ∷ ps)
unfolding join is_prefix
inside-join p d [] [] h k = ground (arith, inside_last p d, no_slash_of p)
inside-join p d (q ∷ ps) [] h k =
    ground (arith, inside_deeper p d (join (q ∷ ps)), no_slash_of p, no_slash_of d)
inside-join p d [] (e ∷ ds) h k = ground (arith, inside_shorter p d (join (e ∷ ds)), no_slash_of p)
inside-join p d (q ∷ ps) (e ∷ ds) h k = ground (
  arith,
  inside_step p d (join (q ∷ ps)) (join (e ∷ ds)),
  inside-join q e ps ds,
  no_slash_of p,
  no_slash_of d,
)

join-not_nil : (d : Text) (ds : List Text) → is_segment d ≡ true → (join (d ∷ ds) == []) ≡ false
unfolding join is_segment is_plain
join-not_nil [] ds h = cc
join-not_nil (c ∷ d) [] h = refl
join-not_nil (c ∷ d) (e ∷ ds) h = refl

-- Below a directory that is not the root, the test on the texts is the test on the joined segments.
is_path_inside-slash :
    (t u : Text) → (u == []) ≡ false → is_path_inside (slash ∷ t) (slash ∷ u) ≡ inside t u
unfolding is_path_inside inside
is_path_inside-slash t [] h = cc
is_path_inside-slash t (c ∷ u) h = ground arith

inside_nil : (d : Text) (ds : List Text) → is_segment d ≡ true → inside [] (join (d ∷ ds)) ≡ false
unfolding inside starts_with join is_segment is_plain
inside_nil [] ds h = cc
inside_nil (c ∷ d) [] h = refl
inside_nil (c ∷ d) (e ∷ ds) h = refl

is_path_inside-from_segments :
    (ps ds : List Text)
    → all is_segment ps ≡ true
    → all is_segment ds ≡ true
    → is_path_inside (from_segments ps) (from_segments ds) ≡ is_prefix ds ps
unfolding from_segments is_prefix
is_path_inside-from_segments [] [] h k = unfold is_path_inside in refl
is_path_inside-from_segments (p ∷ ps) [] h k = unfold is_path_inside in ground arith
is_path_inside-from_segments [] (d ∷ ds) h k =
    is_path_inside-slash [] (join (d ∷ ds)) (join-not_nil d ds (ground arith))
    ∙ inside_nil d ds (ground arith)
is_path_inside-from_segments (p ∷ ps) (d ∷ ds) h k =
    is_path_inside-slash (join (p ∷ ps)) (join (d ∷ ds)) (join-not_nil d ds (ground arith))
    ∙ inside-join p d ps ds h k

-- For two paths in normal form, `isPathInside` holds exactly if the segments of the directory stand
-- at the front of those of the path: "/ab" is not inside "/a".
pub is_path_inside-eq :
    (path parent : Text)
    → is_normalized_path path ≡ true
    → is_normalized_path parent ≡ true
    → is_path_inside path parent ≡ is_prefix (split_path parent) (split_path path)
is_path_inside-eq path parent h k =
    let (ps, hp, ep) = is_normalized_path-view path h in
    let (ds, hd, ed) = is_normalized_path-view parent k in
    rw (ep, ed, split_path-from_segments ps hp, split_path-from_segments ds hd)
      (is_path_inside-from_segments ps ds hp hd)
