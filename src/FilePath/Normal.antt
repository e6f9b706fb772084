-- ===== src/FilePath/Normal.antt =====
-- The normal form: what `isNormalizedPath` accepts, and what `normalizePath` and `resolvePath`
-- return.
use mountx.Common.{
  ◌≡◌, refl, sym, ap, ◌∙◌, ◌↔◌, true, List, [], ◌∷◌, Text, ◌==◌, nat_eq, text_eq, arith, all,
  Bool-cases, inl, inr, subst, ◌≢◌, drop, if◌then◌else◌, ==_ne,
}
use mountx.FilePath.{
  slash, scan, split_from, split, join, resolve, split_path, from_segments, is_normalized_path,
  normalize_path, resolve_path,
}
use mountx.FilePath.Segments.{
  no_slash, is_plain, is_segment, scan-split, split_from-cons, join-split_from, split_from-append,
  all-no_slash-split_from, split-join, all-is_segment-resolve, resolve-plain,
}

all-is_segment_of :
    (ss : List Text) → all is_plain ss ≡ true → all no_slash ss ≡ true → all is_segment ss ≡ true
unfolding is_segment
all-is_segment_of [] h k = refl
all-is_segment_of (s ∷ ss) h k = ground (arith, all-is_segment_of ss)

all-is_plain_of : (ss : List Text) → all is_segment ss ≡ true → all is_plain ss ≡ true
unfolding is_segment
all-is_plain_of [] h = refl
all-is_plain_of (s ∷ ss) h = ground (arith, all-is_plain_of ss)

-- A path is in normal form exactly if it is "/" followed by segments that are joined by "/".
pub is_normalized_path-view :
    (p : Text)
    → is_normalized_path p ≡ true
    → (ss : List Text) × (all is_segment ss ≡ true) × (p ≡ from_segments ss)
unfolding is_normalized_path from_segments split
is_normalized_path-view [] h = cc
is_normalized_path-view (c ∷ []) h = ([], refl, ground arith)
is_normalized_path-view (c ∷ d ∷ rest) h =
    let (s, ss, e) = split_from-cons [] (d ∷ rest) in
    let plain : all is_plain (split_from [] (d ∷ rest)) ≡ true =
      ground (arith, scan-split [] (d ∷ rest)) in
    let whole = all-is_segment_of _ plain (all-no_slash-split_from [] (d ∷ rest) refl) in
    (s ∷ ss, rw e at whole, ground (arith, join-split_from [] (d ∷ rest)))

is_normalized_path-slash : (t : Text) → t ≢ [] → is_normalized_path (slash ∷ t) ≡ scan t 0 t
unfolding is_normalized_path
is_normalized_path-slash [] h = absurd (h refl)
is_normalized_path-slash (d ∷ t) h = refl

join-ne-nil : (s : Text) (ss : List Text) → is_segment s ≡ true → join (s ∷ ss) ≢ []
unfolding join is_segment is_plain
join-ne-nil [] ss h e = cc
join-ne-nil (c ∷ s) [] h e = cc
join-ne-nil (c ∷ s) (t ∷ ss) h e = cc

pub is_normalized_path-from_segments :
    (ss : List Text) → all is_segment ss ≡ true → is_normalized_path (from_segments ss) ≡ true
unfolding from_segments split
is_normalized_path-from_segments [] h = unfold is_normalized_path in refl
is_normalized_path-from_segments (s ∷ ss) h =
    is_normalized_path-slash (join (s ∷ ss)) (join-ne-nil s ss (ground arith))
    ∙ scan-split [] (join (s ∷ ss))
    ∙ ap (all is_plain) (split-join s ss h)
    ∙ all-is_plain_of (s ∷ ss) h

-- The segments of a path in normal form are those that it is made of.
pub split_path-from_segments :
    (ss : List Text) → all is_segment ss ≡ true → split_path (from_segments ss) ≡ ss
unfolding split_path from_segments
split_path-from_segments [] h = refl
split_path-from_segments (s ∷ ss) h =
    let cut : split (slash ∷ join (s ∷ ss)) ≡ [] ∷ s ∷ ss =
      split_from-append [] [] (join (s ∷ ss)) refl ∙ ap (◌∷◌ []) (split-join s ss h) in
    ap (resolve []) cut ∙ resolve-plain [] (s ∷ ss) h

-- Whatever the path, no segment of it is "", "." or "..", and none holds a slash.
pub all-is_segment-split_path : (p : Text) → all is_segment (split_path p) ≡ true
unfolding split_path split
all-is_segment-split_path p =
    all-is_segment-resolve [] (split_from [] p) refl (all-no_slash-split_from [] p refl)

-- The result of `normalizePath` does not depend on its test: it is the split and rejoined path.
pub normalize_path-eq : (p : Text) → normalize_path p ≡ from_segments (split_path p)
unfolding normalize_path
normalize_path-eq p = elim (Bool-cases (is_normalized_path p)) [
  | inl e ↦
      let (ss, h, q) = is_normalized_path-view p e in
      rw e (q ∙ ap from_segments (sym (ap split_path q ∙ split_path-from_segments ss h)))
  | inr e ↦ rw e
]

-- `normalizePath` returns the segments of `splitPath`, rejoined behind a "/", whether its test lets
-- it skip that work or not; the test accepts the result, normalising it again changes nothing, and
-- it has the segments of the path.
pub normalize_path_normal :
    (p : Text)
    → (normalize_path p ≡ from_segments (split_path p))
      × (is_normalized_path (normalize_path p) ≡ true)
      × (normalize_path (normalize_path p) ≡ normalize_path p)
      × (split_path (normalize_path p) ≡ split_path p)
normalize_path_normal p =
    let h = all-is_segment-split_path p in
    let same = split_path-from_segments (split_path p) h in
    rw (normalize_path-eq p) (
      refl,
      is_normalized_path-from_segments (split_path p) h,
      normalize_path-eq (from_segments (split_path p)) ∙ ap from_segments same,
      same,
    )

-- The one pass of `isNormalizedPath` accepts exactly the paths that splitting by `splitPath` and
-- rejoining behind a "/" would give back unchanged.
pub is_normalized_path_iff :
    (p : Text) → (is_normalized_path p ≡ true) ↔ (from_segments (split_path p) ≡ p)
is_normalized_path_iff p = (
  λ e. sym (normalize_path-eq p) ∙ unfold normalize_path in rw e refl,
  λ q.
      subst (λ r. is_normalized_path r ≡ true) q
        (is_normalized_path-from_segments (split_path p) (all-is_segment-split_path p)),
)

cut_segments :
    (ss : List Text)
    → all is_segment ss ≡ true
    → (if from_segments ss == slash ∷ [] then [] else split (drop 1 (from_segments ss))) ≡ ss
unfolding from_segments
cut_segments [] h = refl
cut_segments (s ∷ ss) h =
    let filled = join-ne-nil s ss (ground arith) in
    let off = ==_ne (slash ∷ join (s ∷ ss)) (slash ∷ []) (λ e. filled (ap (drop 1) e)) in
    rw off (split-join s ss h)

-- `resolvePath` returns what `normalizePath` and `splitPath` return, on both of its branches.
resolve_path_lem :
    (p : Text)
    → ((resolve_path p).path ≡ normalize_path p) × ((resolve_path p).segments ≡ split_path p)
unfolding resolve_path
resolve_path_lem p = elim (Bool-cases (is_normalized_path p)) [
  | inl e ↦
      let (ss, h, q) = is_normalized_path-view p e in
      rw e (
        sym ((is_normalized_path_iff p).0 e) ∙ sym (normalize_path-eq p),
        rw q (cut_segments ss h ∙ sym (split_path-from_segments ss h)),
      )
  | inr e ↦ rw e (sym (normalize_path-eq p), refl)
]
