-- ===== src/FilePath/Parent.antt =====
-- `dirname`, `basename` and `joinPath`.
use mountx.Common.{
  ◌≡◌, refl, sym, ap, ◌∙◌, ◌≡⟨◌⟩◌, ◌∎, true, false, if◌then◌else◌, some, none, List, [], ◌∷◌, ◌++◌,
  Text, ◌==◌, nat_eq, arith, all, length, take-append, append-nil, append_assoc, Bool-cases, inl,
  inr,
}
use mountx.FilePath.{
  slash, split, join, pop, split_path, from_segments, is_normalized_path, normalize_path, join_path,
  last_index, before_cut, after_cut, dirname, last_or, basename, resolve,
}
use mountx.FilePath.Segments.{
  no_slash, is_segment, is_plain, split_from-append, split_from-no_slash, resolve-plain,
}
use mountx.FilePath.Normal.{
  is_normalized_path-view, split_path-from_segments, all-is_segment-split_path, normalize_path-eq,
}

last_index-no_slash : (s : Text) → no_slash s ≡ true → last_index s ≡ none
unfolding last_index
last_index-no_slash [] h = refl
last_index-no_slash (c ∷ s) h = ground (arith, last_index-no_slash s)

last_index-append : (a s : Text) → no_slash s ≡ true → last_index (a ++ slash ∷ s) ≡ some (length a)
unfolding last_index
last_index-append [] s h = ground (arith, last_index-no_slash s)
last_index-append (c ∷ a) s h = ground (arith, last_index-append a s)

-- The text before the last slash of a path with these segments.
front : List Text → Text
front [] = []
front (s ∷ ss) = from_segments (s ∷ ss)

join-cons : (s : Text) (ss : List Text) → join (s ∷ ss) ≡ s ++ front ss
unfolding join front from_segments
join-cons s [] = sym (append-nil s)
join-cons s (t ∷ ss) = refl

front-from_segments : (s : Text) (ss : List Text) → front (s ∷ ss) ≡ slash ∷ (s ++ front ss)
unfolding from_segments
front-from_segments s ss = unfold front in ap (◌∷◌ slash) (join-cons s ss)

from_segments-last :
    (d s : Text) (ss : List Text)
    → from_segments (s ∷ ss) ≡ front (pop (s ∷ ss)) ++ slash ∷ last_or d (s ∷ ss)
unfolding pop last_or front
from_segments-last d s [] = unfold from_segments join in refl
from_segments-last d s (t ∷ ss) =
    from_segments (s ∷ t ∷ ss)
    ≡⟨ front-from_segments s (t ∷ ss) ⟩ slash ∷ (s ++ from_segments (t ∷ ss))
    ≡⟨ ap (λ x. slash ∷ (s ++ x)) (from_segments-last s t ss) ⟩
      slash ∷ (s ++ (front (pop (t ∷ ss)) ++ slash ∷ last_or t ss))
    ≡⟨ ap (◌∷◌ slash) (sym (append_assoc s (front (pop (t ∷ ss))) _)) ⟩
      (slash ∷ (s ++ front (pop (t ∷ ss)))) ++ slash ∷ last_or t ss
    ≡⟨ ap (λ x. x ++ slash ∷ last_or t ss) (sym (front-from_segments s (pop (t ∷ ss)))) ⟩
      from_segments (s ∷ pop (t ∷ ss)) ++ slash ∷ last_or t ss ∎

is_segment-last_or :
    (s : Text) (ss : List Text) → all is_segment (s ∷ ss) ≡ true → is_segment (last_or s ss) ≡ true
unfolding last_or
is_segment-last_or s [] h = ground arith
is_segment-last_or s (t ∷ ss) h = is_segment-last_or t ss (ground arith)

no_slash_of : (s : Text) → is_segment s ≡ true → no_slash s ≡ true
unfolding is_segment
no_slash_of s h = ground arith

before_cut-front :
    (q : List Text) (s : Text)
    → before_cut (front q ++ slash ∷ s) (some (length (front q))) ≡ from_segments q
unfolding before_cut front from_segments
before_cut-front [] s = refl
before_cut-front (t ∷ q) s = ap (◌∷◌ slash) (take-append (join (t ∷ q)) (slash ∷ s))

after_cut-front : (a s : Text) → after_cut (a ++ slash ∷ s) (some (length a)) ≡ s
unfolding after_cut
after_cut-front [] s = refl
after_cut-front (c ∷ a) s = after_cut-front a s

dirname-from_segments :
    (ss : List Text)
    → all is_segment ss ≡ true
    → before_cut (from_segments ss) (last_index (from_segments ss)) ≡ from_segments (pop ss)
dirname-from_segments [] h = unfold from_segments pop before_cut last_index in refl
dirname-from_segments (s ∷ ss) h =
    let q = pop (s ∷ ss) in
    let l = last_or s (s ∷ ss) in
    let flat : no_slash l ≡ true = no_slash_of l (unfold last_or in is_segment-last_or s ss h) in
    rw (from_segments-last s s ss, last_index-append (front q) l flat) (before_cut-front q l)

-- `dirname` drops the last segment, whichever of its branches computes it.
pub dirname-eq : (p : Text) → dirname p ≡ from_segments (pop (split_path p))
unfolding dirname
dirname-eq p = elim (Bool-cases (is_normalized_path p)) [
  | inl e ↦
      let (ss, h, q) = is_normalized_path-view p e in
      rw (e, q, split_path-from_segments ss h) (dirname-from_segments ss h)
  | inr e ↦ rw e
]

length-from_segments :
    (s : Text) (ss : List Text)
    → is_segment s ≡ true
    → (length (from_segments (s ∷ ss)) == 1) ≡ false
unfolding from_segments join is_segment is_plain
length-from_segments [] ss h = cc
length-from_segments (c ∷ s) [] h = ground arith
length-from_segments (c ∷ s) (t ∷ ss) h = ground arith

basename-from_segments :
    (ss : List Text)
    → all is_segment ss ≡ true
    → (if length (from_segments ss) == 1
        then slash ∷ []
        else after_cut (from_segments ss) (last_index (from_segments ss)))
      ≡ last_or (slash ∷ []) ss
basename-from_segments [] h = unfold from_segments last_or in refl
basename-from_segments (s ∷ ss) h =
    let d : Text = slash ∷ [] in
    let l = last_or d (s ∷ ss) in
    let a = front (pop (s ∷ ss)) in
    let flat : no_slash l ≡ true = no_slash_of l (unfold last_or in is_segment-last_or s ss h) in
    rw (length-from_segments s ss (ground arith))
      (rw (from_segments-last d s ss, last_index-append a l flat) (after_cut-front a l))

-- `basename` is the last segment, and "/" where there is none, whichever branch computes it.
pub basename-eq : (p : Text) → basename p ≡ last_or (slash ∷ []) (split_path p)
unfolding basename
basename-eq p = elim (Bool-cases (is_normalized_path p)) [
  | inl e ↦
      let (ss, h, q) = is_normalized_path-view p e in
      rw (e, q, split_path-from_segments ss h) (basename-from_segments ss h)
  | inr e ↦ rw e
]

under_root : (s : Text) → is_segment s ≡ true → split_path (slash ∷ slash ∷ s) ≡ s ∷ []
unfolding split_path
under_root s h =
    let cut : split (slash ∷ slash ∷ s) ≡ [] ∷ [] ∷ s ∷ [] =
      split_from-append [] [] (slash ∷ s) refl
      ∙ ap (◌∷◌ []) (
          split_from-append [] [] s refl
          ∙ ap (◌∷◌ []) (unfold split in split_from-no_slash [] s (no_slash_of s h))) in
    ap (resolve []) cut ∙ unfold resolve in resolve-plain [] (s ∷ []) (ground arith)

joined :
    (ss : List Text)
    → all is_segment ss ≡ true
    → split_path (from_segments (pop ss) ++ slash ∷ last_or (slash ∷ []) ss) ≡ ss
joined [] h = unfold split_path from_segments pop last_or in refl
joined (s ∷ []) h = unfold from_segments pop last_or in under_root s (ground arith)
joined (s ∷ t ∷ ss) h =
    let whole = from_segments-last (slash ∷ []) s (t ∷ ss) in
    let parts : front (pop (s ∷ t ∷ ss)) ≡ from_segments (pop (s ∷ t ∷ ss)) =
      unfold front pop in refl in
    ap split_path (ap (λ x. x ++ slash ∷ last_or (slash ∷ []) (s ∷ t ∷ ss)) (sym parts) ∙ sym whole)
    ∙ split_path-from_segments (s ∷ t ∷ ss) h

-- The parent and the name of a path, joined again, are the path in normal form; the root too.
pub join_path-dirname-basename :
    (p : Text) → join_path (dirname p ∷ basename p ∷ []) ≡ normalize_path p
unfolding join_path
join_path-dirname-basename p =
    let back = joined (split_path p) (all-is_segment-split_path p) in
    let name = last_or (slash ∷ []) (split_path p) in
    rw (dirname-eq p, basename-eq p)
      (normalize_path-eq (from_segments (pop (split_path p)) ++ slash ∷ name)
        ∙ ap from_segments back
        ∙ sym (normalize_path-eq p))
