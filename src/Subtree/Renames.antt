-- ===== src/Subtree/Renames.antt =====
-- The name map after the whole walk.
use mountx.Common.{
  ◌≡◌, refl, sym, ap, ◌∙◌, ◌≢◌, Bool, true, false, ◌||◌, Option, none, some, List, [], ◌∷◌, ◌++◌,
  Text, ◌==◌, ==_iff, ==_ne, text_eq, if◌then◌else◌, length, drop, arith, Bool-cases, Option-cases,
  inl, inr,
}
use mathlib.Core.Option
use mountx.Common.Assoc.{lookup, HasDistinctKeys}
use mountx.FilePath.{slash, is_path_inside}
use mountx.FilePath.Tails.{is_tail, is_path_inside-append, is_path_inside-eq_append, append_cancel}
use mountx.Subtree.{
  SubtreeRemapOps, Move, detach_inside, moves, release_all, attach_all, remap_subtree,
}
use mountx.Subtree.Laws.{
  RemapLaws, name_of, renamed, listed, is_path_inside_of_listed, lookup_of_not_listed,
  name_of_cleared, detach_inside-HasDistinctKeys,
}

not_same : {p q : Text} → p ≡ q → (p == q) ≡ false → ⊥
not_same {p} {q} e h = cc ((==_iff p q).1 e)

module _ {S V W : Type 0} (ops : SubtreeRemapOps S V) (view : V → W)
    (laws : RemapLaws ops view) where
  abbrev released : Text → List (Move V) → Bool
  released q [] = false
  released q (m ∷ ms) = m.from == q || released q ms

  name_of-release_all :
      (q : Text) (ms : List (Move V)) (s : S)
      → name_of ops view q (release_all ops ms s).0
        ≡ (if released q ms then none else name_of ops view q s)
  unfolding release_all
  name_of-release_all q [] s = refl
  name_of-release_all q (m ∷ ms) s =
      name_of-release_all q ms (ops.release m.value m.from s).0
      ∙ ground (arith, laws.release_name m.value m.from q s)

  -- The last move to a name is the one that stays.
  abbrev last_to : Text → List (Move V) → Option W
  last_to q [] = none
  last_to q (m ∷ ms) = elim (last_to q ms) [
    | some w ↦ some w
    | none ↦ if m.to == q then some (view m.value) else none
  ]

  last_to-release_all :
      (q : Text) (ms : List (Move V)) (s : S) → last_to q (release_all ops ms s).1 ≡ last_to q ms
  unfolding release_all
  last_to-release_all q [] s = refl
  last_to-release_all q (m ∷ ms) s = ground (
    arith,
    last_to-release_all q ms (ops.release m.value m.from s).0,
    laws.release_view m.value m.from s,
  )

  name_of-attach_all :
      (q : Text) (ms : List (Move V)) (s : S)
      → name_of ops view q (attach_all ops ms s)
        ≡ elim (last_to q ms) [ some w ↦ some w | none ↦ name_of ops view q s ]
  unfolding attach_all
  name_of-attach_all q [] s = refl
  name_of-attach_all q (m ∷ ms) s =
      name_of-attach_all q ms (ops.attach m.value m.to s)
      ∙ ground (arith, laws.attach_name m.value m.to q s)

  released-moves :
      (from to q : Text) (es : List (Text × V))
      → released q (moves ops from to es) ≡ listed from q es
  unfolding moves
  released-moves from to q [] = refl
  released-moves from to q ((p, v) ∷ es) = elim (Bool-cases (is_path_inside p from)) [
    | inl e ↦ rw e (ground (arith, released-moves from to q es))
    | inr e ↦ rw e (released-moves from to q es)
  ]

  release_all-HasDistinctKeys :
      (ms : List (Move V)) (s : S)
      → HasDistinctKeys (ops.by_path s)
      → HasDistinctKeys (ops.by_path (release_all ops ms s).0)
  unfolding release_all
  release_all-HasDistinctKeys [] s d = d
  release_all-HasDistinctKeys (m ∷ ms) s d =
      release_all-HasDistinctKeys ms (ops.release m.value m.from s).0
        (laws.release_distinct m.value m.from s d)

  attach_all-HasDistinctKeys :
      (ms : List (Move V)) (s : S)
      → HasDistinctKeys (ops.by_path s)
      → HasDistinctKeys (ops.by_path (attach_all ops ms s))
  unfolding attach_all
  attach_all-HasDistinctKeys [] s d = d
  attach_all-HasDistinctKeys (m ∷ ms) s d =
      attach_all-HasDistinctKeys ms (ops.attach m.value m.to s)
        (laws.attach_distinct m.value m.to s d)

  pub remap_subtree-HasDistinctKeys :
      (from to : Text) (s : S)
      → HasDistinctKeys (ops.by_path s)
      → HasDistinctKeys (ops.by_path (remap_subtree ops from to s))
  unfolding remap_subtree
  remap_subtree-HasDistinctKeys from to s d =
      let c = if from == to then s else detach_inside ops to (ops.by_path s) s in
      let ms = moves ops from to (ops.by_path c) in
      let r = release_all ops ms c in
      attach_all-HasDistinctKeys r.1 r.0 (release_all-HasDistinctKeys ms c (cleared (from == to)))
    where
      cleared :
          (c : Bool)
          → HasDistinctKeys (ops.by_path (if c then s else detach_inside ops to (ops.by_path s) s))
      cleared true = d
      cleared false = detach_inside-HasDistinctKeys ops view laws to (ops.by_path s) s d

  module _ (from to : Text) (hf : from ≢ slash ∷ []) (ht : to ≢ slash ∷ []) where
    -- A move ends inside the destination.
    last_to-outside :
        (q : Text) (es : List (Text × V))
        → is_path_inside q to ≡ false
        → last_to q (moves ops from to es) ≡ none
    unfolding moves
    last_to-outside q [] h = refl
    last_to-outside q ((p, v) ∷ es) h = elim (Bool-cases (is_path_inside p from)) [
      | inl e ↦
          let rest = drop (length from) p in
          let whole = is_path_inside-eq_append p from hf e in
          let below = is_path_inside-append from rest hf in
          let there = is_path_inside-append to rest ht in
          let inside : is_path_inside (to ++ rest) to ≡ true =
            there ∙ sym below ∙ ap (λ x. is_path_inside x from) (sym whole) ∙ e in
          let other = ==_ne (to ++ rest) q (λ same. cc) in
          rw e (ground (arith, last_to-outside q es h, other))
      | inr e ↦ rw e (last_to-outside q es h)
    ]

    last_to-inside :
        (t : Text) (es : List (Text × V))
        → is_tail t ≡ true
        → HasDistinctKeys es
        → last_to (to ++ t) (moves ops from to es) ≡ Option.map view (lookup (from ++ t) es)
    unfolding moves lookup
    last_to-inside t [] h d = refl
    last_to-inside t ((p, v) ∷ es) h d = elim (Bool-cases (is_path_inside p from)) [
      | inl e ↦
          let rest = drop (length from) p in
          let whole = is_path_inside-eq_append p from hf e in
          let ih = last_to-inside t es h d.1 in
          rw e (elim (Bool-cases (p == (from ++ t))) [
            | inl same ↦
                let here = (==_iff p (from ++ t)).0 same in
                let tail = append_cancel from rest t (sym whole ∙ here) in
                let gone : lookup (from ++ t) es ≡ none = rw here at d.0 in
                let arrives : ((to ++ rest) == (to ++ t)) ≡ true =
                  (==_iff (to ++ rest) (to ++ t)).1 (ap (◌++◌ to) tail) in
                ground (arith, ih, gone, arrives)
            | inr other ↦
                let elsewhere : ((to ++ rest) == (to ++ t)) ≡ false =
                  ==_ne (to ++ rest) (to ++ t) (λ same.
                    absurd
                      (not_same (whole ∙ ap (◌++◌ from) (append_cancel to rest t same)) other)) in
                ground (arith, ih, elsewhere)
          ])
      | inr e ↦
          let below = is_path_inside-append from t hf in
          let other = ==_ne p (from ++ t) (λ same. cc) in rw (e, other) (last_to-inside t es h d.1)
    ]

    -- The second and the third pass, over a table that is cleared.
    abbrev walk : S → S
    walk c = let r = release_all ops (moves ops from to (ops.by_path c)) c in attach_all ops r.1 r.0

    abbrev arrived : Text → S → Option W
    arrived q c =
        if is_path_inside q to then name_of ops view (from ++ drop (length to) q) c else none

    last_to-moves :
        (q : Text) (c : S)
        → HasDistinctKeys (ops.by_path c)
        → last_to q (moves ops from to (ops.by_path c)) ≡ arrived q c
    last_to-moves q c d = elim (Bool-cases (is_path_inside q to)) [
      | inl e ↦
          let t = drop (length to) q in
          let whole = is_path_inside-eq_append q to ht e in
          let tail : is_tail t ≡ true =
            sym (is_path_inside-append to t ht) ∙ ap (λ x. is_path_inside x to) (sym whole) ∙ e in
          rw e (
            ap (λ x. last_to x (moves ops from to (ops.by_path c))) whole
            ∙ last_to-inside t (ops.by_path c) tail d)
      | inr e ↦ rw e (last_to-outside q (ops.by_path c) e)
    ]

    name_of-bare :
        (q : Text) (c : S)
        → name_of ops view q (release_all ops (moves ops from to (ops.by_path c)) c).0
          ≡ (if is_path_inside q from then none else name_of ops view q c)
    name_of-bare q c =
        name_of-release_all q (moves ops from to (ops.by_path c)) c
        ∙ ground (
          arith,
          released-moves from to q (ops.by_path c),
          is_path_inside_of_listed from q (ops.by_path c),
          lookup_of_not_listed from q (ops.by_path c),
        )

    name_of-walk :
        (q : Text) (c : S)
        → HasDistinctKeys (ops.by_path c)
        → name_of ops view q (walk c) ≡ elim (arrived q c) [
          | some w ↦ some w
          | none ↦ if is_path_inside q from then none else name_of ops view q c
        ]
    name_of-walk q c d =
        let ms = moves ops from to (ops.by_path c) in
        name_of-attach_all q (release_all ops ms c).1 (release_all ops ms c).0
        ∙ ground (arith, last_to-release_all q ms c, last_to-moves q c d, name_of-bare q c)

    source_of_self :
        (q : Text) → from ≡ to → is_path_inside q to ≡ true → from ++ drop (length to) q ≡ q
    source_of_self q e h =
        ap (λ x. x ++ drop (length to) q) e ∙ sym (is_path_inside-eq_append q to ht h)

    same_place :
        (q : Text) (s : S)
        → from ≡ to
        → elim (arrived q s) [
          | some w ↦ some w
          | none ↦ if is_path_inside q from then none else name_of ops view q s
        ]
          ≡ name_of ops view q s
    same_place q s e = elim (Bool-cases (is_path_inside q to)) [
      | inl h ↦
          let here = ap (λ x. name_of ops view x s) (source_of_self q e h) in
          let there : is_path_inside q from ≡ true = rw e h in
          ground (arith, here, there, h, Option-cases (name_of ops view q s))
      | inr h ↦ let away : is_path_inside q from ≡ false = rw e h in ground (arith, away, h)
    ]

    -- Where neither the source nor the destination is the root "/", and no path is listed twice,
    -- `remapSubtree` moves every name at or below the source to the same place below the
    -- destination, drops what stood there before, and leaves every other name as it was.
    pub name_of-remap_subtree :
        (q : Text) (s : S)
        → HasDistinctKeys (ops.by_path s)
        → name_of ops view q (remap_subtree ops from to s)
          ≡ renamed from to (λ p. name_of ops view p s) q
    unfolding remap_subtree
    name_of-remap_subtree q s d = elim (Bool-cases (from == to)) [
      | inl e ↦ rw e (name_of-walk q s d ∙ same_place q s ((==_iff from to).0 e))
      | inr e ↦
          let c = detach_inside ops to (ops.by_path s) s in
          let source = from ++ drop (length to) q in
          rw e (
            name_of-walk q c (detach_inside-HasDistinctKeys ops view laws to (ops.by_path s) s d)
            ∙ ground (
              arith,
              name_of_cleared ops view laws to q s,
              name_of_cleared ops view laws to source s,
            ))
    ]
