-- ===== src/FilePath/Segments.antt =====
-- The segments of a path: splitting and joining at slashes, and the loop of `splitPath`.
use mountx.Common.{
  ℕ, ◌≡◌, refl, sym, ◌∙◌, Bool, true, false, not, ◌&&◌, List, [], ◌∷◌, ◌++◌, Text, literal, ◌==◌,
  nat_eq, text_eq, arith, all, length, length-append, append_assoc, append-nil, Bool-cases, inl,
  inr, all-append,
}
use mountx.FilePath.{
  slash, dot, bad_segment, scan, split_from, split, join, pop, is_skipped, resolve,
}

abbrev pub no_slash : Text → Bool
no_slash = all (λ c. not (c == slash))

-- Neither "", nor "." nor "..".
unfoldable pub is_plain : Text → Bool
is_plain [] = false
is_plain (a ∷ []) = not (a == dot)
is_plain (a ∷ b ∷ []) = not (a == dot && b == dot)
is_plain (a ∷ b ∷ c ∷ s) = true

unfoldable pub is_segment : Text → Bool
unfolding is_plain
is_segment s = is_plain s && no_slash s

bad_segment-append : (s more : Text) → bad_segment (s ++ more) (length s) ≡ not (is_plain s)
unfolding bad_segment is_plain
bad_segment-append [] more = refl
bad_segment-append (a ∷ []) more = ground arith
bad_segment-append (a ∷ b ∷ []) more = ground arith
bad_segment-append (a ∷ b ∷ c ∷ s) more = ground arith

-- The index loop of `isNormalizedPath` tests the parts that `split` returns.
pub scan-split :
    (cur rest : Text) → scan (cur ++ rest) (length cur) rest ≡ all is_plain (split_from cur rest)
unfolding scan split_from
scan-split cur [] = ground (arith, bad_segment-append cur [])
scan-split cur (c ∷ rest) = ground (
  arith,
  bad_segment-append cur (c ∷ rest),
  scan-split [] rest,
  scan-split (cur ++ c ∷ []) rest,
  append_assoc cur (c ∷ []) rest,
  length-append cur (c ∷ []),
)

pub split_from-cons :
    (cur rest : Text) → (s : Text) × (ss : List Text) × (split_from cur rest ≡ s ∷ ss)
unfolding split_from
split_from-cons cur [] = (cur, [], refl)
split_from-cons cur (c ∷ rest) = elim (Bool-cases (c == slash)) [
  | inl e ↦ (cur, split_from [] rest, rw e)
  | inr e ↦ let (s, ss, h) = split_from-cons (cur ++ c ∷ []) rest in (s, ss, rw e h)
]

-- `split` and `join` are inverse to one another.
pub join-split_from : (cur rest : Text) → join (split_from cur rest) ≡ cur ++ rest
unfolding split_from join
join-split_from cur [] = sym (append-nil cur)
join-split_from cur (c ∷ rest) = elim (Bool-cases (c == slash)) [
  | inl e ↦
      let (s, ss, h) = split_from-cons [] rest in
      let ih = join-split_from [] rest in ground (arith, h, ih)
  | inr e ↦ rw e (join-split_from (cur ++ c ∷ []) rest ∙ append_assoc cur (c ∷ []) rest)
]

pub split_from-append :
    (cur s rest : Text)
    → no_slash s ≡ true
    → split_from cur (s ++ slash ∷ rest) ≡ (cur ++ s) ∷ split rest
unfolding split_from split
split_from-append cur [] rest h = ground (arith, append-nil cur)
split_from-append cur (c ∷ s) rest h =
    ground (arith, split_from-append (cur ++ c ∷ []) s rest, append_assoc cur (c ∷ []) s)

pub split_from-no_slash : (cur s : Text) → no_slash s ≡ true → split_from cur s ≡ (cur ++ s) ∷ []
unfolding split_from
split_from-no_slash cur [] h = ground (arith, append-nil cur)
split_from-no_slash cur (c ∷ s) h =
    ground (arith, split_from-no_slash (cur ++ c ∷ []) s, append_assoc cur (c ∷ []) s)

pub all-no_slash-split_from :
    (cur rest : Text) → no_slash cur ≡ true → all no_slash (split_from cur rest) ≡ true
unfolding split_from
all-no_slash-split_from cur [] h = ground arith
all-no_slash-split_from cur (c ∷ rest) h = ground (
  arith,
  all-no_slash-split_from [] rest,
  all-no_slash-split_from (cur ++ c ∷ []) rest,
  all-append (λ (a : ℕ). not (a == slash)) cur (c ∷ []),
)

pub split-join :
    (s : Text) (ss : List Text) → all is_segment (s ∷ ss) ≡ true → split (join (s ∷ ss)) ≡ s ∷ ss
unfolding split join is_segment
split-join s [] h = split_from-no_slash [] s (ground arith)
split-join s (t ∷ ss) h = ground (arith, split-join t ss, split_from-append [] s (join (t ∷ ss)))

-- `.` and the empty segment are skipped, `..` drops the last, and any other is kept.
all-pop : (p : Text → Bool) (ss : List Text) → all p ss ≡ true → all p (pop ss) ≡ true
unfolding pop
all-pop p [] h = refl
all-pop p (s ∷ []) h = refl
all-pop p (s ∷ t ∷ ss) h = ground (arith, all-pop p (t ∷ ss))

kept_is_plain : (s : Text) → is_skipped s ≡ false → (s == literal "..") ≡ false → is_plain s ≡ true
unfolding is_skipped is_plain
kept_is_plain [] h k = cc
kept_is_plain (a ∷ []) h k = ground arith
kept_is_plain (a ∷ b ∷ []) h k = ground arith
kept_is_plain (a ∷ b ∷ c ∷ s) h k = refl

plain_is_kept :
    (s : Text) → is_plain s ≡ true → (is_skipped s ≡ false) × ((s == literal "..") ≡ false)
unfolding is_skipped is_plain
plain_is_kept [] h = cc
plain_is_kept (a ∷ []) h = ground arith
plain_is_kept (a ∷ b ∷ []) h = ground arith
plain_is_kept (a ∷ b ∷ c ∷ s) h = ground arith

pub all-is_segment-resolve :
    (acc ss : List Text)
    → all is_segment acc ≡ true
    → all no_slash ss ≡ true
    → all is_segment (resolve acc ss) ≡ true
unfolding resolve is_segment
all-is_segment-resolve acc [] h k = h
all-is_segment-resolve acc (s ∷ ss) h k = elim (Bool-cases (is_skipped s)) [
  | inl skip ↦ rw skip (all-is_segment-resolve acc ss h (ground arith))
  | inr keep ↦ elim (Bool-cases (s == literal "..")) [
    | inl up ↦
        rw (keep, up)
          (all-is_segment-resolve (pop acc) ss (all-pop is_segment acc h) (ground arith))
    | inr down ↦
        rw (keep, down)
          (all-is_segment-resolve (acc ++ s ∷ []) ss
            (ground (arith, all-append is_segment acc (s ∷ []), kept_is_plain s keep down))
            (ground arith))
  ]
]

pub resolve-plain : (acc ss : List Text) → all is_segment ss ≡ true → resolve acc ss ≡ acc ++ ss
unfolding resolve is_segment
resolve-plain acc [] h = sym (append-nil acc)
resolve-plain acc (s ∷ ss) h =
    let plain : is_plain s ≡ true = ground arith in
    let (keep, down) = plain_is_kept s plain in
    rw (keep, down) (resolve-plain (acc ++ s ∷ []) ss (ground arith) ∙ append_assoc acc (s ∷ []) ss)
