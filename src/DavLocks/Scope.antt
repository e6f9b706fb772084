-- ===== src/DavLocks/Scope.antt =====
-- What a lock covers, and when two locks cover a path together.
use mountx.Common.{
  ◌≡◌, ◌≢◌, refl, sym, ap, ◌∙◌, ◌⊎◌, inl, inr, Bool, true, ◌&&◌, ◌||◌, [], ◌∷◌, ◌++◌, Text, ◌==◌,
  ==_iff, ==_refl, nat_eq, text_eq, length, drop, arith, Bool-cases,
}
use mountx.FilePath.{slash, is_path_inside}
use mountx.FilePath.Tails.{is_tail, is_path_inside-append, is_path_inside-eq_append}
use mountx.DavLocks.{DavLock, in_scope, is_infinity}

-- A path inside two directories: one of these is inside the other.
tails_nested :
    (a b s t : Text)
    → is_tail s ≡ true
    → is_tail t ≡ true
    → a ++ s ≡ b ++ t
    → ((u : Text) × (b ≡ a ++ u) × (is_tail u ≡ true))
      ⊎ ((u : Text) × (a ≡ b ++ u) × (is_tail u ≡ true))
unfolding is_tail
tails_nested [] [] s t hs ht e = inl ([], refl, refl)
tails_nested [] (c ∷ b) s t hs ht e = inl (c ∷ b, refl, tail_head s hs e)
  where
    tail_head : (s : Text) → is_tail s ≡ true → s ≡ c ∷ b ++ t → is_tail (c ∷ b) ≡ true
    tail_head [] h e = absurd cc
    tail_head (x ∷ s) h e = ground (arith, e)
tails_nested (c ∷ a) [] s t hs ht e = inr (c ∷ a, refl, tail_head t ht (sym e))
  where
    tail_head : (t : Text) → is_tail t ≡ true → t ≡ c ∷ a ++ s → is_tail (c ∷ a) ≡ true
    tail_head [] h e = absurd cc
    tail_head (x ∷ t) h e = ground (arith, e)
tails_nested (c ∷ a) (d ∷ b) s t hs ht e = elim (tails_nested a b s t hs ht cc) [
  | inl (u, below, tail) ↦ inl (u, cc, tail)
  | inr (u, below, tail) ↦ inr (u, cc, tail)
]

-- A driver path: it starts at the root.
abbrev pub is_absolute : Text → Bool
is_absolute p = is_path_inside p (slash ∷ [])

pub is_path_inside_self : (p : Text) → is_path_inside p p ≡ true
unfolding is_path_inside
is_path_inside_self p = ground (arith, ==_refl p)

pub is_path_inside-nested :
    (q a b : Text)
    → is_absolute a ≡ true
    → is_absolute b ≡ true
    → is_path_inside q a ≡ true
    → is_path_inside q b ≡ true
    → is_path_inside a b || is_path_inside b a ≡ true
is_path_inside-nested q a b abs_a abs_b ha hb = elim (Bool-cases (a == (slash ∷ []))) [
  | inl e ↦ let root = (==_iff a (slash ∷ [])).0 e in rw root (ground (arith, abs_b))
  | inr a_is ↦ elim (Bool-cases (b == (slash ∷ []))) [
    | inl e ↦ let root = (==_iff b (slash ∷ [])).0 e in rw root (ground (arith, abs_a))
    | inr b_is ↦
        let a_root : a ≢ slash ∷ [] = λ e. cc ((==_iff a (slash ∷ [])).1 e) in
        let b_root : b ≢ slash ∷ [] = λ e. cc ((==_iff b (slash ∷ [])).1 e) in
        let s = drop (length a) q in
        let t = drop (length b) q in
        let qa = is_path_inside-eq_append q a a_root ha in
        let qb = is_path_inside-eq_append q b b_root hb in
        let s_tail : is_tail s ≡ true =
          sym (is_path_inside-append a s a_root) ∙ ap (λ x. is_path_inside x a) (sym qa) ∙ ha in
        let t_tail : is_tail t ≡ true =
          sym (is_path_inside-append b t b_root) ∙ ap (λ x. is_path_inside x b) (sym qb) ∙ hb in
        elim (tails_nested a b s t s_tail t_tail (sym qa ∙ qb)) [
          | inl (u, below, tail) ↦
              ground
                (arith, ap (λ x. is_path_inside x a) below, is_path_inside-append a u a_root, tail)
          | inr (u, below, tail) ↦
              ground
                (arith, ap (λ x. is_path_inside x b) below, is_path_inside-append b u b_root, tail)
        ]
  ]
]

-- A lock and a request that cover one path: the lock covers the root of the request, or the request
-- is of the whole tree that the lock's root stands in.
pub overlap :
    {Node : Type 0}
    → (l m : DavLock Node) (q : Text) → is_absolute l.path ≡ true
    → is_absolute m.path ≡ true
    → in_scope l q ≡ true
    → in_scope m q ≡ true
    → in_scope l m.path || is_infinity m.depth && is_path_inside l.path m.path ≡ true
unfolding in_scope
overlap l m q al am hl hm = ground (
  arith,
  ==_iff l.path q,
  ==_iff m.path q,
  ==_iff l.path m.path,
  is_path_inside_self m.path,
  is_path_inside-nested q l.path m.path al am,
)
