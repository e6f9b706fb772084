-- ===== src/FilePath/Tails.antt =====
-- What follows a directory's name in a path inside it.
use mountx.Common.{
  ◌≡◌, refl, ap, sym, ◌≢◌, Bool, true, ◌||◌, [], ◌∷◌, ◌++◌, Text, ◌==◌, ==_iff, ==_ne, nat_eq,
  text_eq, arith, length, drop, drop-append, Bool-cases, inl, inr, append-nil, ◌∙◌,
}
use mountx.FilePath.{slash, starts_with, is_path_inside}

-- Empty, or from a slash on.
unfoldable pub is_tail : Text → Bool
is_tail [] = true
is_tail (c ∷ t) = c == slash

same_or_below : (d t : Text) → ((d ++ t) == d || starts_with (d ++ t) (d ++ slash ∷ [])) ≡ is_tail t
unfolding starts_with is_tail
same_or_below [] [] = refl
same_or_below [] (c ∷ t) = ground arith
same_or_below (c ∷ d) t = ground (arith, same_or_below d t)

pub is_path_inside-append : (d t : Text) → d ≢ slash ∷ [] → is_path_inside (d ++ t) d ≡ is_tail t
unfolding is_path_inside
is_path_inside-append d t h = rw (==_ne d (slash ∷ []) h) (same_or_below d t)

starts_with-eq : (p d t : Text) → starts_with p (d ++ t) ≡ true → p ≡ d ++ drop (length d) p
unfolding starts_with
starts_with-eq p [] t h = refl
starts_with-eq [] (c ∷ d) t h = cc
starts_with-eq (a ∷ p) (c ∷ d) t h = ground (arith, starts_with-eq p d t)

drop_length : (d : Text) → drop (length d) d ≡ []
drop_length [] = refl
drop_length (c ∷ d) = drop_length d

pub is_path_inside-eq_append :
    (p d : Text) → d ≢ slash ∷ [] → is_path_inside p d ≡ true → p ≡ d ++ drop (length d) p
unfolding is_path_inside
is_path_inside-eq_append p d h k = elim (Bool-cases (p == d)) [
  | inl e ↦ let same = (==_iff p d).0 e in rw (same, drop_length d) (sym (append-nil d))
  | inr e ↦ starts_with-eq p d (slash ∷ []) (rw (e, ==_ne d (slash ∷ []) h) at k)
]

pub append_cancel : (d s t : Text) → d ++ s ≡ d ++ t → s ≡ t
append_cancel d s t e = sym (drop-append d s) ∙ ap (drop (length d)) e ∙ drop-append d t
