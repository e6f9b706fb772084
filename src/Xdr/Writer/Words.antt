-- ===== src/Xdr/Writer/Words.antt =====
-- A buffer of words of four bytes, and what the setters make of it.
use mountx.Common.{
  suc, ◌+◌, ◌*◌, ◌≡◌, refl, ap, ◌∙◌, List, [], ◌∷◌, ◌++◌, length, take, drop, arith, append_assoc,
  length-append, All, take-plus, take-append, drop-append, drop-drop,
}
use mountx.Xdr.{Bytes}
use mountx.Xdr.Writer.{set_at}

-- Words of four bytes, and what follows them.
abbrev pub words : List Bytes → Bytes → Bytes
words [] later = later
words (word ∷ rest) later = word ++ words rest later

abbrev pub IsWord : Bytes → Type 0
IsWord word = length word ≡ 4

pub words-append :
    (before : List Bytes) (xs ys : Bytes) → words before xs ++ ys ≡ words before (xs ++ ys)
words-append [] xs ys = refl
words-append (word ∷ before) xs ys =
    append_assoc word (words before xs) ys ∙ ap (◌++◌ word) (words-append before xs ys)

pub length-words :
    (before : List Bytes) (later : Bytes)
    → All IsWord before
    → length (words before later) ≡ 4 * length before + length later
length-words [] later h = omega arith
length-words (word ∷ before) later (h, hs) =
    omega (arith, length-append word (words before later), length-words before later hs, h)

-- A setter behind some words replaces as many bytes as it sets.
pub set_at-words :
    (before : List Bytes) (bytes old post : Bytes)
    → All IsWord before
    → length old ≡ length bytes
    → set_at (4 * length before) bytes (words before (old ++ post)) ≡ words before (bytes ++ post)
unfolding set_at
set_at-words [] bytes old post h e =
    let same : 0 + length bytes ≡ length old = omega (arith, e) in
    ap (λ n. bytes ++ drop n (old ++ post)) same ∙ ap (◌++◌ bytes) (drop-append old post)
set_at-words (word ∷ before) bytes old post (h, hs) e =
    let rest = words before (old ++ post) in
    let n = 4 * length before in
    let front : take (4 * suc (length before)) (word ++ rest) ≡ word ++ take n rest =
      ap (λ m. take m (word ++ rest)) (omega (arith, h))
      ∙ take-plus (length word) n (word ++ rest)
      ∙ ap (λ b. b ++ take n (drop (length word) (word ++ rest))) (take-append word rest)
      ∙ ap (λ b. word ++ take n b) (drop-append word rest) in
    let back : drop (4 * suc (length before) + length bytes) (word ++ rest)
        ≡ drop (n + length bytes) rest =
      ap (λ m. drop m (word ++ rest)) (omega (arith, h))
      ∙ drop-drop (length word) (n + length bytes) (word ++ rest)
      ∙ ap (drop (n + length bytes)) (drop-append word rest) in
    rw (front, back)
      (ap (λ b. b ++ drop (n + length bytes) rest) (append_assoc word (take n rest) bytes)
        ∙ append_assoc word (take n rest ++ bytes) (drop (n + length bytes) rest)
        ∙ ap (◌++◌ word) (set_at-words before bytes old post hs e))
