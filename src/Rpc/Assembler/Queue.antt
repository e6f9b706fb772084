-- ===== src/Rpc/Assembler/Queue.antt =====
-- The queue of deliveries as one string of bytes.
use mountx.Common.{
  ℕ, zero, suc, ◌+◌, ◌-◌, ◌*◌, ◌≤◌, ◌<◌, ◌≡◌, refl, sym, ap, ◌∙◌, List, [], ◌∷◌, ◌++◌, ◌==◌, ==_iff,
  nat_eq, length, take, drop, arith, Bool-cases, inl, inr, ◌⊎◌, length-drop, drop-append_le,
  take-append_split, drop-drop,
}
use mountx.Xdr.{Bytes, from_be}
use mountx.Rpc.Assembler.{
  RecordAssembler, header_bytes, header_from, header, shifted, advance, joined,
}

abbrev pub ahead : ℕ → List Bytes → Bytes
ahead head [] = []
ahead head (chunk ∷ chunks) = drop head chunk ++ joined chunks

abbrev pub AllFilled : List Bytes → Type 0
AllFilled [] = Unit
AllFilled (chunk ∷ chunks) = (0 < length chunk) × AllFilled chunks

-- No chunk is empty, and of the first there is something left.
abbrev pub IsQueue : ℕ → List Bytes → Type 0
IsQueue head [] = head ≡ 0
IsQueue head (chunk ∷ chunks) = (head < length chunk) × AllFilled chunks

ahead-joined : (chunks : List Bytes) → ahead 0 chunks ≡ joined chunks
unfolding joined
ahead-joined [] = refl
ahead-joined (chunk ∷ chunks) = refl

AllFilled-IsQueue : (chunks : List Bytes) → AllFilled chunks → IsQueue 0 chunks
AllFilled-IsQueue [] h = refl
AllFilled-IsQueue (chunk ∷ chunks) h = h

from_be-append : (v : ℕ) (xs ys : Bytes) → from_be v (xs ++ ys) ≡ from_be (from_be v xs) ys
unfolding from_be
from_be-append v [] ys = refl
from_be-append v (x ∷ xs) ys = from_be-append (v * 256 + x) xs ys

header_bytes-eq :
    (v n : ℕ) (bs : Bytes) → header_bytes v n bs ≡ (from_be v (take n bs), n - length bs)
unfolding header_bytes from_be
header_bytes-eq v zero bs = let e : 0 ≡ 0 - length bs = omega arith in ap (λ k. (v, k)) e
header_bytes-eq v (suc n) [] = let e : suc n ≡ suc n - 0 = omega arith in ap (λ k. (v, k)) e
header_bytes-eq v (suc n) (b ∷ bs) =
    let e : n - length bs ≡ suc n - suc (length bs) = omega arith in
    header_bytes-eq (v * 0x100 + b) n bs ∙ ap (λ k. (from_be (v * 256 + b) (take n bs), k)) e

header_from-eq :
    (v n start : ℕ) (chunks : List Bytes)
    → header_from v n start chunks ≡ from_be v (take n (ahead start chunks))
unfolding header_from from_be
header_from-eq v zero start [] = refl
header_from-eq v (suc n) start [] = refl
header_from-eq v n start (chunk ∷ chunks) =
    let bs = drop start chunk in
    rw (header_bytes-eq v n bs) (
      header_from-eq (from_be v (take n bs)) (n - length bs) 0 chunks
      ∙ ap (λ z. from_be (from_be v (take n bs)) (take (n - length bs) z)) (ahead-joined chunks)
      ∙ sym (from_be-append v (take n bs) (take (n - length bs) (joined chunks)))
      ∙ ap (from_be v) (sym (take-append_split n bs (joined chunks))))

pub header-eq : (s : RecordAssembler) → header s ≡ from_be 0 (take 4 (ahead s.head s.chunks))
unfolding header
header-eq s = header_from-eq 0 4 s.head s.chunks

-- The state after `count` bytes are consumed.
pub record Consumed (count : ℕ) (s s' : RecordAssembler) : Type 0 where
  pub bytes : ahead s'.head s'.chunks ≡ drop count (ahead s.head s.chunks)
  pub queued : IsQueue s'.head s'.chunks
  pub fewer : s'.buffered ≡ s.buffered - count
  pub fragments : s'.fragments ≡ s.fragments
  pub assembled : s'.assembled ≡ s.assembled
  pub counted : s'.count ≡ s.count
  pub limit : s'.limit ≡ s.limit
  pub most : s'.max_fragments ≡ s.max_fragments

-- The first chunk, of which `width` bytes are consumed.
shifted-ahead :
    (head width : ℕ) (chunk : Bytes) (chunks : List Bytes)
    → IsQueue head (chunk ∷ chunks)
    → width ≤ length chunk - head
    → (ahead (shifted (head + width) (chunk ∷ chunks)).1 (shifted (head + width) (chunk ∷ chunks)).0
        ≡ drop width (ahead head (chunk ∷ chunks)))
      × IsQueue
          (shifted (head + width) (chunk ∷ chunks)).1
          (shifted (head + width) (chunk ∷ chunks)).0
shifted-ahead head width chunk chunks q h =
    let within : width ≤ length (drop head chunk) = omega (arith, length-drop head chunk, h) in
    let rest : drop width (drop head chunk ++ joined chunks)
        ≡ drop (head + width) chunk ++ joined chunks =
      drop-append_le width (drop head chunk) (joined chunks) within
      ∙ ap (λ z. z ++ joined chunks) (sym (drop-drop head width chunk)) in
    elim (Bool-cases ((head + width) == length chunk)) [
      | inl e ↦
          let used : head + width ≡ length chunk = (==_iff (head + width) (length chunk)).0 e in
          rw e (
            ahead-joined chunks
                ∙ sym (rest ∙ ap (λ z. z ++ joined chunks) (drop-used (head + width) chunk used)),
            AllFilled-IsQueue chunks q.1,
          )
      | inr e ↦
          rw e (sym rest, (ground (arith, q.0, h, e, ==_iff (head + width) (length chunk)), q.1))
    ]
  where
    drop-used : (n : ℕ) (xs : Bytes) → n ≡ length xs → drop n xs ≡ []
    drop-used zero [] h = refl
    drop-used (suc n) [] h = refl
    drop-used zero (x ∷ xs) h = absurd (omega (arith, h))
    drop-used (suc n) (x ∷ xs) h = drop-used n xs (omega (arith, h))

pub List-cases : (xs : List Bytes) → (xs ≡ []) ⊎ ((c : Bytes) × (cs : List Bytes) × (xs ≡ c ∷ cs))
List-cases [] = inl refl
List-cases (c ∷ cs) = inr (c, cs, refl)

pub none-Consumed : (s : RecordAssembler) → IsQueue s.head s.chunks → Consumed 0 s s
none-Consumed s q = record {
  bytes = refl;
  queued = q;
  fewer = omega arith;
  fragments = refl;
  assembled = refl;
  counted = refl;
  limit = refl;
  most = refl;
}

pub Consumed-then :
    (m n : ℕ) (s t u : RecordAssembler) → Consumed m s t → Consumed n t u → Consumed (m + n) s u
Consumed-then m n s t u a b = record {
  bytes = b.bytes ∙ ap (drop n) a.bytes ∙ sym (drop-drop m n (ahead s.head s.chunks));
  queued = b.queued;
  fewer = omega (arith, a.fewer, b.fewer);
  fragments = b.fragments ∙ a.fragments;
  assembled = b.assembled ∙ a.assembled;
  counted = b.counted ∙ a.counted;
  limit = b.limit ∙ a.limit;
  most = b.most ∙ a.most;
}

pub advance-Consumed :
    (width : ℕ) (chunk : Bytes) (chunks : List Bytes) (s : RecordAssembler)
    → s.chunks ≡ chunk ∷ chunks
    → IsQueue s.head (chunk ∷ chunks)
    → width ≤ length chunk - s.head
    → Consumed width s (advance width s)
unfolding advance
advance-Consumed width chunk chunks s e q h =
    let moved = shifted-ahead s.head width chunk chunks q h in
    rw e (record {
      bytes = moved.0;
      queued = moved.1;
      fewer = refl;
      fragments = refl;
      assembled = refl;
      counted = refl;
      limit = refl;
      most = refl;
    })
