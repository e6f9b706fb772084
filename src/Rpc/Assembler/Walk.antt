-- ===== src/Rpc/Assembler/Walk.antt =====
-- The walks over the queue: `take_bytes` and `drop_bytes` take bytes off its front.
use mountx.Common.{
  ℕ, zero, suc, ◌+◌, ◌-◌, ◌≤◌, ◌<◌, min, ◌≡◌, refl, sym, ap, subst, ◌∙◌, true, false, List, [], ◌∷◌,
  ◌++◌, ==_iff, nat_eq, ltb, length, take, drop, arith, Bool-cases, inl, inr, length-append,
  length-drop, length-take, append_assoc, append-nil, take-append_le, take-plus,
}
use mountx.Xdr.{Bytes}
use mountx.Rpc.Assembler.{
  RecordAssembler, shifted, advance, take_from, take_bytes, drop_from, drop_bytes, joined,
}
use mountx.Rpc.Assembler.Queue.{
  ahead, IsQueue, List-cases, Consumed, none-Consumed, Consumed-then, advance-Consumed,
}

length-shifted :
    (head rounds : ℕ) (chunk : Bytes) (chunks : List Bytes)
    → head ≡ length chunk
    → length (chunk ∷ chunks) ≤ suc rounds
    → length (shifted head (chunk ∷ chunks)).0 ≤ rounds
length-shifted head rounds chunk chunks e h =
    rw ((==_iff head (length chunk)).1 e) (omega (arith, h))

-- There is no chunk, and so nothing is lacking.
none_lacking :
    (n filled head : ℕ) (chunks : List Bytes)
    → n ≤ filled + length (ahead head chunks)
    → chunks ≡ []
    → n - filled ≡ 0
none_lacking n filled head chunks h e =
    let empty : length (ahead head chunks) ≡ 0 = rw e refl in omega (arith, h, empty)

none_lacking_rounds :
    (n filled head : ℕ) (chunks : List Bytes)
    → n ≤ filled + length (ahead head chunks)
    → (filled < n → length chunks ≤ 0)
    → n - filled ≡ 0
none_lacking_rounds n filled head [] h r = none_lacking n filled head [] h refl
none_lacking_rounds n filled head (c ∷ cs) h r = grind (arith, r)

take_from-nil :
    (rounds n : ℕ) (out : Bytes) (s : RecordAssembler)
    → s.chunks ≡ []
    → take_from (suc rounds) n out s ≡ (out, s)
unfolding take_from
take_from-nil rounds n out s e = elim (Bool-cases (ltb (length out) n)) [
  | inl h ↦ rw h (simp e refl)
  | inr h ↦ rw h refl
]

take_from-full :
    (rounds n : ℕ) (out : Bytes) (s : RecordAssembler)
    → ltb (length out) n ≡ false
    → take_from (suc rounds) n out s ≡ (out, s)
unfolding take_from
take_from-full rounds n out s full = rw full refl

abbrev width_of : ℕ → Bytes → Bytes → RecordAssembler → ℕ
width_of n out c s = min (length c - s.head) (n - length out)

take_from-cons :
    (rounds n : ℕ) (out c : Bytes) (cs : List Bytes) (s : RecordAssembler)
    → s.chunks ≡ c ∷ cs
    → ltb (length out) n ≡ true
    → take_from (suc rounds) n out s
      ≡ take_from rounds n
          (out ++ take (width_of n out c s) (drop s.head c))
          (advance (width_of n out c s) s)
unfolding take_from
take_from-cons rounds n out c cs s e some_left = rw some_left (simp e refl)

abbrev Took : ℕ → Bytes → RecordAssembler → Bytes × RecordAssembler → Type 0
Took n out s result =
    (result.0 ≡ out ++ take (n - length out) (ahead s.head s.chunks))
    × Consumed (n - length out) s result.1

none-Took :
    (n : ℕ) (out : Bytes) (s : RecordAssembler)
    → IsQueue s.head s.chunks
    → n - length out ≡ 0
    → Took n out s (out, s)
none-Took n out s q done = rw done (sym (append-nil out), none-Consumed s q)

-- A round takes what it lacks off the first chunk, or the whole of it.
round-Consumed :
    (n : ℕ) (out c : Bytes) (cs : List Bytes) (s : RecordAssembler)
    → s.chunks ≡ c ∷ cs
    → IsQueue s.head s.chunks
    → Consumed (width_of n out c s) s (advance (width_of n out c s) s)
round-Consumed n out c cs s e q =
    advance-Consumed (width_of n out c s) c cs s e (subst (IsQueue s.head) e q) (omega arith)

length-advance :
    (n : ℕ) (out c : Bytes) (cs : List Bytes) (s : RecordAssembler) (rounds : ℕ)
    → s.chunks ≡ c ∷ cs
    → length s.chunks ≤ suc rounds
    → s.head < length c
    → length out + width_of n out c s < n
    → length (advance (width_of n out c s) s).chunks ≤ rounds
unfolding advance
length-advance n out c cs s rounds e h k l = simp e (
    length-shifted (s.head + width_of n out c s) rounds c cs (omega (arith, k, l))
      (subst (λ z. length z ≤ suc rounds) e h))

pub take_from-Consumed :
    (rounds n : ℕ) (out : Bytes) (s : RecordAssembler)
    → IsQueue s.head s.chunks
    → (length out < n → length s.chunks ≤ rounds)
    → n ≤ length out + length (ahead s.head s.chunks)
    → Took n out s (take_from rounds n out s)
take_from-Consumed zero n out s q r h =
    unfold take_from in none-Took n out s q (none_lacking_rounds n (length out) s.head s.chunks h r)
take_from-Consumed (suc rounds) n out s q r h = elim (List-cases s.chunks) [
  | inl e ↦
      subst (Took n out s) (sym (take_from-nil rounds n out s e))
        (none-Took n out s q (none_lacking n (length out) s.head s.chunks h e))
  | inr (c, cs, e) ↦ elim (Bool-cases (ltb (length out) n)) [
    | inr full ↦
        subst (Took n out s) (sym (take_from-full rounds n out s full))
          (none-Took n out s q (ground (arith, full)))
    | inl some_left ↦
        let width = width_of n out c s in
        let t = advance width s in
        let out' = out ++ take width (drop s.head c) in
        let here : IsQueue s.head (c ∷ cs) = subst (IsQueue s.head) e q in
        let moved = round-Consumed n out c cs s e q in
        let front : drop s.head c ++ joined cs ≡ ahead s.head s.chunks = simp e refl in
        let fits : width ≤ length (drop s.head c) = omega (arith, length-drop s.head c) in
        let piece : take width (drop s.head c) ≡ take width (ahead s.head s.chunks) =
          sym (take-append_le width (drop s.head c) (joined cs) fits) ∙ ap (take width) front in
        let longer : length out' ≡ length out + width = omega (
          arith,
          length-append out (take width (drop s.head c)),
          length-take width (drop s.head c),
          fits,
        ) in
        let left = ap length moved.bytes ∙ length-drop width (ahead s.head s.chunks) in
        let later =
          take_from-Consumed rounds n out' t moved.queued
            (λ lack.
              length-advance n out c cs s rounds e (r (ground (arith, some_left))) here.0
                (omega (arith, lack, longer)))
            (omega (arith, h, longer, left)) in
        let sum : width + (n - length out') ≡ n - length out = ground (arith, longer, some_left) in
        subst (Took n out s) (sym (take_from-cons rounds n out c cs s e some_left)) (
          later.0
              ∙ ap (λ z. out' ++ take (n - length out') z) moved.bytes
              ∙ append_assoc out (take width (drop s.head c))
                  (take (n - length out') (drop width (ahead s.head s.chunks)))
              ∙ ap (◌++◌ out) (
                  ap (λ z. z ++ take (n - length out') (drop width (ahead s.head s.chunks))) piece
                  ∙ sym (take-plus width (n - length out') (ahead s.head s.chunks))
                  ∙ ap (λ k. take k (ahead s.head s.chunks)) sum),
          subst (λ k. Consumed k s (take_from rounds n out' t).1) sum
              (Consumed-then width (n - length out') s t (take_from rounds n out' t).1 moved
                later.1),
        )
  ]
]

drop_from-eq :
    (rounds n : ℕ) (out : Bytes) (s : RecordAssembler)
    → drop_from rounds n (length out) s ≡ (take_from rounds n out s).1
unfolding drop_from take_from
drop_from-eq zero n out s = refl
drop_from-eq (suc rounds) n out s = elim (Bool-cases (ltb (length out) n)) [
  | inr full ↦ rw full refl
  | inl some_left ↦ elim (List-cases s.chunks) [
    | inl e ↦ rw some_left (simp e refl)
    | inr (c, cs, e) ↦
        let width = width_of n out c s in
        let out' = out ++ take width (drop s.head c) in
        let longer : length out + width ≡ length out' = omega (
          arith,
          length-append out (take width (drop s.head c)),
          length-take width (drop s.head c),
          length-drop s.head c,
        ) in
        rw some_left (
          simp e (
            ap (λ k. drop_from rounds n k (advance width s)) longer
            ∙ drop_from-eq rounds n out' (advance width s)))
  ]
]

pub take_bytes-Consumed :
    (n : ℕ) (s : RecordAssembler)
    → IsQueue s.head s.chunks
    → n ≤ length (ahead s.head s.chunks)
    → ((take_bytes n s).0 ≡ take n (ahead s.head s.chunks)) × Consumed n s (take_bytes n s).1
unfolding take_bytes
take_bytes-Consumed n s q h =
    let all : n - 0 ≡ n = omega arith in
    let took : Took n [] s (take_from (length s.chunks) n [] s) =
      take_from-Consumed (length s.chunks) n [] s q (λ _. omega arith) (omega (arith, h)) in
    (
      took.0 ∙ ap (λ k. take k (ahead s.head s.chunks)) all,
      subst (λ k. Consumed k s (take_bytes n s).1) all took.1,
    )

pub drop_bytes-Consumed :
    (n : ℕ) (s : RecordAssembler)
    → IsQueue s.head s.chunks
    → n ≤ length (ahead s.head s.chunks)
    → Consumed n s (drop_bytes n s)
unfolding drop_bytes
drop_bytes-Consumed n s q h =
    subst (Consumed n s) (sym (drop_from-eq (length s.chunks) n [] s))
      (unfold take_bytes in (take_bytes-Consumed n s q h).1)
