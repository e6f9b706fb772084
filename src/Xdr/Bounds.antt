-- ===== src/Xdr/Bounds.antt =====
-- What a read can take from a message, whatever the message holds.
use mountx.Common.{
  ℕ, zero, suc, ◌+◌, ◌≤◌, ◌≡◌, refl, sym, ap, ◌∙◌, List, [], ◌∷◌, ltb, length, take, drop, arith,
  Bool-cases, inl, inr, length-take, length-drop,
}
use mountx.Common.Result.{ok, Result-cases, ok_injective}
use mountx.Xdr.{
  Bytes, XdrReader, Read, need, copy_bytes, xdr_align, u32, bool, fixed_opaque, var_opaque, list,
  list_from,
}

abbrev IsInside : XdrReader → Type 0
IsInside x = x.offset ≤ length x.bytes

-- The step of a read: the message stays, and the reader stands inside it, this much further.
pub record Stepped (count : ℕ) (x x' : XdrReader) : Type 0 where
  pub same : x'.bytes ≡ x.bytes
  pub moved : x'.offset ≡ x.offset + count
  pub inside : IsInside x'

need-Stepped :
    (count start : ℕ) (x x' : XdrReader)
    → need count x ≡ ok (start, x')
    → (start ≡ x.offset) × Stepped count x x'
unfolding need
need-Stepped count start x x' = elim (Bool-cases (ltb (length x.bytes) (x.offset + count))) [
  | inl e ↦ rw e (λ h. absurd cc)
  | inr e ↦ rw e (λ h.
      let (at_start, stepped) = pair_eq (ok_injective h) in
      (
        sym at_start,
        rw (sym stepped) record { same = refl; moved = refl; inside = ground (arith, e) },
      ))
]
  where
    pair_eq : {a b : ℕ × XdrReader} → a ≡ b → (a.0 ≡ b.0) × (a.1 ≡ b.1)
    pair_eq e = (ap (λ p. p.0) e, ap (λ p. p.1) e)

u32-Stepped : (v : ℕ) (x x' : XdrReader) → u32 x ≡ ok (v, x') → Stepped 4 x x'
unfolding u32
u32-Stepped v x x' = elim (Result-cases (need 4 x)) [
  | inl ((start, y), e) ↦ rw e (λ h.
      let there : y ≡ x' = ap (λ p. p.1) (ok_injective h) in
      rw (sym there) (need-Stepped 4 start x y e).1)
  | inr (thrown, e) ↦ rw e (λ h. absurd cc)
]

fixed_opaque-Stepped :
    (size : ℕ) (v : Bytes) (x x' : XdrReader)
    → fixed_opaque size x ≡ ok (v, x')
    → (length v ≡ size) × Stepped (xdr_align size) x x'
unfolding fixed_opaque copy_bytes xdr_align
fixed_opaque-Stepped size v x x' = elim (Result-cases (need (xdr_align size) x)) [
  | inl ((start, y), e) ↦ rw e (λ h.
      let (begin, step) = need-Stepped (xdr_align size) start x y e in
      let there : y ≡ x' = ap (λ p. p.1) (ok_injective h) in
      let value : take size (drop start x.bytes) ≡ v = ap (λ p. p.0) (ok_injective h) in
      (
        sym (ap length value)
            ∙ omega (
              arith,
              length-take size (drop start x.bytes),
              length-drop start x.bytes,
              begin,
              step.moved,
              step.inside,
              ap length step.same,
            ),
        rw (sym there) step,
      ))
  | inr (thrown, e) ↦ rw e (λ h. absurd cc)
]

-- A counted byte string is no longer than the limit, is read out of the message with its count and
-- its padding, and leaves the reader inside the message.
pub var_opaque-bounded :
    (most : ℕ) (v : Bytes) (x x' : XdrReader)
    → var_opaque most x ≡ ok (v, x')
    → (length v ≤ most)
      × (x'.offset ≡ x.offset + 4 + xdr_align (length v))
      × (x'.offset ≤ length x.bytes)
unfolding var_opaque
var_opaque-bounded most v x x' = elim (Result-cases (u32 x)) [
  | inl ((size, y), e) ↦ rw e (elim (Bool-cases (ltb most size)) [
    | inl over ↦ rw over (λ h. absurd cc)
    | inr under ↦ rw under (λ h.
        let counted = u32-Stepped size x y e in
        let (whole, step) = fixed_opaque-Stepped size v y x' h in
        let align : xdr_align size ≡ xdr_align (length v) = ap xdr_align (sym whole) in
        let bytes : length x'.bytes ≡ length x.bytes =
          ap length step.same ∙ ap length counted.same in
        (
          ground (arith, under, whole),
          omega (arith, counted.moved, step.moved, align),
          omega (arith, step.inside, bytes),
        ))
  ])
  | inr (thrown, e) ↦ rw e (λ h. absurd cc)
]

module _ {A : Type 0} (read : Read A) where
  list_from-bounded :
      (most left : ℕ) (values : List A) (x x' : XdrReader)
      → list_from read most left x ≡ ok (values, x')
      → length values ≤ left
  unfolding list_from
  list_from-bounded most zero values x x' = elim (Result-cases (bool x)) [
    | inl ((next, y), e) ↦ rw e (elim (Bool-cases next) [
      | inl more ↦ rw more (λ h. absurd cc)
      | inr done ↦ rw done (λ h.
          let none_read : [] ≡ values = ap (λ p. p.0) (ok_injective h) in
          omega (arith, ap length none_read))
    ])
    | inr (thrown, e) ↦ rw e (λ h. absurd cc)
  ]
  list_from-bounded most (suc left) values x x' = elim (Result-cases (bool x)) [
    | inl ((next, y), e) ↦ rw e (elim (Bool-cases next) [
      | inl more ↦ rw more (elim (Result-cases (read y)) [
        | inl ((value, z), item) ↦ rw item (elim (Result-cases (list_from read most left z)) [
          | inl ((rest, last), tail) ↦ rw tail (λ h.
              let all_read : value ∷ rest ≡ values = ap (λ p. p.0) (ok_injective h) in
              omega (arith, ap length all_read, list_from-bounded most left rest z last tail))
          | inr (thrown, tail) ↦ rw tail (λ h. absurd cc)
        ])
        | inr (thrown, item) ↦ rw item (λ h. absurd cc)
      ])
      | inr done ↦ rw done (λ h.
          let none_read : [] ≡ values = ap (λ p. p.0) (ok_injective h) in
          omega (arith, ap length none_read))
    ])
    | inr (thrown, e) ↦ rw e (λ h. absurd cc)
  ]

  -- A linked list is no longer than the limit, whatever reads its items.
  pub list-bounded :
      (most : ℕ) (values : List A) (x x' : XdrReader)
      → list read most x ≡ ok (values, x')
      → length values ≤ most
  unfolding list
  list-bounded most values x x' h = list_from-bounded most most values x x' h
