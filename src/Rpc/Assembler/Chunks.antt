-- ===== src/Rpc/Assembler/Chunks.antt =====
-- Record marking does not see how its bytes are delivered.
use mountx.Common.{
  ℕ, zero, suc, ◌+◌, ◌%◌, ◌^◌, ◌≤◌, ◌≡◌, ◌≢◌, refl, sym, ap, subst, ◌∙◌, Bool, true, false, none,
  some, List, [], ◌++◌, ltb, leb, length, take, drop, arith, Bool-cases, inl, inr, ◌⊎◌,
  length-append, length-drop, append_assoc, take-append_le, drop-append_le,
}
use mountx.Common.Result.{ok, err}
use mountx.Xdr.{Bytes, XdrError, from_be}
use mountx.Rpc.Assembler.Flat.{
  Flat, Outcome, more_bytes, closed, accepted, flat_checked, flat_round, FlatPushed, before,
  flat_rounds, flat_push,
}

-- What a round answers where more bytes follow.
abbrev extended : Bytes → Outcome → Outcome
extended more (err thrown) = err thrown
extended more (ok none) = ok none
extended more (ok (some (records, f))) = ok (some (records, more_bytes more f))

-- A round that consumes leaves fewer bytes.
abbrev Shrinks : Flat → Outcome → Type 0
Shrinks f (err thrown) = Unit
Shrinks f (ok none) = Unit
Shrinks f (ok (some (records, f'))) = length f'.bytes + 4 ≤ length f.bytes

module _ (limit most : ℕ) where
  accepted-more :
      (size : ℕ) (more : Bytes) (f : Flat)
      → 4 + size ≤ length f.bytes
      → accepted limit most size (more_bytes more f) ≡ more_bytes more (accepted limit most size f)
  accepted-more size more f h =
      let four = drop-append_le 4 f.bytes more (omega (arith, h)) in
      let fits : size ≤ length (drop 4 f.bytes) = omega (arith, length-drop 4 f.bytes, h) in
      rw
        (
          four,
          drop-append_le size (drop 4 f.bytes) more fits,
          take-append_le size (drop 4 f.bytes) more fits,
        )
        refl

  closed-more :
      (last : Bool) (more : Bytes) (f : Flat)
      → closed limit most last (more_bytes more f)
        ≡ ((closed limit most last f).0, more_bytes more (closed limit most last f).1)
  closed-more true more f = refl
  closed-more false more f = refl

  -- Either the round breaks, or it does not see the bytes that follow.
  flat_round-more :
      (more : Bytes) (f : Flat)
      → (flat_round limit most f ≡ ok none)
        ⊎ (flat_round limit most (more_bytes more f) ≡ extended more (flat_round limit most f))
  unfolding flat_round flat_checked
  flat_round-more more f = elim (Bool-cases (ltb (length f.bytes) 4)) [
    | inl e ↦ inl (rw e refl)
    | inr e ↦
        let word = from_be 0 (take 4 f.bytes) in
        let size = word % 2 ^ 31 in
        let longer = length-append f.bytes more in
        let e' : ltb (length (f.bytes ++ more)) 4 ≡ false = ground (arith, e, longer) in
        let same = take-append_le 4 f.bytes more (ground (arith, e)) in
        rw (e, e', same)
          (elim (Bool-cases (ltb limit (length f.parts + size))) [
            | inl long ↦ inr (rw long refl)
            | inr short ↦ rw short (elim (Bool-cases (leb most f.count)) [
              | inl full ↦ inr (rw full refl)
              | inr few ↦ rw few (elim (Bool-cases (ltb (length f.bytes) (4 + size))) [
                | inl part ↦ inl (rw part refl)
                | inr whole ↦
                    let whole' : ltb (length (f.bytes ++ more)) (4 + size) ≡ false =
                      ground (arith, whole, longer) in
                    inr (
                      rw (whole, whole')
                        (ap (λ g. ok (some (closed limit most (leb (2 ^ 31) word) g)))
                            (accepted-more size more f (ground (arith, whole)))
                          ∙ ap (λ p. ok (some p))
                              (closed-more (leb (2 ^ 31) word) more (accepted limit most size f))))
              ])
            ])
          ])
  ]

  length-accepted :
      (size : ℕ) (f : Flat)
      → 4 + size ≤ length f.bytes
      → length (accepted limit most size f).bytes + 4 ≤ length f.bytes
  length-accepted size f h =
      omega (arith, length-drop size (drop 4 f.bytes), length-drop 4 f.bytes, h)

  closed-Shrinks :
      (last : Bool) (f g : Flat)
      → length g.bytes + 4 ≤ length f.bytes
      → Shrinks f (ok (some (closed limit most last g)))
  closed-Shrinks true f g h = h
  closed-Shrinks false f g h = h

  flat_round-Shrinks : (f : Flat) → Shrinks f (flat_round limit most f)
  unfolding flat_round flat_checked
  flat_round-Shrinks f = elim (Bool-cases (ltb (length f.bytes) 4)) [
    | inl e ↦ rw e tt
    | inr e ↦
        let word = from_be 0 (take 4 f.bytes) in
        let size = word % 2 ^ 31 in
        rw e (elim (Bool-cases (ltb limit (length f.parts + size))) [
          | inl long ↦ rw long tt
          | inr short ↦ rw short (elim (Bool-cases (leb most f.count)) [
            | inl full ↦ rw full tt
            | inr few ↦ rw few (elim (Bool-cases (ltb (length f.bytes) (4 + size))) [
              | inl part ↦ rw part tt
              | inr whole ↦ rw whole (
                  closed-Shrinks (leb (2 ^ 31) word) f (accepted limit most size f)
                    (length-accepted size f (ground (arith, whole))))
            ])
          ])
        ])
  ]

  flat_round-empty : (f : Flat) → length f.bytes ≤ 0 → flat_round limit most f ≡ ok none
  unfolding flat_round
  flat_round-empty f h = let e : ltb (length f.bytes) 4 ≡ true = ground (arith, h) in rw e refl

  -- The three answers of a round.
  pub round_cases :
      (f : Flat)
      → (flat_round limit most f ≡ ok none)
        ⊎ (((x : XdrError) × (flat_round limit most f ≡ err x))
            ⊎ ((records : List Bytes) × (f' : Flat) × (flat_round limit most f
                  ≡ ok (some (records, f')))
                × (length f'.bytes + 4 ≤ length f.bytes)))
  round_cases f = named (flat_round limit most f) refl
    where
      named :
          (outcome : Outcome)
          → flat_round limit most f ≡ outcome
          → (flat_round limit most f ≡ ok none)
            ⊎ (((x : XdrError) × (flat_round limit most f ≡ err x))
                ⊎ ((records : List Bytes) × (f' : Flat) × (flat_round limit most f
                      ≡ ok (some (records, f')))
                    × (length f'.bytes + 4 ≤ length f.bytes)))
      named (err x) e = inr (inl (x, e))
      named (ok none) e = inl e
      named (ok (some (records, f'))) e =
          inr (inr (records, f', e, subst (Shrinks f) e (flat_round-Shrinks f)))

  -- Fuel of as many rounds as there are bytes is enough.
  flat_rounds-fuel :
      (m n : ℕ) (f : Flat)
      → length f.bytes ≤ m
      → length f.bytes ≤ n
      → flat_rounds limit most m f ≡ flat_rounds limit most n f
  unfolding flat_rounds
  flat_rounds-fuel zero zero f hm hn = refl
  flat_rounds-fuel zero (suc n) f hm hn = rw flat_round-empty refl
  flat_rounds-fuel (suc m) zero f hm hn = rw flat_round-empty refl
  flat_rounds-fuel (suc m) (suc n) f hm hn = elim (round_cases f) [
    | inl e ↦ rw e refl
    | inr (inl (x, e)) ↦ rw e refl
    | inr (inr (records, f', e, h)) ↦ rw e (
        ap (before limit most records)
          (flat_rounds-fuel m n f' (omega (arith, h, hm)) (omega (arith, h, hn))))
  ]

  -- The records of a push, and the state for the next one.
  abbrev pub and_push : Bytes → FlatPushed limit most → FlatPushed limit most
  and_push more (err x) = err x
  and_push more (ok (records, f)) = before limit most records (flat_push limit most more f)

  pub before-before :
      (rs qs : List Bytes) (p : FlatPushed limit most)
      → before limit most rs (before limit most qs p) ≡ before limit most (rs ++ qs) p
  before-before rs qs (err x) = refl
  before-before rs qs (ok (later, f)) = ap (λ l. ok (l, f)) (sym (append_assoc rs qs later))

  pub before-nil : (p : FlatPushed limit most) → before limit most [] p ≡ p
  before-nil (err x) = refl
  before-nil (ok (later, f)) = refl

  before-and_push :
      (more : Bytes) (rs : List Bytes) (p : FlatPushed limit most)
      → before limit most rs (and_push more p) ≡ and_push more (before limit most rs p)
  before-and_push more rs (err x) = refl
  before-and_push more rs (ok (later, f)) = before-before rs later (flat_push limit most more f)

  seen :
      (more : Bytes) (f : Flat) (outcome : Outcome)
      → flat_round limit most f ≡ outcome
      → outcome ≢ ok none
      → flat_round limit most (more_bytes more f) ≡ extended more outcome
  seen more f outcome e some_step = elim (flat_round-more more f) [
    | inl stuck ↦ absurd (some_step (sym e ∙ stuck))
    | inr same ↦ same ∙ ap (extended more) e
  ]

  flat_rounds-stuck :
      (m : ℕ) (f : Flat)
      → flat_round limit most f ≡ ok none
      → flat_rounds limit most m f ≡ ok ([], f)
  unfolding flat_rounds
  flat_rounds-stuck zero f e = refl
  flat_rounds-stuck (suc m) f e = rw e refl

  more-stuck :
      (m n : ℕ) (more : Bytes) (f : Flat)
      → length (f.bytes ++ more) ≤ n
      → flat_round limit most f ≡ ok none
      → flat_rounds limit most n (more_bytes more f) ≡ and_push more (flat_rounds limit most m f)
  unfolding flat_push
  more-stuck m n more f hn e =
      flat_rounds-fuel n (length (f.bytes ++ more)) (more_bytes more f) hn (omega arith)
      ∙ sym
          (ap (and_push more) (flat_rounds-stuck m f e) ∙ before-nil (flat_push limit most more f))

  flat_rounds-more :
      (m n : ℕ) (more : Bytes) (f : Flat)
      → length f.bytes ≤ m
      → length (f.bytes ++ more) ≤ n
      → flat_rounds limit most n (more_bytes more f) ≡ and_push more (flat_rounds limit most m f)
  unfolding flat_rounds
  flat_rounds-more zero n more f hm hn = more-stuck zero n more f hn (flat_round-empty f hm)
  flat_rounds-more (suc m) zero more f hm hn =
      more-stuck (suc m) zero more f hn
        (flat_round-empty f (omega (arith, length-append f.bytes more, hn)))
  flat_rounds-more (suc m) (suc n) more f hm hn = elim (round_cases f) [
    | inl e ↦ more-stuck (suc m) (suc n) more f hn e
    | inr (inl (x, e)) ↦ rw (e, seen more f (err x) e (λ h. cc)) refl
    | inr (inr (records, f', e, h)) ↦
        let later =
          flat_rounds-more m n more f' (omega (arith, h, hm))
            (omega (arith, length-append f.bytes more, length-append f'.bytes more, h, hn)) in
        rw (e, seen more f (ok (some (records, f'))) e (λ h. cc))
          (ap (before limit most records) later
            ∙ before-and_push more records (flat_rounds limit most m f'))
  ]

  -- Two deliveries are one: the records, and what is left, do not depend on where a chunk ends.
  pub flat_push-append :
      (xs ys : Bytes) (f : Flat)
      → flat_push limit most (xs ++ ys) f ≡ and_push ys (flat_push limit most xs f)
  unfolding flat_push
  flat_push-append xs ys f =
      ap (λ bs. flat_rounds limit most (length bs) (record f { bytes = bs }))
        (sym (append_assoc f.bytes xs ys))
      ∙ flat_rounds-more (length (f.bytes ++ xs)) (length (f.bytes ++ xs ++ ys)) ys
          (more_bytes xs f) (omega arith) (omega arith)
