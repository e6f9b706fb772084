-- ===== src/Rpc/Assembler/Held.antt =====
-- How much a connection can make the assembler hold.
use mountx.Common.{
  ℕ, zero, suc, ◌+◌, ◌*◌, ◌%◌, ◌^◌, ◌≤◌, ◌≡◌, sym, ap, subst, Bool, true, false, Option, none, some,
  List, [], ◌∷◌, ltb, leb, length, take, drop, arith, Bool-cases, inl, inr, length-append,
  length-take,
}
use mountx.Common.Result.{ok, err}
use mountx.Xdr.{Bytes, from_be}
use mountx.Rpc.Assembler.{RecordAssembler, new_assembler, pending, joined}
use mountx.Rpc.Assembler.Flat.{
  Flat, Outcome, closed, accepted, flat_round, FlatPushed, before, flat_rounds, flat_push,
  flat_checked,
}
use mountx.Rpc.Assembler.Chunks.{round_cases}
use mountx.Rpc.Assembler.Refinement.{view}
use mountx.Rpc.Assembler.Pushes.{PushAgrees}
use mountx.Rpc.Assembler.Deliveries.{
  at_once, deliver, deliver-Agrees, new_assembler-IsValid, new_assembler-view,
}

module _ (limit most : ℕ) where
  record IsBounded (f : Flat) : Type 0 where
    parts : length f.parts ≤ limit
    count : f.count ≤ most

  -- What a state holds, as `pending` counts it.
  abbrev held : Flat → ℕ
  held f = length f.parts + f.count * 4 + length f.bytes

  abbrev AfterRound : Flat → Outcome → Type 0
  AfterRound f (err thrown) = Unit
  AfterRound f (ok none) = held f ≤ limit + most * 4 + 3
  AfterRound f (ok (some (records, g))) = IsBounded g

  closed-IsBounded :
      (last : Bool) (f : Flat) → IsBounded f → AfterRound f (ok (some (closed limit most last f)))
  closed-IsBounded true f b = record { parts = omega arith; count = omega arith }
  closed-IsBounded false f b = b

  flat_round-AfterRound : (f : Flat) → IsBounded f → AfterRound f (flat_round limit most f)
  unfolding flat_round flat_checked
  flat_round-AfterRound f b = elim (Bool-cases (ltb (length f.bytes) 4)) [
    | inl e ↦ rw e (ground (arith, e, b.parts, b.count))
    | inr e ↦
        let word = from_be 0 (take 4 f.bytes) in
        let size = word % 2 ^ 31 in
        rw e (elim (Bool-cases (ltb limit (length f.parts + size))) [
          | inl long ↦ rw long tt
          | inr short ↦ rw short (elim (Bool-cases (leb most f.count)) [
            | inl full ↦ rw full tt
            | inr few ↦ rw few (elim (Bool-cases (ltb (length f.bytes) (4 + size))) [
              | inl part ↦ rw part (ground (arith, part, few, short))
              | inr whole ↦ rw whole (
                  closed-IsBounded (leb (2 ^ 31) word) (accepted limit most size f) (record {
                    parts = ground (
                      arith,
                      short,
                      length-append f.parts (take size (drop 4 f.bytes)),
                      length-take size (drop 4 f.bytes),
                    );
                    count = ground (arith, few);
                  }))
            ])
          ])
        ])
  ]

  abbrev HeldAfter : FlatPushed limit most → Type 0
  HeldAfter (err thrown) = Unit
  HeldAfter (ok (records, g)) = held g ≤ limit + most * 4 + 3

  before-HeldAfter :
      (records : List Bytes) (p : FlatPushed limit most)
      → HeldAfter p
      → HeldAfter (before limit most records p)
  before-HeldAfter records (err thrown) h = h
  before-HeldAfter records (ok (later, g)) h = h

  flat_rounds-HeldAfter :
      (fuel : ℕ) (f : Flat)
      → length f.bytes ≤ fuel
      → IsBounded f
      → HeldAfter (flat_rounds limit most fuel f)
  unfolding flat_rounds
  flat_rounds-HeldAfter zero f h b = omega (arith, h, b.parts, b.count)
  flat_rounds-HeldAfter (suc fuel) f h b = elim (round_cases limit most f) [
    | inl e ↦ rw e (subst (AfterRound f) e (flat_round-AfterRound f b))
    | inr (inl (x, e)) ↦ rw e tt
    | inr (inr (records, f', e, less)) ↦ rw e (
        before-HeldAfter records (flat_rounds limit most fuel f') (
          flat_rounds-HeldAfter fuel f' (omega (arith, less, h))
            (subst (AfterRound f) e (flat_round-AfterRound f b))))
  ]

-- However its bytes arrive in chunks, a connection that was not refused makes a new assembler
-- count at most its limit, the headers of as many fragments as it allows, and three loose bytes.
pub pending-bound :
    (limit : ℕ) (fragments : Option ℕ) (chunk : Bytes) (chunks records : List Bytes)
    (s : RecordAssembler)
    → deliver chunk chunks (new_assembler limit fragments) ≡ (records, ok s)
    → pending s ≤ limit + (new_assembler limit fragments).max_fragments * 4 + 3
unfolding pending flat_push
pending-bound limit fragments chunk chunks records s e =
    bounded (flat_push limit most all (view new)) flat (
      subst (λ p. PushAgrees limit most p (flat_push limit most all (view new))) (ap at_once e)
        (deliver-Agrees limit most chunk chunks new (new_assembler-IsValid limit fragments)))
  where
    new : RecordAssembler
    new = new_assembler limit fragments

    most : ℕ
    most = new.max_fragments

    all : Bytes
    all = joined (chunk ∷ chunks)

    flat : HeldAfter limit most (flat_push limit most all (view new))
    flat =
        subst (λ f. HeldAfter limit most (flat_push limit most all f))
          (sym (new_assembler-view limit fragments))
          (flat_rounds-HeldAfter limit most (length all)
            (record { bytes = all; parts = []; count = 0 }) (omega arith)
            (record { parts = omega arith; count = omega arith }))

    bounded :
        (q : FlatPushed limit most)
        → HeldAfter limit most q
        → PushAgrees limit most (ok (records, s)) q
        → pending s ≤ limit + most * 4 + 3
    bounded (err x) h k = absurd k
    bounded (ok (qs, g)) h (same, seen, v) =
        let total = subst (λ f. held limit most f ≤ limit + most * 4 + 3) (sym seen) h in
        omega (arith, total, v.assembled, v.buffered)
