-- ===== src/Rpc/Records.antt =====
-- What the sending half of record marking writes, the receiving half gives back.
use mountx.Common.{
  ℕ, zero, suc, ◌+◌, ◌%◌, ◌^◌, ◌≤◌, ◌<◌, ◌≡◌, refl, sym, ap, ◌∙◌, Bool, true, false, Option, some,
  List, [], ◌∷◌, ◌++◌, ltb, leb, if◌then◌else◌, length, take, drop, arith, Bool-cases, inl, inr,
  length-append, length-take, length-drop, append_assoc, append-nil, take-append, drop-append,
  take-append-drop, take-all,
}
use mountx.Common.Result.{ok, ok_injective}
use mountx.Xdr.{Bytes, to_be, from_be}
use mountx.Xdr.Numbers.{length-to_be, from_be-to_be}
use mountx.Rpc.Frames.{fragment_word, fragment, fragments_from, frame_fragments}
use mountx.Rpc.Assembler.{new_assembler, joined}
use mountx.Rpc.Assembler.Deliveries.{
  at_once, deliver, deliver-Agrees, new_assembler-IsValid, new_assembler-view, PushAgrees-records,
  records_of, flat_records,
}
use mountx.Rpc.Assembler.Flat.{
  Flat, closed, flat_checked, flat_round, FlatPushed, before, flat_rounds, flat_push,
}

fragment_word-small : (last : Bool) (size : ℕ) → fragment_word last size < 2 ^ 32
unfolding fragment_word
fragment_word-small true size = omega arith
fragment_word-small false size = omega arith

fragment_word-size :
    (last : Bool) (size : ℕ) → size < 2 ^ 31 → fragment_word last size % 2 ^ 31 ≡ size
unfolding fragment_word
fragment_word-size true size h = omega (arith, h)
fragment_word-size false size h = omega (arith, h)

fragment_word-last :
    (last : Bool) (size : ℕ) → size < 2 ^ 31 → leb (2 ^ 31) (fragment_word last size) ≡ last
unfolding fragment_word
fragment_word-last true size h = ground arith
fragment_word-last false size h = ground arith

take-fragment : (w chunk more : Bytes) (n : ℕ) → length w ≡ n → take n (w ++ chunk ++ more) ≡ w
take-fragment w chunk more n h =
    ap (take n) (append_assoc w chunk more)
    ∙ ap (λ k. take k (w ++ (chunk ++ more))) (sym h)
    ∙ take-append w (chunk ++ more)

drop-fragment :
    (w chunk more : Bytes) (n : ℕ) → length w ≡ n → drop n (w ++ chunk ++ more) ≡ chunk ++ more
drop-fragment w chunk more n h =
    ap (drop n) (append_assoc w chunk more)
    ∙ ap (λ k. drop k (w ++ (chunk ++ more))) (sym h)
    ∙ drop-append w (chunk ++ more)

fragments_from-zero :
    (size : ℕ) (rest : Bytes) → length rest ≤ 0 → fragments_from 0 size rest ≡ fragment true rest
unfolding fragments_from
fragments_from-zero size rest h = rw (take-all size rest (omega (arith, h))) refl

fragments_from-last :
    (fuel size : ℕ) (rest : Bytes)
    → leb (length rest) size ≡ true
    → fragments_from (suc fuel) size rest ≡ fragment true rest
unfolding fragments_from
fragments_from-last fuel size rest e = rw (e, take-all size rest (ground (arith, e))) refl

fragments_from-more :
    (fuel size : ℕ) (rest : Bytes)
    → leb (length rest) size ≡ false
    → fragments_from (suc fuel) size rest
      ≡ fragment false (take size rest) ++ fragments_from fuel size (drop size rest)
unfolding fragments_from
fragments_from-more fuel size rest e = rw e refl

fragment_longer : (last : Bool) (chunk : Bytes) → length (fragment last chunk) ≡ 4 + length chunk
fragment_longer last chunk =
    let word = fragment_word last (length chunk) in
    omega (arith, length-append (to_be 4 word) chunk, length-to_be 4 word)

-- A message is shorter than its fragments.
longer :
    (fuel size : ℕ) (rest : Bytes)
    → 1 ≤ size
    → length rest ≤ fuel
    → length rest < length (fragments_from fuel size rest)
longer zero size rest k h =
    omega (arith, ap length (fragments_from-zero size rest h), fragment_longer true rest)
longer (suc fuel) size rest k h = elim (Bool-cases (leb (length rest) size)) [
  | inl e ↦
      omega (arith, ap length (fragments_from-last fuel size rest e), fragment_longer true rest)
  | inr e ↦
      let below : size < length rest = ground (arith, e) in
      omega (
        arith,
        ap length (fragments_from-more fuel size rest e),
        length-append (fragment false (take size rest)) (fragments_from fuel size (drop size rest)),
        fragment_longer false (take size rest),
        length-take size rest,
        length-drop size rest,
        longer fuel size (drop size rest) k (omega (arith, length-drop size rest, h, k)),
        below,
      )
]

-- How many fragments these are.
abbrev pub fragment_count : ℕ → ℕ → Bytes → ℕ
fragment_count zero size rest = 1
fragment_count (suc fuel) size rest =
    if leb (length rest) size then 1 else suc (fragment_count fuel size (drop size rest))

module _ (limit most : ℕ) where
  -- One fragment at the front of the bytes.
  flat_round-fragment :
      (last : Bool) (chunk more parts : Bytes) (count : ℕ)
      → length chunk < 2 ^ 31
      → length parts + length chunk ≤ limit
      → count < most
      → flat_round limit most
          (record { bytes = fragment last chunk ++ more; parts = parts; count = count })
        ≡ ok (
            some (
              closed limit most last
                (record { bytes = more; parts = parts ++ chunk; count = count + 1 })))
  unfolding flat_round flat_checked
  flat_round-fragment last chunk more parts count h k l =
      let word = fragment_word last (length chunk) in
      let w = to_be 4 word in
      let four = length-to_be 4 word in
      let read : from_be 0 (take 4 (w ++ chunk ++ more)) ≡ word =
        ap (from_be 0) (take-fragment w chunk more 4 four)
        ∙ from_be-to_be 4 word (fragment_word-small last (length chunk)) in
      let whole : length (w ++ chunk ++ more) ≡ 4 + length chunk + length more =
        omega (arith, length-append (w ++ chunk) more, length-append w chunk, four) in
      let enough : ltb (length (w ++ chunk ++ more)) 4 ≡ false = ground (arith, whole) in
      let size = fragment_word-size last (length chunk) h in
      let short : ltb limit (length parts + length chunk) ≡ false = ground (arith, k) in
      let few : leb most count ≡ false = ground (arith, l) in
      let complete : ltb (length (w ++ chunk ++ more)) (4 + length chunk) ≡ false =
        ground (arith, whole) in
      rw
        (
          enough,
          read,
          size,
          short,
          few,
          complete,
          fragment_word-last last (length chunk) h,
          drop-fragment w chunk more 4 four,
          take-append chunk more,
          drop-append chunk more,
        )
        refl

  flat_rounds-nil :
      (fuel count : ℕ) (parts : Bytes)
      → flat_rounds limit most fuel (record { bytes = []; parts = parts; count = count })
        ≡ ok ([], record { bytes = []; parts = parts; count = count })
  unfolding flat_rounds flat_round
  flat_rounds-nil zero count parts = refl
  flat_rounds-nil (suc fuel) count parts = refl

  abbrev state : Bytes → ℕ → ℕ → Bytes → FlatPushed limit most
  state parts count rounds bytes =
      flat_rounds limit most rounds (record { bytes = bytes; parts = parts; count = count })

  after_round :
      (rounds : ℕ) (f g : Flat) (records : List Bytes)
      → flat_round limit most f ≡ ok (some (records, g))
      → flat_rounds limit most (suc rounds) f
        ≡ before limit most records (flat_rounds limit most rounds g)
  unfolding flat_rounds
  after_round rounds f g records e = rw e refl

  flat_rounds-last :
      (rounds : ℕ) (chunk parts : Bytes) (count : ℕ)
      → limit < 2 ^ 31
      → length parts + length chunk ≤ limit
      → count < most
      → flat_rounds limit most
          (suc rounds)
          (record { bytes = fragment true chunk; parts = parts; count = count })
        ≡ ok ((parts ++ chunk) ∷ [], record { bytes = []; parts = []; count = 0 })
  unfolding flat_rounds
  flat_rounds-last rounds chunk parts count l k c =
      let alone =
        ap (λ b. flat_round limit most (record { bytes = b; parts = parts; count = count }))
          (sym (append-nil (fragment true chunk)))
        ∙ flat_round-fragment true chunk [] parts count (omega (arith, k, l)) k c in
      rw (alone, flat_rounds-nil rounds 0 []) refl

  -- The fragments of a message, behind those that came before.
  flat_rounds-fragments :
      (fuel size rounds : ℕ) (rest parts : Bytes) (count : ℕ)
      → 1 ≤ size
      → length rest ≤ fuel
      → fuel < rounds
      → limit < 2 ^ 31
      → length parts + length rest ≤ limit
      → count + fragment_count fuel size rest ≤ most
      → flat_rounds limit most rounds
          (record { bytes = fragments_from fuel size rest; parts = parts; count = count })
        ≡ ok ((parts ++ rest) ∷ [], record { bytes = []; parts = []; count = 0 })
  flat_rounds-fragments fuel size zero rest parts count h f r l k c = absurd (omega (arith, r))
  flat_rounds-fragments zero size (suc rounds) rest parts count h f r l k c =
      ap (state parts count (suc rounds)) (fragments_from-zero size rest f)
      ∙ flat_rounds-last rounds rest parts count l k (omega (arith, c))
  flat_rounds-fragments (suc fuel) size (suc rounds) rest parts count h f r l k c =
      elim (Bool-cases (leb (length rest) size)) [
        | inl e ↦
            ap (state parts count (suc rounds)) (fragments_from-last fuel size rest e)
            ∙ flat_rounds-last rounds rest parts count l k (ground (arith, c, e))
        | inr e ↦
            let taken = length-take size rest in
            let left = length-drop size rest in
            let bytes = fragments_from fuel size (drop size rest) in
            let few : suc count + fragment_count fuel size (drop size rest) ≤ most =
              ground (arith, c, e) in
            let chunk = take size rest in
            let first =
              flat_round-fragment false chunk bytes parts count (omega (arith, taken, k, l))
                (omega (arith, taken, k)) (omega (arith, few)) in
            let later =
              flat_rounds-fragments fuel size rounds (drop size rest) (parts ++ chunk) (count + 1) h
                (ground (arith, left, f, h, e)) (omega (arith, r)) l
                (omega (arith, length-append parts chunk, taken, left, k)) (omega (arith, few)) in
            ap (state parts count (suc rounds)) (fragments_from-more fuel size rest e)
            ∙ after_round _ _ _ _ first
            ∙ ap (before limit most []) later
            ∙ ap (λ b. ok (b ∷ [], record { bytes = []; parts = []; count = 0 }))
                (append_assoc parts chunk (drop size rest)
                  ∙ ap (◌++◌ parts) (take-append-drop size rest))
      ]

-- A connection whose deliveries, however cut, are the fragments of a message gives that message and
-- nothing else, if the message is within the limit, which fits a header, and does not take more
-- fragments than a record may have.
pub deliver-frame_fragments :
    (limit size : ℕ) (max_fragments : Option ℕ) (message chunk : Bytes) (chunks : List Bytes)
    → limit < 2 ^ 31
    → 1 ≤ size
    → length message ≤ limit
    → fragment_count (length message) size message
      ≤ (new_assembler limit max_fragments).max_fragments
    → frame_fragments message size ≡ ok (joined (chunk ∷ chunks))
    → records_of (at_once (deliver chunk chunks (new_assembler limit max_fragments)))
      ≡ ok (message ∷ [])
unfolding frame_fragments flat_push
deliver-frame_fragments limit size max_fragments message chunk chunks l h k c e =
    let s = new_assembler limit max_fragments in
    let most = s.max_fragments in
    let bytes = fragments_from (length message) size message in
    let sent : bytes ≡ joined (chunk ∷ chunks) = sent_bytes e in
    PushAgrees-records limit most (at_once (deliver chunk chunks s)) _
      (deliver-Agrees limit most chunk chunks s (new_assembler-IsValid limit max_fragments))
    ∙ ap (λ f. flat_records (flat_push limit most (joined (chunk ∷ chunks)) f))
        (new_assembler-view limit max_fragments)
    ∙ ap
        (λ b.
          flat_records
            (flat_rounds limit most (length b) (record { bytes = b; parts = []; count = 0 })))
        (sym sent)
    ∙ ap flat_records (
        flat_rounds-fragments limit most (length message) size (length bytes) message [] 0 h
          (omega arith) (longer (length message) size message h (omega arith)) l (omega (arith, k))
          (omega (arith, c)))
  where
    sent_bytes :
        frame_fragments message size ≡ ok (joined (chunk ∷ chunks))
        → fragments_from (length message) size message ≡ joined (chunk ∷ chunks)
    sent_bytes e =
        let bound : ltb size 1 ≡ false = ground (arith, h) in
        ok_injective (sym (unfold frame_fragments in rw bound refl) ∙ e)
