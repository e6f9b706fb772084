-- ===== src/Rpc/Assembler/Flat.antt =====
-- Record marking on one string of bytes: what `RecordAssembler` promises, without its queue.
use mountx.Common.{
  ℕ, zero, suc, ◌+◌, ◌%◌, ◌^◌, Bool, Option, none, some, List, [], ◌∷◌, ◌++◌, ltb, leb,
  if◌then◌else◌, length, take, drop,
}
use mountx.Common.Result.{Result, ok, err, ◌>>=◌}
use mountx.Xdr.{Bytes, XdrError, record_too_long, too_many_fragments, from_be}

-- The bytes that are not consumed, the payload of the record so far, and its number of fragments.
pub record Flat : Type 0 where
  pub bytes : Bytes
  pub parts : Bytes
  pub count : ℕ

abbrev pub more_bytes : Bytes → Flat → Flat
more_bytes more f = record f { bytes = f.bytes ++ more }

abbrev pub Outcome : Type 0
Outcome = Result XdrError (Option (List Bytes × Flat))

module _ (limit most : ℕ) where
  abbrev pub closed : Bool → Flat → List Bytes × Flat
  closed last f = if last then (f.parts ∷ [], record f { parts = []; count = 0 }) else ([], f)

  abbrev pub accepted : ℕ → Flat → Flat
  accepted size f = record {
    bytes = drop size (drop 4 f.bytes);
    parts = f.parts ++ take size (drop 4 f.bytes);
    count = f.count + 1;
  }

  abbrev pub flat_header : Flat → ℕ
  flat_header f = from_be 0 (take 4 f.bytes)

  unfoldable pub flat_checked : ℕ → Flat → Outcome
  flat_checked word f =
      let size = word % 2 ^ 31 in
      if ltb limit (length f.parts + size)
      then err (record_too_long (length f.parts + size) limit)
      else if leb most f.count
      then err (too_many_fragments most (length f.parts))
      else if ltb (length f.bytes) (4 + size)
      then ok none
      else ok (some (closed (leb (2 ^ 31) word) (accepted size f)))

  unfoldable pub flat_round : Flat → Outcome
  flat_round f = if ltb (length f.bytes) 4 then ok none else flat_checked (flat_header f) f

  abbrev pub FlatPushed : Type 0
  FlatPushed = Result XdrError (List Bytes × Flat)

  abbrev pub before : List Bytes → FlatPushed → FlatPushed
  before records (ok (later, f)) = ok (records ++ later, f)
  before records (err thrown) = err thrown

  unfoldable pub flat_rounds : ℕ → Flat → FlatPushed
  flat_rounds zero f = ok ([], f)
  flat_rounds (suc fuel) f = flat_round f >>= λ outcome. elim outcome [
    | none ↦ ok ([], f)
    | some (records, f') ↦ before records (flat_rounds fuel f')
  ]

  unfoldable pub flat_push : Bytes → Flat → FlatPushed
  flat_push more f = flat_rounds (length (f.bytes ++ more)) (more_bytes more f)
