-- ===== src/Rpc/Assembler.antt =====
-- src/nfs/rpc.ts: `RecordAssembler`, the receiving half of record marking.
-- A state after a throw is not kept: the server closes the connection. `take` and `drop_bytes` are
-- only called with enough bytes present; without a chunk to read they stop.
pub mod Flat
pub mod Queue
pub mod Walk
pub mod Refinement
pub mod Pushes
pub mod Deliveries
pub mod Held
pub mod Tests
pub mod Chunks
use mountx.Common.{
  ℕ, zero, suc, ◌+◌, ◌-◌, ◌*◌, ◌/◌, ◌%◌, ◌^◌, min, max, Bool, true, false, Option, none, some, List,
  [], ◌∷◌, ◌++◌, ◌==◌, nat_eq, ltb, leb, if◌then◌else◌, length, take, drop, replicate,
}
use mountx.Common.Result.{Result, ok, err, ◌>>=◌}
use mountx.Xdr.{Bytes, XdrError, record_too_long, too_many_fragments}

pub record RecordAssembler : Type 0 where
  pub fragments : List Bytes
  pub assembled : ℕ
  pub count : ℕ
  pub chunks : List Bytes
  pub head : ℕ
  pub buffered : ℕ
  pub limit : ℕ
  pub max_fragments : ℕ

-- `Math.max(64, Math.ceil(byteLimit / 1024))`
pub fragment_limit : ℕ → ℕ
fragment_limit byte_limit = max 64 ((byte_limit + 1023) / 1024)

pub new_assembler : ℕ → Option ℕ → RecordAssembler
new_assembler limit max_fragments = record {
  fragments = [];
  assembled = 0;
  count = 0;
  chunks = [];
  head = 0;
  buffered = 0;
  limit = limit;
  max_fragments = max 1 (elim max_fragments [ none ↦ fragment_limit limit | some n ↦ n ]);
}

pub pending : RecordAssembler → ℕ
pending s = s.assembled + s.count * 4 + s.buffered

-- The bytes of one chunk, as far as they are needed: the value and what is still needed.
pub header_bytes : ℕ → ℕ → Bytes → ℕ × ℕ
header_bytes value zero bytes = (value, 0)
header_bytes value (suc n) [] = (value, suc n)
header_bytes value (suc n) (byte ∷ bytes) = header_bytes (value * 0x100 + byte) n bytes

pub header_from : ℕ → ℕ → ℕ → List Bytes → ℕ
header_from value n start [] = value
header_from value n start (chunk ∷ chunks) =
    let (value', left) = header_bytes value n (drop start chunk) in header_from value' left 0 chunks

pub header : RecordAssembler → ℕ
header s = header_from 0 4 s.head s.chunks

-- `if (head === chunks[0].byteLength) { chunks.shift(); head = 0; }`
abbrev pub shifted : ℕ → List Bytes → List Bytes × ℕ
shifted head [] = ([], head)
shifted head (chunk ∷ chunks) = if head == length chunk then (chunks, 0) else (chunk ∷ chunks, head)

pub advance : ℕ → RecordAssembler → RecordAssembler
advance width s =
    let (chunks, head) = shifted (s.head + width) s.chunks in
    record s { chunks = chunks; head = head; buffered = s.buffered - width }

-- Each round uses the first chunk up or is the last: there are as many as chunks at most.
pub take_from : ℕ → ℕ → Bytes → RecordAssembler → Bytes × RecordAssembler
take_from zero n out s = (out, s)
take_from (suc rounds) n out s =
    if ltb (length out) n
    then elim s.chunks [
      | [] ↦ (out, s)
      | chunk ∷ rest ↦
          let width = min (length chunk - s.head) (n - length out) in
          take_from rounds n (out ++ take width (drop s.head chunk)) (advance width s)
    ]
    else (out, s)

pub take_bytes : ℕ → RecordAssembler → Bytes × RecordAssembler
take_bytes n s = take_from (length s.chunks) n [] s

pub drop_from : ℕ → ℕ → ℕ → RecordAssembler → RecordAssembler
drop_from zero n dropped s = s
drop_from (suc rounds) n dropped s =
    if ltb dropped n
    then elim s.chunks [
      | [] ↦ s
      | chunk ∷ rest ↦
          let width = min (length chunk - s.head) (n - dropped) in
          drop_from rounds n (dropped + width) (advance width s)
    ]
    else s

pub drop_bytes : ℕ → RecordAssembler → RecordAssembler
drop_bytes n s = drop_from (length s.chunks) n 0 s

-- The parts one after another, and the rest of the `total` bytes as they were allocated.
pub joined : List Bytes → Bytes
joined [] = []
joined (part ∷ parts) = part ++ joined parts

pub join : List Bytes → ℕ → Bytes
join [] total = replicate total 0
join (part ∷ []) total = part
join (part ∷ next ∷ parts) total =
    let bytes = joined (part ∷ next ∷ parts) in bytes ++ replicate (total - length bytes) 0

pub count_fragment : ℕ → RecordAssembler → RecordAssembler
count_fragment size s = record (drop_bytes 4 s) {
  assembled = s.assembled + size;
  count = s.count + 1;
}

pub keep_fragment : ℕ → RecordAssembler → RecordAssembler
keep_fragment size s =
    let (bytes, taken) = take_bytes size s in
    if ltb 0 size then record taken { fragments = taken.fragments ++ bytes ∷ [] } else s

pub accept : ℕ → RecordAssembler → RecordAssembler
accept size s = keep_fragment size (count_fragment size s)

abbrev pub finish : Bool → RecordAssembler → List Bytes × RecordAssembler
finish last s =
    if last
    then (join s.fragments s.assembled ∷ [], record s { fragments = []; assembled = 0; count = 0 })
    else ([], s)

-- One round of the loop: what it throws, `none` where it breaks, or its records and its state.
pub round : RecordAssembler → Result XdrError (Option (List Bytes × RecordAssembler))
round s =
    let size = header s % 2 ^ 31 in
    let last = leb (2 ^ 31) (header s) in
    if ltb s.limit (s.assembled + size)
    then err (record_too_long (s.assembled + size) s.limit)
    else if leb s.max_fragments s.count
    then err (too_many_fragments s.max_fragments s.assembled)
    else if ltb s.buffered (4 + size)
    then ok none
    else ok (some (finish last (accept size s)))

abbrev pub Pushed : Type 0
Pushed = Result XdrError (List Bytes × RecordAssembler)

-- A round consumes four bytes at least.
pub rounds : ℕ → List Bytes → RecordAssembler → Pushed
rounds zero records s = ok (records, s)
rounds (suc fuel) records s =
    if ltb s.buffered 4
    then ok (records, s)
    else (round s >>= λ outcome. elim outcome [
      | none ↦ ok (records, s)
      | some (more, s') ↦ rounds fuel (records ++ more) s'
    ])

abbrev pub queue : Bytes → RecordAssembler → RecordAssembler
queue chunk s =
    if ltb 0 (length chunk)
    then record s { chunks = s.chunks ++ chunk ∷ []; buffered = s.buffered + length chunk }
    else s

-- A tail inside one chunk is copied loose.
abbrev pub loosened : List Bytes → ℕ → ℕ → List Bytes × ℕ
loosened (chunk ∷ []) head buffered =
    if ltb 0 head then (take buffered (drop head chunk) ∷ [], 0) else (chunk ∷ [], head)
loosened [] head buffered = ([], head)
loosened (chunk ∷ next ∷ chunks) head buffered = (chunk ∷ next ∷ chunks, head)

pub loosen : RecordAssembler → RecordAssembler
loosen s =
    let (chunks, head) = loosened s.chunks s.head s.buffered in
    record s { chunks = chunks; head = head }

pub push : Bytes → RecordAssembler → Pushed
push chunk s = do
  (records, s') ← rounds (queue chunk s).buffered [] (queue chunk s)
  ok (records, loosen s')
