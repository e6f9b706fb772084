-- ===== src/Rpc/Assembler/Refinement.antt =====
-- `RecordAssembler` is record marking on one string of bytes.
use mountx.Common.{
  ℕ, ◌+◌, ◌-◌, ◌%◌, ◌^◌, ◌≤◌, ◌≡◌, refl, sym, ap, subst, ◌∙◌, Bool, true, false, Option, none, some,
  List, [], ◌∷◌, ◌++◌, ltb, leb, if◌then◌else◌, length, take, drop, replicate, arith, Bool-cases,
  inl, inr, length-append, length-drop, length-take, append_assoc, append-nil,
}
use mountx.Common.Result.{Result, ok, err}
use mountx.Xdr.{Bytes, XdrError, from_be, record_too_long, too_many_fragments}
use mountx.Rpc.Assembler.{
  RecordAssembler, header, take_bytes, joined, join, accept, count_fragment, keep_fragment, finish,
  round,
}
use mountx.Rpc.Assembler.Flat.{Flat, Outcome, closed, accepted, flat_checked, flat_round}
use mountx.Rpc.Assembler.Queue.{ahead, IsQueue, header-eq}
use mountx.Rpc.Assembler.Walk.{take_bytes-Consumed, drop_bytes-Consumed}

abbrev pub view : RecordAssembler → Flat
view s = record { bytes = ahead s.head s.chunks; parts = joined s.fragments; count = s.count }

pub record IsValid (limit most : ℕ) (s : RecordAssembler) : Type 0 where
  pub queued : IsQueue s.head s.chunks
  pub buffered : s.buffered ≡ length (view s).bytes
  pub assembled : s.assembled ≡ length (view s).parts
  pub limited : s.limit ≡ limit
  pub most_fragments : s.max_fragments ≡ most

pub joined-append : (xs : List Bytes) (b : Bytes) → joined (xs ++ b ∷ []) ≡ joined xs ++ b
unfolding joined
joined-append [] b = append-nil b
joined-append (x ∷ xs) b = ap (◌++◌ x) (joined-append xs b) ∙ sym (append_assoc x (joined xs) b)

join-joined :
    (parts : List Bytes) (total : ℕ)
    → total ≡ length (joined parts)
    → join parts total ≡ joined parts
unfolding joined join
join-joined [] total h = rw h refl
join-joined (part ∷ []) total h = sym (append-nil part)
join-joined (part ∷ next ∷ parts) total h =
    let bytes = part ++ (next ++ joined parts) in
    let exact : total - length bytes ≡ 0 = omega (arith, h) in
    ap (λ n. bytes ++ replicate n 0) exact ∙ append-nil bytes

pub Flat_eq : (f g : Flat) → f.bytes ≡ g.bytes → f.parts ≡ g.parts → f.count ≡ g.count → f ≡ g
Flat_eq f g b p c =
    ap (λ x. record f { bytes = x }) b
    ∙ ap (λ x. record g { parts = x; count = f.count }) p
    ∙ ap (λ x. record g { count = x }) c

-- The state after the body of a fragment is taken.
record Kept (size : ℕ) (t u : RecordAssembler) : Type 0 where
  bytes : ahead u.head u.chunks ≡ drop size (ahead t.head t.chunks)
  parts : joined u.fragments ≡ joined t.fragments ++ take size (ahead t.head t.chunks)
  queued : IsQueue u.head u.chunks
  fewer : u.buffered ≡ t.buffered - size
  assembled : u.assembled ≡ t.assembled
  counted : u.count ≡ t.count
  limit : u.limit ≡ t.limit
  most : u.max_fragments ≡ t.max_fragments

keep_fragment-Kept :
    (size : ℕ) (t : RecordAssembler)
    → IsQueue t.head t.chunks
    → size ≤ length (ahead t.head t.chunks)
    → Kept size t (keep_fragment size t)
unfolding keep_fragment
keep_fragment-Kept size t q h = elim (Bool-cases (ltb 0 size)) [
  | inl e ↦
      let took = take_bytes-Consumed size t q h in
      rw e record {
        bytes = took.1.bytes;
        parts =
            joined-append (take_bytes size t).1.fragments (take_bytes size t).0
            ∙ ap (λ z. joined z ++ (take_bytes size t).0) took.1.fragments
            ∙ ap (◌++◌ (joined t.fragments)) took.0;
        queued = took.1.queued;
        fewer = took.1.fewer;
        assembled = took.1.assembled;
        counted = took.1.counted;
        limit = took.1.limit;
        most = took.1.most;
      }
  | inr e ↦
      let none_left : size ≡ 0 = ground (arith, e) in
      rw (e, none_left)
        record {
          bytes = refl;
          parts = sym (append-nil (joined t.fragments));
          queued = q;
          fewer = omega arith;
          assembled = refl;
          counted = refl;
          limit = refl;
          most = refl;
        }
]

module _ (limit most : ℕ) where
  -- A fragment of the bytes behind the header joins the record.
  pub accept-view :
      (size : ℕ) (s : RecordAssembler)
      → IsValid limit most s
      → 4 + size ≤ s.buffered
      → (view (accept size s) ≡ accepted limit most size (view s))
        × IsValid limit most (accept size s)
  unfolding accept count_fragment
  accept-view size s v h =
      let bytes = ahead s.head s.chunks in
      let dropped = drop_bytes-Consumed 4 s v.queued (omega (arith, h, v.buffered)) in
      let left = ap length dropped.bytes ∙ length-drop 4 bytes in
      let t = count_fragment size s in
      let kept = keep_fragment-Kept size t dropped.queued (omega (arith, left, h, v.buffered)) in
      let parts : joined (accept size s).fragments
          ≡ joined s.fragments ++ take size (drop 4 bytes) =
        kept.parts
        ∙ ap (λ z. joined z ++ take size (ahead t.head t.chunks)) dropped.fragments
        ∙ ap (λ z. joined s.fragments ++ take size z) dropped.bytes in
      let rest : ahead (accept size s).head (accept size s).chunks ≡ drop size (drop 4 bytes) =
        kept.bytes ∙ ap (drop size) dropped.bytes in
      (
        Flat_eq (view (accept size s)) (accepted limit most size (view s)) rest parts kept.counted,
        record {
          queued = kept.queued;
          buffered = omega (
            arith,
            kept.fewer,
            dropped.fewer,
            v.buffered,
            ap length rest,
            length-drop size (drop 4 bytes),
            length-drop 4 bytes,
          );
          assembled = omega (
            arith,
            ap length parts,
            length-append (joined s.fragments) (take size (drop 4 bytes)),
            length-take size (drop 4 bytes),
            length-drop 4 bytes,
            kept.assembled,
            v.assembled,
            v.buffered,
            h,
          );
          limited = kept.limit ∙ dropped.limit ∙ v.limited;
          most_fragments = kept.most ∙ dropped.most ∙ v.most_fragments;
        },
      )

-- The checks of a round, over the numbers that they read.
abbrev guarded : {A : Type 0} → ℕ → ℕ → ℕ → ℕ → ℕ → ℕ → (Bool → ℕ → A) → Result XdrError (Option A)
guarded word limit most assembled count buffered next =
    let size = word % 2 ^ 31 in
    if ltb limit (assembled + size)
    then err (record_too_long (assembled + size) limit)
    else if leb most count
    then err (too_many_fragments most assembled)
    else if ltb buffered (4 + size)
    then ok none
    else ok (some (next (leb (2 ^ 31) word) size))

module _ (limit most : ℕ) where
  -- The same answer, and after it the same view.
  abbrev pub Agrees : Result XdrError (Option (List Bytes × RecordAssembler)) → Outcome → Type 0
  Agrees (err x) (err y) = x ≡ y
  Agrees (ok none) (ok none) = Unit
  Agrees (ok (some (rs, s))) (ok (some (qs, f))) = (rs ≡ qs) × (view s ≡ f) × IsValid limit most s
  Agrees _ _ = ⊥

  finish-Agrees :
      (last : Bool) (size : ℕ) (s : RecordAssembler)
      → IsValid limit most s
      → 4 + size ≤ s.buffered
      → Agrees
          (ok (some (finish last (accept size s))))
          (ok (some (closed limit most last (accepted limit most size (view s)))))
  unfolding joined
  finish-Agrees last size s v h = closing last (accept-view limit most size s v h)
    where
      closing :
          (last : Bool)
          → (view (accept size s) ≡ accepted limit most size (view s))
            × IsValid limit most (accept size s)
          → Agrees
              (ok (some (finish last (accept size s))))
              (ok (some (closed limit most last (accepted limit most size (view s)))))
      closing false (e, w) = (refl, e, w)
      closing true (e, w) = (
        ap (λ b. b ∷ [])
            (join-joined (accept size s).fragments (accept size s).assembled w.assembled
              ∙ ap (λ f. f.parts) e),
        Flat_eq _ _ (ap (λ f. f.bytes) e) refl refl,
        record {
          queued = w.queued;
          buffered = w.buffered;
          assembled = refl;
          limited = w.limited;
          most_fragments = w.most_fragments;
        },
      )

  guarded-Agrees :
      (word assembled count buffered : ℕ) (next : Bool → ℕ → List Bytes × RecordAssembler)
      (next' : Bool → ℕ → List Bytes × Flat)
      → ((last : Bool) (size : ℕ)
          → 4 + size ≤ buffered
          → Agrees (ok (some (next last size))) (ok (some (next' last size))))
      → Agrees
          (guarded word limit most assembled count buffered next)
          (guarded word limit most assembled count buffered next')
  guarded-Agrees word assembled count buffered next next' h =
      let size = word % 2 ^ 31 in
      elim (Bool-cases (ltb limit (assembled + size))) [
        | inl long ↦ rw long refl
        | inr short ↦ rw short (elim (Bool-cases (leb most count)) [
          | inl full ↦ rw full refl
          | inr few ↦ rw few (elim (Bool-cases (ltb buffered (4 + size))) [
            | inl part ↦ rw part tt
            | inr whole ↦ rw whole (h (leb (2 ^ 31) word) size (ground (arith, whole)))
          ])
        ])
      ]

  pub round-Agrees :
      (s : RecordAssembler)
      → IsValid limit most s
      → ltb s.buffered 4 ≡ false
      → Agrees (round s) (flat_round limit most (view s))
  unfolding round flat_round flat_checked
  round-Agrees s v h =
      let word = from_be 0 (take 4 (ahead s.head s.chunks)) in
      let enough : ltb (length (view s).bytes) 4 ≡ false = ap (λ n. ltb n 4) (sym v.buffered) ∙ h in
      let next : Bool → ℕ → List Bytes × RecordAssembler =
        λ last size. finish last (accept size s) in
      let read : guarded (header s) s.limit s.max_fragments s.assembled s.count s.buffered next
          ≡ guarded word limit most (length (view s).parts) s.count (length (view s).bytes) next =
        ap (λ w. guarded w s.limit s.max_fragments s.assembled s.count s.buffered next)
          (header-eq s)
        ∙ ap (λ n. guarded word n s.max_fragments s.assembled s.count s.buffered next) v.limited
        ∙ ap (λ n. guarded word limit n s.assembled s.count s.buffered next) v.most_fragments
        ∙ ap (λ n. guarded word limit most n s.count s.buffered next) v.assembled
        ∙ ap (λ n. guarded word limit most (length (view s).parts) s.count n next) v.buffered in
      rw enough (
        subst
          (λ o. Agrees o (
            guarded word limit most (length (view s).parts) s.count (length (view s).bytes)
              (λ last size. closed limit most last (accepted limit most size (view s)))))
          (sym read)
          (guarded-Agrees word (length (view s).parts) s.count (length (view s).bytes) next
            (λ last size. closed limit most last (accepted limit most size (view s)))
            (λ last size k. finish-Agrees last size s v (omega (arith, k, v.buffered)))))
