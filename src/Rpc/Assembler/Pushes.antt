-- ===== src/Rpc/Assembler/Pushes.antt =====
-- A delivery gives the records of its bytes, and the same error.
use mountx.Common.{
  ℕ, zero, suc, ◌<◌, ◌≡◌, refl, sym, ap, subst, ◌∙◌, true, false, Option, none, some, List, [], ◌∷◌,
  ◌++◌, ltb, length, take, drop, arith, Bool-cases, inl, inr, length-append, length-drop,
  append_assoc, append-nil, take-append,
}
use mountx.Common.Result.{Result, ok, err, ◌>>=◌}
use mountx.Xdr.{Bytes, XdrError}
use mountx.Rpc.Assembler.{
  RecordAssembler, joined, round, rounds, queue, Pushed, loosen, loosened, push,
}
use mountx.Rpc.Assembler.Flat.{
  Flat, Outcome, more_bytes, flat_round, FlatPushed, before, flat_rounds, flat_push,
}
use mountx.Rpc.Assembler.Chunks.{before-before, before-nil}
use mountx.Rpc.Assembler.Queue.{ahead, IsQueue, AllFilled}
use mountx.Rpc.Assembler.Refinement.{view, IsValid, Flat_eq, joined-append, Agrees, round-Agrees}

module _ (limit most : ℕ) where
  abbrev pub PushAgrees : Pushed → FlatPushed limit most → Type 0
  PushAgrees (err x) (err y) = x ≡ y
  PushAgrees (ok (rs, s)) (ok (qs, f)) = (rs ≡ qs) × (view s ≡ f) × IsValid limit most s
  PushAgrees _ _ = ⊥

  module _ (fuel : ℕ) (records : List Bytes) (s : RecordAssembler) (v : IsValid limit most s)
      (later : (more : List Bytes) (t : RecordAssembler)
        → IsValid limit most t
        → PushAgrees
            (rounds fuel (records ++ more) t)
            (before limit most (records ++ more) (flat_rounds limit most fuel (view t)))) where
    abbrev go : Result XdrError (Option (List Bytes × RecordAssembler)) → Pushed
    go outcome = outcome >>= λ o. elim o [
      | none ↦ ok (records, s)
      | some (more, s') ↦ rounds fuel (records ++ more) s'
    ]

    abbrev flat_go : Outcome → FlatPushed limit most
    flat_go outcome = outcome >>= λ o. elim o [
      | none ↦ ok ([], view s)
      | some (more, f) ↦ before limit most more (flat_rounds limit most fuel f)
    ]

    go-Agrees :
        (o : Result XdrError (Option (List Bytes × RecordAssembler))) (o' : Outcome)
        → Agrees limit most o o'
        → PushAgrees (go o) (before limit most records (flat_go o'))
    go-Agrees (err x) (err y) h = h
    go-Agrees (ok none) (ok none) h = (sym (append-nil records), refl, v)
    go-Agrees (ok (some (more, t))) (ok (some (qs, f))) (same, seen, w) =
        let left : List Bytes → Flat → FlatPushed limit most =
          λ q g. before limit most records (before limit most q (flat_rounds limit most fuel g)) in
        subst (PushAgrees (rounds fuel (records ++ more) t))
          (sym (before-before limit most records more (flat_rounds limit most fuel (view t)))
            ∙ ap (λ q. left q (view t)) same
            ∙ ap (left qs) seen)
          (later more t w)
    go-Agrees (err x) (ok o) h = absurd h
    go-Agrees (ok none) (err y) h = absurd h
    go-Agrees (ok none) (ok (some p)) h = absurd h
    go-Agrees (ok (some p)) (err y) h = absurd h
    go-Agrees (ok (some p)) (ok none) h = absurd h

  rounds-Agrees :
      (fuel : ℕ) (records : List Bytes) (s : RecordAssembler)
      → IsValid limit most s
      → PushAgrees
          (rounds fuel records s)
          (before limit most records (flat_rounds limit most fuel (view s)))
  unfolding rounds flat_rounds
  rounds-Agrees zero records s v = (sym (append-nil records), refl, v)
  rounds-Agrees (suc fuel) records s v = elim (Bool-cases (ltb s.buffered 4)) [
    | inl e ↦
        let short : ltb (length (view s).bytes) 4 ≡ true = ap (λ n. ltb n 4) (sym v.buffered) ∙ e in
        let stuck : flat_round limit most (view s) ≡ ok none = unfold flat_round in rw short refl in
        rw (e, stuck) (sym (append-nil records), refl, v)
    | inr e ↦ rw e (
        go-Agrees fuel records s v (λ more t w. rounds-Agrees fuel (records ++ more) t w) (round s)
          (flat_round limit most (view s)) (round-Agrees limit most s v e))
  ]

  -- A delivery joins the end of the bytes.
  queue-view :
      (chunk : Bytes) (s : RecordAssembler)
      → IsValid limit most s
      → (view (queue chunk s) ≡ more_bytes chunk (view s)) × IsValid limit most (queue chunk s)
  queue-view chunk s v = elim (Bool-cases (ltb 0 (length chunk))) [
    | inr e ↦
        rw e (Flat_eq (view s) (more_bytes chunk (view s)) (sym (nothing chunk e)) refl refl, v)
    | inl e ↦
        let joins = ahead-queued s.head s.chunks v.queued in
        rw e (
          Flat_eq _ _ joins refl refl,
          record {
            queued = IsQueue-queued s.head s.chunks v.queued (ground (arith, e));
            buffered =
                omega
                  (arith, v.buffered, ap length joins, length-append (ahead s.head s.chunks) chunk);
            assembled = v.assembled;
            limited = v.limited;
            most_fragments = v.most_fragments;
          },
        )
  ]
    where
      nothing :
          (chunk : Bytes)
          → ltb 0 (length chunk) ≡ false
          → ahead s.head s.chunks ++ chunk ≡ ahead s.head s.chunks
      nothing [] e = append-nil (ahead s.head s.chunks)
      nothing (b ∷ bs) e = absurd (ground arith)

      ahead-queued :
          (head : ℕ) (chunks : List Bytes)
          → IsQueue head chunks
          → ahead head (chunks ++ chunk ∷ []) ≡ ahead head chunks ++ chunk
      ahead-queued head [] q = rw q (unfold joined in append-nil chunk)
      ahead-queued head (c ∷ cs) q =
          ap (◌++◌ (drop head c)) (joined-append cs chunk)
          ∙ sym (append_assoc (drop head c) (joined cs) chunk)

      AllFilled-queued :
          (chunks : List Bytes)
          → AllFilled chunks
          → 0 < length chunk
          → AllFilled (chunks ++ chunk ∷ [])
      AllFilled-queued [] q h = (h, tt)
      AllFilled-queued (c ∷ cs) q h = (q.0, AllFilled-queued cs q.1 h)

      IsQueue-queued :
          (head : ℕ) (chunks : List Bytes)
          → IsQueue head chunks
          → 0 < length chunk
          → IsQueue head (chunks ++ chunk ∷ [])
      IsQueue-queued head [] q h = (omega (arith, q, h), tt)
      IsQueue-queued head (c ∷ cs) q h = (q.0, AllFilled-queued cs q.1 h)

  loosened-ahead :
      (head buffered : ℕ) (chunks : List Bytes)
      → IsQueue head chunks
      → buffered ≡ length (ahead head chunks)
      → (ahead (loosened chunks head buffered).1 (loosened chunks head buffered).0
          ≡ ahead head chunks)
        × IsQueue (loosened chunks head buffered).1 (loosened chunks head buffered).0
  unfolding joined
  loosened-ahead head buffered [] q h = (refl, q)
  loosened-ahead head buffered (c ∷ d ∷ ds) q h = (refl, q)
  loosened-ahead head buffered (c ∷ []) q h = elim (Bool-cases (ltb 0 head)) [
    | inr e ↦ rw e (refl, q)
    | inl e ↦
        let rest = drop head c in
        let exact : buffered ≡ length rest = omega (arith, h, length-append rest []) in
        let all : take buffered rest ≡ rest =
          ap (take buffered) (sym (append-nil rest))
          ∙ ap (λ n. take n (rest ++ [])) exact
          ∙ take-append rest [] in
        let some_left : 0 < length (take buffered rest) =
          omega (arith, ap length all, length-drop head c, q.0) in
        rw e (ap (λ b. b ++ []) all, (some_left, tt))
  ]

  loosen-view :
      (s : RecordAssembler)
      → IsValid limit most s
      → (view (loosen s) ≡ view s) × IsValid limit most (loosen s)
  unfolding loosen
  loosen-view s v =
      let same = loosened-ahead s.head s.buffered s.chunks v.queued v.buffered in
      (
        Flat_eq _ _ same.0 refl refl,
        record {
          queued = same.1;
          buffered = v.buffered ∙ ap length (sym same.0);
          assembled = v.assembled;
          limited = v.limited;
          most_fragments = v.most_fragments;
        },
      )

  abbrev loosen_all : Pushed → Pushed
  loosen_all pushed = pushed >>= λ p. ok (p.0, loosen p.1)

  loosen_all-Agrees :
      (p : Pushed) (q : FlatPushed limit most) → PushAgrees p q → PushAgrees (loosen_all p) q
  loosen_all-Agrees (err x) (err y) h = h
  loosen_all-Agrees (ok (rs, s)) (ok (qs, f)) (same, seen, v) =
      let (loose, w) = loosen-view s v in (same, loose ∙ seen, w)
  loosen_all-Agrees (err x) (ok q) h = absurd h
  loosen_all-Agrees (ok p) (err y) h = absurd h

  -- One delivery gives the records of its bytes, and the same error.
  pub push-Agrees :
      (chunk : Bytes) (s : RecordAssembler)
      → IsValid limit most s
      → PushAgrees (push chunk s) (flat_push limit most chunk (view s))
  unfolding push flat_push
  push-Agrees chunk s v =
      let t = queue chunk s in
      let (seen, w) = queue-view chunk s v in
      let fuel : t.buffered ≡ length ((view s).bytes ++ chunk) =
        w.buffered ∙ ap (λ f. length f.bytes) seen in
      let flat = flat_rounds limit most in
      let run : before limit most [] (flat t.buffered (view t))
          ≡ flat (length ((view s).bytes ++ chunk)) (more_bytes chunk (view s)) =
        before-nil limit most (flat t.buffered (view t))
        ∙ ap (λ n. flat n (view t)) fuel
        ∙ ap (flat (length ((view s).bytes ++ chunk))) seen in
      loosen_all-Agrees (rounds t.buffered [] t)
        (flat (length ((view s).bytes ++ chunk)) (more_bytes chunk (view s)))
        (subst (PushAgrees (rounds t.buffered [] t)) run (rounds-Agrees t.buffered [] t w))
