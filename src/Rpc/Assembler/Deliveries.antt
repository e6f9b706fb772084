-- ===== src/Rpc/Assembler/Deliveries.antt =====
-- What comes out of a connection, delivery by delivery.
use mountx.Common.{ℕ, ◌≡◌, refl, sym, ap, subst, ◌∙◌, Option, List, [], ◌∷◌, ◌++◌, append-nil}
use mountx.Common.Result.{Result, ok, err}
use mountx.Xdr.{Bytes, XdrError}
use mountx.Rpc.Assembler.{RecordAssembler, new_assembler, joined, Pushed, push}
use mountx.Rpc.Assembler.Flat.{Flat, FlatPushed, before, flat_push}
use mountx.Rpc.Assembler.Chunks.{and_push, flat_push-append}
use mountx.Rpc.Assembler.Refinement.{view, IsValid}
use mountx.Rpc.Assembler.Pushes.{PushAgrees, push-Agrees}

-- A connection: the records of its deliveries, kept also where a later one throws, and what it ends
-- with. Nothing is pushed behind an error.
abbrev pub Delivered : Type 0
Delivered = List Bytes × Result XdrError RecordAssembler

abbrev after_push : (RecordAssembler → Delivered) → Pushed → Delivered
after_push next (err x) = ([], err x)
after_push next (ok (rs, s)) = let (later, end) = next s in (rs ++ later, end)

unfoldable pub deliver : Bytes → List Bytes → RecordAssembler → Delivered
deliver chunk [] s = after_push (λ t. ([], ok t)) (push chunk s)
deliver chunk (next ∷ chunks) s = after_push (deliver next chunks) (push chunk s)

-- What one push of it all would return.
abbrev pub at_once : Delivered → Pushed
at_once (records, err x) = err x
at_once (records, ok s) = ok (records, s)

module _ (limit most : ℕ) where
  after_push-Agrees :
      (next : RecordAssembler → Delivered) (more : Bytes) (p : Pushed) (q : FlatPushed limit most)
      → ((s : RecordAssembler)
          → IsValid limit most s
          → PushAgrees limit most (at_once (next s)) (flat_push limit most more (view s)))
      → PushAgrees limit most p q
      → PushAgrees limit most (at_once (after_push next p)) (and_push limit most more q)
  after_push-Agrees next more (err x) (err y) h k = k
  after_push-Agrees next more (ok (rs, s)) (ok (qs, f)) h (same, seen, v) =
      appended (next s) (flat_push limit most more f) (
        subst (λ g. PushAgrees limit most (at_once (next s)) (flat_push limit most more g)) seen
          (h s v))
    where
      appended :
          (p : Delivered) (q : FlatPushed limit most)
          → PushAgrees limit most (at_once p) q
          → PushAgrees limit most (at_once (rs ++ p.0, p.1)) (before limit most qs q)
      appended (later, err x) (err y) k = k
      appended (later, ok t) (ok (ends, g)) (e, seen', w) =
          (ap (λ z. z ++ later) same ∙ ap (◌++◌ qs) e, seen', w)
      appended (later, err x) (ok q) k = absurd k
      appended (later, ok t) (err y) k = absurd k
  after_push-Agrees next more (err x) (ok q) h k = absurd k
  after_push-Agrees next more (ok p) (err y) h k = absurd k

  last-Agrees :
      (p : Pushed) (q : FlatPushed limit most)
      → PushAgrees limit most p q
      → PushAgrees limit most (at_once (after_push (λ t. ([], ok t)) p)) q
  last-Agrees (err x) (err y) h = h
  last-Agrees (ok (rs, s)) (ok (qs, f)) (same, seen, v) = (append-nil rs ∙ same, seen, v)
  last-Agrees (err x) (ok q) h = absurd h
  last-Agrees (ok p) (err y) h = absurd h

  pub deliver-Agrees :
      (chunk : Bytes) (chunks : List Bytes) (s : RecordAssembler)
      → IsValid limit most s
      → PushAgrees limit most
          (at_once (deliver chunk chunks s))
          (flat_push limit most (joined (chunk ∷ chunks)) (view s))
  unfolding deliver joined
  deliver-Agrees chunk [] s v = last-Agrees (push chunk s) _ (
      subst (λ b. PushAgrees limit most (push chunk s) (flat_push limit most b (view s)))
        (sym (append-nil chunk)) (push-Agrees limit most chunk s v))
  deliver-Agrees chunk (next ∷ chunks) s v =
      subst (PushAgrees limit most (at_once (after_push (deliver next chunks) (push chunk s))))
        (sym (flat_push-append limit most chunk (joined (next ∷ chunks)) (view s)))
        (after_push-Agrees (deliver next chunks) (joined (next ∷ chunks)) (push chunk s)
          (flat_push limit most chunk (view s)) (λ t w. deliver-Agrees next chunks t w)
          (push-Agrees limit most chunk s v))

pub new_assembler-IsValid :
    (limit : ℕ) (m : Option ℕ)
    → IsValid limit (new_assembler limit m).max_fragments (new_assembler limit m)
unfolding new_assembler joined
new_assembler-IsValid limit m = record {
  queued = refl;
  buffered = refl;
  assembled = refl;
  limited = refl;
  most_fragments = refl;
}

pub new_assembler-view :
    (limit : ℕ) (m : Option ℕ)
    → view (new_assembler limit m) ≡ record { bytes = []; parts = []; count = 0 }
unfolding new_assembler joined
new_assembler-view limit m = refl

abbrev pub records_of : Pushed → Result XdrError (List Bytes)
records_of (err x) = err x
records_of (ok (records, s)) = ok records

-- The records of bytes that are there at once.
abbrev pub flat_records : Result XdrError (List Bytes × Flat) → Result XdrError (List Bytes)
flat_records (err x) = err x
flat_records (ok (records, f)) = ok records

pub PushAgrees-records :
    (limit most : ℕ) (p : Pushed) (q : FlatPushed limit most)
    → PushAgrees limit most p q
    → records_of p ≡ flat_records q
PushAgrees-records limit most (err x) (err y) h = ap err h
PushAgrees-records limit most (ok (rs, s)) (ok (qs, f)) h = ap ok h.0
PushAgrees-records limit most (err x) (ok q) h = absurd h
PushAgrees-records limit most (ok p) (err y) h = absurd h

-- However the bytes of a connection are cut into deliveries, it ends with the error that a single
-- delivery of all of them would throw, or, if that throws none, gives the same records. The records
-- that come out before an error do depend on the cut.
pub deliver-joined :
    (limit : ℕ) (max_fragments : Option ℕ) (chunk : Bytes) (chunks : List Bytes)
    → records_of (at_once (deliver chunk chunks (new_assembler limit max_fragments)))
      ≡ records_of (push (joined (chunk ∷ chunks)) (new_assembler limit max_fragments))
deliver-joined limit max_fragments chunk chunks =
    let s = new_assembler limit max_fragments in
    let most = s.max_fragments in
    let v = new_assembler-IsValid limit max_fragments in
    PushAgrees-records limit most (at_once (deliver chunk chunks s)) _
      (deliver-Agrees limit most chunk chunks s v)
    ∙ sym (
        PushAgrees-records limit most (push (joined (chunk ∷ chunks)) s) _
          (push-Agrees limit most (joined (chunk ∷ chunks)) s v))
