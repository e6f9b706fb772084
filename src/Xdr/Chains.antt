-- ===== src/Xdr/Chains.antt =====
-- Reads and writes one after another: the bytes of a struct are those of its fields.
use mountx.Common.{
  ℕ, ◌%◌, ◌^◌, ◌<◌, ◌≤◌, ◌≡◌, refl, sym, ap, ◌∙◌, [], ◌++◌, length, drop, arith, append-nil, subst,
  drop-append,
}
use mountx.Common.Result.{ok, ◌>>=◌}
use mountx.Xdr.{Bytes, Read, new_reader, to_be, u32, string}
use mountx.Xdr.Reads.{
  after, Reads, Stands-first, Stands-after, after-append, u32-Reads, var_opaque-Reads,
}
use mountx.Xdr.Writer.{XdrWriter, new_writer, written, write_u32}
use mountx.Xdr.Writer.Refinement.{
  Appends, Appends-then, write_u32-Appends, new_writer-IsWriter, written-new_writer,
}
use mountx.Xdr.Writer.Spans.{var_opaque_bytes}

pub Reads-done : {A : Type 0} (a : A) → Reads (λ x. ok (a, x)) [] a
Reads-done a x post s = ap (λ n. ok (a, record x { offset = n })) (omega arith)

pub Reads-then :
    {A B : Type 0} (read : Read A) (next : A → Read B) (xs ys : Bytes) (a : A) (b : B)
    → Reads read xs a
    → Reads (next a) ys b
    → Reads (λ x. read x >>= λ p. next p.0 p.1) (xs ++ ys) b
Reads-then read next xs ys a b first later x post s =
    rw
      (
        first x (ys ++ post) (Stands-first x xs ys post s),
        later (after (length xs) x) post (Stands-after x xs ys post s),
      )
      (ap (λ r. ok (b, r)) (after-append x xs ys))

pub Appends-done : Appends (λ w. w) []
Appends-done w v = (v, sym (append-nil (written w)))

-- A field of 32 bits, as `write_u32` leaves it.
abbrev pub word_bytes : ℕ → Bytes
word_bytes value = to_be 4 (value % 2 ^ 32)

pub word-then :
    (value : ℕ) (later : XdrWriter → XdrWriter) (ys : Bytes)
    → Appends later ys
    → Appends (λ w. later (write_u32 value w)) (word_bytes value ++ ys)
word-then value later ys appends =
    Appends-then (write_u32 value) later (word_bytes value) ys (write_u32-Appends value) appends

pub word-Reads : (value : ℕ) → value < 2 ^ 32 → Reads u32 (word_bytes value) value
word-Reads value h =
    let whole : value % 2 ^ 32 ≡ value = omega (arith, h) in
    subst (λ n. Reads u32 (word_bytes value) n) whole (u32-Reads (value % 2 ^ 32) (omega arith))

pub string-Reads :
    {Text : Type 0} (encode : Text → Bytes) (decode : Bytes → Text) (most : ℕ) (text : Text)
    → decode (encode text) ≡ text
    → length (encode text) ≤ most
    → most < 2 ^ 32
    → Reads (string decode most) (var_opaque_bytes (encode text)) text
unfolding string
string-Reads encode decode most text same h k x post s =
    rw (var_opaque-Reads most (encode text) h (omega (arith, h, k)) x post s, same) refl

-- What a new writer holds after a write.
pub written-Appends :
    (write : XdrWriter → XdrWriter) (bs : Bytes) (capacity : ℕ)
    → Appends write bs
    → written (write (new_writer capacity)) ≡ bs
written-Appends write bs capacity appends =
    (appends (new_writer capacity) (new_writer-IsWriter capacity)).1
    ∙ ap (λ start. start ++ bs) (written-new_writer capacity)

-- A read of the front of a message leaves the reader where the rest of it starts.
pub front-Reads :
    {A : Type 0} (read : Read A) (bs post : Bytes) (a : A)
    → Reads read bs a
    → (read (new_reader (bs ++ post) 0) ≡ ok (a, new_reader (bs ++ post) (length bs)))
      × (drop (length bs) (bs ++ post) ≡ post)
unfolding new_reader
front-Reads read bs post a reads = (
  reads (new_reader (bs ++ post) 0) post (record { inside = omega arith; ahead = refl })
      ∙ ap (λ n. ok (a, record { bytes = bs ++ post; offset = n })) (omega arith),
  drop-append bs post,
)

pub whole-Reads :
    {A : Type 0} (read : Read A) (bs : Bytes) (a : A)
    → Reads read bs a
    → read (new_reader bs 0) ≡ ok (a, new_reader bs (length bs))
whole-Reads read bs a reads =
    subst (λ all. read (new_reader all 0) ≡ ok (a, new_reader all (length bs))) (append-nil bs)
      (front-Reads read bs [] a reads).0
