-- ===== src/Xdr/Reads.antt =====
-- A reader that stands before the bytes of a value reads that value and stands behind them.
use mountx.Common.{
  ℕ, zero, ◌+◌, ◌-◌, ◌%◌, ◌^◌, ◌<◌, ◌≤◌, ◌≡◌, refl, sym, ap, ◌∙◌, Bool, true, false, [], ◌++◌,
  nat_eq, ltb, length, take, drop, arith, length-append, length-drop, length-replicate, take-append,
  drop-append, drop-drop, append_assoc, append-nil,
}
use mountx.Common.Result.{ok}
use mountx.Xdr.{
  Bytes, XdrReader, Read, need, copy_bytes, xdr_align, xdr_pad, to_be, u32, bool, fixed_opaque,
  var_opaque,
}
use mountx.Xdr.Numbers.{length-to_be, from_be-to_be}
use mountx.Xdr.Writer.Refinement.{bool_bytes, padded, zeros}
use mountx.Xdr.Writer.Spans.{var_opaque_bytes}

abbrev pub after : ℕ → XdrReader → XdrReader
after count x = record x { offset = x.offset + count }

pub record Stands (x : XdrReader) (bs post : Bytes) : Type 0 where
  pub inside : x.offset ≤ length x.bytes
  pub ahead : drop x.offset x.bytes ≡ bs ++ post

abbrev pub Reads : {A : Type 0} → Read A → Bytes → A → Type 0
Reads read bs a =
    (x : XdrReader) (post : Bytes) → Stands x bs post → read x ≡ ok (a, after (length bs) x)

pub room_left :
    (x : XdrReader) (bs post : Bytes)
    → Stands x bs post
    → x.offset + (length bs + length post) ≡ length x.bytes
room_left x bs post s =
    let total : length x.bytes - x.offset ≡ length bs + length post =
      sym (length-drop x.offset x.bytes) ∙ ap length s.ahead ∙ length-append bs post in
    omega (arith, total, s.inside)

pub Stands-first :
    (x : XdrReader) (xs ys post : Bytes) → Stands x (xs ++ ys) post → Stands x xs (ys ++ post)
Stands-first x xs ys post s = record {
  inside = s.inside;
  ahead = s.ahead ∙ append_assoc xs ys post;
}

pub Stands-after :
    (x : XdrReader) (xs ys post : Bytes)
    → Stands x (xs ++ ys) post
    → Stands (after (length xs) x) ys post
Stands-after x xs ys post s =
    let first = Stands-first x xs ys post s in
    record {
      inside = omega (arith, room_left x xs (ys ++ post) first);
      ahead =
          drop-drop x.offset (length xs) x.bytes
          ∙ ap (drop (length xs)) first.ahead
          ∙ drop-append xs (ys ++ post);
    }

pub need-Stands :
    (count : ℕ) (x : XdrReader) (bs post : Bytes)
    → Stands x bs post
    → count ≡ length bs
    → need count x ≡ ok (x.offset, after (length bs) x)
unfolding need
need-Stands count x bs post s e =
    let left = room_left x bs post s in
    let fits : ltb (length x.bytes) (x.offset + length bs) ≡ false = ground (arith, left) in
    rw (e, fits) refl

pub copy_bytes-Stands :
    (x : XdrReader) (bs cs post : Bytes)
    → Stands x (bs ++ cs) post
    → copy_bytes x.bytes x.offset (length bs) ≡ bs
unfolding copy_bytes
copy_bytes-Stands x bs cs post s =
    ap (take (length bs)) (s.ahead ∙ append_assoc bs cs post) ∙ take-append bs (cs ++ post)

pub Stands-nil : (x : XdrReader) (bs post : Bytes) → Stands x bs post → Stands x (bs ++ []) post
Stands-nil x bs post s = record {
  inside = s.inside;
  ahead = s.ahead ∙ ap (λ z. z ++ post) (sym (append-nil bs));
}

pub u32-Reads : (v : ℕ) → v < 2 ^ 32 → Reads u32 (to_be 4 v) v
unfolding u32
u32-Reads v h x post s =
    let four = length-to_be 4 v in
    let copied : copy_bytes x.bytes x.offset 4 ≡ to_be 4 v =
      ap (copy_bytes x.bytes x.offset) (sym four)
      ∙ copy_bytes-Stands x (to_be 4 v) [] post (Stands-nil x (to_be 4 v) post s) in
    rw (need-Stands 4 x (to_be 4 v) post s (sym four), copied, from_be-to_be 4 v h) refl

pub bool-Reads : (b : Bool) → Reads bool (bool_bytes b) b
unfolding bool
bool-Reads true x post s = rw (u32-Reads 1 (omega arith) x post s) refl
bool-Reads false x post s = rw (u32-Reads 0 (omega arith) x post s) refl

length-padded : (v : Bytes) → length (padded v) ≡ xdr_align (length v)
unfolding xdr_align
length-padded v = omega (
  arith,
  length-append v (zeros (xdr_pad (length v))),
  length-replicate (xdr_pad (length v)) zero,
)

pub fixed_opaque-Reads : (v : Bytes) → Reads (fixed_opaque (length v)) (padded v) v
unfolding fixed_opaque
fixed_opaque-Reads v x post s =
    rw
      (
        need-Stands (xdr_align (length v)) x (padded v) post s (sym (length-padded v)),
        copy_bytes-Stands x v (zeros (xdr_pad (length v))) post s,
      )
      refl

-- One read after another.
pub after-append :
    (x : XdrReader) (xs ys : Bytes)
    → after (length ys) (after (length xs) x) ≡ after (length (xs ++ ys)) x
after-append x xs ys = ap (λ n. record x { offset = n }) (omega (arith, length-append xs ys))

pub var_opaque-Reads :
    (most : ℕ) (v : Bytes)
    → length v ≤ most
    → length v < 2 ^ 32
    → Reads (var_opaque most) (var_opaque_bytes v) v
unfolding var_opaque
var_opaque-Reads most v h k x post s =
    let head = to_be 4 (length v % 2 ^ 32) in
    let whole : length v % 2 ^ 32 ≡ length v = omega (arith, k) in
    let short : ltb most (length v % 2 ^ 32) ≡ false = ground (arith, h, whole) in
    let behind = after (length head) x in
    rw
      (
        u32-Reads (length v % 2 ^ 32) (omega arith) x (padded v ++ post)
            (Stands-first x head (padded v) post s),
        short,
      )
      (ap (λ n. fixed_opaque n behind) whole
        ∙ fixed_opaque-Reads v behind post (Stands-after x head (padded v) post s)
        ∙ ap (λ r. ok (v, r)) (after-append x head (padded v)))
