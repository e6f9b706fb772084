-- ===== src/Xdr/Writer/Refinement.antt =====
-- A writer appends: what its growing buffer holds is the bytes of its writes, in order.
use mountx.Common.{
  ℕ, zero, suc, ◌+◌, ◌-◌, ◌*◌, ◌%◌, ◌^◌, ◌≤◌, max, ◌≡◌, refl, ap, ◌∙◌, Bool, true, false, [], ◌∷◌,
  ◌++◌, ltb, if◌then◌else◌, length, take, drop, replicate, arith, Bool-cases, inl, inr,
  length-append, length-take, length-drop, length-replicate, take-append, take-append_le,
  append_assoc,
}
use mountx.Xdr.{Bytes, xdr_pad, to_be}
use mountx.Xdr.Writer.{
  XdrWriter, new_writer, written, reallocate, doubled, grow, room, set_at, put, write_u32,
  write_u64, write_bool,
}

abbrev pub zeros : ℕ → Bytes
zeros n = replicate n 0

doubled-enough :
    (fuel needed capacity : ℕ)
    → 1 ≤ capacity
    → needed ≤ capacity + fuel
    → needed ≤ doubled fuel needed capacity
unfolding doubled
doubled-enough zero needed capacity h k = omega (arith, k)
doubled-enough (suc fuel) needed capacity h k = elim (Bool-cases (ltb capacity needed)) [
  | inl e ↦
      rw e (doubled-enough fuel needed (capacity * 2) (omega (arith, h)) (omega (arith, h, k)))
  | inr e ↦ rw e (ground arith)
]

pub record IsWriter (w : XdrWriter) : Type 0 where
  pub fits : w.length ≤ length w.buffer
  pub some_room : 1 ≤ length w.buffer

take-take : (n : ℕ) (xs : Bytes) → take n (take n xs) ≡ take n xs
take-take zero xs = refl
take-take (suc n) [] = refl
take-take (suc n) (x ∷ xs) = ap (◌∷◌ x) (take-take n xs)

length-reallocate :
    (capacity : ℕ) (w : XdrWriter)
    → IsWriter w
    → w.length ≤ capacity
    → length ((reallocate capacity w).buffer) ≡ capacity
unfolding reallocate
length-reallocate capacity w v h =
    let kept = take w.length w.buffer in
    omega (
      arith,
      length-append kept (zeros (capacity - w.length)),
      length-take w.length w.buffer,
      length-replicate (capacity - w.length) zero,
      v.fits,
      h,
    )

take-reallocate :
    (capacity : ℕ) (w : XdrWriter)
    → IsWriter w
    → take w.length ((reallocate capacity w).buffer) ≡ take w.length w.buffer
unfolding reallocate
take-reallocate capacity w v =
    take-append_le w.length (take w.length w.buffer) (zeros (capacity - w.length))
      (omega (arith, length-take w.length w.buffer, v.fits))
    ∙ take-take w.length w.buffer

pub record HasRoom (count : ℕ) (w : XdrWriter) : Type 0 where
  pub ends : (room count w).length ≡ w.length + count
  pub space : w.length + count ≤ length ((room count w).buffer)
  pub larger : length w.buffer ≤ length ((room count w).buffer)
  pub keeps : take w.length ((room count w).buffer) ≡ take w.length w.buffer

pub room-HasRoom : (count : ℕ) (w : XdrWriter) → IsWriter w → HasRoom count w
unfolding room grow
room-HasRoom count w v = elim (Bool-cases (ltb (length w.buffer) (w.length + count))) [
  | inl e ↦
      let needed = w.length + count in
      let capacity = doubled needed needed (length w.buffer * 2) in
      let enough : needed ≤ capacity =
        doubled-enough needed needed (length w.buffer * 2) (omega (arith, v.some_room))
          (omega arith) in
      record {
        ends = refl;
        space =
            rw (e, room)
              (omega (arith, length-reallocate capacity w v (omega (arith, enough)), enough));
        larger =
            rw (e, room)
              (ground (arith, length-reallocate capacity w v (omega (arith, enough)), enough));
        keeps = rw (e, room) (take-reallocate capacity w v);
      }
  | inr e ↦ record {
    ends = refl;
    space = rw (e, room) (ground arith);
    larger = rw (e, room) (omega arith);
    keeps = rw (e, room) refl;
  }
]

pub take-front : (n : ℕ) (xs ys : Bytes) → n ≡ length xs → take n (xs ++ ys) ≡ xs
take-front n xs ys h = rw h (take-append xs ys)

pub take-set_at :
    (start : ℕ) (bytes buffer : Bytes)
    → start ≤ length buffer
    → take (start + length bytes) (set_at start bytes buffer) ≡ take start buffer ++ bytes
unfolding set_at
take-set_at start bytes buffer h =
    take-front (start + length bytes) (take start buffer ++ bytes)
      (drop (start + length bytes) buffer)
      (omega (arith, length-append (take start buffer) bytes, length-take start buffer, h))

pub length-set_at :
    (start : ℕ) (bytes buffer : Bytes)
    → start + length bytes ≤ length buffer
    → length (set_at start bytes buffer) ≡ length buffer
unfolding set_at
length-set_at start bytes buffer h = omega (
  arith,
  length-append (take start buffer ++ bytes) (drop (start + length bytes) buffer),
  length-append (take start buffer) bytes,
  length-take start buffer,
  length-drop (start + length bytes) buffer,
  h,
)

-- The call appends these bytes and keeps the writer sound.
abbrev pub Appends : (XdrWriter → XdrWriter) → Bytes → Type 0
Appends write bytes =
    (w : XdrWriter) → IsWriter w → IsWriter (write w) × (written (write w) ≡ written w ++ bytes)

pub put-Appends : (bytes : Bytes) → Appends (put bytes) bytes
unfolding written
put-Appends bytes w v =
    let h = room-HasRoom (length bytes) w v in
    let roomy = (room (length bytes) w).buffer in
    let same : length ((put bytes w).buffer) ≡ length roomy =
      length-set_at w.length bytes roomy h.space in
    (
      record {
        fits = omega (arith, h.ends, h.space, same);
        some_room = omega (arith, h.larger, same, v.some_room);
      },
      rw h.ends (
          take-set_at w.length bytes roomy (omega (arith, h.space)) ∙ ap (λ x. x ++ bytes) h.keeps),
    )

-- What is appended by one call and then by another.
pub Appends-then :
    (f g : XdrWriter → XdrWriter) (xs ys : Bytes)
    → Appends f xs
    → Appends g ys
    → Appends (λ w. g (f w)) (xs ++ ys)
Appends-then f g xs ys hf hg w v =
    let (fv, fe) = hf w v in
    let (gv, ge) = hg (f w) fv in (gv, ge ∙ ap (λ x. x ++ ys) fe ∙ append_assoc (written w) xs ys)

pub write_u32-Appends : (value : ℕ) → Appends (write_u32 value) (to_be 4 (value % 2 ^ 32))
unfolding write_u32
write_u32-Appends value = put-Appends (to_be 4 (value % 2 ^ 32))

pub write_u64-Appends : (value : ℕ) → Appends (write_u64 value) (to_be 8 (value % 2 ^ 64))
unfolding write_u64
write_u64-Appends value = put-Appends (to_be 8 (value % 2 ^ 64))

abbrev pub bool_bytes : Bool → Bytes
bool_bytes value = to_be 4 (if value then 1 else 0)

pub write_bool-Appends : (value : Bool) → Appends (write_bool value) (bool_bytes value)
unfolding write_bool
write_bool-Appends true = write_u32-Appends 1
write_bool-Appends false = write_u32-Appends 0

-- `opaque[n]` on the wire, of as many bytes as the value has.
abbrev pub padded : Bytes → Bytes
padded value = value ++ zeros (xdr_pad (length value))

pub new_writer-IsWriter : (capacity : ℕ) → IsWriter (new_writer capacity)
unfolding new_writer
new_writer-IsWriter capacity = record {
  fits = omega arith;
  some_room = omega (arith, length-replicate (max 16 capacity) zero);
}

pub written-new_writer : (capacity : ℕ) → written (new_writer capacity) ≡ []
unfolding written new_writer
written-new_writer capacity = refl
