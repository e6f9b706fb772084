-- ===== src/P9Locks/Table/Queries.antt =====
-- `Tgetlock` against `Tlock`, and the releases that come with the end of a fid or a connection.
use mountx.Common.{
  ℕ, ◌≡◌, ◌≢◌, ◌↔◌, refl, sym, ap, ◌∙◌, Bool, true, false, not, ◌&&◌, none, some, List, [], ◌∷◌,
  Text, ◌==◌, nat_eq, text_eq, filter, any, find, length, arith, Bool-cases, Option-cases, inl, inr,
  ◌⊎◌,
}
use mountx.Common.Result.{ok, err, Result-cases}
use mountx.Errors.{ErrnoCode}
use mountx.P9Locks.{
  unlck, lock_blocked, Lock, LockedFile, LockRequest, LockHolder, LockTable, owner_key_of, range_of,
  overlaps, conflicts, holder_of,
}
use mountx.P9Locks.Table.{
  at, require_held_type, getlock, take, lock, drop_from, release_all, count_in, held,
}
use mountx.P9Locks.Table.Names.{IsMap, at-drop_from, filter_whole}

any_of_find :
    (p : Lock → Bool) (locks : List Lock) (l : Lock) → find p locks ≡ some l → any p locks ≡ true
any_of_find p [] l h = cc
any_of_find p (x ∷ locks) l h = ground (arith, any_of_find p locks l)

not_any_of_find : (p : Lock → Bool) (locks : List Lock) → find p locks ≡ none → any p locks ≡ false
not_any_of_find p [] h = refl
not_any_of_find p (x ∷ locks) h = ground (arith, not_any_of_find p locks)

module _ (holder : ℕ) (r : LockRequest) (t : LockTable) where
  abbrev blocking : ℕ → ℕ → Lock → Bool
  blocking start end l = overlaps l start end && conflicts l (owner_key_of r) r.type

  not_blocked :
      (start end : ℕ)
      → range_of r.start r.length ≡ ok (start, end)
      → r.type ≢ unlck
      → find (blocking start end) (at r.path t) ≡ none
      → (lock holder r t ≢ ok (lock_blocked, t)) × ((h : LockHolder) → getlock r t ≢ ok (some h))
  unfolding lock getlock take require_held_type
  not_blocked start end e u f =
      (ground (arith, not_any_of_find (blocking start end) (at r.path t) f), λ h. ground (arith, f))

  blocked :
      (start end : ℕ) (l : Lock)
      → range_of r.start r.length ≡ ok (start, end)
      → r.type ≢ unlck
      → find (blocking start end) (at r.path t) ≡ some l
      → ((lock holder r t ≡ ok (lock_blocked, t)) × (getlock r t ≡ ok (some (holder_of l))))
        ⊎ ((x : ErrnoCode) × (lock holder r t ≡ err x) × (getlock r t ≡ err x))
  unfolding lock getlock take require_held_type
  blocked start end l e u f = ground (arith, any_of_find (blocking start end) (at r.path t) l f)

  -- For a type that can be held, `Tlock` answers BLOCKED exactly if `Tgetlock` names a holder, and
  -- then changes nothing.
  pub lock-blocked_iff :
      r.type ≢ unlck
      → (lock holder r t ≡ ok (lock_blocked, t)) ↔ ((h : LockHolder) × (getlock r t ≡ ok (some h)))
  lock-blocked_iff u = elim (Result-cases (range_of r.start r.length)) [
    | inr (x, e) ↦ unfold lock getlock in (λ h. absurd (ground arith), λ h. absurd (ground arith))
    | inl ((start, end), e) ↦ elim (Option-cases (find (blocking start end) (at r.path t))) [
      | inl f ↦
          let (no_block, no_holder) = not_blocked start end e u f in
          (λ h. absurd (no_block h), λ h. absurd (no_holder h.0 h.1))
      | inr (l, f) ↦ elim (blocked start end l e u f) [
        | inl (b, g) ↦ (λ h. (holder_of l, g), λ h. b)
        | inr (x, b, g) ↦ (λ h. cc, λ h. cc)
      ]
    ]
  ]

filter-none :
    (p : Lock → Bool) (locks : List Lock) → length (filter p (filter (λ l. not (p l)) locks)) ≡ 0
filter-none p [] = refl
filter-none p (l ∷ locks) = ground (arith, filter-none p locks)

count_in-drop_from :
    (holder : ℕ) (files : List (Text × LockedFile))
    → count_in holder (drop_from (λ l. l.holder == holder) files) ≡ 0
unfolding count_in drop_from
count_in-drop_from holder [] = refl
count_in-drop_from holder ((p, file) ∷ files) =
    let m = λ (l : Lock). l.holder == holder in
    let kept = filter (λ l. not (m l)) file.locks in
    let gone = filter-none m file.locks in
    let ih = count_in-drop_from holder files in
    elim (Bool-cases (length kept == length file.locks)) [
      | inl e ↦
          let same : length (filter m file.locks) ≡ 0 =
            ap (λ ls. length (filter m ls)) (sym (filter_whole (λ l. not (m l)) file.locks e))
            ∙ gone in
          rw e (omega (arith, same, ih))
      | inr e ↦ elim (Bool-cases (length kept == 0)) [
        | inl z ↦ rw (e, z) ih
        | inr z ↦ rw (e, z) (omega (arith, gone, ih))
      ]
    ]

-- The end of a connection releases all that it holds, and no range of any other connection.
pub held-release_all :
    (holder : ℕ) (t : LockTable)
    → IsMap t
    → (held holder (release_all holder t) ≡ 0)
      × ((q : Text) → at q (release_all holder t) ≡ filter (λ l. not (l.holder == holder)) (at q t))
unfolding held release_all
held-release_all holder t v =
    (count_in-drop_from holder t.files, λ q. at-drop_from (λ l. l.holder == holder) q t v)
