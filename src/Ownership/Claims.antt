-- ===== src/Ownership/Claims.antt =====
-- What giving an entry away does to its mode.
use mountx.Common.{
  ℕ, ◌%◌, ◌<◌, ◌≡◌, refl, sym, ap, subst, ◌∙◌, Bool, true, false, not, ◌&&◌, ◌||◌, Option, none,
  some, ◌==◌, nat_eq, if◌then◌else◌, Text, text_eq, arith, Bool-cases, inl, inr, ==_iff,
}
use mountx.Common.Result.{Result, ok, err}
use mountx.Ownership.{
  s_isgid, has_bit, set_bit, clear_bit, NewEntryOwnership, OwnershipDriver, hushed, set_mode,
  quietly, setgid, give, claim_new_entry, same_id,
}

abbrev pub marked : Bool → ℕ → ℕ
marked on mode = if on then set_bit s_isgid mode else clear_bit s_isgid mode

-- The mark is what was asked for, and every other bit is as before.
has_bit-marked : (on : Bool) (mode : ℕ) → has_bit s_isgid (marked on mode) ≡ on
has_bit-marked true mode = ground arith
has_bit-marked false mode = ground arith

clear_bit-marked :
    (on : Bool) (mode : ℕ) → clear_bit s_isgid (marked on mode) ≡ clear_bit s_isgid mode
clear_bit-marked true mode = ground arith
clear_bit-marked false mode = ground arith

marked-small : (on : Bool) (mode : ℕ) → mode < 4096 → marked on mode % 4096 ≡ marked on mode
marked-small true mode h = ground (arith, h)
marked-small false mode h = ground (arith, h)

-- A driver that does not refuse the mode of the entry: `lstat` changes nothing and shows its twelve
-- bits, and `chmod` sets them all as they are given. That is chmod(2) for a process that is
-- privileged or in the entry's group; for others it may drop the set-group-ID bit. `lchown` succeeds
-- or is refused with a code of a driver without ownership, and may do to the mode what it likes.
pub record IsObliging {S : Type 0} (driver : OwnershipDriver S) (path : Text) (mode_of : S → ℕ)
    : Type 0 where
  pub stats : S → ℕ
  pub lstat : (s : S) → driver.lstat path s ≡ (ok (stats s), s)
  pub shown : (s : S) → stats s % 4096 ≡ mode_of s
  pub chmod_done : (mode : ℕ) (s : S) → (driver.chmod path mode s).0 ≡ ok tt
  pub chmod_sets : (mode : ℕ) (s : S) → mode_of (driver.chmod path mode s).1 ≡ mode % 4096
  pub lchown_quiet : (uid gid : Option ℕ) (s : S) → hushed (driver.lchown path uid gid s).0 ≡ ok tt

module _ {S : Type 0} (driver : OwnershipDriver S) (path : Text) (mode_of : S → ℕ)
    (obliging : IsObliging driver path mode_of) where
  set_mode-marked :
      (on : Bool) (mode : ℕ) (s : S)
      → mode % 4096 ≡ mode_of s
      → (hushed (set_mode driver path on mode s).0 ≡ ok tt)
        × (mode_of (set_mode driver path on mode s).1 ≡ marked on (mode_of s))
  set_mode-marked on mode s shown =
      let now = mode % 4096 in
      let small : now < 4096 = omega arith in
      elim (Bool-cases (marked on now == now)) [
        | inl e ↦
            let same : marked on now ≡ now = ground (arith, ==_iff (marked on now) now) in
            rw e (refl, sym shown ∙ sym same ∙ ap (marked on) shown)
        | inr e ↦ rw e (
          ap hushed (obliging.chmod_done (marked on now) s),
          obliging.chmod_sets (marked on now) s ∙ marked-small on now small ∙ ap (marked on) shown,
        )
      ]

  setgid-set_mode :
      (on : Bool) (s : S) → setgid driver path on s ≡ set_mode driver path on (obliging.stats s) s
  unfolding setgid
  setgid-set_mode on s =
      ap
        (λ p. elim p.0 as (λ _. Result (Option Text) (Unit {0}) × S) [
          | err code ↦ (err code, p.1)
          | ok mode ↦ set_mode driver path on mode p.1
        ])
        (obliging.lstat s)

  setgid-marked :
      (on : Bool) (s : S)
      → ((quietly (setgid driver path on) s).0 ≡ ok tt)
        × (mode_of (quietly (setgid driver path on) s).1 ≡ marked on (mode_of s))
  unfolding quietly
  setgid-marked on s =
      subst (λ p. (hushed p.0 ≡ ok tt) × (mode_of p.1 ≡ marked on (mode_of s)))
        (sym (setgid-set_mode on s)) (set_mode-marked on (obliging.stats s) s (obliging.shown s))

  module _ (process_uid process_gid : Option ℕ) where
    give-done :
        (owner : NewEntryOwnership) (s : S)
        → (give driver path process_uid process_gid owner s).0 ≡ ok tt
    unfolding quietly
    give-done owner s =
        let mine = same_id owner.uid process_uid && same_id owner.gid process_gid in
        elim (Bool-cases
          (not mine && (not (same_id owner.uid none) || not (same_id owner.gid none)))) [
            | inl e ↦ rw e (obliging.lchown_quiet owner.uid owner.gid s)
            | inr e ↦ rw e refl
          ]

    -- Where the set-group-ID bit of a new entry is decided, claimNewEntry succeeds and leaves the bit
    -- as decided, also where the change of owner has cleared it, and leaves every other permission bit
    -- as it was behind the change of owner, if the driver lets the entry's mode be read, its chmod
    -- sets the bits that it is given, and its lchown succeeds or is refused with ENOSYS, EPERM or
    -- ENOTSUP.
    pub has_bit-claim_new_entry :
        (on : Bool) (uid gid : Option ℕ) (s : S)
        → (has_bit s_isgid (
              mode_of
                (claim_new_entry driver path process_uid process_gid
                  (record { uid = uid; gid = gid; setgid = some on })
                  s).1)
            ≡ on)
          × (clear_bit s_isgid (
                mode_of
                  (claim_new_entry driver path process_uid process_gid
                    (record { uid = uid; gid = gid; setgid = some on })
                    s).1)
              ≡ clear_bit s_isgid (
                  mode_of
                    (give driver path process_uid process_gid
                      (record { uid = uid; gid = gid; setgid = some on })
                      s).1))
          × ((claim_new_entry driver path process_uid process_gid
                (record { uid = uid; gid = gid; setgid = some on })
                s).0
              ≡ ok tt)
    unfolding claim_new_entry
    has_bit-claim_new_entry on uid gid s =
        let owner : NewEntryOwnership = record { uid = uid; gid = gid; setgid = some on } in
        let given = give driver path process_uid process_gid owner s in
        let done = give-done owner s in
        let (good, made) = setgid-marked on given.1 in
        let last : claim_new_entry driver path process_uid process_gid owner s
            ≡ quietly (setgid driver path on) given.1 =
          ap
            (λ r. elim r as (λ _. Result (Option Text) (Unit {0}) × S) [
              | err code ↦ (err code, given.1)
              | ok done ↦ quietly (setgid driver path on) given.1
            ])
            done in
        let mode = ap (λ p. mode_of p.1) last ∙ made in
        (
          ap (has_bit s_isgid) mode ∙ has_bit-marked on (mode_of given.1),
          ap (clear_bit s_isgid) mode ∙ clear_bit-marked on (mode_of given.1),
          ap (λ p. p.0) last ∙ good,
        )
