-- ===== src/Ownership.antt =====
-- src/ownership.ts: who a new entry belongs to. An id that is -1 is `none`; of a driver's `StatsLike`
-- only the mode and the group are read. A driver is a parameter: each call has the state before it and
-- after it, and throws an error of which only the `code` is read.
pub mod Claims
pub mod Tests
use mountx.Common.{
  ℕ, zero, suc, ◌+◌, ◌-◌, ◌*◌, ◌/◌, ◌%◌, Bool, true, false, not, ◌&&◌, ◌||◌, Option, none, some,
  List, [], ◌∷◌, ◌==◌, nat_eq, if◌then◌else◌, any, Text, literal, text_eq,
}
use mountx.Common.Result.{Result, ok, err}

-- 0o2000 and 0o0010
abbrev pub s_isgid : ℕ
s_isgid = 1024

abbrev pub s_ixgrp : ℕ
s_ixgrp = 8

-- `mode & bit`, `mode | bit` and `mode & ~bit` for one bit.
abbrev pub has_bit : ℕ → ℕ → Bool
has_bit bit mode = (mode / bit) % 2 == 1

abbrev pub set_bit : ℕ → ℕ → ℕ
set_bit bit mode = if has_bit bit mode then mode else mode + bit

abbrev pub clear_bit : ℕ → ℕ → ℕ
clear_bit bit mode = if has_bit bit mode then mode - bit else mode

pub record CallerCredentials : Type 0 where
  pub uid : Option ℕ
  pub gid : Option ℕ
  pub gids : Option (List ℕ)

pub record StatsLike : Type 0 where
  pub mode : ℕ
  pub gid : ℕ

pub record NewEntry : Type 0 where
  pub parent : Option StatsLike
  pub directory : Bool
  pub mode : ℕ

pub record NewEntryOwnership : Type 0 where
  pub uid : Option ℕ
  pub gid : Option ℕ
  pub setgid : Option Bool

abbrev pub is_id : Option ℕ → ℕ → Bool
is_id none n = false
is_id (some id) n = id == n

abbrev pub is_member : CallerCredentials → ℕ → Bool
is_member caller gid =
    is_id caller.gid gid || elim caller.gids [ none ↦ false | some gids ↦ any (λ g. g == gid) gids ]

-- What a parent with the set-group-ID bit decides.
abbrev pub inherited : CallerCredentials → NewEntry → StatsLike → NewEntryOwnership
inherited caller entry parent =
    if entry.directory
    then record { uid = caller.uid; gid = some parent.gid; setgid = some true }
    else if has_bit s_isgid entry.mode
        && has_bit s_ixgrp entry.mode
        && not (is_member caller parent.gid)
        && not (is_id caller.uid 0)
    then record { uid = caller.uid; gid = some parent.gid; setgid = some false }
    else record { uid = caller.uid; gid = some parent.gid; setgid = none }

pub new_entry_ownership : CallerCredentials → NewEntry → NewEntryOwnership
new_entry_ownership caller entry = elim entry.parent [
  | none ↦ record { uid = caller.uid; gid = caller.gid; setgid = none }
  | some parent ↦
      if has_bit s_isgid parent.mode
      then inherited caller entry parent
      else record { uid = caller.uid; gid = caller.gid; setgid = none }
]

-- The code of an error, where it has one.
abbrev pub Call : Type 0 → Type 0 → Type 0
Call S A = S → Result (Option Text) A × S

pub record OwnershipDriver (S : Type 0) : Type 0 where
  pub lchown : Text → Option ℕ → Option ℕ → Call S (Unit {0})
  pub chmod : Text → ℕ → Call S (Unit {0})
  pub lstat : Text → Call S ℕ

abbrev pub is_quiet : Option Text → Bool
is_quiet none = false
is_quiet (some code) =
    code == literal "ENOSYS" || code == literal "EPERM" || code == literal "ENOTSUP"

abbrev pub hushed : Result (Option Text) (Unit {0}) → Result (Option Text) (Unit {0})
hushed (ok done) = ok done
hushed (err code) = if is_quiet code then ok tt else err code

abbrev pub same_id : Option ℕ → Option ℕ → Bool
same_id none none = true
same_id none (some n) = false
same_id (some m) none = false
same_id (some m) (some n) = m == n

module _ {S : Type 0} where
  pub quietly : Call S (Unit {0}) → Call S (Unit {0})
  quietly call s = let (result, s) = call s in (hushed result, s)

  module _ (driver : OwnershipDriver S) (path : Text) where
    abbrev pub set_mode : Bool → ℕ → Call S (Unit {0})
    set_mode on mode s =
        let current = mode % 4096 in
        let wanted = if on then set_bit s_isgid current else clear_bit s_isgid current in
        if wanted == current then (ok tt, s) else driver.chmod path wanted s

    pub setgid : Bool → Call S (Unit {0})
    setgid on s =
        let (result, s) = driver.lstat path s in
        elim result [ err code ↦ (err code, s) | ok mode ↦ set_mode on mode s ]

    module _ (process_uid process_gid : Option ℕ) where
      abbrev pub give : NewEntryOwnership → Call S (Unit {0})
      give owner s =
          let mine = same_id owner.uid process_uid && same_id owner.gid process_gid in
          if not mine && (not (same_id owner.uid none) || not (same_id owner.gid none))
          then quietly (driver.lchown path owner.uid owner.gid) s
          else (ok tt, s)

      pub claim_new_entry : NewEntryOwnership → Call S (Unit {0})
      claim_new_entry owner s =
          let (result, s) = give owner s in
          elim result [
            | err code ↦ (err code, s)
            | ok done ↦ elim owner.setgid [ none ↦ (ok tt, s) | some on ↦ quietly (setgid on) s ]
          ]
