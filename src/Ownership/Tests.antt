-- ===== src/Ownership/Tests.antt =====
-- New entries at concrete values.
use mountx.Common.{ℕ, Text, ◌≡◌, ◌%◌, refl, true, false, some, Option, [], ◌∷◌, nat_eq, literal}
use mountx.Common.Result.{Result, ok}
use mountx.Ownership.{
  s_isgid, has_bit, clear_bit, CallerCredentials, StatsLike, new_entry_ownership, OwnershipDriver,
  claim_new_entry, quietly, setgid,
}
use mountx.Ownership.Claims.{IsObliging, has_bit-claim_new_entry}

program : Unit {0}
unfolding new_entry_ownership claim_new_entry quietly setgid
program = tt

abbrev caller : CallerCredentials
caller = record { uid = some 1000; gid = some 100; gids = some (4 ∷ 24 ∷ []) }

abbrev shared : StatsLike
shared = record { mode = 1533; gid = 50 }

a_directory_inherits :
    new_entry_ownership caller (record { parent = some shared; directory = true; mode = 493 })
    ≡ record { uid = some 1000; gid = some 50; setgid = some true }
unfolding program
a_directory_inherits = refl

no_executable_of_a_foreign_group :
    new_entry_ownership caller (record { parent = some shared; directory = false; mode = 1517 })
    ≡ record { uid = some 1000; gid = some 50; setgid = some false }
unfolding program
no_executable_of_a_foreign_group = refl

-- An entry is its mode. A change of owner clears the set-user-ID and the set-group-ID bit.
abbrev disowned : ℕ → ℕ
disowned mode = clear_bit 2048 (clear_bit s_isgid mode)

abbrev driver : OwnershipDriver ℕ
driver = record {
  lchown = λ path uid gid mode. (ok tt, disowned mode);
  chmod = λ path mode old. (ok tt, mode);
  lstat = λ path mode. (ok mode, mode);
}

abbrev mode_of : ℕ → ℕ
mode_of mode = mode % 4096

obliging : IsObliging driver (literal "/d/x") mode_of
obliging = record {
  stats = λ mode. mode;
  lstat = λ mode. refl;
  shown = λ mode. refl;
  chmod_done = λ mode old. refl;
  chmod_sets = λ mode old. refl;
  lchown_quiet = λ uid gid mode. refl;
}

-- Mode 0o4755 comes out as 0o2755.
abbrev claimed : Result (Option Text) (Unit {0}) × ℕ
claimed =
    claim_new_entry driver (literal "/d/x") (some 0) (some 0)
      (record { uid = some 1000; gid = some 50; setgid = some true }) 2541

a_claimed_mode : mode_of claimed.1 ≡ 1517
unfolding program
a_claimed_mode = refl

has_bit-claim_new_entry_example :
    (has_bit s_isgid (mode_of claimed.1) ≡ true)
    × (clear_bit s_isgid (mode_of claimed.1) ≡ 493)
    × (claimed.0 ≡ ok tt)
unfolding program
has_bit-claim_new_entry_example =
    has_bit-claim_new_entry driver (literal "/d/x") mode_of obliging (some 0) (some 0) true
      (some 1000) (some 50) 2541
