-- ===== src/Errors/Tests.antt =====
-- Runs of the error functions, and the theorems on them at concrete errors.
use mountx.Common.{arith, text_eq, none, some, literal, ◌≡◌, refl}
use mountx.Common.Int.{pos, negsuc}
use mountx.Errors.{
  enoent, errno, FsErrorOptions, fs_error, object, thrown, number, inherited, whole, not_a_number,
  errno_of,
}
use mountx.Errors.Laws.{errno_of-fs_error, IsErrno, errno_of-IsErrno}

abbrev missing : FsErrorOptions
missing = record {
  message = none;
  syscall = some (literal "stat");
  path = some (literal "/missing");
  dest = none;
}

message_of_missing :
    ((fs_error enoent missing).message
      ≡ literal "ENOENT: no such file or directory, stat '/missing'")
    × ((fs_error enoent missing).errno ≡ whole (negsuc 1))
unfolding fs_error
message_of_missing = (refl, refl)

-- An unknown code falls back to the number, and a number 0 to EIO.
foreign_errors :
    (errno_of (object (some (literal "EFOO")) (some (whole (negsuc 16)))) ≡ number (whole (pos 17)))
    × (errno_of (object none (some (whole (pos 0)))) ≡ number (whole (pos 5)))
unfolding errno_of
foreign_errors = (refl, refl)

-- What passes for a known code, and what is not equal to 0.
odd_errors :
    (errno_of (object (some (literal "constructor")) none) ≡ inherited (literal "constructor"))
    × (errno_of (object none (some not_a_number)) ≡ number not_a_number)
unfolding errno_of
odd_errors = (refl, refl)

errno_of-fs_error_example :
    errno_of (thrown (fs_error enoent missing)) ≡ number (whole (pos (errno enoent)))
errno_of-fs_error_example = errno_of-fs_error enoent missing

errno_of-IsErrno_example :
    IsErrno (errno_of (object (some (literal "EFOO")) (some (whole (negsuc 16)))))
errno_of-IsErrno_example =
    errno_of-IsErrno (object (some (literal "EFOO")) (some (whole (negsuc 16)))) (refl, omega arith)
