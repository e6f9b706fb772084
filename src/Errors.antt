-- ===== src/Errors.antt =====
-- The error literal and error values of src/errors.ts.
pub mod Laws
mod Tests
use mountx.Common.{
  ℕ, zero, suc, Bool, true, false, ◌&&◌, Option, none, some, List, [], ◌∷◌, ◌++◌, Text, literal,
  ◌==◌, text_eq, nat_eq, if◌then◌else◌, any,
}
use mountx.Common.Int.{ℤ, pos, neg, abs}
use mountx.Common.Assoc.{lookup}

-- The keys of `ERRNO_CODES`.
pub data ErrnoCode : Type 0 where
  eperm enoent eintr eio enxio ebadf eagain enomem eacces ebusy eexist exdev enodev enotdir :
      ErrnoCode
  eisdir einval enfile emfile efbig enospc espipe erofs emlink erange enametoolong enosys :
      ErrnoCode
  enotempty eloop enodata eproto eoverflow enotsup estale edquot : ErrnoCode

-- The values of `ERRNO_CODES`: Linux errno numbers.
pub errno : ErrnoCode → ℕ
errno eperm = 1
errno enoent = 2
errno eintr = 4
errno eio = 5
errno enxio = 6
errno ebadf = 9
errno eagain = 11
errno enomem = 12
errno eacces = 13
errno ebusy = 16
errno eexist = 17
errno exdev = 18
errno enodev = 19
errno enotdir = 20
errno eisdir = 21
errno einval = 22
errno enfile = 23
errno emfile = 24
errno efbig = 27
errno enospc = 28
errno espipe = 29
errno erofs = 30
errno emlink = 31
errno erange = 34
errno enametoolong = 36
errno enosys = 38
errno enotempty = 39
errno eloop = 40
errno enodata = 61
errno eproto = 71
errno eoverflow = 75
errno enotsup = 95
errno estale = 116
errno edquot = 122

pub name : ErrnoCode → Text
name eperm = literal "EPERM"
name enoent = literal "ENOENT"
name eintr = literal "EINTR"
name eio = literal "EIO"
name enxio = literal "ENXIO"
name ebadf = literal "EBADF"
name eagain = literal "EAGAIN"
name enomem = literal "ENOMEM"
name eacces = literal "EACCES"
name ebusy = literal "EBUSY"
name eexist = literal "EEXIST"
name exdev = literal "EXDEV"
name enodev = literal "ENODEV"
name enotdir = literal "ENOTDIR"
name eisdir = literal "EISDIR"
name einval = literal "EINVAL"
name enfile = literal "ENFILE"
name emfile = literal "EMFILE"
name efbig = literal "EFBIG"
name enospc = literal "ENOSPC"
name espipe = literal "ESPIPE"
name erofs = literal "EROFS"
name emlink = literal "EMLINK"
name erange = literal "ERANGE"
name enametoolong = literal "ENAMETOOLONG"
name enosys = literal "ENOSYS"
name enotempty = literal "ENOTEMPTY"
name eloop = literal "ELOOP"
name enodata = literal "ENODATA"
name eproto = literal "EPROTO"
name eoverflow = literal "EOVERFLOW"
name enotsup = literal "ENOTSUP"
name estale = literal "ESTALE"
name edquot = literal "EDQUOT"

-- `ERRNO_MESSAGES`.
message : ErrnoCode → Text
message eperm = literal "operation not permitted"
message enoent = literal "no such file or directory"
message eintr = literal "interrupted system call"
message eio = literal "i/o error"
message enxio = literal "no such device or address"
message ebadf = literal "bad file descriptor"
message eagain = literal "resource temporarily unavailable"
message enomem = literal "not enough memory"
message eacces = literal "permission denied"
message ebusy = literal "resource busy or locked"
message eexist = literal "file already exists"
message exdev = literal "cross-device link not permitted"
message enodev = literal "no such device"
message enotdir = literal "not a directory"
message eisdir = literal "illegal operation on a directory"
message einval = literal "invalid argument"
message enfile = literal "file table overflow"
message emfile = literal "too many open files"
message efbig = literal "file too large"
message enospc = literal "no space left on device"
message espipe = literal "invalid seek"
message erofs = literal "read-only file system"
message emlink = literal "too many links"
message erange = literal "result too large"
message enametoolong = literal "name too long"
message enosys = literal "function not implemented"
message enotempty = literal "directory not empty"
message eloop = literal "too many symbolic links encountered"
message enodata = literal "no data available"
message eproto = literal "protocol error"
message eoverflow = literal "value too large for defined data type"
message enotsup = literal "operation not supported on socket"
message estale = literal "stale file handle"
message edquot = literal "disk quota exceeded"

-- The entries of `ERRNO_CODES`, for the look-up of a code by its name.
by_name : List (Text × ErrnoCode)
unfolding name
by_name =
    (name eperm, eperm)
    ∷ (name enoent, enoent)
    ∷ (name eintr, eintr)
    ∷ (name eio, eio)
    ∷ (name enxio, enxio)
    ∷ (name ebadf, ebadf)
    ∷ (name eagain, eagain)
    ∷ (name enomem, enomem)
    ∷ (name eacces, eacces)
    ∷ (name ebusy, ebusy)
    ∷ (name eexist, eexist)
    ∷ (name exdev, exdev)
    ∷ (name enodev, enodev)
    ∷ (name enotdir, enotdir)
    ∷ (name eisdir, eisdir)
    ∷ (name einval, einval)
    ∷ (name enfile, enfile)
    ∷ (name emfile, emfile)
    ∷ (name efbig, efbig)
    ∷ (name enospc, enospc)
    ∷ (name espipe, espipe)
    ∷ (name erofs, erofs)
    ∷ (name emlink, emlink)
    ∷ (name erange, erange)
    ∷ (name enametoolong, enametoolong)
    ∷ (name enosys, enosys)
    ∷ (name enotempty, enotempty)
    ∷ (name eloop, eloop)
    ∷ (name enodata, enodata)
    ∷ (name eproto, eproto)
    ∷ (name eoverflow, eoverflow)
    ∷ (name enotsup, enotsup)
    ∷ (name estale, estale)
    ∷ (name edquot, edquot)
    ∷ []

-- A `number`: every finite one is `n / 2 ^ d`.
pub data JsNumber : Type 0 where
  finite : (n : ℤ) (d : ℕ) → JsNumber
  infinite : Bool → JsNumber
  not_a_number : JsNumber

abbrev pub whole : ℤ → JsNumber
whole n = finite n 0

-- `Math.abs(x)` and `x !== 0`.
abbrev pub absolute : JsNumber → JsNumber
absolute (finite n d) = finite (pos (abs n)) d
absolute (infinite negative) = infinite false
absolute not_a_number = not_a_number

abbrev pub is_not_zero : JsNumber → Bool
is_not_zero (finite n d) = if abs n == 0 then false else true
is_not_zero (infinite negative) = true
is_not_zero not_a_number = true

pub record FsError : Type 0 where
  pub message : Text
  pub errno : JsNumber
  pub code : Text
  pub syscall : Option Text
  pub path : Option Text
  pub dest : Option Text

pub record FsErrorOptions : Type 0 where
  pub message : Option Text
  pub syscall : Option Text
  pub path : Option Text
  pub dest : Option Text

-- A part of the message that is there only if its option is.
part : Text → Text → Option Text → Text
part before after none = []
part before after (some s) = before ++ (s ++ after)

-- `if (options.syscall)`: the empty string is left out too.
syscall_part : Option Text → Text
unfolding part
syscall_part none = []
syscall_part (some []) = []
syscall_part (some (c ∷ s)) = part (literal ", ") [] (some (c ∷ s))

generated : ErrnoCode → FsErrorOptions → Text
unfolding message part syscall_part name
generated c o =
    name c
    ++ (literal ": "
        ++ (message c
            ++ (syscall_part o.syscall
                ++ (part (literal " '") (literal "'") o.path
                    ++ part (literal " -> '") (literal "'") o.dest))))

chosen : Option Text → Text → Text
chosen none text = text
chosen (some given) text = given

pub fs_error : ErrnoCode → FsErrorOptions → FsError
unfolding generated chosen errno name
fs_error c o = record {
  message = chosen o.message (generated c o);
  errno = whole (neg (errno c));
  code = name c;
  syscall = o.syscall;
  path = o.path;
  dest = o.dest;
}

-- What `errnoOf` and `isFsError` see of a thrown value: nothing for a value that is no object,
-- and otherwise its `code` if that is a string and its `errno` if that is a number.
pub data Thrown : Type 0 where
  no_object : Thrown
  object : (code : Option Text) (errno : Option JsNumber) → Thrown

pub thrown : FsError → Thrown
thrown e = object (some e.code) (some e.errno)

code_is : Option ErrnoCode → Text → Bool
unfolding name
code_is none given = true
code_is (some c) given = given == name c

pub is_fs_error : Thrown → Option ErrnoCode → Bool
unfolding code_is
is_fs_error (object (some given) (some n)) wanted = code_is wanted given
is_fs_error _ wanted = false

-- The names that every object inherits.
abbrev pub inherited_names : List Text
inherited_names =
    literal "constructor"
    ∷ literal "__defineGetter__"
    ∷ literal "__defineSetter__"
    ∷ literal "hasOwnProperty"
    ∷ literal "__lookupGetter__"
    ∷ literal "__lookupSetter__"
    ∷ literal "isPrototypeOf"
    ∷ literal "propertyIsEnumerable"
    ∷ literal "toString"
    ∷ literal "valueOf"
    ∷ literal "__proto__"
    ∷ literal "toLocaleString"
    ∷ []

-- What `errnoOf` returns: a number, or, for an inherited name, the value that is inherited.
pub data Reported : Type 0 where
  number : JsNumber → Reported
  inherited : Text → Reported

abbrev pub number_of : ErrnoCode → Reported
number_of c = number (whole (pos (errno c)))

-- `code in ERRNO_CODES`, and the value there.
known : Option Text → Option Reported
unfolding by_name lookup errno
known none = none
known (some given) = elim (lookup given by_name) [
  | some c ↦ some (number_of c)
  | none ↦ if any (λ n. n == given) inherited_names then some (inherited given) else none
]

-- `Math.abs(candidate.errno)` where it is a number other than 0, and `EIO` otherwise.
numeric : Option JsNumber → Reported
unfolding errno
numeric none = number_of eio
numeric (some n) = if is_not_zero n then number (absolute n) else number_of eio

pub errno_of : Thrown → Reported
unfolding errno numeric known
errno_of no_object = number_of eio
errno_of (object code n) = elim (known code) [ none ↦ numeric n | some found ↦ found ]
