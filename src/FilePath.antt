-- ===== src/FilePath.antt =====
-- src/path.ts: normal form, segments, parent and name of a path. A path is the list of its UTF-16
-- code units.
pub mod Segments
pub mod Normal
pub mod Parent
pub mod Inside
pub mod Tails
mod Tests
use mountx.Common.{
  ℕ, suc, ◌+◌, Bool, true, false, ◌&&◌, ◌||◌, Option, none, some, List, [], ◌∷◌, ◌++◌, Text,
  literal, ◌==◌, nat_eq, text_eq, if◌then◌else◌, drop, take, length,
}

-- `"/"` and `"."` as code units.
abbrev pub slash : ℕ
slash = b'/'

abbrev pub dot : ℕ
dot = b'.'

-- `path.charCodeAt(i)`, where no number is `NaN`.
abbrev pub char_is : ℕ → ℕ → Text → Bool
char_is c i [] = false
char_is c ℕ.zero (a ∷ s) = a == c
char_is c (ℕ.suc i) (a ∷ s) = char_is c i s

-- The segment that ends here is "", "." or "..": `from` is `path.slice(start)`, and `size` is
-- `index - start`.
pub bad_segment : Text → ℕ → Bool
bad_segment from size =
    size == 0 || char_is dot 0 from && (size == 1 || size == 2 && char_is dot 1 from)

-- The loop of `isNormalizedPath`: `rest` is `path.slice(index)`, and a slash or the end closes a
-- segment.
pub scan : Text → ℕ → Text → Bool
unfolding bad_segment
scan from size [] = if bad_segment from size then false else true
scan from size (c ∷ rest) =
    let next = scan rest 0 rest in
    let longer = scan from (suc size) rest in
    if c == slash then (if bad_segment from size then false else next) else longer

pub is_normalized_path : Text → Bool
unfolding scan
is_normalized_path [] = false
is_normalized_path (c ∷ []) = c == slash
is_normalized_path (c ∷ d ∷ rest) = c == slash && scan (d ∷ rest) 0 (d ∷ rest)

-- `text.split("/")`: the separators cut, and every part counts.
pub split_from : Text → Text → List Text
split_from cur [] = cur ∷ []
split_from cur (c ∷ rest) =
    let closed = split_from [] rest in
    let longer = split_from (cur ++ c ∷ []) rest in if c == slash then cur ∷ closed else longer

pub split : Text → List Text
unfolding split_from
split text = split_from [] text

-- `segments.join("/")`.
pub join : List Text → Text
join [] = []
join (s ∷ []) = s
join (s ∷ t ∷ rest) = s ++ (slash ∷ join (t ∷ rest))

-- `segments.pop()`, with its array.
pub pop : List Text → List Text
pop [] = []
pop (s ∷ []) = []
pop (s ∷ t ∷ rest) = s ∷ pop (t ∷ rest)

pub is_skipped : Text → Bool
is_skipped s = s == [] || s == literal "."

-- The loop of `splitPath` over `path.split("/")`.
pub resolve : List Text → List Text → List Text
unfolding is_skipped pop
resolve segments [] = segments
resolve segments (s ∷ rest) =
    resolve
      (if is_skipped s
        then segments
        else if s == literal ".."
        then pop segments
        else segments ++ s ∷ [])
      rest

pub split_path : Text → List Text
unfolding resolve split
split_path path = resolve [] (split path)

-- `segments.length === 0 ? "/" : "/" + segments.join("/")`.
pub from_segments : List Text → Text
unfolding join
from_segments [] = slash ∷ []
from_segments (s ∷ rest) = slash ∷ join (s ∷ rest)

pub normalize_path : Text → Text
unfolding is_normalized_path split_path from_segments
normalize_path path = if is_normalized_path path then path else from_segments (split_path path)

pub record ResolvedPath : Type 0 where
  pub path : Text
  pub segments : List Text

pub resolve_path : Text → ResolvedPath
unfolding is_normalized_path split_path from_segments
resolve_path path =
    if is_normalized_path path
    then record { path = path; segments = if path == slash ∷ [] then [] else split (drop 1 path) }
    else record { path = from_segments (split_path path); segments = split_path path }

pub join_path : List Text → Text
unfolding normalize_path join
join_path parts = normalize_path (join parts)

-- `path.lastIndexOf("/")`, where `none` is -1.
pub last_index : Text → Option ℕ
last_index [] = none
last_index (c ∷ rest) = elim (last_index rest) [
  | some i ↦ some (suc i)
  | none ↦ if c == slash then some 0 else none
]

-- `cut <= 0 ? "/" : path.slice(0, cut)`.
pub before_cut : Text → Option ℕ → Text
before_cut path (some (ℕ.suc i)) = take (suc i) path
before_cut path _ = slash ∷ []

-- `path.slice(path.lastIndexOf("/") + 1)`.
pub after_cut : Text → Option ℕ → Text
after_cut path none = path
after_cut path (some i) = drop (suc i) path

pub dirname : Text → Text
unfolding is_normalized_path last_index before_cut split_path pop from_segments
dirname path =
    if is_normalized_path path
    then before_cut path (last_index path)
    else from_segments (pop (split_path path))

-- `segments.at(-1) ?? "/"`.
pub last_or : Text → List Text → Text
last_or s [] = s
last_or s (t ∷ rest) = last_or t rest

pub basename : Text → Text
unfolding is_normalized_path last_index after_cut split_path last_or
basename path =
    if is_normalized_path path
    then (if length path == 1 then slash ∷ [] else after_cut path (last_index path))
    else last_or (slash ∷ []) (split_path path)

-- `text.startsWith(prefix)`.
unfoldable pub starts_with : Text → Text → Bool
starts_with text [] = true
starts_with [] (c ∷ prefix) = false
starts_with (a ∷ text) (c ∷ prefix) = a == c && starts_with text prefix

unfoldable pub is_path_inside : Text → Text → Bool
unfolding starts_with
is_path_inside path parent =
    path == parent
    || starts_with path (if parent == slash ∷ [] then slash ∷ [] else parent ++ slash ∷ [])
