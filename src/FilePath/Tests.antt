-- ===== src/FilePath/Tests.antt =====
-- Runs of the path helpers, and the theorems on them at concrete paths.
use mountx.Common.{◌≡◌, ◌↔◌, refl, true, false, [], ◌∷◌, all, Text, literal}
use mountx.FilePath.{
  from_segments, split_path, is_normalized_path, normalize_path, join_path, dirname, basename,
  is_path_inside,
}
use mountx.FilePath.Segments.{is_segment}
use mountx.FilePath.Normal.{
  all-is_segment-split_path, normalize_path_normal, is_normalized_path_iff,
}
use mountx.FilePath.Parent.{join_path-dirname-basename}
use mountx.FilePath.Inside.{is_prefix, is_path_inside-eq}

normal_tests :
    (normalize_path (literal "/a/./b/../c//") ≡ literal "/a/c")
    × (normalize_path (literal "../..") ≡ literal "/")
    × (is_normalized_path (literal "/a/b") ≡ true)
    × (is_normalized_path (literal "/a//b") ≡ false)
    × (is_normalized_path (literal "a/b") ≡ false)
    × (is_normalized_path (literal "/a/..") ≡ false)
unfolding normalize_path
normal_tests = (refl, refl, refl, refl, refl, refl)

parent_tests :
    (dirname (literal "/a/b") ≡ literal "/a")
    × (dirname (literal "/a") ≡ literal "/")
    × (dirname (literal "x//y/") ≡ literal "/x")
    × (basename (literal "/a/b") ≡ literal "b")
    × (basename (literal "/") ≡ literal "/")
unfolding dirname basename
parent_tests = (refl, refl, refl, refl, refl)

inside_tests :
    (is_path_inside (literal "/a/b") (literal "/a") ≡ true)
    × (is_path_inside (literal "/ab") (literal "/a") ≡ false)
    × (is_path_inside (literal "/ab") (literal "/") ≡ true)
unfolding is_path_inside
inside_tests = (refl, refl, refl)

abbrev crooked : Text
crooked = literal "a/../.././b//c"

all-is_segment-split_path_example : all is_segment (split_path crooked) ≡ true
all-is_segment-split_path_example = all-is_segment-split_path crooked

normalize_path_normal_example :
    (normalize_path crooked ≡ from_segments (split_path crooked))
    × (is_normalized_path (normalize_path crooked) ≡ true)
    × (normalize_path (normalize_path crooked) ≡ normalize_path crooked)
    × (split_path (normalize_path crooked) ≡ split_path crooked)
normalize_path_normal_example = normalize_path_normal crooked

is_normalized_path_iff_example :
    (is_normalized_path crooked ≡ true) ↔ (from_segments (split_path crooked) ≡ crooked)
is_normalized_path_iff_example = is_normalized_path_iff crooked

join_path-dirname-basename_example :
    join_path (dirname crooked ∷ basename crooked ∷ []) ≡ normalize_path crooked
join_path-dirname-basename_example = join_path-dirname-basename crooked

is_path_inside-eq_example :
    is_path_inside (literal "/a/b") (literal "/a")
    ≡ is_prefix (split_path (literal "/a")) (split_path (literal "/a/b"))
unfolding is_normalized_path
is_path_inside-eq_example = is_path_inside-eq (literal "/a/b") (literal "/a") refl refl
