-- ===== src/P9Locks/Table/Names.antt =====
-- What each change of the table leaves under each name.
use mountx.Common.{
  ℕ, ◌≡◌, ◌≢◌, refl, sym, ap, ◌∙◌, Bool, true, false, not, Option, none, some, List, [], ◌∷◌, Text,
  ◌==◌, ==_iff, nat_eq, text_eq, if◌then◌else◌, filter, length, arith, Bool-cases, Option-cases,
  inl, inr, ◌≤◌, ◌⊎◌, ◌++◌, drop,
}
use mountx.Common.Assoc.{
  lookup, insert, lookup-insert, lookup-delete, HasDistinctKeys, insert-HasDistinctKeys,
  delete-HasDistinctKeys, add,
}
use mountx.FilePath.{slash, is_path_inside}
use mountx.Subtree.{remap_subtree}
use mountx.Subtree.Laws.{RemapLaws, name_of}
use mountx.Subtree.Renames.{name_of-remap_subtree, remap_subtree-HasDistinctKeys}
use mountx.P9Locks.{Lock, LockedFile, LockTable, subtract_range, replace_range}
use mountx.P9Locks.Table.{
  locks_of, at, with_files, bind, forget, set_locks, unlock, open_file, grant, drop_from, remap_ops,
  remap,
}

lookup-insert_locks :
    (p q : Text) (file : LockedFile) (files : List (Text × LockedFile))
    → locks_of (lookup q (insert p file files))
      ≡ (if p == q then file.locks else locks_of (lookup q files))
lookup-insert_locks p q file files = ground (arith, lookup-insert p q file files)

pub at-forget : (p q : Text) (t : LockTable) → at q (forget p t) ≡ (if p == q then [] else at q t)
unfolding at forget
at-forget p q t = ground (arith, lookup-delete p q t.files)

-- A grant replaces the ranges of its own file only.
pub at-grant :
    (p q : Text) (l : Lock) (t : LockTable)
    → at q (grant p l t) ≡ (if p == q then replace_range (at p t) l else at q t)
unfolding at grant open_file bind
at-grant p q l t = elim (Option-cases (lookup p t.files)) [
  | inl e ↦ rw (e, open_file) (rw lookup-insert_locks (rw lookup-insert_locks (ground arith)))
  | inr (file, e) ↦ rw (e, open_file) (rw lookup-insert_locks refl)
]

eq-nil_of_length : (locks : List Lock) → (length locks == 0) ≡ true → locks ≡ []
eq-nil_of_length [] h = refl
eq-nil_of_length (l ∷ locks) h = absurd (ground arith)

-- The name of a file with no ranges.
unchanged :
    (p q : Text) (t : LockTable)
    → lookup p t.files ≡ none
    → at q t ≡ (if p == q then [] else at q t)
unfolding at
unchanged p q t e = ground (arith, ==_iff p q)

pub at-set_locks :
    (p q : Text) (file : LockedFile) (locks : List Lock) (t : LockTable)
    → at q (set_locks p file locks t) ≡ (if p == q then locks else at q t)
unfolding set_locks
at-set_locks p q file locks t = elim (Bool-cases (length locks == 0)) [
  | inl e ↦ rw (e, eq-nil_of_length locks e) (at-forget p q t)
  | inr e ↦ rw e (unfold at in lookup-insert_locks p q (record file { locks = locks }) t.files)
]

-- So does an unlock, which leaves nothing where nothing was.
pub at-unlock :
    (p q owner : Text) (start end : ℕ) (t : LockTable)
    → at q (unlock p owner start end t)
      ≡ (if p == q then subtract_range (at p t) owner start end else at q t)
unfolding unlock subtract_range
at-unlock p q owner start end t = elim (Option-cases (lookup p t.files)) [
  | inl e ↦ rw (e, unlock) (unfold at in rw e (unchanged p q t e))
  | inr (file, e) ↦
      rw (e, unlock)
        (at-set_locks p q file (subtract_range file.locks owner start end) t
          ∙ unfold at in rw e refl)
]

-- The keys of the map stay distinct.
abbrev pub IsMap : LockTable → Type 0
IsMap t = HasDistinctKeys t.files

keeps_all : (p : Lock → Bool) (locks : List Lock) → length (filter p locks) ≤ length locks
keeps_all p [] = omega arith
keeps_all p (l ∷ locks) = ground (arith, keeps_all p locks)

pub filter_whole :
    (p : Lock → Bool) (locks : List Lock)
    → (length (filter p locks) == length locks) ≡ true
    → filter p locks ≡ locks
filter_whole p [] h = refl
filter_whole p (l ∷ locks) h = elim (Bool-cases (p l)) [
  | inl e ↦ rw e (ap (◌∷◌ l) (filter_whole p locks (ground arith)))
  | inr e ↦ absurd (ground (arith, keeps_all p locks))
]

lookup-drop_from :
    (m : Lock → Bool) (q : Text) (files : List (Text × LockedFile))
    → HasDistinctKeys files
    → locks_of (lookup q (drop_from m files)) ≡ filter (λ l. not (m l)) (locks_of (lookup q files))
unfolding lookup drop_from
lookup-drop_from m q [] d = refl
lookup-drop_from m q ((p, file) ∷ files) (new, d) =
    let kept = filter (λ l. not (m l)) file.locks in
    let ih = lookup-drop_from m q files d in
    elim (Bool-cases (length kept == length file.locks)) [
      | inl e ↦
          let whole = filter_whole (λ l. not (m l)) file.locks e in rw e (ground (arith, whole, ih))
      | inr e ↦ elim (Bool-cases (length kept == 0)) [
        | inl z ↦
            let gone = eq-nil_of_length kept z in rw (e, z) (dropped (Bool-cases (p == q)) gone ih)
        | inr z ↦ rw (e, z) (ground (arith, ih))
      ]
    ]
  where
    dropped :
        ((p == q) ≡ true) ⊎ ((p == q) ≡ false)
        → filter (λ l. not (m l)) file.locks ≡ []
        → locks_of (lookup q (drop_from m files))
          ≡ filter (λ l. not (m l)) (locks_of (lookup q files))
        → locks_of (lookup q (drop_from m files))
          ≡ filter (λ l. not (m l)) (locks_of (if p == q then some file else lookup q files))
    dropped (inr other) gone ih = rw other ih
    dropped (inl same) gone ih =
        let none_left : lookup q files ≡ none = rw ((==_iff p q).0 same) at new in
        rw same (ih ∙ ap (λ o. filter (λ l. not (m l)) (locks_of o)) none_left ∙ sym gone)

-- A drop filters the ranges of every file, and loses nothing else.
pub at-drop_from :
    (m : Lock → Bool) (q : Text) (t : LockTable)
    → IsMap t
    → at q (with_files t (drop_from m t.files)) ≡ filter (λ l. not (m l)) (at q t)
unfolding at
at-drop_from m q t d = lookup-drop_from m q t.files d

pub remap_ops-RemapLaws : RemapLaws remap_ops (λ f. f.locks)
unfolding remap_ops
remap_ops-RemapLaws = record {
  detach_name = λ v p q s. ground (arith, lookup-delete p q s.files);
  release_name = λ v p q s. ground (arith, lookup-delete p q s.files);
  release_view = λ v p s. refl;
  attach_name =
      λ v p q s. ground (arith, lookup-insert p q (record v { paths = add p v.paths }) s.files);
  release_distinct = λ v p s d. delete-HasDistinctKeys p s.files d;
  attach_distinct =
      λ v p s d. insert-HasDistinctKeys p (record v { paths = add p v.paths }) s.files d;
  detach_distinct = λ v p s d. delete-HasDistinctKeys p s.files d;
}

abbrev or_nil : Option (List Lock) → List Lock
or_nil none = []
or_nil (some locks) = locks

pub at-name_of : (q : Text) (t : LockTable) → at q t ≡ or_nil (name_of remap_ops (λ f. f.locks) q t)
unfolding at remap_ops
at-name_of q t = ground arith

-- After a rename of which neither the source nor the destination is the root "/", on a table that
-- lists no path twice, the ranges at and below the source are found at the same place below the
-- destination, where nothing of what stood there before is left, nothing is left below the source,
-- and all other files keep their ranges.
pub at-remap :
    (from to q : Text) (t : LockTable)
    → from ≢ slash ∷ []
    → to ≢ slash ∷ []
    → IsMap t
    → at q (remap from to t) ≡ (
        if from == to
        then at q t
        else if is_path_inside q to
        then (let source = from ++ drop (length to) q in
            if is_path_inside source to then [] else at source t)
        else if is_path_inside q from
        then []
        else at q t)
unfolding remap remap_ops
at-remap from to q t hf ht d = elim (Bool-cases (from == to)) [
  | inl e ↦ rw e
  | inr e ↦
      let walked =
        name_of-remap_subtree remap_ops (λ f. f.locks) remap_ops-RemapLaws from to hf ht q t d in
      let source = from ++ drop (length to) q in
      rw e (
        at-name_of q (remap_subtree remap_ops from to t)
        ∙ ap or_nil walked
        ∙ ground (arith, e, at-name_of q t, at-name_of source t))
]

pub remap-IsMap : (from to : Text) (t : LockTable) → IsMap t → IsMap (remap from to t)
unfolding remap remap_ops
remap-IsMap from to t d = elim (Bool-cases (from == to)) [
  | inl e ↦ rw e d
  | inr e ↦
      rw e (remap_subtree-HasDistinctKeys remap_ops (λ f. f.locks) remap_ops-RemapLaws from to t d)
]
