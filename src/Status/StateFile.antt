-- ===== src/Status/StateFile.antt =====
-- What a reader of the state file can find.
use luci_app_gowan.Common.{
  ◌≡◌, refl, ap, subst, ◌∙◌, ◌⊎◌, inl, inr, Bool, true, false, not, ◌&&◌, Option, none, some, List,
  [], ◌∷◌, ◌++◌, arith, Bytes, codes, is_blank, text_eq, text_eq_iff, text_eq_refl, length,
  length-append, lookup, insert, delete, lookup-insert, lookup-delete, All, if◌then◌else◌,
  Bool-cases,
}
use luci_app_gowan.Balancer.{Fleet}
use luci_app_gowan.Status.{
  BackendState, snapshot_backends, Disk, DiskCalls, put, rename, stages, encoded, write_state_file,
}

abbrev pub tmp_of : Bytes → Bytes
tmp_of path = path ++ codes ".tmp"

tmp_apart : (path : Bytes) → text_eq (tmp_of path) path ≡ false
tmp_apart path = elim (Bool-cases (text_eq (tmp_of path) path)) [
  | inr apart ↦ apart
  | inl same ↦ absurd (
      omega (
        arith,
        length-append path (codes ".tmp"),
        ap length ((text_eq_iff (tmp_of path) path).0 same),
      ))
]

-- The file has its old contents or the whole of the new, and no file but it and the temporary one is
-- touched.
pub record IsWhole (before : Disk) (path : Bytes) (data_line : Option Bytes) (now : Disk)
    : Type 0 where
  pub old_or_new : (lookup path now ≡ lookup path before) ⊎ (lookup path now ≡ data_line)
  pub others :
      (other : Bytes)
      → text_eq path other ≡ false
      → text_eq (tmp_of path) other ≡ false
      → lookup other now ≡ lookup other before

lookup_beside :
    (k j v : Bytes) (d : Disk) → text_eq k j ≡ false → lookup j (insert k v d) ≡ lookup j d
lookup_beside k j v d e = lookup-insert k j v d ∙ rw e refl

abbrev pub line : Option Bytes → Option Bytes
line none = none
line (some json) = some (json ++ (10 ∷ []))

put_beside :
    (k j : Bytes) (o : Option Bytes) (d : Disk)
    → text_eq k j ≡ false
    → lookup j (put d k o) ≡ lookup j d
put_beside k j none d e = refl
put_beside k j (some v) d e = lookup_beside k j v d e

untouched-IsWhole : (disk : Disk) (path contents : Bytes) → IsWhole disk path (some contents) disk
untouched-IsWhole disk path contents = record { old_or_new = inl refl; others = λ other p q. refl }

-- A change of the temporary file.
put-IsWhole :
    (disk mid : Disk) (path contents : Bytes) (o : Option Bytes)
    → lookup path mid ≡ lookup path disk
    → IsWhole disk path (some contents) mid
    → IsWhole disk path (some contents) (put mid (tmp_of path) o)
put-IsWhole disk mid path contents o old h = record {
  old_or_new = inl (put_beside (tmp_of path) path o mid (tmp_apart path) ∙ old);
  others = λ other p q. put_beside (tmp_of path) other o mid q ∙ h.others other p q;
}

renamed-IsWhole :
    (disk mid : Disk) (path contents : Bytes)
    → lookup (tmp_of path) mid ≡ some contents
    → IsWhole disk path (some contents) mid
    → IsWhole disk path (some contents) (rename mid (tmp_of path) path)
unfolding rename
renamed-IsWhole disk mid path contents full h =
    rw (full, rename)
      (record {
        old_or_new = inr (
            lookup-insert path path contents (delete (tmp_of path) mid)
            ∙ rw (text_eq_refl path) refl);
        others = λ other p q.
            lookup_beside path other contents (delete (tmp_of path) mid) p
            ∙ lookup-delete (tmp_of path) other mid
            ∙ rw q (h.others other p q);
      })

put_full :
    (disk : Disk) (k contents : Bytes) → lookup k (put disk k (some contents)) ≡ some contents
put_full disk k contents = lookup-insert k k contents disk ∙ rw (text_eq_refl k) refl

stages-IsWhole :
    (disk : Disk) (path contents : Bytes) (x : DiskCalls)
    → All (IsWhole disk path (some contents)) (stages disk path contents x)
unfolding stages
stages-IsWhole disk path contents x =
    let during = put disk (tmp_of path) x.torn in
    let first =
      put-IsWhole disk disk path contents x.torn refl (untouched-IsWhole disk path contents) in
    let second = λ (o : Option Bytes).
      put-IsWhole disk during path contents o
        (put_beside (tmp_of path) path x.torn disk (tmp_apart path)) first in
    elim (Bool-cases x.writes) [
      | inr fails ↦ rw fails (first, (second x.left, tt))
      | inl works ↦ elim (Bool-cases x.renames) [
        | inr fails ↦ rw (works, fails) (first, (second (some contents), tt))
        | inl moves ↦
            rw (works, moves)
              (
                first,
                (
                  second (some contents),
                  (
                    renamed-IsWhole disk (put during (tmp_of path) (some contents)) path contents
                        (put_full during (tmp_of path) contents) (second (some contents)),
                    tt,
                  ),
                ),
              )
      ]
    ]

-- Nothing keeps the file from being written.
abbrev pub is_written : Bytes → Option Bytes → DiskCalls → Bool
is_written path none x = false
is_written path (some json) x = not (is_blank path) && x.writes && x.renames

-- The last of some disks, or the one before them.
abbrev pub latest : Disk → List Disk → Disk
latest disk [] = disk
latest disk (d ∷ ds) = latest d ds

stages_last :
    (disk : Disk) (path contents : Bytes) (x : DiskCalls)
    → x.writes ≡ true
    → x.renames ≡ true
    → lookup path (latest disk (stages disk path contents x)) ≡ some contents
unfolding stages rename
stages_last disk path contents x works moves =
    rw (works, moves)
      (rw (put_full (put disk (tmp_of path) x.torn) (tmp_of path) contents, rename)
        (lookup-insert path path contents (
            delete (tmp_of path)
              (put (put disk (tmp_of path) x.torn) (tmp_of path) (some contents)))
          ∙ rw (text_eq_refl path) refl))

-- Whatever the encoder gives and whichever calls of the file system fail, at every moment the state
-- file has its old contents or the whole of the new line, and no file but it and its temporary one
-- changes; and it ends with the new line, unless its path is empty, there is nothing to encode, or a
-- call fails.
pub write_state_file-IsWhole :
    (marshal : List BackendState → Option Bytes) (disk : Disk) (path : Bytes) (g : Fleet)
    (x : DiskCalls)
    → All
        (IsWhole disk path (line (marshal (snapshot_backends g))))
        (write_state_file marshal disk path g x)
      × ((is_written path (marshal (snapshot_backends g)) x ≡ false)
          ⊎ (lookup path (latest disk (write_state_file marshal disk path g x))
              ≡ line (marshal (snapshot_backends g))))
unfolding write_state_file encoded
write_state_file-IsWhole marshal disk path g x = by_json (marshal (snapshot_backends g))
  where
    Good : Option Bytes → List Disk → Type 0
    Good o ds =
        All (IsWhole disk path (line o)) ds
        × ((is_written path o x ≡ false) ⊎ (lookup path (latest disk ds) ≡ line o))

    by_calls :
        (json : Bytes)
        → is_blank path ≡ false
        → Good (some json) (stages disk path (json ++ (10 ∷ [])) x)
    by_calls json on = (
      stages-IsWhole disk path (json ++ (10 ∷ [])) x,
      elim (Bool-cases (x.writes && x.renames)) [
        | inl both ↦ inr (
            stages_last disk path (json ++ (10 ∷ [])) x (ground (arith, both))
              (ground (arith, both)))
        | inr fails ↦ inl (ground (arith, fails))
      ],
    )

    by_json : (o : Option Bytes) → Good o (if is_blank path then [] else encoded disk path o x)
    by_json none = elim (Bool-cases (is_blank path)) [
      | inl off ↦ rw off (tt, inl refl)
      | inr on ↦ rw on (tt, inl refl)
    ]
    by_json (some json) = elim (Bool-cases (is_blank path)) [
      | inl off ↦ rw off (tt, inl refl)
      | inr on ↦ by_path json on
    ]
      where
        by_path :
            (json : Bytes)
            → is_blank path ≡ false
            → Good (some json) (if is_blank path then [] else encoded disk path (some json) x)
        by_path json on =
            let whole : encoded disk path (some json) x
                ≡ (if is_blank path then [] else encoded disk path (some json) x) =
              rw on refl in
            subst (Good (some json)) whole (by_calls json on)
