-- ===== src/Cgroups/Parse.antt =====
-- pkg/cgroups/subsys.go and mountpoint.go: the lines of /proc/PID/cgroup and /proc/PID/mountinfo.
use go_opentelemetry.Prelude.{
  ℕ, ◌+◌, Option, none, some, List, [], ◌∷◌, ◌++◌, if◌then◌else◌, ltb, length,
}
use go_opentelemetry.Cgroups.{
  Bytes, Error, cgroup_subsys_format_invalid, mount_point_format_invalid, Result, ok, err, bytes_eq,
  split,
}
use go_opentelemetry.Cgroups.Numbers.{ℤ, atoi}
use go_opentelemetry.Cgroups.Paths.{rel, join_paths}

-- A Go map from text
abbrev pub Table {ℓ} : Type ℓ → Type ℓ
Table V = List (Bytes × V)

unfoldable pub lookup {ℓ} : {V : Type ℓ} → Bytes → Table V → Option V
lookup k [] = none
lookup k ((j, v) ∷ m) = if bytes_eq j k then some v else lookup k m

-- The newest entry of a key is the one found.
unfoldable pub store {ℓ} : {V : Type ℓ} → Bytes → V → Table V → Table V
store k v m = (k, v) ∷ m

-- What a scanner yields of an open file: its lines, then the error that ended it.
pub record ScannedFile : Type 0 where
  pub lines : List Bytes
  pub scan_error : Option Error

-- `:`, `,`, ` ` and `-`
abbrev pub cgroup_sep : ℕ
cgroup_sep = 58

abbrev pub opts_sep : ℕ
opts_sep = 44

abbrev pub mount_info_sep : ℕ
mount_info_sep = 32

abbrev pub optional_fields_sep : Bytes
optional_fields_sep = 45 ∷ []

pub record CgroupSubsys : Type 0 where
  pub id : ℤ
  pub subsystems : List Bytes
  pub name : Bytes

-- Go on with a number, or give up with its error.
unfoldable pub with_number {ℓ} : {A : Type ℓ} → ℤ × Option Error → (ℤ → Result A) → Result A
with_number (n, none) k = k n
with_number (n, some e) k = err e

abbrev pub subsys_of_fields : Bytes → List Bytes → Result CgroupSubsys
subsys_of_fields line (i ∷ s ∷ n ∷ []) =
    with_number (atoi i) (λ id. ok (record { id = id; subsystems = split s opts_sep; name = n }))
subsys_of_fields line fields = err (cgroup_subsys_format_invalid line)

-- `NewCGroupSubsysFromLine`
unfoldable pub new_cgroup_subsys_from_line : Bytes → Result CgroupSubsys
new_cgroup_subsys_from_line line = subsys_of_fields line (split line cgroup_sep)

abbrev pub store_all {ℓ} : {V : Type ℓ} → List Bytes → V → Table V → Table V
store_all [] v m = m
store_all (k ∷ ks) v m = store_all ks v (store k v m)

-- The loop of `parseCGroupSubsystems` over the lines of the file
unfoldable pub parse_subsystem_lines :
    List Bytes → Option Error → Table CgroupSubsys → Result (Table CgroupSubsys)
parse_subsystem_lines [] none m = ok m
parse_subsystem_lines [] (some e) m = err e
parse_subsystem_lines (l ∷ ls) scan_error m = elim (new_cgroup_subsys_from_line l) [
  | ok cgroup ↦ parse_subsystem_lines ls scan_error (store_all cgroup.subsystems cgroup m)
  | err e ↦ err e
]

pub record MountPoint : Type 0 where
  pub mount_id : ℤ
  pub parent_id : ℤ
  pub device_id : Bytes
  pub root : Bytes
  pub mount_point : Bytes
  pub options : List Bytes
  pub optional_fields : List Bytes
  pub fs_type : Bytes
  pub mount_source : Bytes
  pub super_options : List Bytes

-- The fields after the separator: there are three, or the line is invalid.
abbrev pub second_half : Bytes → MountPoint → List Bytes → Result MountPoint
second_half line mp (t ∷ s ∷ o ∷ []) = elim (split mp.mount_point 47) [
  | [] ↦ err (mount_point_format_invalid line)
  | _ ∷ _ ↦ ok (record mp { fs_type = t; mount_source = s; super_options = split o opts_sep })
]
second_half line mp fields = err (mount_point_format_invalid line)

-- The loop over the optional fields: `before` are those that it has passed.
unfoldable pub find_second_half : Bytes → MountPoint → List Bytes → List Bytes → Result MountPoint
find_second_half line mp before [] = err (mount_point_format_invalid line)
find_second_half line mp before (f ∷ fs) =
    let rest = find_second_half line mp (before ++ f ∷ []) fs in
    if bytes_eq f optional_fields_sep
    then second_half line (record mp { optional_fields = before }) fs
    else rest

abbrev pub mount_of_fields : Bytes → List Bytes → Result MountPoint
mount_of_fields line (i ∷ p ∷ d ∷ r ∷ m ∷ o ∷ rest) =
    if ltb (6 + length rest) 10
    then err (mount_point_format_invalid line)
    else with_number (atoi i) (λ mount_id. with_number (atoi p) (λ parent_id.
      find_second_half line
        (record {
          mount_id = mount_id;
          parent_id = parent_id;
          device_id = d;
          root = r;
          mount_point = m;
          options = split o opts_sep;
          optional_fields = [];
          fs_type = [];
          mount_source = [];
          super_options = [];
        })
        [] rest))
mount_of_fields line fields = err (mount_point_format_invalid line)

-- `NewMountPointFromLine`
unfoldable pub new_mount_point_from_line : Bytes → Result MountPoint
new_mount_point_from_line line = mount_of_fields line (split line mount_info_sep)

-- `Translate`
unfoldable pub translate : MountPoint → Bytes → Result Bytes
translate mp abs_path = elim (rel mp.root abs_path) [
  | ok rel_path ↦ ok (join_paths mp.mount_point rel_path)
  | err e ↦ err e
]

-- The loop of `parseMountInfo` over the lines; the callback's state is `S`.
unfoldable pub parse_mount_lines {ℓ} :
    {S : Type ℓ} → (MountPoint → S → Result S) → List Bytes → Option Error → S → Result S
parse_mount_lines new_mount_point [] none s = ok s
parse_mount_lines new_mount_point [] (some e) s = err e
parse_mount_lines new_mount_point (l ∷ ls) scan_error s = elim (new_mount_point_from_line l) [
  | ok mp ↦ elim (new_mount_point mp s) [
    | ok s2 ↦ parse_mount_lines new_mount_point ls scan_error s2
    | err e ↦ err e
  ]
  | err e ↦ err e
]
