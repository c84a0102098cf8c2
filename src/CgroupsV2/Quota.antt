-- ===== src/CgroupsV2/Quota.antt =====
-- pkg/cgroups/cgroupsv2/cgroups.go and cgroup.go: which version is mounted, and the memory limits.
use go_opentelemetry.Prelude.{
  ℕ, ◌-◌, ◌^◌, Bool, true, false, ◌&&◌, ◌||◌, not, Option, none, some, List, [], ◌∷◌, ◌++◌,
  if◌then◌else◌, ltb, ◌==◌,
}
use go_opentelemetry.Cgroups.{Bytes, Error, unexpected_eof, Result, ok, err, bytes_eq}
use go_opentelemetry.Cgroups.Numbers.{ℤ, pos, negsuc, minus, atoi}
use go_opentelemetry.Cgroups.Paths.{join_paths}
use go_opentelemetry.Cgroups.Parse.{
  ScannedFile, MountPoint, CgroupSubsys, Table, lookup, store, new_mount_point_from_line,
}
use go_opentelemetry.Cgroups.Quota.{
  Cgroup, Reading, unset, cgroup_fs_type, cgroup_subsys_memory, cgroup_memory_limit_bytes,
  parse_mount_info, parse_cgroup_subsystems, read_first_line,
}
use go_opentelemetry.CgroupsV2.{Translation, exposed, failed, path_not_exposed, translate}

-- `cgroup2`, `memory.max`, `/sys/fs/cgroup` and `max`
abbrev pub cgroupv2_fs_type : Bytes
cgroupv2_fs_type = cgroup_fs_type ++ b'2' ∷ []

abbrev pub max_text : Bytes
max_text = b'm' ∷ b'a' ∷ b'x' ∷ []

abbrev pub cgroupv2_memory_max : Bytes
cgroupv2_memory_max = cgroup_subsys_memory ++ (b'.' ∷ max_text)

abbrev pub cgroupv2_mount_point : Bytes
cgroupv2_mount_point =
    (b'/' ∷ b's' ∷ b'y' ∷ b's' ∷ b'/' ∷ b'f' ∷ b's' ∷ b'/' ∷ []) ++ cgroup_fs_type

-- The errors of the package: those of version 1, and that of `Translate`.
pub data ErrorV2 : Type 0 where
  common : Error → ErrorV2
  not_exposed : Bytes → Bytes → Bytes → ErrorV2

pub data ResultV2 (A : Type 0) : Type 0 where
  done : A → ResultV2 A
  stopped : ErrorV2 → ResultV2 A

-- The callback of `NewCGroups`, for each of the mount's super options
abbrev pub add_translated :
    Bytes
    → Translation
    → Table Cgroup
    → (Table Cgroup → ResultV2 (Table Cgroup))
    → ResultV2 (Table Cgroup)
add_translated opt (exposed path) cgroups rest = rest (store opt (record { path = path }) cgroups)
add_translated opt (failed e) cgroups rest = stopped (common e)
add_translated opt (path_not_exposed m r p) cgroups rest = stopped (not_exposed m r p)

unfoldable pub add_options :
    Table CgroupSubsys → MountPoint → List Bytes → Table Cgroup → ResultV2 (Table Cgroup)
add_options subsystems mp [] cgroups = done cgroups
add_options subsystems mp (opt ∷ opts) cgroups = elim (lookup opt subsystems) [
  | none ↦ add_options subsystems mp opts cgroups
  | some subsys ↦
      add_translated opt (translate mp subsys.name) cgroups (add_options subsystems mp opts)
]

unfoldable pub new_mount_point :
    Table CgroupSubsys → MountPoint → Table Cgroup → ResultV2 (Table Cgroup)
new_mount_point subsystems mp cgroups =
    if not (bytes_eq mp.fs_type cgroup_fs_type)
    then done cgroups
    else add_options subsystems mp mp.super_options cgroups

-- The loop of `parseMountInfo` over the lines, as `NewCGroups` calls it
unfoldable pub add_mounts :
    Table CgroupSubsys → List Bytes → Option Error → Table Cgroup → ResultV2 (Table Cgroup)
add_mounts subsystems [] none cgroups = done cgroups
add_mounts subsystems [] (some e) cgroups = stopped (common e)
add_mounts subsystems (l ∷ ls) scan_error cgroups = elim (new_mount_point_from_line l) [
  | ok mp ↦ elim (new_mount_point subsystems mp cgroups) [
    | done more ↦ add_mounts subsystems ls scan_error more
    | stopped e ↦ stopped e
  ]
  | err e ↦ stopped (common e)
]

-- What the decimal library makes of a number: the sign, and `BigInt().Uint64()`.
pub record Decimal (D : Type 0) : Type 0 where
  pub new_from_string : Bytes → Result D
  pub is_negative : D → Bool
  pub is_zero : D → Bool
  pub uint64 : D → ℕ

-- `int64` of an unsigned 64-bit number
abbrev pub int64_of : ℕ → ℤ
int64_of b = if ltb b (2 ^ 63) then pos b else minus (2 ^ 64 - b)

abbrev pub is_unlimited : ℕ → Bool
is_unlimited b = b == 9223372036854771712 || b == 9223372036854775807 || b == 18446744073709551615

-- The callback of `isCGroupV2`
abbrev pub note_version : MountPoint → Bool → Result Bool
note_version mp is_v2 =
    if bytes_eq mp.fs_type cgroupv2_fs_type && bytes_eq mp.mount_point cgroupv2_mount_point
    then ok true
    else ok is_v2

module _ (open_file : Bytes → Result ScannedFile) where
  abbrev pub add_mounts_of : Table CgroupSubsys → Result ScannedFile → ResultV2 (Table Cgroup)
  add_mounts_of subsystems (ok file) = add_mounts subsystems file.lines file.scan_error []
  add_mounts_of subsystems (err e) = stopped (common e)

  abbrev pub with_subsystems : Bytes → Result (Table CgroupSubsys) → ResultV2 (Table Cgroup)
  with_subsystems proc_path_mount_info (ok subsystems) =
      add_mounts_of subsystems (open_file proc_path_mount_info)
  with_subsystems proc_path_mount_info (err e) = stopped (common e)

  -- `NewCGroups`
  unfoldable pub new_cgroups : Bytes → Bytes → ResultV2 (Table Cgroup)
  new_cgroups proc_path_mount_info proc_path_cgroup =
      with_subsystems proc_path_mount_info (parse_cgroup_subsystems open_file proc_path_cgroup)

  -- `isCGroupV2`
  unfoldable pub is_cgroup_v2 : Bytes → Result Bool
  is_cgroup_v2 proc_path_mount_info =
      parse_mount_info open_file proc_path_mount_info note_version false

  abbrev pub quota_of : {D : Type 0} → Decimal D → Result D → Reading
  quota_of dec (err e) = (negsuc 0, (false, some e))
  quota_of dec (ok d) =
      if dec.is_negative d || dec.is_zero d
      then unset
      else (if is_unlimited (dec.uint64 d) then unset else (int64_of (dec.uint64 d), (true, none)))

  -- `readDecimal`
  abbrev pub decimal_of : {D : Type 0} → Decimal D → Result Bytes → Result D
  decimal_of dec (err e) = err e
  decimal_of dec (ok text) = dec.new_from_string text

  -- `MemoryQuota`
  unfoldable pub memory_quota : {D : Type 0} → Decimal D → Table Cgroup → Reading
  memory_quota dec cg = elim (lookup cgroup_subsys_memory cg) [
    | none ↦ unset
    | some c ↦ quota_of dec (decimal_of dec (read_first_line open_file c cgroup_memory_limit_bytes))
  ]

  module _ (is_not_exist : Error → Bool) (trim_space : Bytes → Bytes) where
    abbrev pub parsed : ℤ × Option Error → Reading
    parsed (n, none) = (n, (true, none))
    parsed (n, some e) = (negsuc 0, (false, some e))

    abbrev pub max_of : Bytes → Reading
    max_of value = if bytes_eq value max_text then unset else parsed (atoi value)

    abbrev pub max_line : List Bytes → Option Error → Reading
    max_line (l ∷ ls) scan_error = max_of (trim_space l)
    max_line [] (some e) = (negsuc 0, (false, some e))
    max_line [] none = (negsuc 0, (false, some unexpected_eof))

    abbrev pub max_file : Result ScannedFile → Reading
    max_file (ok file) = max_line file.lines file.scan_error
    max_file (err e) = if is_not_exist e then unset else (negsuc 0, (false, some e))

    -- `memoryQuotaV2`
    unfoldable pub memory_quota_v2 : Bytes → Bytes → Reading
    memory_quota_v2 mount_point memory_max =
        max_file (open_file (join_paths mount_point memory_max))
