-- ===== src/Cgroups/Quota.antt =====
-- pkg/cgroups/cgroup.go and cgroups.go: the cgroups of the process and the limits they set.
use go_opentelemetry.Prelude.{
  zero, suc, ◌<◌, ◌≡◌, refl, Bool, true, false, Option, none, some, List, [], ◌∷◌, ◌++◌,
  if◌then◌else◌, not, arith,
}
use go_opentelemetry.Cgroups.{Bytes, Error, unexpected_eof, Result, ok, err, bytes_eq}
use go_opentelemetry.Cgroups.Numbers.{ℤ, pos, negsuc, atoi, is_positive, atoi-IsInt64, IsInt64}
use go_opentelemetry.Cgroups.Paths.{join_paths}
use go_opentelemetry.Cgroups.Parse.{
  ScannedFile, MountPoint, CgroupSubsys, Table, lookup, store, translate, parse_subsystem_lines,
  parse_mount_lines,
}

-- `cgroup`, `cpu`, `memory` and the names of the files that hold a limit
abbrev pub cgroup_fs_type : Bytes
cgroup_fs_type = b'c' ∷ b'g' ∷ b'r' ∷ b'o' ∷ b'u' ∷ b'p' ∷ []

abbrev pub cgroup_subsys_cpu : Bytes
cgroup_subsys_cpu = b'c' ∷ b'p' ∷ b'u' ∷ []

abbrev pub cgroup_subsys_memory : Bytes
cgroup_subsys_memory = b'm' ∷ b'e' ∷ b'm' ∷ b'o' ∷ b'r' ∷ b'y' ∷ []

abbrev pub in_bytes : Bytes
in_bytes = b'_' ∷ b'i' ∷ b'n' ∷ b'_' ∷ b'b' ∷ b'y' ∷ b't' ∷ b'e' ∷ b's' ∷ []

abbrev pub cgroup_memory_limit_bytes : Bytes
cgroup_memory_limit_bytes =
    cgroup_subsys_memory ++ (b'.' ∷ b'l' ∷ b'i' ∷ b'm' ∷ b'i' ∷ b't' ∷ []) ++ in_bytes

abbrev pub cgroup_memory_usage_bytes : Bytes
cgroup_memory_usage_bytes =
    cgroup_subsys_memory ++ (b'.' ∷ b'u' ∷ b's' ∷ b'a' ∷ b'g' ∷ b'e' ∷ []) ++ in_bytes

abbrev pub cpu_cfs : Bytes
cpu_cfs = cgroup_subsys_cpu ++ (b'.' ∷ b'c' ∷ b'f' ∷ b's' ∷ b'_' ∷ [])

abbrev pub cgroup_cpu_cfs_quota_us_param : Bytes
cgroup_cpu_cfs_quota_us_param =
    cpu_cfs ++ (b'q' ∷ b'u' ∷ b'o' ∷ b't' ∷ b'a' ∷ b'_' ∷ b'u' ∷ b's' ∷ [])

abbrev pub cgroup_cpu_cfs_period_us_param : Bytes
cgroup_cpu_cfs_period_us_param =
    cpu_cfs ++ (b'p' ∷ b'e' ∷ b'r' ∷ b'i' ∷ b'o' ∷ b'd' ∷ b'_' ∷ b'u' ∷ b's' ∷ [])

pub record Cgroup : Type 0 where
  pub path : Bytes

-- The callback of `NewCGroups`, for each of the mount's super options
unfoldable pub add_options :
    Table CgroupSubsys → MountPoint → List Bytes → Table Cgroup → Result (Table Cgroup)
add_options subsystems mp [] cgroups = ok cgroups
add_options subsystems mp (opt ∷ opts) cgroups = elim (lookup opt subsystems) [
  | none ↦ add_options subsystems mp opts cgroups
  | some subsys ↦ elim (translate mp subsys.name) [
    | ok cgroup_path ↦
        add_options subsystems mp opts (store opt (record { path = cgroup_path }) cgroups)
    | err e ↦ err e
  ]
]

unfoldable pub new_mount_point :
    Table CgroupSubsys → MountPoint → Table Cgroup → Result (Table Cgroup)
new_mount_point subsystems mp cgroups =
    if not (bytes_eq mp.fs_type cgroup_fs_type)
    then ok cgroups
    else add_options subsystems mp mp.super_options cgroups

-- What is read and returned of a limit: the value, whether it is set, and the error.
abbrev pub Reading : Type 0
Reading = ℤ × (Bool × Option Error)

abbrev pub unset : Reading
unset = (negsuc 0, (false, none))

-- `if defined := n > 0; err != nil || !defined { return -1, defined, err }`, and else go on.
unfoldable pub if_defined {ℓ} :
    {A : Type ℓ} → ℤ × Option Error → (Bool → Option Error → A) → (ℤ → A) → A
if_defined (n, some e) stop k = stop (is_positive n) (some e)
if_defined (n, none) stop k = if is_positive n then k n else stop false none

-- The file system: what os.Open and a scanner make of a path.
module _ (open_file : Bytes → Result ScannedFile) where
  -- `parseCGroupSubsystems`
  unfoldable pub parse_cgroup_subsystems : Bytes → Result (Table CgroupSubsys)
  parse_cgroup_subsystems proc_path_cgroup = elim (open_file proc_path_cgroup) [
    | ok file ↦ parse_subsystem_lines file.lines file.scan_error []
    | err e ↦ err e
  ]

  -- `parseMountInfo`
  unfoldable pub parse_mount_info {ℓ} :
      {S : Type ℓ} → Bytes → (MountPoint → S → Result S) → S → Result S
  parse_mount_info proc_path_mount_info f s = elim (open_file proc_path_mount_info) [
    | ok file ↦ parse_mount_lines f file.lines file.scan_error s
    | err e ↦ err e
  ]

  -- `NewCGroups`
  unfoldable pub new_cgroups : Bytes → Bytes → Result (Table Cgroup)
  new_cgroups proc_path_mount_info proc_path_cgroup =
      elim (parse_cgroup_subsystems proc_path_cgroup) [
        | ok subsystems ↦ parse_mount_info proc_path_mount_info (new_mount_point subsystems) []
        | err e ↦ err e
      ]

  -- What `readFirstLine` makes of an opened file
  abbrev pub first_line : List Bytes → Option Error → Result Bytes
  first_line (l ∷ ls) scan_error = ok l
  first_line [] (some e) = err e
  first_line [] none = err unexpected_eof

  -- `readFirstLine`
  unfoldable pub read_first_line : Cgroup → Bytes → Result Bytes
  read_first_line cg param = elim (open_file (join_paths cg.path param)) [
    | ok file ↦ first_line file.lines file.scan_error
    | err e ↦ err e
  ]

  abbrev pub int_of : Result Bytes → ℤ × Option Error
  int_of (ok text) = atoi text
  int_of (err e) = (pos 0, some e)

  -- `readInt`
  unfoldable pub read_int : Cgroup → Bytes → ℤ × Option Error
  read_int cg param = int_of (read_first_line cg param)

  -- What `MemoryQuota` and `MemoryUsage` read of a file
  unfoldable pub read_memory : Bytes → Table Cgroup → Reading
  read_memory param cg = elim (lookup cgroup_subsys_memory cg) [
    | none ↦ unset
    | some c ↦
        if_defined (read_int c param) (λ defined e. (negsuc 0, (defined, e)))
          (λ n. (n, (true, none)))
  ]

  -- `MemoryQuota`
  abbrev pub memory_quota : Table Cgroup → Reading
  memory_quota cg = read_memory cgroup_memory_limit_bytes cg

  -- `MemoryUsage`
  abbrev pub memory_usage : Table Cgroup → Reading
  memory_usage cg = read_memory cgroup_memory_usage_bytes cg

  abbrev pub divide_by :
      {F : Type 0} → F → (ℤ → ℤ → F) → ℤ → ℤ × Option Error → F × (Bool × Option Error)
  divide_by minus_one quotient quota (period, none) = (quotient quota period, (true, none))
  divide_by minus_one quotient quota (period, some e) = (minus_one, (false, some e))

  -- `CPUQuota`, over the 64-bit floating-point numbers `F`, with -1 and the quotient of two integers.
  unfoldable pub cpu_quota :
      {F : Type 0} → F → (ℤ → ℤ → F) → Table Cgroup → F × (Bool × Option Error)
  cpu_quota minus_one quotient cg = elim (lookup cgroup_subsys_cpu cg) [
    | none ↦ (minus_one, (false, none))
    | some c ↦
        if_defined (read_int c cgroup_cpu_cfs_quota_us_param)
          (λ defined e. (minus_one, (defined, e)))
          (λ quota. divide_by minus_one quotient quota (read_int c cgroup_cpu_cfs_period_us_param))
  ]

-- A reading is sound: when it is set and there is no error the value is positive and fits an int64;
-- in every other case it is -1.
abbrev pub IsSound : Reading → Type 0
IsSound (pos n, (true, none)) = (0 < n) × (n < 9223372036854775808)
IsSound (negsuc n, (true, none)) = ⊥
IsSound (v, (false, e)) = v ≡ negsuc 0
IsSound (v, (true, some e)) = v ≡ negsuc 0

if_defined-IsSound :
    (r : ℤ × Option Error)
    → IsInt64 r.0
    → IsSound (if_defined r (λ defined e. (negsuc 0, (defined, e))) (λ n. (n, (true, none))))
unfolding if_defined
if_defined-IsSound (pos zero, none) h = refl
if_defined-IsSound (pos (suc n), none) h = (omega arith, h)
if_defined-IsSound (negsuc n, none) h = refl
if_defined-IsSound (pos zero, some e) h = refl
if_defined-IsSound (pos (suc n), some e) h = refl
if_defined-IsSound (negsuc n, some e) h = refl

module _ (open_file : Bytes → Result ScannedFile) where
  int_of-IsInt64 : (r : Result Bytes) → IsInt64 (int_of open_file r).0
  int_of-IsInt64 (ok text) = atoi-IsInt64 text
  int_of-IsInt64 (err e) = omega arith

  read_int-IsInt64 : (c : Cgroup) (param : Bytes) → IsInt64 (read_int open_file c param).0
  unfolding read_int
  read_int-IsInt64 c param = int_of-IsInt64 (read_first_line open_file c param)

  -- Whatever the files hold and whichever of them are missing, a reading of the memory's limit or of
  -- its usage that is set and without error is a positive number that an int64 holds, and the value
  -- is -1 when it is not set or there is an error.
  read_memory-IsSound :
      (param : Bytes) (cg : Table Cgroup) → IsSound (read_memory open_file param cg)
  unfolding read_memory
  read_memory-IsSound param cg = by_group (lookup cgroup_subsys_memory cg)
    where
      by_group :
          (o : Option Cgroup)
          → IsSound (elim o [
            | none ↦ unset
            | some c ↦
                if_defined
                  (read_int open_file c param)
                  (λ defined e. (negsuc 0, (defined, e)))
                  (λ n. (n, (true, none)))
          ])
      by_group none = refl
      by_group (some c) = if_defined-IsSound (read_int open_file c param) (read_int-IsInt64 c param)
