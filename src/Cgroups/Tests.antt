-- ===== src/Cgroups/Tests.antt =====
-- pkg/cgroups on concrete lines and files.
use go_opentelemetry.Prelude.{true, none, [], ◌∷◌, ◌≡◌, refl, if◌then◌else◌}
use go_opentelemetry.Cgroups.{Bytes, os_error, Result, ok, err, bytes_eq}
use go_opentelemetry.Cgroups.Numbers.{pos, scan, atoi}
use go_opentelemetry.Cgroups.Paths.{
  rel, clean, clean_elements, reverse_onto, rel_elements, join_paths, path_text,
}
use go_opentelemetry.Cgroups.Parse.{
  ScannedFile, Table, lookup, store, translate, parse_subsystem_lines, parse_mount_lines,
  new_cgroup_subsys_from_line, new_mount_point_from_line, find_second_half, with_number,
}
use go_opentelemetry.Cgroups.{split, join}
use go_opentelemetry.Cgroups.Quota.{
  Cgroup, cgroup_fs_type, cgroup_subsys_memory, read_memory, cgroup_memory_limit_bytes,
  memory_quota, new_cgroups, parse_cgroup_subsystems, parse_mount_info, new_mount_point,
  add_options, if_defined, read_int, read_first_line,
}
use go_opentelemetry.Cgroups.Lines.{subsys_line, MountText, mount_line}

abbrev four : Bytes
four = b'4' ∷ []

abbrev docker : Bytes
docker = b'/' ∷ b'd' ∷ []

abbrev cpu_acct : Bytes
cpu_acct = b'a' ∷ b'c' ∷ b'c' ∷ []

abbrev mount : MountText
mount = record {
  device_id = b'0' ∷ b':' ∷ b'3' ∷ [];
  root = docker;
  mount_point = b'/' ∷ b's' ∷ [];
  option = b'r' ∷ b'o' ∷ [];
  more_options = [];
  optional_fields = four ∷ cpu_acct ∷ [];
  fs_type = cgroup_fs_type;
  mount_source = cgroup_fs_type;
  super_option = b'r' ∷ b'w' ∷ [];
  more_super_options = cgroup_subsys_memory ∷ [];
}

-- The cgroup file system of a container: two files of /proc, here `p` and `m`, and the limit.
abbrev files : Bytes → Result ScannedFile
files path =
    if bytes_eq path (b'p' ∷ [])
    then ok (record {
      lines = subsys_line four cgroup_subsys_memory [] (b'/' ∷ b'd' ∷ b'/' ∷ b'x' ∷ []) ∷ [];
      scan_error = none;
    })
    else (if bytes_eq path (b'm' ∷ [])
        then ok (record { lines = mount_line four (b'2' ∷ []) mount ∷ []; scan_error = none })
        else (if bytes_eq path (b'/' ∷ b's' ∷ b'/' ∷ b'x' ∷ b'/' ∷ cgroup_memory_limit_bytes)
            then ok (record { lines = (b'6' ∷ b'4' ∷ []) ∷ []; scan_error = none })
            else err (os_error 2)))

abbrev container : Table Cgroup
container = (cgroup_subsys_memory, record { path = b'/' ∷ b's' ∷ b'/' ∷ b'x' ∷ [] }) ∷ []

container_found : new_cgroups files (b'm' ∷ []) (b'p' ∷ []) ≡ ok container
unfolding new_cgroups parse_cgroup_subsystems parse_mount_info parse_subsystem_lines
    parse_mount_lines new_cgroup_subsys_from_line new_mount_point_from_line split join with_number
    atoi scan find_second_half new_mount_point add_options lookup store translate rel clean
    clean_elements reverse_onto rel_elements join_paths path_text
container_found = refl

limit_read : memory_quota files container ≡ (pos 64, (true, none))
unfolding read_memory if_defined read_int read_first_line lookup atoi scan split join clean
    clean_elements reverse_onto join_paths path_text
limit_read = refl
