-- ===== src/CgroupsV2/Tests.antt =====
-- A path that is exposed and one that is not.
use go_opentelemetry.Prelude.{◌≡◌, refl, [], ◌∷◌}
use go_opentelemetry.Cgroups.{Bytes, split, join}
use go_opentelemetry.Cgroups.Numbers.{pos}
use go_opentelemetry.Cgroups.Paths.{
  clean, clean_elements, reverse_onto, rel, rel_elements, join_paths, path_text,
}
use go_opentelemetry.Cgroups.Parse.{MountPoint}
use go_opentelemetry.CgroupsV2.{translate, path_not_exposed, exposed}

-- `/b`, mounted at `/m`
abbrev mount : MountPoint
mount = record {
  mount_id = pos 1;
  parent_id = pos 0;
  device_id = [];
  root = b'/' ∷ b'b' ∷ [];
  mount_point = b'/' ∷ b'm' ∷ [];
  options = [];
  optional_fields = [];
  fs_type = [];
  mount_source = [];
  super_options = [];
}

-- `/b/c` and `/a`
abbrev inside : Bytes
inside = b'/' ∷ b'b' ∷ b'/' ∷ b'c' ∷ []

abbrev outside : Bytes
outside = b'/' ∷ b'a' ∷ []

all_paths : Unit {0}
unfolding translate rel rel_elements clean clean_elements reverse_onto join_paths path_text split
    join
all_paths = tt

inside_exposed : translate mount inside ≡ exposed (b'/' ∷ b'm' ∷ b'/' ∷ b'c' ∷ [])
unfolding all_paths
inside_exposed = refl

outside_hidden : translate mount outside ≡ path_not_exposed mount.mount_point mount.root outside
unfolding all_paths
outside_hidden = refl
