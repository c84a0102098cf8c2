-- ===== src/CgroupsV2.antt =====
-- pkg/cgroups/cgroupsv2: what it does otherwise than pkg/cgroups. Its line formats are those of
-- Cgroups.Parse.
pub mod Quota
pub mod Elements
pub mod Translate
mod Tests
use go_opentelemetry.Prelude.{
  Bool, true, false, List, [], ◌∷◌, ◌++◌, ◌==◌, ◌&&◌, ◌||◌, if◌then◌else◌,
}
use go_opentelemetry.Cgroups.{Bytes, Error, Result, ok, err, bytes_eq}
use go_opentelemetry.Cgroups.Paths.{dot_dot, slash, rel, join_paths}
use go_opentelemetry.Cgroups.Parse.{MountPoint}

-- `strings.HasPrefix`
abbrev pub has_prefix : Bytes → Bytes → Bool
has_prefix [] s = true
has_prefix (b ∷ bs) [] = false
has_prefix (b ∷ bs) (c ∷ cs) = b == c && has_prefix bs cs

-- What `Translate` returns: a path, the error of filepath.Rel, or a `pathNotExposedFromMountPointError`
-- with its mount point, root and path.
pub data Translation : Type 0 where
  exposed : Bytes → Translation
  failed : Error → Translation
  path_not_exposed : Bytes → Bytes → Bytes → Translation

abbrev pub leads_up : Bytes → Bool
leads_up rel_path = bytes_eq rel_path dot_dot || has_prefix (dot_dot ++ slash ∷ []) rel_path

abbrev pub translate_rel : MountPoint → Bytes → Result Bytes → Translation
translate_rel mp abs_path (err e) = failed e
translate_rel mp abs_path (ok rel_path) =
    if leads_up rel_path
    then path_not_exposed mp.mount_point mp.root abs_path
    else exposed (join_paths mp.mount_point rel_path)

-- `Translate`
unfoldable pub translate : MountPoint → Bytes → Translation
translate mp abs_path = translate_rel mp abs_path (rel mp.root abs_path)
