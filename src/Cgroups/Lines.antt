-- ===== src/Cgroups/Lines.antt =====
-- pkg/cgroups: what the parsers make of the lines that the kernel prints.
use go_opentelemetry.Prelude.{
  ℕ, ◌+◌, ◌≡◌, refl, Bool, true, false, none, List, [], ◌∷◌, ◌++◌, not, arith, length, ltb,
  append_assoc, append-nil, ◌∙◌, ap, length-append, Bool-cases, inl, inr, ◌&&◌, ◌==◌,
}
use go_opentelemetry.Cgroups.{Bytes, ok, bytes_eq, split, join, lacks, all_lack, split-join}
use go_opentelemetry.Cgroups.Numbers.{ℤ, atoi}
use go_opentelemetry.Cgroups.Parse.{
  new_cgroup_subsys_from_line, with_number, cgroup_sep, opts_sep, mount_info_sep,
  optional_fields_sep, MountPoint, find_second_half, second_half, mount_of_fields,
  new_mount_point_from_line, translate,
}
use go_opentelemetry.Cgroups.Paths.{starts_at_root, rel_total, join_paths}

-- A line of /proc/PID/cgroup, with the number as it is printed.
abbrev pub subsys_line : Bytes → Bytes → List Bytes → Bytes → Bytes
subsys_line id s subsystems name = join cgroup_sep id (join opts_sep s subsystems ∷ name ∷ [])

lacks-append :
    (c : ℕ) (xs ys : Bytes) → lacks c xs ≡ true → lacks c ys ≡ true → lacks c (xs ++ ys) ≡ true
unfolding lacks
lacks-append c [] ys h k = k
lacks-append c (x ∷ xs) ys h k = ground (arith, lacks-append c xs ys)

-- A byte other than the separator that no field has is not in the joined fields.
lacks-join :
    (c sep : ℕ) (f : Bytes) (fs : List Bytes)
    → c == sep ≡ false
    → lacks c f ≡ true
    → all_lack c fs ≡ true
    → lacks c (join sep f fs) ≡ true
unfolding join all_lack lacks
lacks-join c sep f [] d h hs = h
lacks-join c sep f (g ∷ gs) d h hs =
    lacks-append c f (sep ∷ join sep g gs) h (ground (arith, lacks-join c sep g gs d))

-- The line that is printed for a hierarchy, its number, its controllers and its path, is parsed to
-- just these: when the number's text is one that Atoi accepts, no part has a colon and no controller
-- a comma.
subsys_line_parsed :
    (number : Bytes) (id : ℤ) (s : Bytes) (subsystems : List Bytes) (name : Bytes)
    → atoi number ≡ (id, none)
    → all_lack cgroup_sep (number ∷ name ∷ s ∷ subsystems) ≡ true
    → all_lack opts_sep (s ∷ subsystems) ≡ true
    → new_cgroup_subsys_from_line (subsys_line number s subsystems name)
      ≡ ok (record { id = id; subsystems = s ∷ subsystems; name = name })
unfolding new_cgroup_subsys_from_line with_number all_lack
subsys_line_parsed number id s subsystems name h c o =
    let inner : lacks cgroup_sep (join opts_sep s subsystems) ≡ true =
      lacks-join cgroup_sep opts_sep s subsystems refl (ground (arith, c)) (ground (arith, c)) in
    let fields : split (subsys_line number s subsystems name) cgroup_sep
        ≡ number ∷ join opts_sep s subsystems ∷ name ∷ [] =
      split-join cgroup_sep number (join opts_sep s subsystems ∷ name ∷ []) (ground (arith, c))
        (ground (arith, c, inner)) in
    let subs : split (join opts_sep s subsystems) opts_sep ≡ s ∷ subsystems =
      split-join opts_sep s subsystems (ground (arith, o)) (ground (arith, o)) in
    rw (fields, h, subs)

-- No optional field is the separator.
abbrev pub no_dash : List Bytes → Bool
no_dash [] = true
no_dash (f ∷ fs) = not (bytes_eq f optional_fields_sep) && no_dash fs

find_second_half_lem :
    (line : Bytes) (mp : MountPoint) (before fs rest : List Bytes)
    → no_dash fs ≡ true
    → find_second_half line mp before (fs ++ optional_fields_sep ∷ rest)
      ≡ second_half line (record mp { optional_fields = before ++ fs }) rest
unfolding find_second_half
find_second_half_lem line mp before [] rest h = rw append-nil
find_second_half_lem line mp before (f ∷ fs) rest h = ground (
  arith,
  find_second_half_lem line mp (before ++ f ∷ []) fs rest,
  append_assoc before (f ∷ []) fs,
)

-- The fields of a line of /proc/PID/mountinfo after its two numbers, the lists written out.
pub record MountText : Type 0 where
  pub device_id : Bytes
  pub root : Bytes
  pub mount_point : Bytes
  pub option : Bytes
  pub more_options : List Bytes
  pub optional_fields : List Bytes
  pub fs_type : Bytes
  pub mount_source : Bytes
  pub super_option : Bytes
  pub more_super_options : List Bytes

abbrev pub mount_tail : MountText → List Bytes
mount_tail t =
    t.device_id
    ∷ t.root
    ∷ t.mount_point
    ∷ join opts_sep t.option t.more_options
    ∷ (t.optional_fields
        ++ optional_fields_sep
          ∷ t.fs_type
          ∷ t.mount_source
          ∷ join opts_sep t.super_option t.more_super_options
          ∷ [])

-- The line, with its numbers as they are printed.
abbrev pub mount_line : Bytes → Bytes → MountText → Bytes
mount_line mount_id parent_id t = join mount_info_sep mount_id (parent_id ∷ mount_tail t)

abbrev pub mount_of_text : ℤ → ℤ → MountText → MountPoint
mount_of_text mount_id parent_id t = record {
  mount_id = mount_id;
  parent_id = parent_id;
  device_id = t.device_id;
  root = t.root;
  mount_point = t.mount_point;
  options = t.option ∷ t.more_options;
  optional_fields = t.optional_fields;
  fs_type = t.fs_type;
  mount_source = t.mount_source;
  super_options = t.super_option ∷ t.more_super_options;
}

split-cons : (s : Bytes) (sep : ℕ) → (f : Bytes) × ((fs : List Bytes) × (split s sep ≡ f ∷ fs))
unfolding split
split-cons [] sep = ([], ([], refl))
split-cons (b ∷ bs) sep =
    let (f, (fs, p)) = split-cons bs sep in
    elim (Bool-cases (b == sep)) [
      | inl h ↦ ([], (split bs sep, rw h))
      | inr h ↦ (b ∷ f, (fs, rw (h, p)))
    ]

second_half_lem :
    (line : Bytes) (mp : MountPoint) (t s o : Bytes)
    → second_half line mp (t ∷ s ∷ o ∷ [])
      ≡ ok (record mp { fs_type = t; mount_source = s; super_options = split o opts_sep })
second_half_lem line mp t s o =
    let (f, (fs, p)) = split-cons mp.mount_point 47 in rw (second_half, p)

length-mount :
    (fs : List Bytes) (a b c d : Bytes) → ltb (6 + length (fs ++ a ∷ b ∷ c ∷ d ∷ [])) 10 ≡ false
length-mount fs a b c d = ground (arith, length-append fs (a ∷ b ∷ c ∷ d ∷ []))

-- The line that is printed for a mount is parsed to just its parts, the optional fields being any
-- number of them: when its two numbers are ones that Atoi accepts, no field has a space, no option has
-- a comma and no optional field is the separator.
mount_line_parsed :
    (n m : Bytes) (mount_id parent_id : ℤ) (t : MountText)
    → atoi n ≡ (mount_id, none)
    → atoi m ≡ (parent_id, none)
    → all_lack mount_info_sep (n ∷ m ∷ mount_tail t) ≡ true
    → all_lack opts_sep (t.option ∷ t.more_options) ≡ true
    → all_lack opts_sep (t.super_option ∷ t.more_super_options) ≡ true
    → no_dash t.optional_fields ≡ true
    → new_mount_point_from_line (mount_line n m t) ≡ ok (mount_of_text mount_id parent_id t)
unfolding new_mount_point_from_line with_number all_lack
mount_line_parsed n m mount_id parent_id t hn hm hs ho hp hd =
    let line = mount_line n m t in
    let fields : split line mount_info_sep ≡ n ∷ m ∷ mount_tail t =
      split-join mount_info_sep n (m ∷ mount_tail t) (ground (arith, hs)) (ground (arith, hs)) in
    let opts : split (join opts_sep t.option t.more_options) opts_sep ≡ t.option ∷ t.more_options =
      split-join opts_sep t.option t.more_options (ground (arith, ho)) (ground (arith, ho)) in
    let supers : split (join opts_sep t.super_option t.more_super_options) opts_sep
        ≡ t.super_option ∷ t.more_super_options =
      split-join opts_sep t.super_option t.more_super_options (ground (arith, hp))
        (ground (arith, hp)) in
    let mp = record (mount_of_text mount_id parent_id t) {
      options = split (join opts_sep t.option t.more_options) opts_sep;
      optional_fields = [];
      fs_type = [];
      mount_source = [];
      super_options = [];
    } in
    let super = join opts_sep t.super_option t.more_super_options in
    ap (mount_of_fields line) fields
    ∙ after_numbers line
    ∙ find_second_half_lem line mp [] t.optional_fields (t.fs_type ∷ t.mount_source ∷ super ∷ []) hd
    ∙ second_half_lem line (record mp { optional_fields = t.optional_fields }) t.fs_type
        t.mount_source super
    ∙ rw (opts, supers)
  where
    after_numbers :
        (line : Bytes)
        → mount_of_fields line (n ∷ m ∷ mount_tail t)
          ≡ find_second_half line
              (record (mount_of_text mount_id parent_id t) {
                options = split (join opts_sep t.option t.more_options) opts_sep;
                optional_fields = [];
                fs_type = [];
                mount_source = [];
                super_options = [];
              })
              []
              (t.optional_fields
                ++ optional_fields_sep
                  ∷ t.fs_type
                  ∷ t.mount_source
                  ∷ join opts_sep t.super_option t.more_super_options
                  ∷ [])
    after_numbers line = rw (
      length-mount t.optional_fields optional_fields_sep t.fs_type t.mount_source
          (join opts_sep t.super_option t.more_super_options),
      hn,
      hm,
    )

-- `Translate` gives no error for a path that begins with `/`, if the mount's root begins with `/` too.
translate_total :
    (mp : MountPoint) (abs_path : Bytes)
    → starts_at_root mp.root ≡ true
    → starts_at_root abs_path ≡ true
    → (p : Bytes) × (translate mp abs_path ≡ ok p)
unfolding translate
translate_total mp abs_path hr ha =
    let (rel_path, q) = rel_total mp.root abs_path hr ha in
    (join_paths mp.mount_point rel_path, rw (q, translate) refl)
