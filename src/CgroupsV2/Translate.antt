-- ===== src/CgroupsV2/Translate.antt =====
-- pkg/cgroups/cgroupsv2/mountpoint.go: which paths Translate exposes, and as what.
use go_opentelemetry.Prelude.{
  ◌≡◌, refl, ap, ◌∙◌, true, false, Option, none, some, List, [], ◌∷◌, ◌++◌, arith, Bool-cases,
  Option-cases, inl, inr,
}
use go_opentelemetry.Cgroups.{
  Bytes, bytes_eq, bytes_eq-eq, split, join, lacks, all_lack, split-join, split-field, split-one,
}
use go_opentelemetry.Cgroups.Paths.{
  slash, dot_dot, clean_elements, reverse_onto, starts_at_root, clean, rel, rel_elements,
  relative_text, rooted_text, path_text, join_paths, map_result,
}
use go_opentelemetry.Cgroups.Parse.{MountPoint}
use go_opentelemetry.CgroupsV2.{
  Translation, exposed, path_not_exposed, has_prefix, leads_up, translate, translate_rel,
}
use go_opentelemetry.CgroupsV2.Elements.{
  all_normal, clean-all_normal, clean_below, clean_elements_normal, strip, strip-all_normal,
  rel_elements-strip, rel_elements_up,
}

-- Of two paths that begin at the root.
rel_rooted :
    (base target : Bytes)
    → starts_at_root base ≡ true
    → starts_at_root target ≡ true
    → rel base target
      ≡ map_result relative_text (rel_elements (clean base).elements (clean target).elements)
unfolding rel clean
rel_rooted base target h k = rw (h, k) refl

leads_up_text : (rest : List Bytes) → leads_up (relative_text (dot_dot ∷ rest)) ≡ true
unfolding join
leads_up_text [] = refl
leads_up_text (g ∷ gs) = refl

all_normal-all_lack : (es : List Bytes) → all_normal es ≡ true → all_lack slash es ≡ true
unfolding all_lack
all_normal-all_lack [] h = refl
all_normal-all_lack (e ∷ es) h = ground (arith, h, all_normal-all_lack es)

split_text :
    (e : Bytes) (es : List Bytes)
    → all_normal (e ∷ es) ≡ true
    → split (join slash e es) slash ≡ e ∷ es
split_text e es h =
    split-join slash e es (ground (arith, h)) (all_normal-all_lack es (ground (arith, h)))

has_prefix-eq : (p t : Bytes) → has_prefix p t ≡ true → (r : Bytes) × (t ≡ p ++ r)
has_prefix-eq [] t h = (t, refl)
has_prefix-eq (b ∷ bs) [] h = absurd (cc)
has_prefix-eq (b ∷ bs) (c ∷ cs) h =
    let (r, e) = has_prefix-eq bs cs (ground (arith, h)) in (r, ground (arith, h, e))

-- A text that leads up has `..` as its first field.
leads_up_field :
    (t : Bytes) → leads_up t ≡ true → (fs : List Bytes) × (split t slash ≡ dot_dot ∷ fs)
unfolding lacks
leads_up_field t h = elim (Bool-cases (bytes_eq t dot_dot)) [
  | inl i ↦ ([], ap (λ s. split s slash) (bytes_eq-eq t dot_dot i) ∙ split-one slash dot_dot refl)
  | inr i ↦
      let (r, e) = has_prefix-eq (dot_dot ++ slash ∷ []) t (ground (arith, h, i)) in
      (split r slash, ap (λ s. split s slash) e ∙ split-field slash dot_dot r refl)
]

stays_below : (es : List Bytes) → all_normal es ≡ true → leads_up (relative_text es) ≡ false
stays_below [] h = refl
stays_below (e ∷ es) h = elim (Bool-cases (leads_up (join slash e es))) [
  | inl i ↦
      let (fs, k) = leads_up_field (join slash e es) i in
      let d : e ≡ dot_dot = cc (split_text e es h) in ground (arith, h, d)
  | inr i ↦ i
]

clean_text :
    (es kept : List Bytes)
    → all_normal es ≡ true
    → clean_elements true kept (split (relative_text es) slash) ≡ reverse_onto es kept
unfolding clean_elements split reverse_onto
clean_text [] kept h = refl
clean_text (e ∷ es) kept h = rw (split_text e es h) (clean_elements_normal kept (e ∷ es) h)

clean_rooted :
    (s : Bytes) → starts_at_root s ≡ true → path_text (clean s) ≡ rooted_text (clean s).elements
unfolding path_text clean
clean_rooted s h = rw h refl

join_below :
    (a : Bytes) (es : List Bytes)
    → starts_at_root a ≡ true
    → all_normal es ≡ true
    → join_paths a (relative_text es) ≡ rooted_text ((clean a).elements ++ es)
unfolding join_paths
join_below [] es h n = absurd (cc)
join_below (b ∷ bs) es h n =
    clean_rooted ((b ∷ bs) ++ slash ∷ relative_text es) h
    ∙ ap rooted_text
        (clean_below (b ∷ bs) (relative_text es) es h h n (λ kept. clean_text es kept n))

-- What is expected of a path from what is behind the root.
abbrev pub expected : MountPoint → Bytes → Option (List Bytes) → Translation
expected mp abs_path none = path_not_exposed mp.mount_point mp.root abs_path
expected mp abs_path (some es) = exposed (rooted_text ((clean mp.mount_point).elements ++ es))

-- For a mount point, its root and a path that all begin with a slash: where the elements of the cleaned
-- root come first in the cleaned path, Translate returns the cleaned mount point with the elements behind
-- them below it; and else it returns the error that the path is not exposed.
translate_below :
    (mp : MountPoint) (abs_path : Bytes)
    → starts_at_root mp.mount_point ≡ true
    → starts_at_root mp.root ≡ true
    → starts_at_root abs_path ≡ true
    → translate mp abs_path
      ≡ expected mp abs_path (strip (clean mp.root).elements (clean abs_path).elements)
unfolding translate
translate_below mp abs_path m r h =
    let bs = (clean mp.root).elements in
    let ts = (clean abs_path).elements in
    let e = ap (translate_rel mp abs_path) (rel_rooted mp.root abs_path r h) in
    elim (Option-cases (strip bs ts)) [
      | inl i ↦
          let (rest, k) = rel_elements_up bs ts (clean-all_normal mp.root r) i in
          e ∙ rw (k, i, leads_up_text rest) refl
      | inr (es, i) ↦
          let n = strip-all_normal bs ts (clean-all_normal abs_path h) i in
          e
          ∙ rw (rel_elements-strip bs ts i, i, stays_below es n)
              (ap exposed (join_below mp.mount_point es m n))
    ]
