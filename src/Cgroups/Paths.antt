-- ===== src/Cgroups/Paths.antt =====
-- path/filepath on Unix, as pkg/cgroups uses it: Clean, Join of two elements and Rel.
use go_opentelemetry.Prelude.{
  ℕ, ◌≡◌, refl, Bool, true, false, List, [], ◌∷◌, ◌++◌, arith, if◌then◌else◌, ◌==◌, ◌&&◌, not, ◌||◌,
  inl, inr, Bool-cases, ap, ◌∙◌,
}
use go_opentelemetry.Cgroups.{Bytes, rel_error, Result, ok, err, bytes_eq, split, join}

abbrev pub slash : ℕ
slash = 47

abbrev pub dot : Bytes
dot = 46 ∷ []

abbrev pub dot_dot : Bytes
dot_dot = 46 ∷ 46 ∷ []

-- A cleaned path: whether it begins at the root, and its elements, `.` none.
-- A cleaned path: whether it begins at the root, and its elements. `.` has none.
pub record CleanPath : Type 0 where
  pub rooted : Bool
  pub elements : List Bytes

-- `..` takes back the last element that is kept, the first of `kept`.
abbrev pub go_up : Bool → List Bytes → List Bytes
go_up true [] = []
go_up false [] = dot_dot ∷ []
go_up rooted (e ∷ es) = if bytes_eq e dot_dot then dot_dot ∷ e ∷ es else es

-- The elements in reverse order, from those kept so far.
unfoldable pub clean_elements : Bool → List Bytes → List Bytes → List Bytes
clean_elements rooted kept [] = kept
clean_elements rooted kept (e ∷ es) =
    if bytes_eq e [] || bytes_eq e dot
    then clean_elements rooted kept es
    else (if bytes_eq e dot_dot
        then clean_elements rooted (go_up rooted kept) es
        else clean_elements rooted (e ∷ kept) es)

unfoldable pub reverse_onto : List Bytes → List Bytes → List Bytes
reverse_onto [] out = out
reverse_onto (e ∷ es) out = reverse_onto es (e ∷ out)

abbrev pub starts_at_root : Bytes → Bool
starts_at_root [] = false
starts_at_root (b ∷ bs) = b == slash

unfoldable pub clean : Bytes → CleanPath
clean s = record {
  rooted = starts_at_root s;
  elements = reverse_onto (clean_elements (starts_at_root s) [] (split s slash)) [];
}

abbrev pub relative_text : List Bytes → Bytes
relative_text [] = dot
relative_text (e ∷ es) = join slash e es

abbrev pub rooted_text : List Bytes → Bytes
rooted_text [] = slash ∷ []
rooted_text (e ∷ es) = slash ∷ join slash e es

-- The text of a cleaned path.
unfoldable pub path_text : CleanPath → Bytes
path_text p = if p.rooted then rooted_text p.elements else relative_text p.elements

-- filepath.Join of two elements
unfoldable pub join_paths : Bytes → Bytes → Bytes
join_paths [] [] = []
join_paths [] (b ∷ bs) = path_text (clean (b ∷ bs))
join_paths (a ∷ as_) b = path_text (clean ((a ∷ as_) ++ slash ∷ b))

-- One `..` for each element of the base that is left.
abbrev pub ups : List Bytes → List Bytes → List Bytes
ups [] target = target
ups (e ∷ es) target = dot_dot ∷ ups es target

-- What is left when the elements that the two begin with alike are taken off.
unfoldable pub rel_elements : List Bytes → List Bytes → Result (List Bytes)
rel_elements [] target = ok target
rel_elements (b ∷ bs) [] = ok (ups (b ∷ bs) [])
rel_elements (b ∷ bs) (t ∷ ts) =
    let rest = rel_elements bs ts in
    if bytes_eq b t
    then rest
    else (if bytes_eq b dot_dot then err rel_error else ok (ups (b ∷ bs) (t ∷ ts)))

abbrev pub map_result {ℓ} : {A B : Type ℓ} → (A → B) → Result A → Result B
map_result f (ok a) = ok (f a)
map_result f (err e) = err e

abbrev pub same : Bool → Bool → Bool
same true b = b
same false b = not b

-- Rel compares the text, where the empty relative path is the element `.`, but empties the base.
abbrev pub target_elements : Bool → List Bytes → List Bytes
target_elements false [] = dot ∷ []
target_elements rooted es = es

-- filepath.Rel
unfoldable pub rel : Bytes → Bytes → Result Bytes
rel base target =
    let b = clean base in
    let t = clean target in
    if same b.rooted t.rooted
    then map_result relative_text (rel_elements b.elements (target_elements t.rooted t.elements))
    else err rel_error

-- No element is `..`.
unfoldable never_up : List Bytes → Bool
never_up [] = true
never_up (e ∷ es) = not (bytes_eq e dot_dot) && never_up es

clean_elements-never_up :
    (kept es : List Bytes) → never_up kept ≡ true → never_up (clean_elements true kept es) ≡ true
unfolding clean_elements never_up
clean_elements-never_up kept [] h = h
clean_elements-never_up [] (e ∷ es) h =
    ground (arith, clean_elements-never_up [] es, clean_elements-never_up (e ∷ []) es)
clean_elements-never_up (k ∷ ks) (e ∷ es) h = ground (
  arith,
  clean_elements-never_up (k ∷ ks) es,
  clean_elements-never_up ks es,
  clean_elements-never_up (e ∷ k ∷ ks) es,
)

reverse_onto-never_up :
    (es out : List Bytes)
    → never_up es ≡ true
    → never_up out ≡ true
    → never_up (reverse_onto es out) ≡ true
unfolding reverse_onto never_up
reverse_onto-never_up [] out h k = k
reverse_onto-never_up (e ∷ es) out h k = ground (arith, reverse_onto-never_up es (e ∷ out))

rel_elements-never_up :
    (bs ts : List Bytes) → never_up bs ≡ true → (es : List Bytes) × (rel_elements bs ts ≡ ok es)
unfolding rel_elements never_up
rel_elements-never_up [] ts h = (ts, refl)
rel_elements-never_up (b ∷ bs) [] h = (ups (b ∷ bs) [], refl)
rel_elements-never_up (b ∷ bs) (t ∷ ts) h =
    let (es, p) = rel_elements-never_up bs ts (ground (arith, h)) in
    elim (Bool-cases (bytes_eq b t)) [
      | inl q ↦ (es, ground (arith, p, q))
      | inr q ↦ (ups (b ∷ bs) (t ∷ ts), ground (arith, h, q))
    ]

-- From one path that begins at the root to another there is always a relative path.
pub rel_total :
    (base target : Bytes)
    → starts_at_root base ≡ true
    → starts_at_root target ≡ true
    → (p : Bytes) × (rel base target ≡ ok p)
unfolding rel clean never_up
rel_total base target hb ht =
    let kept = clean_elements (starts_at_root base) [] (split base slash) in
    let nu : never_up kept ≡ true = rw (hb, clean_elements-never_up [] (split base slash) refl) in
    let (es, p) =
      rel_elements-never_up (reverse_onto kept [])
        (target_elements (starts_at_root target) (clean target).elements)
        (reverse_onto-never_up kept [] nu refl) in
    (relative_text es, same_root (rw (hb, ht)) ∙ ap (map_result relative_text) p)
  where
    same_root :
        same (starts_at_root base) (starts_at_root target) ≡ true
        → rel base target
          ≡ map_result relative_text (
              rel_elements
                (clean base).elements
                (target_elements (starts_at_root target) (clean target).elements))
    same_root h = rw h
