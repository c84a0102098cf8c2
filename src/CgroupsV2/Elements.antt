-- ===== src/CgroupsV2/Elements.antt =====
-- path/filepath on Unix: the elements of cleaned paths.
use go_opentelemetry.Prelude.{
  ℕ, ◌≡◌, refl, sym, ap, ◌∙◌, Bool, true, false, ◌&&◌, not, ◌||◌, Option, none, some, List, [], ◌∷◌,
  ◌++◌, append-nil, append_assoc, arith, Bool-cases, inl, inr, ◌==◌, if◌then◌else◌,
}
use go_opentelemetry.Cgroups.{Bytes, bytes_eq, split, lacks, all_lack, before_first, ok}
use go_opentelemetry.Cgroups.Paths.{
  slash, dot, dot_dot, go_up, clean_elements, reverse_onto, starts_at_root, clean, ups,
  rel_elements,
}

-- An element that cleaning keeps as it is: not empty, neither `.` nor `..`, and without a slash.
abbrev pub is_normal : Bytes → Bool
is_normal e =
    lacks slash e && (not (bytes_eq e []) && (not (bytes_eq e dot) && not (bytes_eq e dot_dot)))

abbrev pub all_normal : List Bytes → Bool
all_normal [] = true
all_normal (e ∷ es) = is_normal e && all_normal es

before_first-all_lack :
    (sep b : ℕ) (fs : List Bytes)
    → (b == sep) ≡ false
    → all_lack sep fs ≡ true
    → all_lack sep (before_first b fs) ≡ true
unfolding all_lack lacks
before_first-all_lack sep b [] h k = ground (arith, h)
before_first-all_lack sep b (f ∷ fs) h k = ground (arith, h, k)

-- No field of a split text has the separator.
split-all_lack : (s : Bytes) (sep : ℕ) → all_lack sep (split s sep) ≡ true
unfolding split all_lack lacks
split-all_lack [] sep = refl
split-all_lack (b ∷ bs) sep = elim (Bool-cases (b == sep)) [
  | inl h ↦ rw h (split-all_lack bs sep)
  | inr h ↦ rw h (before_first-all_lack sep b (split bs sep) h (split-all_lack bs sep))
]

before_first-append :
    (b : ℕ) (f : Bytes) (fs gs : List Bytes)
    → before_first b ((f ∷ fs) ++ gs) ≡ before_first b (f ∷ fs) ++ gs
before_first-append b f fs gs = refl

split_cons : (s : Bytes) (sep : ℕ) → (f : Bytes) × (fs : List Bytes) × (split s sep ≡ f ∷ fs)
unfolding split
split_cons [] sep = ([], [], refl)
split_cons (b ∷ bs) sep =
    let (f, fs, e) = split_cons bs sep in
    elim (Bool-cases (b == sep)) [
      | inl h ↦ ([], split bs sep, rw h refl)
      | inr h ↦ (b ∷ f, fs, rw (h, e) refl)
    ]

pub split-append : (s t : Bytes) (sep : ℕ) → split (s ++ sep ∷ t) sep ≡ split s sep ++ split t sep
unfolding split
split-append [] t sep = ground arith
split-append (b ∷ bs) t sep =
    let (f, fs, e) = split_cons bs sep in
    elim (Bool-cases (b == sep)) [
      | inl h ↦ rw (h, split-append bs t sep) refl
      | inr h ↦ rw (h, split-append bs t sep, e) refl
    ]

go_up-all_normal :
    (kept : List Bytes) → all_normal kept ≡ true → all_normal (go_up true kept) ≡ true
go_up-all_normal [] h = refl
go_up-all_normal (k ∷ ks) h = ground (arith, h)

clean_elements-all_normal :
    (kept es : List Bytes)
    → all_normal kept ≡ true
    → all_lack slash es ≡ true
    → all_normal (clean_elements true kept es) ≡ true
unfolding clean_elements all_lack
clean_elements-all_normal kept [] h k = h
clean_elements-all_normal kept (e ∷ es) h k = ground (
  arith,
  clean_elements-all_normal kept es,
  clean_elements-all_normal (go_up true kept) es (go_up-all_normal kept h),
  clean_elements-all_normal (e ∷ kept) es,
)

reverse_onto-all_normal :
    (es out : List Bytes)
    → all_normal es ≡ true
    → all_normal out ≡ true
    → all_normal (reverse_onto es out) ≡ true
unfolding reverse_onto
reverse_onto-all_normal [] out h k = k
reverse_onto-all_normal (e ∷ es) out h k = ground (arith, reverse_onto-all_normal es (e ∷ out))

-- What cleaning leaves of a path that begins at the root.
pub clean-all_normal : (s : Bytes) → starts_at_root s ≡ true → all_normal (clean s).elements ≡ true
unfolding clean
clean-all_normal s h = rw h (
    reverse_onto-all_normal (clean_elements true [] (split s slash)) []
      (clean_elements-all_normal [] (split s slash) refl (split-all_lack s slash)) refl)

clean_elements-append :
    (kept xs ys : List Bytes)
    → clean_elements true kept (xs ++ ys) ≡ clean_elements true (clean_elements true kept xs) ys
unfolding clean_elements
clean_elements-append kept [] ys = refl
clean_elements-append kept (x ∷ xs) ys = elim (Bool-cases (bytes_eq x [] || bytes_eq x dot)) [
  | inl h ↦ rw h (clean_elements-append kept xs ys)
  | inr h ↦ elim (Bool-cases (bytes_eq x dot_dot)) [
    | inl i ↦ rw (h, i) (clean_elements-append (go_up true kept) xs ys)
    | inr i ↦ rw (h, i) (clean_elements-append (x ∷ kept) xs ys)
  ]
]

-- Normal elements are all kept.
pub clean_elements_normal :
    (kept ys : List Bytes)
    → all_normal ys ≡ true
    → clean_elements true kept ys ≡ reverse_onto ys kept
unfolding clean_elements reverse_onto
clean_elements_normal kept [] h = refl
clean_elements_normal kept (y ∷ ys) h =
    let n : bytes_eq y [] ≡ false = ground (arith, h) in
    let d : bytes_eq y dot ≡ false = ground (arith, h) in
    let u : bytes_eq y dot_dot ≡ false = ground (arith, h) in
    rw (n, d, u) (clean_elements_normal (y ∷ kept) ys (ground (arith, h)))

reverse_onto_twice :
    (ys kept out : List Bytes)
    → reverse_onto (reverse_onto ys kept) out ≡ reverse_onto kept (ys ++ out)
unfolding reverse_onto
reverse_onto_twice [] kept out = refl
reverse_onto_twice (y ∷ ys) kept out = reverse_onto_twice ys (y ∷ kept) out

reverse_onto-append : (kept out : List Bytes) → reverse_onto kept out ≡ reverse_onto kept [] ++ out
unfolding reverse_onto
reverse_onto-append [] out = refl
reverse_onto-append (k ∷ ks) out =
    reverse_onto-append ks (k ∷ out)
    ∙ sym (append_assoc (reverse_onto ks []) (k ∷ []) out)
    ∙ ap (λ l. l ++ out) (sym (reverse_onto-append ks (k ∷ [])))

-- A path that begins at the root, with a slash and more behind it, whose fields clean to `es`.
pub clean_below :
    (a t : Bytes) (es : List Bytes)
    → starts_at_root a ≡ true
    → starts_at_root (a ++ slash ∷ t) ≡ true
    → all_normal es ≡ true
    → ((kept : List Bytes) → clean_elements true kept (split t slash) ≡ reverse_onto es kept)
    → (clean (a ++ slash ∷ t)).elements ≡ (clean a).elements ++ es
unfolding clean
clean_below a t es h k n c =
    rw (h, k, split-append a t slash, clean_elements-append [] (split a slash) (split t slash), c)
      (reverse_onto_twice es (clean_elements true [] (split a slash)) []
        ∙ ap (reverse_onto (clean_elements true [] (split a slash))) (append-nil es)
        ∙ reverse_onto-append (clean_elements true [] (split a slash)) es)

-- The elements behind those that the base has, where these come first.
abbrev pub strip : List Bytes → List Bytes → Option (List Bytes)
strip [] target = some target
strip (b ∷ bs) [] = none
strip (b ∷ bs) (t ∷ ts) = if bytes_eq b t then strip bs ts else none

pub strip-all_normal :
    (bs ts : List Bytes) {es : List Bytes}
    → all_normal ts ≡ true
    → strip bs ts ≡ some es
    → all_normal es ≡ true
strip-all_normal [] ts h e = ground (arith, h, e)
strip-all_normal (b ∷ bs) [] h e = absurd (cc)
strip-all_normal (b ∷ bs) (t ∷ ts) h e = elim (Bool-cases (bytes_eq b t)) [
  | inl i ↦ strip-all_normal bs ts (ground (arith, h)) (ground (arith, e, i))
  | inr i ↦ ground (arith, e, i)
]

-- What filepath.Rel finds: what is behind the base, or else a path that begins with `..`.
pub rel_elements-strip :
    (bs ts : List Bytes) {es : List Bytes} → strip bs ts ≡ some es → rel_elements bs ts ≡ ok es
unfolding rel_elements
rel_elements-strip [] ts e = ap ok (cc)
rel_elements-strip (b ∷ bs) [] e = absurd (cc)
rel_elements-strip (b ∷ bs) (t ∷ ts) e = elim (Bool-cases (bytes_eq b t)) [
  | inl i ↦ rw i (rel_elements-strip bs ts (ground (arith, e, i)))
  | inr i ↦ ground (arith, e, i)
]

pub rel_elements_up :
    (bs ts : List Bytes)
    → all_normal bs ≡ true
    → strip bs ts ≡ none
    → (rest : List Bytes) × (rel_elements bs ts ≡ ok (dot_dot ∷ rest))
unfolding rel_elements
rel_elements_up [] ts n e = absurd (cc)
rel_elements_up (b ∷ bs) [] n e = (ups bs [], refl)
rel_elements_up (b ∷ bs) (t ∷ ts) n e = elim (Bool-cases (bytes_eq b t)) [
  | inl i ↦ rw i (rel_elements_up bs ts (ground (arith, n)) (ground (arith, e, i)))
  | inr i ↦ (ups bs (t ∷ ts), rw i (ground (arith, n)))
]
