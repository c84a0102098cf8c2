-- ===== src/Cgroups.antt =====
-- pkg/cgroups: reading the limits of the process from the files of /proc and of the cgroup file
-- system. Text is bytes; a file is the lines that bufio.Scanner yields of it.
pub mod Numbers
pub mod Paths
pub mod Parse
pub mod Quota
pub mod Lines
mod Tests
use go_opentelemetry.Prelude.{
  ℕ, Bool, true, false, Option, none, some, List, [], ◌∷◌, ◌++◌, ◌≡◌, refl, arith, if◌then◌else◌,
  ◌==◌, ◌&&◌, not, ◌≢◌, ap, ap₂, ◌∙◌, ◌↔◌,
}

abbrev pub Bytes : Type 0
Bytes = List ℕ

-- The errors that the package tells apart, those of the operating system by their number.
pub data Error : Type 0 where
  os_error : ℕ → Error
  unexpected_eof : Error
  syntax_error : Error
  range_error : Error
  rel_error : Error
  cgroup_subsys_format_invalid : Bytes → Error
  mount_point_format_invalid : Bytes → Error

pub data Result {ℓ} (A : Type ℓ) : Type ℓ where
  ok : A → Result A
  err : Error → Result A

abbrev pub bytes_eq : Bytes → Bytes → Bool
bytes_eq [] [] = true
bytes_eq [] (y ∷ ys) = false
bytes_eq (x ∷ xs) [] = false
bytes_eq (x ∷ xs) (y ∷ ys) = x == y && bytes_eq xs ys

pub bytes_eq_self : (s : Bytes) → bytes_eq s s ≡ true
bytes_eq_self [] = refl
bytes_eq_self (x ∷ xs) = ground (arith, bytes_eq_self xs)

pub bytes_eq-eq : (s t : Bytes) → bytes_eq s t ≡ true → s ≡ t
bytes_eq-eq [] [] h = refl
bytes_eq-eq [] (y ∷ ys) h = ground (arith, h)
bytes_eq-eq (x ∷ xs) [] h = ground (arith, h)
bytes_eq-eq (x ∷ xs) (y ∷ ys) h = ground (arith, bytes_eq-eq xs ys)

-- Put a byte before the first field.
abbrev pub before_first : ℕ → List Bytes → List Bytes
before_first b [] = (b ∷ []) ∷ []
before_first b (f ∷ fs) = (b ∷ f) ∷ fs

-- strings.Split for a separator of one byte
unfoldable pub split : Bytes → ℕ → List Bytes
split [] sep = [] ∷ []
split (b ∷ bs) sep = if b == sep then [] ∷ split bs sep else before_first b (split bs sep)

-- The fields with a separator after each but the last.
unfoldable pub join : ℕ → Bytes → List Bytes → Bytes
join sep f [] = f
join sep f (g ∷ gs) = f ++ sep ∷ join sep g gs

-- The byte does not occur.
unfoldable pub lacks : ℕ → Bytes → Bool
lacks sep [] = true
lacks sep (b ∷ bs) = not (b == sep) && lacks sep bs

unfoldable pub all_lack : ℕ → List Bytes → Bool
all_lack sep [] = true
all_lack sep (f ∷ fs) = lacks sep f && all_lack sep fs

pub split-field :
    (sep : ℕ) (f t : Bytes) → lacks sep f ≡ true → split (f ++ sep ∷ t) sep ≡ f ∷ split t sep
unfolding split lacks
split-field sep [] t h = ground arith
split-field sep (b ∷ bs) t h = ground (arith, split-field sep bs t)

pub split-one : (sep : ℕ) (f : Bytes) → lacks sep f ≡ true → split f sep ≡ f ∷ []
unfolding split lacks
split-one sep [] h = refl
split-one sep (b ∷ bs) h = ground (arith, split-one sep bs)

pub split-join :
    (sep : ℕ) (f : Bytes) (fs : List Bytes)
    → lacks sep f ≡ true
    → all_lack sep fs ≡ true
    → split (join sep f fs) sep ≡ f ∷ fs
unfolding join all_lack
split-join sep f [] h hs = split-one sep f h
split-join sep f (g ∷ gs) h hs =
    ground (arith, split-field sep f (join sep g gs) h, split-join sep g gs)
