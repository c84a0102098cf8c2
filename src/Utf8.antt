-- ===== src/Utf8.antt =====
-- strings.ToValidUTF8 with an empty replacement, over bytes: what config/codes/code.go and
-- sdk/metric/utility.go use of it.
use go_opentelemetry.Prelude.{
  ℕ, zero, suc, ◌≤◌, ◌≡◌, refl, Bool, true, List, [], ◌∷◌, arith, ltb, leb, if◌then◌else◌, ◌&&◌,
  length,
}

abbrev pub between : ℕ → ℕ → ℕ → Bool
between lo hi b = leb lo b && leb b hi

-- A byte in the range, and what follows it.
abbrev pub then_byte : ℕ → ℕ → (List ℕ → ℕ) → List ℕ → ℕ
then_byte lo hi k [] = 0
then_byte lo hi k (b ∷ bs) = if between lo hi b then k bs else 0

-- How many bytes the well-formed sequence takes that begins with `b`: 0 for none.
unfoldable pub rune_length : ℕ → List ℕ → ℕ
rune_length b bs =
    if ltb b 0x80
    then 1
    else (if between 0xc2 0xdf b
        then then_byte 0x80 0xbf (λ _. 2) bs
        else (if between 0xe0 0xef b
            then then_byte (if leb b 0xe0 then 0xa0 else 0x80)
                (if between 0xed 0xed b then 0x9f else 0xbf) (then_byte 0x80 0xbf (λ _. 3)) bs
            else (if between 0xf0 0xf4 b
                then then_byte (if leb b 0xf0 then 0x90 else 0x80)
                    (if leb 0xf4 b then 0x8f else 0xbf)
                    (then_byte 0x80 0xbf (then_byte 0x80 0xbf (λ _. 4))) bs
                else 0)))

-- Copy the bytes of the sequence that has begun, then look at the next one.
unfoldable pub valid_from : ℕ → List ℕ → List ℕ
valid_from k [] = []
valid_from (suc k) (b ∷ bs) = b ∷ valid_from k bs
valid_from zero (b ∷ bs) = elim (rune_length b bs) [
  | zero ↦ valid_from zero bs
  | suc n ↦ b ∷ valid_from n bs
]

unfoldable pub to_valid_utf8 : List ℕ → List ℕ
to_valid_utf8 s = valid_from 0 s

length-valid_from : (k : ℕ) (s : List ℕ) → length (valid_from k s) ≤ length s
unfolding valid_from
length-valid_from k [] = omega arith
length-valid_from (suc k) (b ∷ bs) = omega (arith, length-valid_from k bs)
length-valid_from zero (b ∷ bs) = rest (λ k. length-valid_from k bs) (rune_length b bs)
  where
    rest :
        ((k : ℕ) → length (valid_from k bs) ≤ length bs)
        → (n : ℕ)
        → length (elim n [ zero ↦ valid_from zero bs | suc n ↦ b ∷ valid_from n bs ])
          ≤ suc (length bs)
    rest ih zero = omega (arith, ih 0)
    rest ih (suc n) = omega (arith, ih n)

pub length-to_valid_utf8 : (s : List ℕ) → length (to_valid_utf8 s) ≤ length s
unfolding to_valid_utf8
length-to_valid_utf8 s = length-valid_from 0 s

abbrev pub is_ascii : List ℕ → Bool
is_ascii [] = true
is_ascii (b ∷ bs) = ltb b 0x80 && is_ascii bs

pub to_valid_utf8_ascii : (s : List ℕ) → is_ascii s ≡ true → to_valid_utf8 s ≡ s
unfolding to_valid_utf8 valid_from rune_length
to_valid_utf8_ascii [] h = refl
to_valid_utf8_ascii (b ∷ bs) h = ground (arith, to_valid_utf8_ascii bs)
