-- ===== src/Names/Hash.antt =====
-- oteltrpc/metrics/prometheus/fnv.go: the 64-bit FNV-1a hash.
use Prim.Native.Nat.{bit_xor}
use go_opentelemetry.Prelude.{ℕ, ◌*◌, ◌%◌, ◌^◌, ◌≡◌, refl, sym, List, [], ◌∷◌, ◌++◌}

abbrev pub offset64 : ℕ
offset64 = 14695981039346656037

abbrev pub prime64 : ℕ
prime64 = 1099511628211

-- `hashNew`
abbrev pub hash_new : ℕ
hash_new = offset64

-- `hashAddByte`
unfoldable pub hash_add_byte : ℕ → ℕ → ℕ
hash_add_byte h b = bit_xor h b * prime64 % 2 ^ 64

-- `hashAdd`
unfoldable pub hash_add : ℕ → List ℕ → ℕ
hash_add h [] = h
hash_add h (b ∷ bs) = hash_add (bit_xor h b * prime64 % 2 ^ 64) bs

pub hash_add-append : (h : ℕ) (s t : List ℕ) → hash_add h (s ++ t) ≡ hash_add (hash_add h s) t
unfolding hash_add
hash_add-append h [] t = refl
hash_add-append h (b ∷ bs) t = hash_add-append (bit_xor h b * prime64 % 2 ^ 64) bs t

-- Hashing a name, a separator and a value, as label sets are hashed, is hashing the three written one
-- after the other.
hash_in_parts :
    (h : ℕ) (s : List ℕ) (sep : ℕ) (t : List ℕ)
    → hash_add (hash_add_byte (hash_add h s) sep) t ≡ hash_add h (s ++ sep ∷ t)
unfolding hash_add_byte hash_add
hash_in_parts h s sep t = sym (hash_add-append h s (sep ∷ t))
