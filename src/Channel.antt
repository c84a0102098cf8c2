-- ===== src/Channel.antt =====
-- What the programs use of Go's channels. A buffered channel is its items, oldest first, its capacity and whether it is closed.
use go_opentelemetry.Prelude.{
  ℕ, ◌≤◌, ◌≡◌, Bool, true, false, Option, none, some, List, [], ◌∷◌, ◌++◌, arith, length,
  length-append, ltb, ltb→lt, if◌then◌else◌, Bool-cases, inl, inr, refl, ap, ◌<◌,
}

pub record Chan {ℓ} (A : Type ℓ) : Type ℓ where
  pub items : List A
  pub cap : ℕ
  pub closed : Bool

-- What a send that does not wait comes to. A send on a closed channel panics.
pub data Send {ℓ} (A : Type ℓ) : Type ℓ where
  sent : Chan A → Send A
  full : Send A
  panicked : Send A

-- What a receive that does not wait comes to. `drained` is the zero value of a closed channel.
pub data Recv {ℓ} (A : Type ℓ) : Type ℓ where
  got : A → Chan A → Recv A
  drained : Recv A
  waiting : Recv A

module _ {ℓ} {A : Type ℓ} where
  -- `make(chan A, n)`
  abbrev pub make : ℕ → Chan A
  make n = record { items = []; cap = n; closed = false }

  unfoldable pub send : A → Chan A → Send A
  send x c =
      if c.closed
      then panicked
      else (if ltb (length c.items) c.cap
          then sent (record c { items = c.items ++ x ∷ [] })
          else full)

  abbrev pub recv_from : List A → Chan A → Recv A
  recv_from [] c = if c.closed then drained else waiting
  recv_from (x ∷ xs) c = got x (record c { items = xs })

  unfoldable pub recv : Chan A → Recv A
  recv c = recv_from c.items c

  -- A second `close` panics, which is `none`.
  unfoldable pub close : Chan A → Option (Chan A)
  close c = if c.closed then none else some (record c { closed = true })

  -- A send keeps the channel within its capacity.
  pub send-le-cap :
      (x : A) (c : Chan A) {c' : Chan A} → send x c ≡ sent c' → length c'.items ≤ c'.cap
  unfolding send
  send-le-cap x c h = ground (arith, length-append c.items (x ∷ []))

-- To split on what an operation came to.
pub data RecvCases {ℓ} {A : Type ℓ} (c : Chan A) : Type ℓ where
  is_got :
      (x : A) (c' : Chan A)
      → recv c ≡ got x c'
      → c.items ≡ x ∷ c'.items
      → c'.cap ≡ c.cap
      → c'.closed ≡ c.closed
      → RecvCases c
  is_drained : recv c ≡ drained → c.items ≡ [] → c.closed ≡ true → RecvCases c
  is_waiting : recv c ≡ waiting → c.items ≡ [] → c.closed ≡ false → RecvCases c

pub data SendCases {ℓ} {A : Type ℓ} (x : A) (c : Chan A) : Type ℓ where
  is_sent :
      (c' : Chan A)
      → send x c ≡ sent c'
      → c'.items ≡ c.items ++ x ∷ []
      → c'.cap ≡ c.cap
      → c'.closed ≡ false
      → c.closed ≡ false
      → length c.items < c.cap
      → SendCases x c
  is_full : send x c ≡ full → c.cap ≤ length c.items → c.closed ≡ false → SendCases x c
  is_panicked : send x c ≡ panicked → c.closed ≡ true → SendCases x c

module _ {ℓ} {A : Type ℓ} where
  recv_from_cases : (l : List A) (c : Chan A) → c.items ≡ l → RecvCases c
  unfolding recv
  recv_from_cases [] c e = elim (Bool-cases c.closed) [
    | inl h ↦ is_drained (rw (e, recv_from) (rw h)) e h
    | inr h ↦ is_waiting (rw (e, recv_from) (rw h)) e h
  ]
  recv_from_cases (x ∷ xs) c e =
      is_got x (record c { items = xs }) (ap (λ l. recv_from l c) e) e refl refl

  pub recv_cases : (c : Chan A) → RecvCases c
  recv_cases c = recv_from_cases c.items c refl

  pub send_cases : (x : A) (c : Chan A) → SendCases x c
  unfolding send
  send_cases x c = elim (Bool-cases c.closed) [
    | inl h ↦ is_panicked (rw h) h
    | inr h ↦ elim (Bool-cases (ltb (length c.items) c.cap)) [
      | inl r ↦
          is_sent (record c { items = c.items ++ x ∷ [] }) (rw (h, r)) refl refl h h (ltb→lt _ _ r)
      | inr r ↦ is_full (rw (h, r)) (ground arith) h
    ]
  ]
