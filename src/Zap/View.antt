-- ===== src/Zap/View.antt =====
-- The zap writer as the pipeline of Pipeline.antt, what of its state the invariants speak of, and how
-- `append` and `export` change that.
use go_opentelemetry.Prelude.{
  ℕ, zero, suc, ◌≤◌, ◌≡◌, refl, none, some, List, [], ◌∷◌, ◌++◌, append-nil, append_assoc, arith,
  Bool-cases, ltb, length, length-append, length-take, inl, inr, if_both, ap, take, drop,
}
use go_opentelemetry.Pipeline.{Pipeline}
use go_opentelemetry.Zap.{
  Item, ScopeLogs, Slice, Heap, BatchWriteSyncer, Phase, sending, read_slice, write_at, append_item,
  update,
}

-- The logs among the items, in order.
abbrev pub logs : List Item → List ScopeLogs
logs [] = []
logs (none ∷ xs) = logs xs
logs (some l ∷ xs) = l ∷ logs xs

pub logs-append : (xs ys : List Item) → logs (xs ++ ys) ≡ logs xs ++ logs ys
logs-append [] ys = refl
logs-append (none ∷ xs) ys = logs-append xs ys
logs-append (some l ∷ xs) ys = ground (arith, logs-append xs ys)

-- The logs that the slices of all exports had when they were handed over.
abbrev pub all_logs : List (List Item) → List ScopeLogs
all_logs [] = []
all_logs (b ∷ bs) = logs b ++ all_logs bs

pub all_logs-append :
    (bs : List (List Item)) (b : List Item) → all_logs (bs ++ b ∷ []) ≡ all_logs bs ++ logs b
all_logs-append [] b = append-nil (logs b)
all_logs-append (c ∷ bs) b =
    ground (arith, all_logs-append bs b, append_assoc (logs c) (all_logs bs) (logs b))

-- The batch, less what the exporter has been handed.
abbrev pub unsent_at : Phase → List Item → List Item
unsent_at (sending size back) xs = []
unsent_at _ xs = xs

abbrev pub unsent : BatchWriteSyncer → List Item
unsent p = unsent_at p.phase (read_slice p.heap p.batch)

abbrev pub view : BatchWriteSyncer → Pipeline ScopeLogs
view p = record {
  accepted = logs p.accepted;
  delivered = all_logs p.seen;
  pending = logs (unsent p) ++ logs p.queue.items;
}

-- The slice stands within its array.
pub record IsWithin (h : Heap) (s : Slice) : Type 0 where
  pub filled : s.len ≤ length (h s.address)
  pub roomy : s.len ≤ s.cap

pub take-write_at :
    (n : ℕ) (x : Item) (xs : List Item)
    → n ≤ length xs
    → take (suc n) (write_at n x xs) ≡ take n xs ++ x ∷ []
unfolding write_at
take-write_at zero x xs h = refl
take-write_at (suc n) x [] h = absurd (omega arith)
take-write_at (suc n) x (y ∷ xs) h = ap (λ l. y ∷ l) (take-write_at n x xs (omega arith))

pub take_all : {A : Type 0} (n : ℕ) (xs : List A) → length xs ≤ n → take n xs ≡ xs
take_all zero [] h = refl
take_all zero (x ∷ xs) h = absurd (omega arith)
take_all (suc n) [] h = refl
take_all (suc n) (x ∷ xs) h = ap (λ l. x ∷ l) (take_all n xs (omega arith))

length-write_at :
    (n : ℕ) (x : Item) (xs : List Item) → n ≤ length xs → suc n ≤ length (write_at n x xs)
unfolding write_at
length-write_at n x xs h =
    omega (arith, length-append (take n xs) (x ∷ drop (suc n) xs), length-take n xs)

pub update_here : (h : Heap) (a : ℕ) (xs : List Item) → update h a xs a ≡ xs
update_here h a xs = ground arith

length-read_slice : (h : Heap) (s : Slice) → IsWithin h s → length (read_slice h s) ≡ s.len
unfolding read_slice
length-read_slice h s w = omega (arith, length-take s.len (h s.address), w.filled)

length_longer :
    (h : Heap) (s : Slice) (x : Item) → IsWithin h s → length (read_slice h s ++ x ∷ []) ≡ suc s.len
length_longer h s x w =
    omega (arith, length-append (read_slice h s) (x ∷ []), length-read_slice h s w)

-- What `append` leaves alone.
pub record Same (p q : BatchWriteSyncer) : Type 0 where
  pub queue : q.queue ≡ p.queue
  pub phase : q.phase ≡ p.phase
  pub stopped : q.stopped ≡ p.stopped
  pub timer : q.timer ≡ p.timer
  pub accepted : q.accepted ≡ p.accepted
  pub seen : q.seen ≡ p.seen
  pub handed : q.handed ≡ p.handed
  pub syncs : q.syncs ≡ p.syncs

pub append_item-Same :
    (grow : ℕ → ℕ) (x : Item) (p : BatchWriteSyncer) → Same p (append_item grow x p)
unfolding append_item
append_item-Same grow x p =
    if_both (Same p) (ltb p.batch.len p.batch.cap)
      (record {
        queue = refl;
        phase = refl;
        stopped = refl;
        timer = refl;
        accepted = refl;
        seen = refl;
        handed = refl;
        syncs = refl;
      })
      (record {
        queue = refl;
        phase = refl;
        stopped = refl;
        timer = refl;
        accepted = refl;
        seen = refl;
        handed = refl;
        syncs = refl;
      })

-- `append` adds the item to what the slice reads.
pub record Appended (x : Item) (p q : BatchWriteSyncer) : Type 0 where
  pub reads : read_slice q.heap q.batch ≡ read_slice p.heap p.batch ++ x ∷ []
  pub within : IsWithin q.heap q.batch
  pub longer : q.batch.len ≡ suc p.batch.len

pub append_item-Appended :
    (grow : ℕ → ℕ) (x : Item) (p : BatchWriteSyncer)
    → ((n : ℕ) → n ≤ grow n)
    → IsWithin p.heap p.batch
    → Appended x p (append_item grow x p)
unfolding append_item read_slice
append_item-Appended grow x p g w =
    let s = p.batch in
    let xs = p.heap s.address in
    let ys = read_slice p.heap s ++ x ∷ [] in
    elim (Bool-cases (ltb s.len s.cap)) [
      | inl e ↦ rw e (record {
        reads =
            rw (update_here p.heap s.address (write_at s.len x xs))
              (take-write_at s.len x xs w.filled);
        within = record {
          filled =
              rw (update_here p.heap s.address (write_at s.len x xs))
                (length-write_at s.len x xs w.filled);
          roomy = ground (arith, e);
        };
        longer = refl;
      })
      | inr e ↦ rw e (record {
        reads =
            rw (update_here p.heap p.fresh ys)
              (take_all (suc s.len) ys (omega (arith, length_longer p.heap s x w)));
        within = record {
          filled = rw (update_here p.heap p.fresh ys) (omega (arith, length_longer p.heap s x w));
          roomy = g (suc s.len);
        };
        longer = refl;
      })
    ]
