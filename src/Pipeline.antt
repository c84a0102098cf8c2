-- ===== src/Pipeline.antt =====
-- What the three batch processors (spans, resource logs, zap logs) promise, whatever their batches,
-- timers and phases are: what was taken in is delivered once each and in order, or still pending.
use go_opentelemetry.Prelude.{◌≡◌, sym, ◌∙◌, ap, List, [], ◌∷◌, ◌++◌, append_assoc}

pub record Pipeline {ℓ} (A : Type ℓ) : Type ℓ where
  pub accepted : List A
  pub delivered : List A
  pub pending : List A

module _ {ℓ} {A : Type ℓ} where
  abbrev pub empty : Pipeline A
  empty = record { accepted = []; delivered = []; pending = [] }

  -- Nothing happens, an item is taken in, or a first part of what is pending is delivered.
  pub data Step (s t : Pipeline A) : Type ℓ where
    idle : t ≡ s → Step s t
    accept :
        (x : A)
        → t ≡ record s { accepted = s.accepted ++ x ∷ []; pending = s.pending ++ x ∷ [] }
        → Step s t
    deliver :
        (xs ys : List A)
        → s.pending ≡ xs ++ ys
        → t ≡ record s { delivered = s.delivered ++ xs; pending = ys }
        → Step s t

  pub data Reach (s : Pipeline A) : Pipeline A → Type ℓ where
    here : Reach s s
    next : {t u : Pipeline A} → Reach s t → Step t u → Reach s u

  abbrev pub IsConserved : Pipeline A → Type ℓ
  IsConserved s = s.accepted ≡ s.delivered ++ s.pending

  Step-IsConserved : {s t : Pipeline A} → Step s t → IsConserved s → IsConserved t
  Step-IsConserved (idle e) h = rw e h
  Step-IsConserved {s} (accept x e) h = rw (e, h) (append_assoc s.delivered s.pending (x ∷ []))
  Step-IsConserved {s} (deliver xs ys p e) h =
      rw e (h ∙ ap (λ l. s.delivered ++ l) p ∙ sym (append_assoc s.delivered xs ys))

  -- What the processors inherit by refinement.
  pub Reach-IsConserved : {s t : Pipeline A} → Reach s t → IsConserved s → IsConserved t
  Reach-IsConserved here h = h
  Reach-IsConserved (next r st) h = Step-IsConserved st (Reach-IsConserved r h)
