-- ===== src/Sink/Vectors.antt =====
-- oteltrpc/metrics/prometheus/trpc_metric.go: which vector a report reaches.
use go_opentelemetry.Prelude.{
  some_inj, ℕ, ◌==◌, ==_iff, Bool, true, none, some, List, [], ◌∷◌, ◌++◌, map, length, ◌≡◌, ◌≢◌,
  refl, arith, Bool-cases, inl, inr, bind_some, yields_some, ap, sym, ◌∙◌, length-map,
}
use go_opentelemetry.Cgroups.{Bytes, bytes_eq, bytes_eq_self}
use go_opentelemetry.Names.Hash.{hash_new, hash_add, hash_add_byte, hash_add-append}
use go_opentelemetry.Sink.{
  MetricVec, Sink, policy_histogram, labels_hash, add_labels, give, give_at, observe_histogram,
  report, histogram_vec, labels_for, values_for, separator_byte,
}

-- The hash does not tell the end of a metric's name from the start of its first label.
labels_hash_shifts :
    (a b c : Bytes) (labels : List Bytes)
    → labels_hash (a ++ b) (c ∷ labels) ≡ labels_hash a ((b ++ c) ∷ labels)
unfolding add_labels
labels_hash_shifts a b c labels =
    ap (λ h. add_labels (hash_add_byte h separator_byte) labels)
      (ap (λ h. hash_add h c) (hash_add-append hash_new a b)
        ∙ sym (hash_add-append (hash_add hash_new a) b c))

-- How many values a histogram is given for so many dimensions: their own, or the two fixed ones.
abbrev pub width : List (Bytes × Bytes) → ℕ
width [] = 2
width (d ∷ ds) = length (d ∷ ds)

length-values_for :
    (dimensions : List (Bytes × Bytes)) (name : Bytes)
    → length (values_for (map (λ d. d.0) dimensions) (map (λ d. d.1) dimensions) name)
      ≡ width dimensions
length-values_for [] name = refl
length-values_for (d ∷ ds) name = ground (arith, length-map ds (λ d. d.0), length-map ds (λ d. d.1))

module _ {F : Type 0} where
  give_lem :
      (values : List Bytes) (x : F) (v : MetricVec F) {w : MetricVec F}
      → give values x v ≡ some w
      → (length values ≡ length v.labels) × (w.labels ≡ v.labels)
  give_lem values x v h = elim (Bool-cases (length values == length v.labels)) [
    | inl p ↦ ((==_iff _ _).0 p, sym (ap (λ (w : MetricVec F). w.labels) (some_inj (rw p at h))))
    | inr p ↦ absurd (cc (rw p at h))
  ]

  give-none :
      (values : List Bytes) (x : F) (v : MetricVec F)
      → length values ≢ length v.labels
      → give values x v ≡ none
  give-none values x v n = elim (Bool-cases (length values == length v.labels)) [
    | inl p ↦ absurd (n ((==_iff _ _).0 p))
    | inr p ↦ rw p refl
  ]

  -- After a vector has been given values, it panics for values of another number.
  give_at_then :
      {K : Type 0} (same : K → K → Bool) (k : K) (f g : MetricVec F) (us vs : List Bytes) (x y : F)
      (m : List (K × MetricVec F)) {m' : List (K × MetricVec F)}
      → same k k ≡ true
      → length us ≢ length vs
      → give_at same k f us x m ≡ some m'
      → give_at same k g vs y m' ≡ none
  give_at_then same k f g us vs x y [] r n h =
      let (v, p, q) = yields_some (give us x f) (λ v. (k, v) ∷ []) h in
      let (l, e) = give_lem us x f p in
      rw q (rw (r, give-none vs y v (λ z. n (l ∙ ap length (sym e) ∙ sym z))) refl)
  give_at_then same k f g us vs x y ((j, v) ∷ m) r n h = elim (Bool-cases (same j k)) [
    | inl p ↦
        let (w, q, o) = yields_some (give us x v) (λ w. (j, w) ∷ m) (rw p at h) in
        let (l, e) = give_lem us x v q in
        rw o (rw (p, give-none vs y w (λ z. n (l ∙ ap length (sym e) ∙ sym z))) refl)
    | inr p ↦
        let (m', q, o) = yields_some (give_at same k f us x m) (λ n. (j, v) ∷ n) (rw p at h) in
        rw o (rw (p, give_at_then same k f g us vs x y m r n q) refl)
  ]

  -- Of two reports of one metric each, both for the histogram of the same name: where the first, from
  -- whatever state, comes to an end, the second panics if it has another number of dimensions, the lack of
  -- any being counted as two.
  pub histogram_panics :
      (convert_metric_name : Bytes → Bytes) (negative : F → Bool) (to_seconds : F → F)
      (name : Bytes) (x y : F) (rec_name rec_name' : Bytes) (ds es : List (Bytes × Bytes))
      (s : Sink F) {s' : Sink F}
      → width ds ≢ width es
      → report convert_metric_name negative to_seconds rec_name ds
          (record { name = name; policy = policy_histogram; value = x } ∷ [])
          s
        ≡ some s'
      → report convert_metric_name negative to_seconds rec_name' es
          (record { name = name; policy = policy_histogram; value = y } ∷ [])
          s'
        ≡ none
  unfolding report observe_histogram
  histogram_panics convert_metric_name negative to_seconds name x y rec_name rec_name' ds es s n h =
      let ls = map (λ (d : Bytes × Bytes). d.0) ds in
      let us = map (λ (d : Bytes × Bytes). d.1) ds in
      let ls' = map (λ (d : Bytes × Bytes). d.0) es in
      let vs = map (λ (d : Bytes × Bytes). d.1) es in
      let f = histogram_vec convert_metric_name negative to_seconds name (labels_for ls us) in
      let g = histogram_vec convert_metric_name negative to_seconds name (labels_for ls' vs) in
      let (t, o, e) =
        bind_some (observe_histogram convert_metric_name negative to_seconds name x ls us s)
          (λ s. some s) h in
      let (m, p, q) =
        yields_some (give_at bytes_eq name f (values_for ls us name) x s.histograms)
          (λ m. record s { histograms = m }) o in
      let z =
        give_at_then bytes_eq name f g (values_for ls us name) (values_for ls' vs name) x y
          s.histograms (bytes_eq_self name)
          (λ w. n (sym (length-values_for ds name) ∙ w ∙ length-values_for es name)) p in
      rw (sym (some_inj e) ∙ q) (rw z refl)
