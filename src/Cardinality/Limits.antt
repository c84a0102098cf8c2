-- ===== src/Cardinality/Limits.antt =====
-- sdk/metric/limit_cardinality.go: the bounds on what is gathered and collected.
use go_opentelemetry.Prelude.{
  ℕ, suc, ◌+◌, ◌-◌, ◌≤◌, ◌<◌, ◌≡◌, refl, Bool, false, List, [], ◌∷◌, ◌++◌, arith, length,
  length-take, Bool-cases, inl, inr, append_assoc, append-nil, ap, ◌∙◌, sym,
}
use go_opentelemetry.Cardinality.{
  LimitCardinalityGatherer, MetricFamily, Effects, Resets, cut, note_cut, is_over, gather_loop,
  gather, split_metrics, collect, LimitCardinalityCollector, set_gauge, total_name, higher,
}

-- How many series the families have.
abbrev pub series : {M : Type 0} → List (MetricFamily M) → ℕ
series [] = 0
series (v ∷ vs) = length v.metrics + series vs

-- Every family has at most so many series.
abbrev pub AllWithin : {M : Type 0} → ℕ → List (MetricFamily M) → Type 0
AllWithin n [] = Unit {0}
AllWithin n (v ∷ vs) = (length v.metrics ≤ n) × AllWithin n vs

abbrev pub same_families : {M : Type 0} → List (MetricFamily M) → List (MetricFamily M)
same_families vs = vs

module _ {M : Type 0} where
  series-append :
      (vs : List (MetricFamily M)) (w : MetricFamily M)
      → series (vs ++ w ∷ []) ≡ series vs + length w.metrics
  series-append [] w = omega arith
  series-append (v ∷ vs) w = omega (arith, series-append vs w)

  AllWithin-append :
      (n : ℕ) (vs : List (MetricFamily M)) (w : MetricFamily M)
      → AllWithin n vs
      → length w.metrics ≤ n
      → AllWithin n (vs ++ w ∷ [])
  AllWithin-append n [] w h k = (k, tt)
  AllWithin-append n (v ∷ vs) w h k = (h.0, AllWithin-append n vs w h.1 k)

  cut-le :
      (l : LimitCardinalityGatherer) (v : MetricFamily M)
      → 0 < l.per_metric_limit
      → length (cut l v).metrics ≤ l.per_metric_limit
  unfolding cut
  cut-le l v h = ground (arith, length-take l.per_metric_limit v.metrics)

  gather_loop-limited :
      (l : LimitCardinalityGatherer) (done : List (MetricFamily M)) (count total : ℕ)
      (vs : List (MetricFamily M)) (s : Resets × Effects)
      → 0 < l.per_metric_limit
      → 0 < l.total_metric_limit
      → series done ≡ total
      → total ≤ l.total_metric_limit
      → AllWithin l.per_metric_limit done
      → let out = (gather_loop same_families l done count total vs s).0 in
        (series out ≤ l.total_metric_limit) × AllWithin l.per_metric_limit out
  unfolding gather_loop
  gather_loop-limited l done count total [] (r, e) hp ht hs h w = (omega (arith, hs, h), w)
  gather_loop-limited l done count total (v ∷ vs) s hp ht hs h w =
      let w2 = cut l v in
      let total2 = total + length w2.metrics in
      elim (Bool-cases (is_over l.total_metric_limit total2)) [
        | inl o ↦ rw o (omega (arith, hs, h), w)
        | inr o ↦ rw o (
            gather_loop-limited l (done ++ w2 ∷ []) count total2 vs
              ((note_cut l v s).0, set_gauge total_name 0 (note_cut l v s).1) hp ht
              (omega (arith, series-append done w2, hs)) (ground arith)
              (AllWithin-append l.per_metric_limit done w2 w (cut-le l v hp)))
      ]

  -- With both limits on and no processor of the user's, a gather returns families of which each has at
  -- most `PerMetirclimit` series and all together at most `TotalMetricLimit`.
  pub gather_limited :
      (l : LimitCardinalityGatherer) (res : List (MetricFamily M)) (e : Effects)
      → 0 < l.per_metric_limit
      → 0 < l.total_metric_limit
      → let out = (gather same_families l res e).0 in
        (series out ≤ l.total_metric_limit) × AllWithin l.per_metric_limit out
  unfolding gather
  gather_limited l res e hp ht =
      gather_loop-limited l [] (length res) 0 res
        (record { client_done = false; server_done = false }, e) hp ht refl (omega arith) tt

  cut-same :
      (l : LimitCardinalityGatherer) (v : MetricFamily M)
      → length v.metrics ≤ l.per_metric_limit
      → cut l v ≡ v
  unfolding cut
  cut-same l v h = ground arith

  gather_loop-within :
      (p : List (MetricFamily M) → List (MetricFamily M)) (l : LimitCardinalityGatherer)
      (done : List (MetricFamily M)) (count total : ℕ) (vs : List (MetricFamily M))
      (s : Resets × Effects)
      → AllWithin l.per_metric_limit vs
      → total + series vs ≤ l.total_metric_limit
      → (gather_loop p l done count total vs s).0 ≡ p (done ++ vs)
  unfolding gather_loop cut
  gather_loop-within p l done count total [] (r, e) h k = ap p (sym (append-nil done))
  gather_loop-within p l done count total (v ∷ vs) s h k =
      let fits : is_over l.total_metric_limit (total + length v.metrics) ≡ false =
        ground (arith, k) in
      rw (cut-same l v h.0, fits)
        (gather_loop-within p l (done ++ v ∷ []) count (total + length v.metrics) vs
            ((note_cut l v s).0, set_gauge total_name 0 (note_cut l v s).1) h.1 (omega (arith, k))
          ∙ ap p (append_assoc done (v ∷ []) vs))

  -- Where no family is over its limit and the sum is not over the total one, nothing is cut: what the
  -- processor makes of all families is returned.
  gather_within :
      (p : List (MetricFamily M) → List (MetricFamily M)) (l : LimitCardinalityGatherer)
      (res : List (MetricFamily M)) (e : Effects)
      → AllWithin l.per_metric_limit res
      → series res ≤ l.total_metric_limit
      → (gather p l res e).0 ≡ p res
  unfolding gather
  gather_within p l res e h k =
      gather_loop-within p l [] (length res) 0 res
        (record { client_done = false; server_done = false }, e) h (omega (arith, k))

module _ {M F : Type 0} (value : M → F) (greater : F → F → Bool) (at_most_one : F → Bool)
    (sort_slice : (M → M → Bool) → List M → List M) where
  split_metrics_lem :
      (limit i : ℕ) (ms : List M)
      → let (kept, deleted) = split_metrics value greater at_most_one sort_slice limit i ms in
        (length kept + length deleted ≡ length ms) × (length kept ≤ limit - i)
  unfolding split_metrics
  split_metrics_lem limit i [] = (refl, omega arith)
  split_metrics_lem limit i (m ∷ ms) = ground (arith, split_metrics_lem limit (suc i) ms)

  -- A collect sends on at most `limit` metrics, and each metric that the collector inside yields is
  -- either sent on or deleted, if sort.Slice neither adds nor takes away any.
  collect_limited :
      (c : LimitCardinalityCollector) (results : List M) (e : Effects)
      → ((lt : M → M → Bool) (ms : List M) → length (sort_slice lt ms) ≡ length ms)
      → let (kept, deleted) = (collect value greater at_most_one sort_slice c results e).0 in
        (length kept ≤ c.limit) × (length kept + length deleted ≡ length results)
  unfolding collect
  collect_limited c results e h =
      let lt = higher value greater at_most_one sort_slice in
      ground (arith, split_metrics_lem c.limit 0 (sort_slice lt results), h lt results)
