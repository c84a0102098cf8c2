-- ===== src/Zap/Keep.antt =====
-- otelzap/writer.go: what the goroutine leaves alone when it takes an item.
use go_opentelemetry.Prelude.{ℕ, ◌+◌, ◌≡◌, refl, Bool, if_both, leb, ◌==◌, if◌then◌else◌}
use go_opentelemetry.Zap.{Item, BatchWriteSyncer, exporting, append_item, calc_log_size}
use go_opentelemetry.Zap.Worker.{should_process_in_batch, batch_item}

-- What `batch_item` leaves as `append` made it.
pub record Kept (p q : BatchWriteSyncer) : Type 0 where
  pub heap : q.heap ≡ p.heap
  pub queue : q.queue ≡ p.queue
  pub accepted : q.accepted ≡ p.accepted
  pub syncs : q.syncs ≡ p.syncs
  pub seen : q.seen ≡ p.seen
  pub handed : q.handed ≡ p.handed

abbrev KeptAfter : BatchWriteSyncer → Bool × BatchWriteSyncer → Type 0
KeptAfter p (b, q) = Kept p (if b then record q { phase = exporting } else q)

module _ (grow : ℕ → ℕ) where
  pub batch_item-Kept :
      (ld : Item) (p : BatchWriteSyncer) → Kept (append_item grow ld p) (batch_item grow ld p)
  unfolding batch_item should_process_in_batch
  batch_item-Kept ld p =
      let q = append_item grow ld p in
      if_both (KeptAfter q) (q.batch.len == q.opt.max_export_batch_size)
        (record {
          heap = refl;
          queue = refl;
          accepted = refl;
          syncs = refl;
          seen = refl;
          handed = refl;
        })
        (if_both (KeptAfter q) (leb q.opt.max_packet_size (q.batched_size + calc_log_size ld))
          (record {
            heap = refl;
            queue = refl;
            accepted = refl;
            syncs = refl;
            seen = refl;
            handed = refl;
          })
          (record {
            heap = refl;
            queue = refl;
            accepted = refl;
            syncs = refl;
            seen = refl;
            handed = refl;
          }))
