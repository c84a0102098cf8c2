-- ===== src/Zap/Loss.antt =====
-- otelzap/writer.go: a call of Sync, and an item that the goroutine takes while that call exports.
use go_opentelemetry.Prelude.{
  zero, ℕ, ◌≤◌, ◌<◌, ◌≡◌, refl, sym, ap, ◌∙◌, Bool, some, List, [], ◌∷◌, ◌++◌, append_assoc, lt→ltb,
}
use go_opentelemetry.Channel.{recv, recv_from}
use go_opentelemetry.Timer
use go_opentelemetry.Zap.{
  ScopeLogs, Item, BatchWriteSyncer, Phase, processing, exporting, sending, draining, closing,
  finished, read_slice,
}
use go_opentelemetry.Zap.Worker.{
  moves, queue_case, export_begin, batch_item, process_received, process_queue, sync_begin,
  sync_end, sync_end_at, take_sync, export_end,
}
use go_opentelemetry.Zap.System.{work, sync_start, sync_return, step, work_at, Quiet}
use go_opentelemetry.Zap.View.{logs, all_logs, all_logs-append, unsent, unsent_at, append_item-Same}
use go_opentelemetry.Zap.Keep.{batch_item-Kept}
use go_opentelemetry.Zap.Refine.{zap_conserved}

unsent_at-nil : (ph : Phase) → unsent_at ph [] ≡ []
unsent_at-nil processing = refl
unsent_at-nil exporting = refl
unsent_at-nil draining = refl
unsent_at-nil closing = refl
unsent_at-nil finished = refl
unsent_at-nil (sending size back) = refl

-- Where `x` was first in the queue behind the logs handed over, and is in neither place now.
lost_of :
    (t : BatchWriteSyncer) (ts : List Item) (bs : List (List Item)) (b : List Item) (x : ScopeLogs)
    (xs : List Item)
    → t.accepted ≡ ts
    → t.seen ≡ bs ++ b ∷ []
    → t.queue.items ≡ xs
    → logs ts ≡ all_logs bs ++ (logs b ++ x ∷ logs xs)
    → logs t.accepted ≡ all_logs t.seen ++ x ∷ (logs (unsent_at t.phase []) ++ logs t.queue.items)
lost_of t ts bs b x xs h k l c =
    rw (h, k, l, unsent_at-nil t.phase, all_logs-append bs b, c)
      (sym (append_assoc (all_logs bs) (logs b) (x ∷ logs xs)))

module _ (grow : ℕ → ℕ) where
  -- A `Sync` that starts in `p`, an item that is taken, and the end of the `Sync`: the states between, and
  -- that every log taken in is delivered or pending but the one taken.
  pub record Missing (fails : Bool) (x : ScopeLogs) (p : BatchWriteSyncer) : Type 0 where
    pub started : BatchWriteSyncer
    pub taken : BatchWriteSyncer
    pub returned : BatchWriteSyncer
    pub starts : step grow sync_start p ≡ moves started
    pub takes : step grow (work queue_case fails) started ≡ moves taken
    pub returns : step grow (sync_return zero fails) taken ≡ moves returned
    pub loses :
        logs returned.accepted
        ≡ all_logs returned.seen ++ x ∷ (logs (unsent returned) ++ logs returned.queue.items)

  -- Where the goroutine waits with a batch that is not empty, no call of Sync has been made, and a log is
  -- first in the queue: if a Sync starts, the goroutine takes the log, and the Sync returns, then every log
  -- sent to the queue has been handed over or is pending but that one, provided `append` makes room for
  -- the elements.
  pub sync_loses_log :
      ((n : ℕ) → n ≤ grow n)
      → {p : BatchWriteSyncer} (x : ScopeLogs) (xs : List Item) (fails : Bool) → Quiet grow p
      → p.phase ≡ processing
      → 0 < p.batch.len
      → p.queue.items ≡ some x ∷ xs
      → Missing fails x p
  unfolding step work_at process_queue recv sync_begin export_begin sync_end export_end read_slice
  sync_loses_log g {p} x xs fails q m n e =
      let s = record p {
        timer = Timer.reset p.timer;
        handed = p.handed ++ p.batch ∷ [];
        seen = p.seen ++ read_slice p.heap p.batch ∷ [];
        syncs = p.batch.len ∷ p.syncs;
      } in
      let r = record s { queue = record p.queue { items = xs } } in
      let t = batch_item grow (some x) r in
      let a = append_item-Same grow (some x) r in
      let k = batch_item-Kept grow (some x) r in
      record {
        started = s;
        taken = t;
        returned = record (export_end fails p.batch.len t) { syncs = p.syncs };
        starts = rw (lt→ltb 0 p.batch.len n) refl;
        takes =
            ap (λ ph. work_at grow ph queue_case fails s) m
            ∙ ap (λ l. process_received grow (recv_from l p.queue) s) e;
        returns = ap (λ l. sync_end_at (take_sync zero l) fails t) (k.syncs ∙ a.syncs);
        loses =
            lost_of t p.accepted p.seen (read_slice p.heap p.batch) x xs (k.accepted ∙ a.accepted)
              (k.seen ∙ a.seen) (ap (λ c. c.items) (k.queue ∙ a.queue))
              (zap_conserved grow g q
                ∙ ap
                    (λ ph.
                      all_logs p.seen
                      ++ (logs (unsent_at ph (read_slice p.heap p.batch)) ++ logs p.queue.items))
                    m
                ∙ ap (λ l. all_logs p.seen ++ (logs (read_slice p.heap p.batch) ++ logs l)) e);
      }
