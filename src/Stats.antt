-- ===== src/Stats.antt =====
-- stats/stats.go: the collector of execution statistics and its snapshot. The atomic counters are
-- `uint64`, so an increment wraps around; a snapshot is taken of one state.
use gokue.Prelude.{ℕ, ◌+◌}
use gokue.Prelude.Int.{uint64}

pub record Collector : Type 0 where
  pub enqueued : ℕ
  pub processed : ℕ
  pub failed : ℕ
  pub retried : ℕ
  pub dropped : ℕ
  pub retry_predicates_failed : ℕ

pub record Snapshot : Type 0 where
  pub enqueued : ℕ
  pub processed : ℕ
  pub failed : ℕ
  pub retried : ℕ
  pub dropped : ℕ
  pub retry_predicates_failed : ℕ

abbrev pub new_collector : Collector
new_collector = record {
  enqueued = 0;
  processed = 0;
  failed = 0;
  retried = 0;
  dropped = 0;
  retry_predicates_failed = 0;
}

unfoldable pub inc_enqueued : Collector → Collector
inc_enqueued c = record c { enqueued = uint64 (c.enqueued + 1) }

unfoldable pub inc_processed : Collector → Collector
inc_processed c = record c { processed = uint64 (c.processed + 1) }

unfoldable pub inc_failed : Collector → Collector
inc_failed c = record c { failed = uint64 (c.failed + 1) }

unfoldable pub inc_retried : Collector → Collector
inc_retried c = record c { retried = uint64 (c.retried + 1) }

unfoldable pub inc_dropped : Collector → Collector
inc_dropped c = record c { dropped = uint64 (c.dropped + 1) }

unfoldable pub inc_retry_predicates_failed : Collector → Collector
inc_retry_predicates_failed c = record c {
  retry_predicates_failed = uint64 (c.retry_predicates_failed + 1);
}

unfoldable pub snapshot : Collector → Snapshot
snapshot c = record {
  enqueued = c.enqueued;
  processed = c.processed;
  failed = c.failed;
  retried = c.retried;
  dropped = c.dropped;
  retry_predicates_failed = c.retry_predicates_failed;
}
