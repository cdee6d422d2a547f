-- ===== src/Store/RealtimeMap/Publish.antt =====
-- `PublishAndReport` against the map from keys to rows that `Get` shows.
pub mod Rule
mod Stopped
use kv_index.Prelude.{ℕ, ◌<◌, ◌≡◌, refl, true, some, arith, eq-cases, inl, inr, Option-cases}
use kv_index.Prelude.Scan.{AllPass, scan-none}
use kv_index.Status.{fail}
use kv_index.Types.{is_valid_source_position}
use kv_index.Store.RealtimeMap.{
  RealtimeRowRef, exhausted, RealtimeAtomicHashMap, probe_index, publish_and_report,
}
use kv_index.Store.RealtimeMap.Scan.{passes_at, publish_from, publish_loop-eq-scan}
use kv_index.Store.RealtimeMap.Invariant.{Inv, found}
use Stopped.{publish_stopped}
use Rule.{Published, full}

full_Published :
    (m : RealtimeAtomicHashMap) (key : ℕ) (row : RealtimeRowRef)
    → Inv m
    → AllPass (passes_at (probe_index m key) m.slots key) m.capacity 0
    → Published m key row (fail exhausted, m)
full_Published m key row v all = record { inv = v; outcome = inr (exhausted, refl, full all) }

publish_and_report-eq :
    (m : RealtimeAtomicHashMap) (key : ℕ) (row : RealtimeRowRef)
    → row.primary_key ≡ key
    → is_valid_source_position row.position ≡ true
    → 0 < m.capacity
    → publish_and_report m key (some row) ≡ publish_from (probe_index m key) m key row (found m key)
unfolding publish_and_report
publish_and_report-eq m key row own valid pos =
    ground (arith, publish_loop-eq-scan (probe_index m key) m key row m.capacity 0)

publish_and_report_zero :
    (m : RealtimeAtomicHashMap) (key : ℕ) (row : RealtimeRowRef)
    → row.primary_key ≡ key
    → is_valid_source_position row.position ≡ true
    → m.capacity ≡ 0
    → publish_and_report m key (some row) ≡ (fail exhausted, m)
unfolding publish_and_report
publish_and_report_zero m key row own valid z = ground arith

-- A row of its key at a valid position, published in a table with the invariant, leaves a table
-- with the invariant, and is accepted or refused. If accepted, its position can be compared to that
-- of the key's row, the call reports whether the row supersedes the key's, `Get` of the key shows
-- the newest of the two and `Get` of every other key what it showed before. It is refused, and the
-- table left as it was, only where every slot that the key probes is occupied by another key, or
-- the first that is not is reserved, or the key's row has a position that the row's cannot be
-- compared to.
pub publish_and_report-Published :
    (m : RealtimeAtomicHashMap) (key : ℕ) (row : RealtimeRowRef)
    → Inv m
    → row.primary_key ≡ key
    → is_valid_source_position row.position ≡ true
    → Published m key row (publish_and_report m key (some row))
publish_and_report-Published m key row v own valid = elim (eq-cases m.capacity 0) [
  | inl z ↦
      rw (publish_and_report_zero m key row own valid z)
        (full_Published m key row v (λ q a b. absurd (omega arith)))
  | inr pos ↦ elim (Option-cases (found m key)) [
    | inl full_scan ↦
        rw (publish_and_report-eq m key row own valid (omega arith), full_scan)
          (full_Published m key row v (scan-none _ m.capacity 0 full_scan))
    | inr (p, stop) ↦
        rw (publish_and_report-eq m key row own valid (omega arith), stop)
          (publish_stopped m v key row p own valid (omega arith) stop)
  ]
]
