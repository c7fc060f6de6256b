-- ===== src/Trace/Defs.antt =====
-- whyslow-cli/src/trace.rs: `TraceEvent`, `TraceFile`, the clock anchor and the conversion from the
-- kernel side's `Event`.
use whyslow.Base.{
  ℕ, suc, ◌+◌, ◌*◌, ◌%◌, ◌^◌, Option, none, some, List, [], ◌∷◌, ◌==◌, if◌then◌else◌, length, take,
}
use whyslow.Base.Int.{pos, ◌+ℤ◌, ◌-ℤ◌, max_ℤ, as_u64}
use whyslow.Base.Text.{Text}
use whyslow.Base.Utf8.{from_utf8_lossy}
use whyslow.Event.Schema.{Event}

pub record TraceEvent : Type 0 where
  pub timestamp_ns : ℕ
  pub duration_ns : ℕ
  pub key : ℕ
  pub pid : ℕ
  pub tid : ℕ
  pub event_type : ℕ
  pub comm : Text

-- `iter().position(|&b| b == 0)`.
unfoldable pub position_zero : List ℕ → Option ℕ
position_zero [] = none
position_zero (b ∷ bs) =
    let rest = position_zero bs in
    if b == 0 then some 0 else elim rest [ none ↦ none | some i ↦ some (suc i) ]

unfoldable pub comm_end : List ℕ → ℕ
unfolding position_zero
comm_end comm = elim (position_zero comm) [ none ↦ length comm | some i ↦ i ]

-- `TraceEvent::from`.
unfoldable pub from_event : Event → TraceEvent
unfolding comm_end
from_event ev = record {
  timestamp_ns = ev.timestamp_ns;
  duration_ns = ev.duration_ns;
  key = ev.key;
  pid = ev.pid;
  tid = ev.tid;
  event_type = ev.event_type;
  comm = from_utf8_lossy (take (comm_end ev.comm) ev.comm);
}

pub record TraceFile : Type 0 where
  pub realtime_anchor_ns : ℕ
  pub monotonic_anchor_ns : ℕ
  pub events : List TraceEvent

-- `libc::timespec`; both fields are nonnegative for the two clocks that are read.
pub record Timespec : Type 0 where
  pub tv_sec : ℕ
  pub tv_nsec : ℕ

-- The wrapped `u64` value of `tv_sec * 1_000_000_000 + tv_nsec`.
unfoldable pub clock_ns : Timespec → ℕ
clock_ns ts = (ts.tv_sec * 1_000_000_000 % 2 ^ 64 + ts.tv_nsec) % 2 ^ 64

-- The two clocks are read one after the other.
unfoldable pub capture_anchor : Timespec → Timespec → ℕ × ℕ
unfolding clock_ns
capture_anchor realtime monotonic = (clock_ns realtime, clock_ns monotonic)

-- The differences are taken in `i128`, where they cannot overflow.
unfoldable pub wall_ns_for : TraceFile → ℕ → ℕ
unfolding ◌+ℤ◌ ◌-ℤ◌ max_ℤ as_u64
wall_ns_for t event_ts_ns =
    let delta = pos event_ts_ns -ℤ pos t.monotonic_anchor_ns in
    as_u64 (max_ℤ (pos t.realtime_anchor_ns +ℤ delta) (pos 0))
