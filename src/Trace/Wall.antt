-- ===== src/Trace/Wall.antt =====
-- whyslow-cli/src/trace.rs: what `wall_ns_for` computes.
use whyslow.Base.{ℕ, ◌+◌, ◌-◌, ◌*◌, ◌%◌, ◌^◌, ◌≤◌, ◌<◌, ◌≡◌, arith}
use whyslow.Trace.Defs.{TraceFile, Timespec, wall_ns_for, clock_ns}

-- The signed detour is the truncated difference: realtime plus event time, less the monotonic
-- anchor, stopping at zero, in 64 bits.
pub wall_ns_for_value :
    (t : TraceFile) (ts : ℕ)
    → wall_ns_for t ts ≡ (t.realtime_anchor_ns + ts - t.monotonic_anchor_ns) % 2 ^ 64
unfolding wall_ns_for
wall_ns_for_value t ts = ground arith

-- Wherever the true wall times of two events, the realtime anchor plus the time since the monotonic
-- anchor, are not before the epoch and fit in 64 bits, as the anchor itself does, the conversion keeps
-- their distance, and sends the anchor to the anchor.
pub wall_ns_for_affine :
    (t : TraceFile) (ts later : ℕ)
    → ts ≤ later
    → t.monotonic_anchor_ns ≤ t.realtime_anchor_ns + ts
    → t.realtime_anchor_ns + later - t.monotonic_anchor_ns < 2 ^ 64
    → t.realtime_anchor_ns < 2 ^ 64
    → (wall_ns_for t later ≡ wall_ns_for t ts + (later - ts))
      × (wall_ns_for t t.monotonic_anchor_ns ≡ t.realtime_anchor_ns)
wall_ns_for_affine t ts later h epoch fits anchored = omega (
  arith,
  wall_ns_for_value t ts,
  wall_ns_for_value t later,
  wall_ns_for_value t t.monotonic_anchor_ns,
)

-- An event that would lie before the epoch is shown at the epoch.
pub wall_ns_for_epoch :
    (t : TraceFile) (ts : ℕ)
    → t.realtime_anchor_ns + ts ≤ t.monotonic_anchor_ns
    → wall_ns_for t ts ≡ 0
wall_ns_for_epoch t ts h = omega (arith, wall_ns_for_value t ts)

-- A clock below 2 ^ 34 seconds (the year 2514) is converted with no wrap-around.
pub clock_ns_exact :
    (ts : Timespec)
    → ts.tv_sec < 2 ^ 34
    → ts.tv_nsec < 1_000_000_000
    → clock_ns ts ≡ ts.tv_sec * 1_000_000_000 + ts.tv_nsec
unfolding clock_ns
clock_ns_exact ts h k = omega arith
