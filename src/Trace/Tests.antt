-- ===== src/Trace/Tests.antt =====
-- Wall-clock times and command names at concrete events.
use whyslow.Base.{◌+◌, ◌-◌, ◌≡◌, refl, [], ◌∷◌, ◌++◌, arith}
use whyslow.Base.Text.{codes}
use whyslow.Base.Utf8.{from_utf8_lossy}
use whyslow.Event.Schema.{Event, new}
use whyslow.Trace.Defs.{TraceFile, wall_ns_for, from_event}
use whyslow.Trace.Wall.{wall_ns_for_affine, wall_ns_for_epoch}
use whyslow.Trace.Comm.{from_event_name}

abbrev sample : TraceFile
sample = record { realtime_anchor_ns = 1_000; monotonic_anchor_ns = 300; events = [] }

before_anchor : wall_ns_for sample 250 ≡ 950
unfolding wall_ns_for
before_anchor = refl

wall_ns_for_affine_example :
    (wall_ns_for sample 900 ≡ wall_ns_for sample 250 + (900 - 250))
    × (wall_ns_for sample 300 ≡ 1_000)
wall_ns_for_affine_example =
    wall_ns_for_affine sample 250 900 (omega arith) (omega arith) (omega arith) (omega arith)

wall_ns_for_epoch_example :
    wall_ns_for (record { realtime_anchor_ns = 5; monotonic_anchor_ns = 300; events = [] }) 250 ≡ 0
wall_ns_for_epoch_example =
    wall_ns_for_epoch (record { realtime_anchor_ns = 5; monotonic_anchor_ns = 300; events = [] })
      250 (omega arith)

abbrev named : Event
named = new 10 2 0 7 8 0 (codes "demo" ++ 0 ∷ 0x7a ∷ 0 ∷ 0 ∷ 0 ∷ 0 ∷ 0 ∷ 0 ∷ 0 ∷ 0 ∷ 0 ∷ 0 ∷ [])

from_event_name_example : (from_event named).comm ≡ codes "demo"
from_event_name_example =
    from_event_name named (codes "demo") (0x7a ∷ 0 ∷ 0 ∷ 0 ∷ 0 ∷ 0 ∷ 0 ∷ 0 ∷ 0 ∷ 0 ∷ 0 ∷ [])
      (omega arith) refl

cut_at_nul : (from_event named).comm ≡ codes "demo"
unfolding from_event from_utf8_lossy
cut_at_nul = refl
