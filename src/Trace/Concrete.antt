-- ===== src/Trace/Concrete.antt =====
-- A concrete form of a trace in a file: an instance of the interface of whyslow-cli/src/trace.rs to
-- serde_json, for runs on concrete files.
use whyslow.Base.{ℕ, zero, suc, ◌≡◌, refl, ap, List, [], ◌∷◌, length}
use whyslow.Base.Text.{Text, codes}
use whyslow.Base.Result.{ok, err, Anyhow}
use whyslow.Trace.Defs.{TraceEvent, TraceFile}
use whyslow.Trace.Disk.{Serde, Restores}

-- Each character plus one, and a zero behind them, before `rest`.
abbrev text_onto : Text → List ℕ → List ℕ
text_onto [] rest = 0 ∷ rest
text_onto (c ∷ cs) rest = suc c ∷ text_onto cs rest

abbrev event_onto : TraceEvent → List ℕ → List ℕ
event_onto e rest =
    e.timestamp_ns ∷ e.duration_ns ∷ e.key ∷ e.pid ∷ e.tid ∷ e.event_type ∷ text_onto e.comm rest

abbrev events_onto : List TraceEvent → List ℕ → List ℕ
events_onto [] rest = rest
events_onto (e ∷ es) rest = event_onto e (events_onto es rest)

abbrev pub write_numbers : TraceFile → List ℕ
write_numbers t =
    t.realtime_anchor_ns ∷ t.monotonic_anchor_ns ∷ length t.events ∷ events_onto t.events []

abbrev take_text : List ℕ → Text × List ℕ
take_text [] = ([], [])
take_text (zero ∷ rest) = ([], rest)
take_text (suc c ∷ rest) = let (cs, behind) = take_text rest in (c ∷ cs, behind)

abbrev take_events : ℕ → List ℕ → List TraceEvent
take_events (suc n) (timestamp ∷ duration ∷ key ∷ pid ∷ tid ∷ kind ∷ rest) =
    let parsed = take_text rest in
    record {
      timestamp_ns = timestamp;
      duration_ns = duration;
      key = key;
      pid = pid;
      tid = tid;
      event_type = kind;
      comm = parsed.0;
    }
    ∷ take_events n parsed.1
take_events n rest = []

abbrev pub read_numbers : List ℕ → Anyhow TraceFile
read_numbers (realtime ∷ monotonic ∷ count ∷ rest) = ok (record {
  realtime_anchor_ns = realtime;
  monotonic_anchor_ns = monotonic;
  events = take_events count rest;
})
read_numbers rest = err (codes "EOF while parsing a value" ∷ [])

abbrev pub numbers : Serde
numbers = record { to_writer_pretty = write_numbers; from_reader = read_numbers }

take_text-onto : (cs : Text) (rest : List ℕ) → take_text (text_onto cs rest) ≡ (cs, rest)
take_text-onto [] rest = refl
take_text-onto (c ∷ cs) rest = ap (λ (p : Text × List ℕ). (c ∷ p.0, p.1)) (take_text-onto cs rest)

take_events-onto : (es : List TraceEvent) → take_events (length es) (events_onto es []) ≡ es
take_events-onto [] = refl
take_events-onto (e ∷ es) =
    rw (take_text-onto e.comm (events_onto es [])) (ap (◌∷◌ e) (take_events-onto es))

pub numbers-Restores : Restores numbers
numbers-Restores t =
    ap
      (λ es. ok (record {
        realtime_anchor_ns = t.realtime_anchor_ns;
        monotonic_anchor_ns = t.monotonic_anchor_ns;
        events = es;
      }))
      (take_events-onto t.events)
