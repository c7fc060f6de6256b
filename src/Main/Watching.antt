-- ===== src/Main/Watching.antt =====
-- The whole of `whyslow attach` while it happens: hits of the programs of whyslow-ebpf/src/main.rs
-- between the calls by which whyslow-cli/src/bpf.rs drains the ring buffer.
use whyslow.Base.{
  ℕ, ◌<◌, ◌^◌, ◌≡◌, refl, ap, ◌∙◌, true, false, Bool, Option, none, List, ◌∷◌, ◌++◌, map, length,
  All, ◌==◌,
}
use whyslow.Base.Text.{Text}
use whyslow.Base.Result.{ok, found}
use whyslow.Trace.Defs.{from_event, capture_anchor}
use whyslow.Ebpf.Probes.{Hit, after, loaded}
use whyslow.Ebpf.Ranges.{HitFits}
use whyslow.Ebpf.Reference.{events_of}
use whyslow.Ebpf.Refines.{HasRoomThroughout}
use whyslow.Bpf.Load.{load_and_attach}
use whyslow.Bpf.Drain.{Item}
use whyslow.Bpf.Session.{session-InRange}
use whyslow.Bpf.Complete.{session-events_of}
use whyslow.Bpf.Live.{Live, sent_from, map-sent_from, sent_from-IsWhole, queue_at, serve, drained}
use whyslow.Bpf.Rounds.{Happening, at_start, serve_rounds, collected}
use whyslow.Main.Effects.{TakesAll, World, Watched}
use whyslow.Main.Commands.{require_root, attach}
use whyslow.Main.Outcome.{file_of}
use whyslow.Main.Attach.{attach-wrote, attach_first}
use whyslow.Main.Stopping.{IsOver, IsDeadline, deadline_of-IsDeadline, watched_items}
use whyslow.Main.Whole.{Records, map-from_event, traced, traced-target, set_target_tgid-traced}

-- A round of `attach`: the answers are how often SIGINT has been handled, the time, and whether the
-- process is gone.
abbrev pub watched_of : List Item → ℕ × ℕ × Bool → Watched
watched_of items (sigints, now, is_gone) = record {
  items = items;
  sigints = sigints;
  now = now;
  is_gone = is_gone;
}

module _ (w : World) (trace_out : Text) (slowest : ℕ) where
  -- Suppose that the calls of `attach` succeed, the standard output takes every line, and the deadline, if
  -- there is one, is a time that the clock can have; that what the drain finds depends on the state in
  -- which setting the target leaves the programs; that in the state with the process as the target,
  -- after the hits `before`, the round after `watches` is the first at which the user asked for the
  -- end, the deadline has passed or the process is gone, and what the drain finds in each round, and
  -- at last, is what `ring.next()` gives while the programs go on from this state and are hit between
  -- its calls, the last of them finding nothing; that the values of these hits are in the ranges of their
  -- types; and that the maps and the ring buffer have room at each of them. Then `attach` prints the
  -- banner, attaches the five programs, sets the target to the process, reads the clocks, sets the
  -- signal handler, prints what it traces, and writes a trace file with the anchors read, whose events
  -- are, in this order and no others, the events of all these hits by the reference; then it prints a
  -- blank line and the chains that `explain` returns for this file, does nothing else, and returns
  -- without an error.
  pub attach-live :
      (pid : ℕ) (duration_secs deadline : Option ℕ) (before : List Hit) (gap : ℕ → List ℕ)
      (script : List (Happening (ℕ × ℕ × Bool))) (ending closing : List (List Hit))
      (watches later : List Watched) (q : Watched) (rounds at_end at_last : Live)
      → (pid == 0) ≡ false
      → TakesAll w
      → pid < 2 ^ 32
      → ((i : ℕ) → length (gap i) ≡ 4)
      → require_root w.euid ≡ ok tt
      → w.is_running ≡ true
      → (load_and_attach w.bpf).1 ≡ ok tt
      → w.target_map ≡ found
      → w.set_answer ≡ none
      → w.probes ≡ after w.maps (loaded w.maps) before
      → IsDeadline w.started duration_secs deadline
      → w.events_map ≡ found
      → serve_rounds watched_of w.maps pid before gap script at_start ≡ (watches, rounds)
      → serve w.maps pid before gap ending rounds ≡ (q.items, at_end)
      → serve w.maps pid before gap closing at_end ≡ (w.last (traced w pid before), at_last)
      → w.watches (traced w pid before) ≡ watches ++ q ∷ later
      → All (λ r. ¬ IsOver deadline r) watches
      → IsOver deadline q
      → at_last.taken ≡ length (queue_at w.maps pid before gap at_last.hits)
      → All HitFits at_last.hits
      → HasRoomThroughout w.maps (traced w pid before) at_last.hits
      → (w.disk.create ≡ none) × (w.disk.writer ≡ none)
      → Records w trace_out slowest
          (attach_first w trace_out slowest pid)
          (events_of pid at_last.hits)
          (attach w pid trace_out slowest duration_secs)
  attach-live pid duration_secs deadline before gap script ending closing watches later q rounds
        at_end at_last set takes low four root runs loads target answer state ends_at maps goes ends
        closes watched on over all fits room writes =
      let sent = sent_from gap 0 (queue_at w.maps pid before gap at_last.hits) in
      let same =
        drained w.maps pid before gap at_last
          (watched_items watches ++ (q.items ++ w.last (traced w pid before))) all
          (collected watched_of w.maps pid before gap watched_items refl (λ items a rounds. refl)
            script ending closing watches q.items (w.last (traced w pid before)) rounds at_end
            at_last goes ends closes) in
      let (chains, explained, ran) =
        attach-wrote w trace_out slowest pid duration_secs deadline (traced w pid before) watches
          later q sent takes root runs loads
          (set_target_tgid-traced w pid before target answer state) (traced-target w pid before)
          (deadline_of-IsDeadline w.started duration_secs deadline ends_at) maps watched on over
          (sent_from-IsWhole gap 0 _ four
            (session-InRange w.maps pid before at_last.hits set low fits))
          same writes in
      let recorded =
        map-from_event sent
        ∙ ap (map from_event)
            (map-sent_from gap 0 _ ∙ session-events_of w.maps pid before at_last.hits set room) in
      (
        file_of w trace_out slowest sent,
        chains,
        ap
            (λ evs. record {
              realtime_anchor_ns = (capture_anchor w.realtime w.monotonic).0;
              monotonic_anchor_ns = (capture_anchor w.realtime w.monotonic).1;
              events = evs;
            })
            recorded,
        explained,
        ran,
      )
