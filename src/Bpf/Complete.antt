-- ===== src/Bpf/Complete.antt =====
-- What a tracing session records where the kernel refuses nothing: whyslow-cli/src/bpf.rs sets the
-- target, the programs of whyslow-ebpf/src/main.rs follow what the reference says.
use whyslow.Base.{none, ℕ, ◌≡◌, refl, false, List, [], ◌==◌}
use whyslow.Base.Result.{found}
use whyslow.Ebpf.Probes.{Maps, Hit, after, loaded}
use whyslow.Ebpf.Sound.{after-loaded}
use whyslow.Ebpf.Reference.{open_span, events_of}
use whyslow.Ebpf.Refines.{IsExact, HasRoomThroughout, after-IsExact}
use whyslow.Bpf.Target.{set_target_tgid}
use whyslow.Bpf.Session.{session}

module _ (k : Maps) (target : ℕ) where
  open k use {blocks, futexes, ios, ring}

  started-IsExact : IsExact k target [] (set_target_tgid k found none target (loaded k)).0
  unfolding set_target_tgid open_span events_of
  started-IsExact = record {
    target_is = refl;
    blocks_exact = blocks.get-empty;
    futexes_exact = futexes.get-empty;
    ios_exact = ios.get-empty;
    queue_exact = ring.queued-fresh;
  }

  -- Whatever hits before the target is set to a process other than 0: if the maps and the ring buffer
  -- have room for one more entry and one more event at each hit that follows, the events submitted are,
  -- in this order and no others, the events of these hits by the reference.
  pub session-events_of :
      (before hits : List Hit)
      → (target == 0) ≡ false
      → HasRoomThroughout k (set_target_tgid k found none target (after k (loaded k) before)).0 hits
      → ring.queued (session k target before hits).events ≡ events_of target hits
  unfolding session
  session-events_of before hits set =
      rw (after-loaded k before)
        (λ room. (after-IsExact k target _ hits set started-IsExact room).queue_exact)
