-- ===== src/Ebpf/Refines/State.antt =====
-- whyslow-ebpf/src/main.rs: the state that the reference makes of a history, and hits that pass it
-- over.
use whyslow.Base.{ℕ, ◌≡◌, sym, ◌∙◌, some, List, ◌∷◌}
use whyslow.Ebpf.Probes.{Maps, Probes, Hit, target_tgid}
use whyslow.Ebpf.Reference.{open_block, open_futex, open_io, events_of}

module _ (k : Maps) (target : ℕ) where
  open k use {blocks, futexes, ios, ring}

  -- The state is what the reference makes of the history.
  pub record IsExact (hits : List Hit) (s : Probes k) : Type 0 where
    pub target_is : s.target ≡ some target
    pub blocks_exact : (tid : ℕ) → blocks.get tid s.block_start ≡ open_block target tid hits
    pub futexes_exact : (tid : ℕ) → futexes.get tid s.futex_start ≡ open_futex target tid hits
    pub ios_exact : (key : ℕ) → ios.get key s.blockio_start ≡ open_io target key hits
    pub queue_exact : ring.queued s.events ≡ events_of target hits

  pub target_tgid_exact :
      (hits : List Hit) (s : Probes k) → IsExact hits s → target_tgid k s ≡ target
  unfolding target_tgid
  target_tgid_exact hits s v = rw v.target_is

  -- A hit that begins and ends nothing, and after which the state is as before.
  pub passed_over :
      (hits : List Hit) (s : Probes k) (hit : Hit)
      → IsExact hits s
      → ((tid : ℕ) → open_block target tid (hit ∷ hits) ≡ open_block target tid hits)
      → ((tid : ℕ) → open_futex target tid (hit ∷ hits) ≡ open_futex target tid hits)
      → ((key : ℕ) → open_io target key (hit ∷ hits) ≡ open_io target key hits)
      → events_of target (hit ∷ hits) ≡ events_of target hits
      → IsExact (hit ∷ hits) s
  passed_over hits s hit v blocks_as futexes_as ios_as events_as = record {
    target_is = v.target_is;
    blocks_exact = λ tid. v.blocks_exact tid ∙ sym (blocks_as tid);
    futexes_exact = λ tid. v.futexes_exact tid ∙ sym (futexes_as tid);
    ios_exact = λ key. v.ios_exact key ∙ sym (ios_as key);
    queue_exact = v.queue_exact ∙ sym events_as;
  }
