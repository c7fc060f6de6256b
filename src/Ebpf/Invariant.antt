-- ===== src/Ebpf/Invariant.antt =====
-- whyslow-ebpf/src/main.rs: the invariant that ties the maps and the ring buffer to the history of
-- hits, and the parts of a step that every program shares.
use whyslow.Base.{ℕ, ◌≡◌, inl, inr, Option, some, List, [], ◌∷◌, All, All-append, Option-cases}
use whyslow.Event.Schema.{Event}
use whyslow.Ebpf.Probes.{Maps, Probes, Hit, emit, target_tgid}
use whyslow.Ebpf.History.{
  BlocksAt, ResumesAt, EntersAt, LeavesAt, IssuesAt, CompletesAt, Pending, held, Emitted, earlier,
}

-- Every entry of a map is pending by the history.
abbrev pub Explained :
    {A : Type 0}
    → (ℕ → A → Hit → Type 0)
    → (ℕ → ℕ → Hit → Type 0)
    → (ℕ → Option A)
    → List Hit
    → Type 0
Explained {A} Starts Ends entry hits =
    (key : ℕ) (start : A) → entry key ≡ some start → Pending Starts Ends key start hits

-- A hit that ends no span leaves the pending ones pending.
pub Explained-held :
    {A : Type 0} {Starts : ℕ → A → Hit → Type 0} {Ends : ℕ → ℕ → Hit → Type 0}
    {entry : ℕ → Option A} {hits : List Hit} (hit : Hit)
    → ((key now : ℕ) → ¬ Ends key now hit)
    → Explained Starts Ends entry hits
    → Explained Starts Ends entry (hit ∷ hits)
Explained-held hit quiet old key start e = held (quiet key) (old key start e)

module _ (k : Maps) (target : ℕ) where
  open k use {blocks, futexes, ios, ring}

  pub record Inv (hits : List Hit) (s : Probes k) : Type 0 where
    pub target_is : s.target ≡ some target
    pub blocks_explained :
        Explained (BlocksAt target) ResumesAt (λ tid. blocks.get tid s.block_start) hits
    pub futexes_explained :
        Explained (EntersAt target) LeavesAt (λ tid. futexes.get tid s.futex_start) hits
    pub ios_explained :
        Explained (IssuesAt target) CompletesAt (λ key. ios.get key s.blockio_start) hits
    pub all_emitted : All (λ ev. Emitted target ev hits) (ring.queued s.events)

  -- Events stay emitted as the history grows.
  pub emitted_earlier :
      (hit : Hit) (hits : List Hit) (evs : List Event)
      → All (λ ev. Emitted target ev hits) evs
      → All (λ ev. Emitted target ev (hit ∷ hits)) evs
  emitted_earlier hit hits [] h = tt
  emitted_earlier hit hits (ev ∷ evs) h = (earlier h.0, emitted_earlier hit hits evs h.1)

  -- An event that the newest hit emits joins the queue, or is dropped; nothing else changes.
  pub emit-Inv :
      (hits : List Hit) (ev : Event) (s : Probes k)
      → Inv hits s
      → Emitted target ev hits
      → Inv hits (emit k ev s)
  unfolding emit
  emit-Inv hits ev s v e = elim (Option-cases (ring.submit ev s.events)) [
    | inl full ↦ rw (full, emit) v
    | inr (r, sent) ↦
        rw (sent, emit)
          (record {
            target_is = v.target_is;
            blocks_explained = v.blocks_explained;
            futexes_explained = v.futexes_explained;
            ios_explained = v.ios_explained;
            all_emitted = rw (ring.queued-submit ev s.events r sent) (
                All-append (λ x. Emitted target x hits) (ring.queued s.events) (ev ∷ [])
                  v.all_emitted (e, tt));
          })
  ]

  -- A hit that ends no span and changes nothing.
  pub quiet-Inv :
      (hit : Hit) (hits : List Hit) (s : Probes k)
      → ((tid now : ℕ) → ¬ ResumesAt tid now hit)
      → ((tid now : ℕ) → ¬ LeavesAt tid now hit)
      → ((key now : ℕ) → ¬ CompletesAt key now hit)
      → Inv hits s
      → Inv (hit ∷ hits) s
  quiet-Inv hit hits s no_resume no_exit no_completion v = record {
    target_is = v.target_is;
    blocks_explained = Explained-held hit no_resume v.blocks_explained;
    futexes_explained = Explained-held hit no_exit v.futexes_explained;
    ios_explained = Explained-held hit no_completion v.ios_explained;
    all_emitted = emitted_earlier hit hits (ring.queued s.events) v.all_emitted;
  }

  pub target_tgid-target : (hits : List Hit) (s : Probes k) → Inv hits s → target_tgid k s ≡ target
  unfolding target_tgid
  target_tgid-target hits s v = rw v.target_is
