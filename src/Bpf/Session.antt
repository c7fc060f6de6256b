-- ===== src/Bpf/Session.antt =====
-- A tracing session: whyslow-cli/src/bpf.rs sets the target between hits of the programs of
-- whyslow-ebpf/src/main.rs.
use whyslow.Base.{
  none, ℕ, ◌<◌, ◌^◌, ◌≡◌, refl, false, some, List, [], arith, ◌==◌, All, All-Elem, Elem-All,
}
use whyslow.Base.Result.{found}
use whyslow.Ebpf.Probes.{Maps, Probes, Hit, after, loaded}
use whyslow.Ebpf.History.{Emitted}
use whyslow.Ebpf.Invariant.{Inv}
use whyslow.Ebpf.Sound.{after-Inv, after-loaded, Emitted-pid, IsOrdered, BeganAt, Emitted-BeganAt}
use whyslow.Event.Schema.{InRange}
use whyslow.Ebpf.Ranges.{HitFits, Emitted-InRange}
use whyslow.Bpf.Target.{set_target_tgid}

module _ (k : Maps) (target : ℕ) where
  open k use {blocks, futexes, ios, ring}

  -- The programs are loaded, `before` hits, the target is set, `hits` follow.
  unfoldable pub session : List Hit → List Hit → Probes k
  session before hits =
      after k (set_target_tgid k found none target (after k (loaded k) before)).0 hits

  -- Setting the target starts a history.
  started-Inv : Inv k target [] (set_target_tgid k found none target (loaded k)).0
  unfolding set_target_tgid
  started-Inv = record {
    target_is = refl;
    blocks_explained = λ tid start e. let gone = blocks.get-empty tid in absurd (ground arith);
    futexes_explained = λ tid start e. let gone = futexes.get-empty tid in absurd (ground arith);
    ios_explained = λ key start e. let gone = ios.get-empty key in absurd (ground arith);
    all_emitted = rw ring.queued-fresh tt;
  }

  session-Inv :
      (before hits : List Hit) → (target == 0) ≡ false → Inv k target hits (session before hits)
  unfolding session
  session-Inv before hits set =
      rw (after-loaded k before)
        (after-Inv k target (set_target_tgid k found none target (loaded k)).0 hits set started-Inv)

  -- Whatever hits before the target is set to a process other than 0, and whatever follows, every
  -- event submitted is of the target process, and it ends a span that a hit of a thread of the target
  -- began after the target was set and no hit ended before: a blocking switch out and the thread's next
  -- switch in, a futex call's entry and its exit, or a block request's issue and its completion.
  pub session-Emitted :
      (before hits : List Hit)
      → (target == 0) ≡ false
      → All
          (λ ev. (ev.pid ≡ target) × Emitted target ev hits)
          (ring.queued (session before hits).events)
  session-Emitted before hits set = All-Elem _ (λ ev m.
      let e =
        Elem-All (λ ev. Emitted target ev hits) _ (session-Inv before hits set).all_emitted m in
      (Emitted-pid e, e))

  -- Under the same condition, and with hits at times that do not decrease, the length of every event
  -- submitted reaches back from its timestamp exactly to the time of a hit of the target that follows
  -- the setting of the target and begins a span of the event's thread, by switching it out blocked or
  -- by a futex call's entry, or that issues a block request with the event's key.
  pub session-BeganAt :
      (before hits : List Hit)
      → (target == 0) ≡ false
      → IsOrdered hits
      → All (λ ev. BeganAt target ev hits) (ring.queued (session before hits).events)
  session-BeganAt before hits set order = All-Elem _ (λ ev m.
      Emitted-BeganAt
        (Elem-All (λ ev. Emitted target ev hits) _ (session-Inv before hits set).all_emitted m)
        order)

  -- Where the values of the target and the hits are in the ranges of their types, so are the events' fields.
  pub session-InRange :
      (before hits : List Hit)
      → (target == 0) ≡ false
      → target < 2 ^ 32
      → All HitFits hits
      → All InRange (ring.queued (session before hits).events)
  session-InRange before hits set low fits = All-Elem _ (λ ev m.
      Emitted-InRange low
        (Elem-All (λ ev. Emitted target ev hits) _ (session-Inv before hits set).all_emitted m)
        fits)

  -- Before the target is set the programs record nothing and leave every map as it was.
  pub session-untraced :
      (before : List Hit) → session before [] ≡ record (loaded k) { target = some target }
  unfolding session set_target_tgid after
  session-untraced before = rw (after-loaded k before)
