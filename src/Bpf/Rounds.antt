-- ===== src/Bpf/Rounds.antt =====
-- The rounds of `drain_ring_buffer` of whyslow-cli/src/bpf.rs, while the programs of
-- whyslow-ebpf/src/main.rs are hit between its calls of `ring.next()`.
use whyslow.Base.{ℕ, ◌≡◌, refl, sym, subst, List, [], ◌∷◌, ◌++◌}
use whyslow.Event.Schema.{Event}
use whyslow.Ebpf.Probes.{Maps, Hit}
use whyslow.Bpf.Drain.{Item}
use whyslow.Bpf.Live.{Live, serve, IsServed, Gives, serve-Served, then-Gives, nothing-IsServed}

-- What happens in a round: the hits before each call of `ring.next()`, and then what `should_stop` finds.
abbrev pub Happening : Type 0 → Type 0
Happening A = List (List Hit) × A

-- Nothing has happened.
abbrev pub at_start : Live
at_start = record { hits = []; taken = 0 }

module _ {A R : Type 0} (make : List Item → A → R) (k : Maps) (target : ℕ) (before : List Hit)
    (gap : ℕ → List ℕ) where
  -- The rounds that the drain sees.
  abbrev pub serve_rounds : List (Happening A) → Live → List R × Live
  serve_rounds [] live = ([], live)
  serve_rounds (h ∷ later) live =
      let (items, live') = serve k target before gap h.0 live in
      let (rounds, live'') = serve_rounds later live' in (make items h.1 ∷ rounds, live'')

  module _ (all : List R → List Item) (all_none : all [] ≡ [])
      (all_more : (items : List Item) (a : A) (rounds : List R)
        → all (make items a ∷ rounds) ≡ items ++ all rounds) where
    serve_rounds-Gives :
        (script : List (Happening A)) (live : Live) (done pending : List Event)
        → IsServed k target before gap done pending live
        → Gives k target before gap done live
            (all (serve_rounds script live).0)
            (serve_rounds script live).1
    serve_rounds-Gives [] live done pending v =
        subst (λ xs. Gives k target before gap done live xs live) (sym all_none)
          (serve-Served k target before gap [] live done pending v)
    serve_rounds-Gives (h ∷ script) live done pending v =
        let (items, live') = serve k target before gap h.0 live in
        let (rounds, live'') = serve_rounds script live' in
        subst (λ xs. Gives k target before gap done live xs live'')
          (sym (all_more items h.1 rounds))
          (then-Gives k target before gap live live' live'' done items (all rounds) v.taken_is
            (serve-Served k target before gap h.0 live done pending v)
            (serve_rounds-Gives script live'))

    -- All that is found, from the first round to the last drain.
    pub collected :
        (script : List (Happening A)) (ending closing : List (List Hit)) (rounds : List R)
        (items last : List Item) (live at_end at_last : Live)
        → serve_rounds script at_start ≡ (rounds, live)
        → serve k target before gap ending live ≡ (items, at_end)
        → serve k target before gap closing at_end ≡ (last, at_last)
        → Gives k target before gap [] at_start (all rounds ++ (items ++ last)) at_last
    collected script ending closing rounds items last live at_end at_last goes ends closes =
        then-Gives k target before gap at_start live at_last [] (all rounds) (items ++ last) refl
          (subst (λ o. Gives k target before gap [] at_start (all o.0) o.1) goes
            (serve_rounds-Gives script at_start [] [] (nothing-IsServed k target before gap)))
          (λ done pending v.
            then-Gives k target before gap live at_end at_last done items last v.taken_is
              (subst (λ o. Gives k target before gap done live o.0 o.1) ends
                (serve-Served k target before gap ending live done pending v))
              (λ done' pending' v'.
                subst (λ o. Gives k target before gap done' at_end o.0 o.1) closes
                  (serve-Served k target before gap closing at_end done' pending' v')))
