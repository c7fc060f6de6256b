-- ===== src/Bpf/Live.antt =====
-- The ring buffer between the two: the programs of whyslow-ebpf/src/main.rs append to it while
-- `drain_ring_buffer` of whyslow-cli/src/bpf.rs takes from it. What `ring.next()` gives is what aya
-- documents: the oldest item that has not been taken, or nothing where there is none.
use mathlib.Core.List.{append_assoc, append-nil, map-append}
use whyslow.Base.{
  ℕ, suc, ◌+◌, ◌≡◌, refl, sym, ap, subst, ◌∙◌, none, List, [], ◌∷◌, ◌++◌, map, drop, length,
  length-append, arith, All,
}
use whyslow.Base.Result.{found}
use whyslow.Event.Schema.{Event, InRange}
use whyslow.Ebpf.Probes.{Maps, Hit, after, loaded}
use whyslow.Ebpf.Append.{after-Extends}
use whyslow.Bpf.Layout.{in_memory}
use whyslow.Bpf.Drain.{Item, Sent, bytes, IsWhole}
use whyslow.Bpf.Target.{set_target_tgid}
use whyslow.Bpf.Session.{session, session-untraced}

-- The events with the padding that each has in the buffer, the first being the `n`th of all.
abbrev pub sent_from : (ℕ → List ℕ) → ℕ → List Event → List Sent
sent_from gap n [] = []
sent_from gap n (ev ∷ evs) = (ev, gap n) ∷ sent_from gap (suc n) evs

sent_from-append :
    (gap : ℕ → List ℕ) (n : ℕ) (xs ys : List Event)
    → sent_from gap n (xs ++ ys) ≡ sent_from gap n xs ++ sent_from gap (n + length xs) ys
sent_from-append gap n [] ys = ap (λ i. sent_from gap i ys) (omega arith)
sent_from-append gap n (x ∷ xs) ys = ap (◌∷◌ (x, gap n)) (
    sent_from-append gap (suc n) xs ys
    ∙ ap (λ i. sent_from gap (suc n) xs ++ sent_from gap i ys) (omega arith))

drop-done : (done left : List Event) → drop (length done) (done ++ left) ≡ left
drop-done [] left = refl
drop-done (x ∷ done) left = drop-done done left

all_taken : (done pending : List Event) → length done ≡ length (done ++ pending) → pending ≡ []
all_taken done [] e = refl
all_taken done (x ∷ pending) e = absurd (omega (arith, e, length-append done (x ∷ pending)))

pub map-sent_from :
    (gap : ℕ → List ℕ) (n : ℕ) (evs : List Event) → map (λ x. x.0) (sent_from gap n evs) ≡ evs
map-sent_from gap n [] = refl
map-sent_from gap n (ev ∷ evs) = ap (◌∷◌ ev) (map-sent_from gap (suc n) evs)

pub sent_from-IsWhole :
    (gap : ℕ → List ℕ) (n : ℕ) (evs : List Event)
    → ((i : ℕ) → length (gap i) ≡ 4)
    → All InRange evs
    → All IsWhole (sent_from gap n evs)
sent_from-IsWhole gap n [] four fits = tt
sent_from-IsWhole gap n (ev ∷ evs) four fits =
    ((fits.0, four n), sent_from-IsWhole gap (suc n) evs four fits.1)

-- The hits so far, newest first, and how many events have been taken.
pub record Live : Type 0 where
  pub hits : List Hit
  pub taken : ℕ

module _ (k : Maps) (target : ℕ) (before : List Hit) (gap : ℕ → List ℕ) where
  open k use {ring}

  abbrev pub queue_at : List Hit → List Event
  queue_at hits = ring.queued (session k target before hits).events

  -- What a call of `ring.next()` gives where these events have not been taken, and then what the later
  -- calls give.
  abbrev given : List Event → List Hit → ℕ → List Item × Live → List Item × Live
  given [] hits n rest = ([], record { hits = hits; taken = n })
  given (ev ∷ _) hits n rest = (in_memory ev (gap n) ∷ rest.0, rest.1)

  -- Calls of `ring.next()`, each after the hits since the one before: what they give up to the first
  -- that finds nothing.
  abbrev pub serve : List (List Hit) → Live → List Item × Live
  serve [] live = ([], live)
  serve (newer ∷ calls) live =
      let hits = newer ++ live.hits in
      let rest = serve calls (record { hits = hits; taken = suc live.taken }) in
      given (drop live.taken (queue_at hits)) hits live.taken rest

  -- Of the events that are in the buffer, `done` have been taken and `pending` have not.
  pub record IsServed (done pending : List Event) (live : Live) : Type 0 where
    pub queue_is : queue_at live.hits ≡ done ++ pending
    pub taken_is : live.taken ≡ length done

  queue_at-append :
      (newer older : List Hit)
      → (more : List Event) × (queue_at (newer ++ older) ≡ queue_at older ++ more)
  unfolding session
  queue_at-append newer older =
      after-Extends k (set_target_tgid k found none target (after k (loaded k) before)).0 newer
        older

  -- The items are the bytes of the events that have been taken on the way, in order.
  abbrev pub Gives : List Event → Live → List Item → Live → Type 0
  Gives done live items live' =
      (evs : List Event) × (pending : List Event) × IsServed (done ++ evs) pending live'
      × (items ≡ map bytes (sent_from gap live.taken evs))

  abbrev pub Served : List Event → Live → List Item × Live → Type 0
  Served done live out = Gives done live out.0 out.1

  untaken :
      (live : Live) (done pending : List Event) (newer : List Hit)
      → IsServed done pending live
      → (left : List Event) × (queue_at (newer ++ live.hits) ≡ done ++ left)
        × (drop live.taken (queue_at (newer ++ live.hits)) ≡ left)
  untaken live done pending newer v =
      let (more, grown) = queue_at-append newer live.hits in
      let now = grown ∙ ap (λ q. q ++ more) v.queue_is ∙ append_assoc done pending more in
      (
        pending ++ more,
        now,
        ap (λ q. drop live.taken q) now
            ∙ ap (λ n. drop n (done ++ (pending ++ more))) v.taken_is
            ∙ drop-done done (pending ++ more),
      )

  given-Served :
      (live : Live) (hits : List Hit) (done left : List Event) (rest : List Item × Live)
      → live.taken ≡ length done
      → queue_at hits ≡ done ++ left
      → ((first : Event) (later : List Event)
          → IsServed (done ++ first ∷ []) later (record { hits = hits; taken = suc live.taken })
          → Served (done ++ first ∷ []) (record { hits = hits; taken = suc live.taken }) rest)
      → Served done live (given left hits live.taken rest)
  given-Served live hits done [] rest n q further = (
    [],
    [],
    record {
      queue_is = q ∙ sym (append_assoc done [] []);
      taken_is = n ∙ ap length (sym (append-nil done));
    },
    refl,
  )
  given-Served live hits done (ev ∷ left) rest n q further =
      let (evs, pending, served, same) = further ev left (record {
        queue_is = q ∙ sym (append_assoc done (ev ∷ []) left);
        taken_is = omega (arith, n, length-append done (ev ∷ []));
      }) in
      (
        ev ∷ evs,
        pending,
        subst (λ d. IsServed d pending rest.1) (append_assoc done (ev ∷ []) evs) served,
        ap (◌∷◌ (in_memory ev (gap live.taken))) same,
      )

  pub serve-Served :
      (calls : List (List Hit)) (live : Live) (done pending : List Event)
      → IsServed done pending live
      → Served done live (serve calls live)
  serve-Served [] live done pending v =
      ([], pending, subst (λ d. IsServed d pending live) (sym (append-nil done)) v, refl)
  serve-Served (newer ∷ calls) live done pending v =
      let (left, now, dropped) = untaken live done pending newer v in
      let hits = newer ++ live.hits in
      let rest = serve calls (record { hits = hits; taken = suc live.taken }) in
      subst (λ d. Served done live (given d hits live.taken rest)) (sym dropped)
        (given-Served live hits done left rest v.taken_is now (λ first later w.
          serve-Served calls (record { hits = hits; taken = suc live.taken }) (done ++ first ∷ [])
            later w))

  pub then-Gives :
      (live live' live'' : Live) (done : List Event) (xs ys : List Item)
      → live.taken ≡ length done
      → Gives done live xs live'
      → ((done' pending' : List Event)
          → IsServed done' pending' live'
          → Gives done' live' ys live'')
      → Gives done live (xs ++ ys) live''
  then-Gives live live' live'' done xs ys n (evs, pending, served, same) next =
      let (evs', pending', served', same') = next (done ++ evs) pending served in
      let later : live'.taken ≡ live.taken + length evs =
        served.taken_is ∙ length-append done evs ∙ ap (λ m. m + length evs) (sym n) in
      (
        evs ++ evs',
        pending',
        subst (λ d. IsServed d pending' live'') (append_assoc done evs evs') served',
        ap (λ zs. zs ++ ys) same
            ∙ ap (λ zs. map bytes (sent_from gap live.taken evs) ++ zs)
                (same' ∙ ap (λ m. map bytes (sent_from gap m evs')) later)
            ∙ sym (
                ap (map bytes) (sent_from-append gap live.taken evs evs')
                ∙ map-append bytes (sent_from gap live.taken evs) _),
      )

  -- Before the first hit nothing has been taken, and there is nothing to take.
  pub nothing-IsServed : IsServed [] [] (record { hits = []; taken = 0 })
  nothing-IsServed = record {
    queue_is =
        ap (λ s. ring.queued s.events) (session-untraced k target before) ∙ ring.queued-fresh;
    taken_is = refl;
  }

  -- Where as many have been taken as were submitted, the items are the bytes of all.
  pub drained :
      (live : Live) (items : List Item)
      → live.taken ≡ length (queue_at live.hits)
      → Gives [] (record { hits = []; taken = 0 }) items live
      → items ≡ map bytes (sent_from gap 0 (queue_at live.hits))
  drained live items all (evs, pending, served, same) =
      let none_left =
        all_taken evs pending (sym served.taken_is ∙ all ∙ ap length served.queue_is) in
      same
      ∙ ap (λ q. map bytes (sent_from gap 0 q))
          (sym (served.queue_is ∙ ap (λ p. evs ++ p) none_left ∙ append-nil evs))
