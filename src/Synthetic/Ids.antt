-- ===== src/Synthetic/Ids.antt =====
-- synthetic/src/main.rs: the ids that the two threads store.
use whyslow.Base.{
  ℕ, ◌^◌, ◌%◌, ◌≡◌, refl, sym, ◌∙◌, ap, Bool, true, false, Bool-cases, inl, inr, ◌==◌, ==→eq, arith,
}
use whyslow.Synthetic.Read.{SystemAnswers, gettid}
use whyslow.Synthetic.Program.{
  Place, unspawned, starting, before_lock, in_lock, reading, before_unlock, in_unlock, finished,
  panicked, holder, waiter, set_at, Program, Runs, spawns_holder, stores_tid, locks, goes_on,
  acquires, reads, panics, acquires_too, unlocks_free, unlocks_waited, ends, sees, spawns_waiter,
  joins_holder, finds_panic, joins_waiter, prints, Reached, at_first, and_then,
}

-- A thread at this place has stored its id.
abbrev pub has_id : Place → Bool
has_id unspawned = false
has_id starting = false
has_id _ = true

module _ (answers : SystemAnswers) where
  abbrev HasIds : Program → Type 0
  HasIds p = (u : ℕ) → has_id (p.places u) ≡ true → p.tids u ≡ answers.sys_gettid u % 2 ^ 32

  -- A thread goes on that has stored its id before, or has not after.
  goes :
      (p : Program) (t : ℕ) (x y : Place)
      → p.places t ≡ x
      → (has_id y ≡ true → has_id x ≡ true)
      → HasIds p
      → (u : ℕ) → has_id (set_at t y p.places u) ≡ true
      → p.tids u ≡ answers.sys_gettid u % 2 ^ 32
  goes p t x y e back v u now = elim (Bool-cases (u == t)) [
    | inl same ↦
        let at : set_at t y p.places u ≡ y = rw same refl in
        v u (
          ap (λ i. has_id (p.places i)) (==→eq u t same)
          ∙ ap has_id e
          ∙ back (ap has_id (sym at) ∙ now))
    | inr off ↦
        let at : set_at t y p.places u ≡ p.places u = rw off refl in v u (ap has_id (sym at) ∙ now)
  ]

  stored :
      (p : Program) (t : ℕ)
      → HasIds p
      → (u : ℕ) → has_id (set_at t before_lock p.places u) ≡ true
      → set_at t (gettid answers t) p.tids u ≡ answers.sys_gettid u % 2 ^ 32
  unfolding gettid
  stored p t v u now = elim (Bool-cases (u == t)) [
    | inl same ↦
        let at : set_at t (gettid answers t) p.tids u ≡ gettid answers t = rw same refl in
        at ∙ ap (λ i. answers.sys_gettid i % 2 ^ 32) (sym (==→eq u t same))
    | inr off ↦
        let kept : set_at t (gettid answers t) p.tids u ≡ p.tids u = rw off refl in
        let at : set_at t before_lock p.places u ≡ p.places u = rw off refl in
        kept ∙ v u (ap has_id (sym at) ∙ now)
  ]

  Runs-HasIds : {p p' : Program} → Runs answers p p' → HasIds p → HasIds p'
  Runs-HasIds {p = p} (spawns_holder e) v =
      goes p holder _ starting refl (λ q. absurd (ground arith)) v
  Runs-HasIds {p = p} (stores_tid t e) v = stored p t v
  Runs-HasIds {p = p} (locks t e out) v = goes p t before_lock in_lock e (λ q. refl) v
  Runs-HasIds (goes_on step inside) v = v
  Runs-HasIds {p = p} (acquires e held) v = goes p holder in_lock reading e (λ q. refl) v
  Runs-HasIds {p = p} (reads e fine) v = goes p holder reading before_unlock e (λ q. refl) v
  Runs-HasIds {p = p} (panics e failed) v = goes p holder reading panicked e (λ q. refl) v
  Runs-HasIds {p = p} (acquires_too e held) v = goes p waiter in_lock before_unlock e (λ q. refl) v
  Runs-HasIds {p = p} (unlocks_free t e held z) v = goes p t before_unlock in_unlock e (λ q. refl) v
  Runs-HasIds {p = p} (unlocks_waited t e held z) v =
      goes p t before_unlock in_unlock e (λ q. refl) v
  Runs-HasIds {p = p} (ends t e out) v = goes p t in_unlock finished e (λ q. refl) v
  Runs-HasIds (sees e set) v = v
  Runs-HasIds {p = p} (spawns_waiter e) v =
      goes p waiter _ starting refl (λ q. absurd (ground arith)) v
  Runs-HasIds (joins_holder e over) v = v
  Runs-HasIds (finds_panic e over) v = v
  Runs-HasIds (joins_waiter e over) v = v
  Runs-HasIds (prints e) v = v

  pub Reached-id : {p : Program} → Reached answers p → HasIds p
  Reached-id at_first = λ u now. absurd (ground arith)
  Reached-id (and_then r run) = Runs-HasIds run (Reached-id r)
