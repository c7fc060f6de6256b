-- ===== src/Synthetic/Reads.antt =====
-- synthetic/src/main.rs: the holder lets the mutex go only after its reads.
use whyslow.Base.{
  ℕ, zero, suc, ◌+◌, ◌<◌, ◌≡◌, refl, sym, ◌∙◌, ap, subst, inl, inr, Bool, true, false, Bool-cases,
  Option, none, some, [], ◌∷◌, ◌++◌, arith, ◌==◌, ==→eq,
}
use whyslow.Base.Text.{Text, codes}
use whyslow.Base.Result.{Result, ok, err, Error, Anyhow}
use whyslow.Synthetic.Read.{
  SystemAnswers, read_again, cold_direct_read, read_repeats, file_size, AlignedBuf, new_buf,
}
use whyslow.Synthetic.Program.{
  Place, starting, before_lock, in_lock, before_unlock, in_unlock, finished, holder, set_at,
  Program, Runs, spawns_holder, stores_tid, locks, goes_on, acquires, reads, panics, acquires_too,
  unlocks_free, unlocks_waited, ends, sees, spawns_waiter, joins_holder, finds_panic, joins_waiter,
  prints, Reached, at_first, and_then,
}

again :
    (failed : Option Text) (rest : Anyhow Unit)
    → Result.ok tt ≡ (elim failed [
      | some why ↦ err ((codes "O_DIRECT pread failed: " ++ why) ∷ [])
      | none ↦ rest
    ])
    → (failed ≡ none) × (rest ≡ ok tt)
again none rest e = (refl, sym e)
again (some why) rest e = absurd (ground arith)

read_again-ok :
    (pread : ℕ → Option Text) (n i : ℕ)
    → read_again pread n i ≡ ok tt
    → (j : ℕ) → j < n
    → pread (i + j) ≡ none
unfolding read_again
read_again-ok pread zero i e j h = absurd (omega arith)
read_again-ok pread (suc n) i e zero h =
    subst (λ k. pread k ≡ none) (omega arith)
      (again (pread i) (read_again pread n (suc i)) (sym e)).0
read_again-ok pread (suc n) i e (suc j) h =
    subst (λ k. pread k ≡ none) (omega arith)
      (read_again-ok pread n (suc i) (again (pread i) (read_again pread n (suc i)) (sym e)).1 j
        (omega arith))

opened :
    (refusal : Option Error) (buf : Option AlignedBuf) (answer : Anyhow Unit)
    → some (Result.ok tt) ≡ (elim refusal [
      | some why ↦ some (err why)
      | none ↦ elim buf [ none ↦ none | some b ↦ some answer ]
    ])
    → (refusal ≡ none) × (answer ≡ ok tt)
opened none none answer e = absurd (ground arith)
opened none (some buf) answer e = (refl, ground arith)
opened (some why) buf answer e = absurd (ground arith)

-- A read that returns without an error opened the file, and read it as often as it is to.
pub cold_direct_read-ok :
    (a : SystemAnswers)
    → cold_direct_read a ≡ some (ok tt)
    → (a.opening ≡ none) × ((i : ℕ) → i < read_repeats → a.pread i ≡ none)
unfolding cold_direct_read
cold_direct_read-ok a e =
    let (opens, all) =
      opened a.opening (new_buf a.allocated file_size) (read_again a.pread read_repeats 0)
        (sym e) in
    (
      opens,
      λ i h.
          subst (λ k. a.pread k ≡ none) (omega arith)
            (read_again-ok a.pread read_repeats 0 all i h),
    )

-- The holder is behind its reads.
abbrev pub has_read : Place → Bool
has_read before_unlock = true
has_read in_unlock = true
has_read finished = true
has_read _ = false

module _ (answers : SystemAnswers) where
  abbrev HasRead : Program → Type 0
  HasRead p = has_read (p.places holder) ≡ true → cold_direct_read answers ≡ some (ok tt)

  -- A thread goes on that has read before, or has not read after.
  goes :
      (p : Program) (t : ℕ) (x y : Place)
      → p.places t ≡ x
      → (has_read y ≡ true → has_read x ≡ true)
      → HasRead p
      → has_read (set_at t y p.places holder) ≡ true
      → cold_direct_read answers ≡ some (ok tt)
  goes p t x y e back v now = elim (Bool-cases (holder == t)) [
    | inl same ↦
        let at : set_at t y p.places holder ≡ y = rw same refl in
        v (
          ap (λ u. has_read (p.places u)) (==→eq holder t same)
          ∙ ap has_read e
          ∙ back (ap has_read (sym at) ∙ now))
    | inr off ↦
        let at : set_at t y p.places holder ≡ p.places holder = rw off refl in
        v (ap has_read (sym at) ∙ now)
  ]

  Runs-HasRead : {p p' : Program} → Runs answers p p' → HasRead p → HasRead p'
  Runs-HasRead {p = p} (spawns_holder e) v = λ now. absurd (ground arith)
  Runs-HasRead {p = p} (stores_tid t e) v =
      goes p t starting before_lock e (λ q. absurd (ground arith)) v
  Runs-HasRead {p = p} (locks t e out) v =
      goes p t before_lock in_lock e (λ q. absurd (ground arith)) v
  Runs-HasRead (goes_on step inside) v = v
  Runs-HasRead {p = p} (acquires e held) v = λ now. absurd (ground arith)
  Runs-HasRead (reads e fine) v = λ now. fine
  Runs-HasRead {p = p} (panics e failed) v = λ now. absurd (ground arith)
  Runs-HasRead (acquires_too e held) v = v
  Runs-HasRead {p = p} (unlocks_free t e held z) v =
      goes p t before_unlock in_unlock e (λ q. refl) v
  Runs-HasRead {p = p} (unlocks_waited t e held z) v =
      goes p t before_unlock in_unlock e (λ q. refl) v
  Runs-HasRead {p = p} (ends t e out) v = goes p t in_unlock finished e (λ q. refl) v
  Runs-HasRead (sees e set) v = v
  Runs-HasRead (spawns_waiter e) v = v
  Runs-HasRead (joins_holder e over) v = v
  Runs-HasRead (finds_panic e over) v = v
  Runs-HasRead (joins_waiter e over) v = v
  Runs-HasRead (prints e) v = v

  pub Reached-HasRead : {p : Program} → Reached answers p → HasRead p
  Reached-HasRead at_first = λ now. absurd (ground arith)
  Reached-HasRead (and_then r run) = Runs-HasRead run (Reached-HasRead r)
