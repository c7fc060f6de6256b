-- ===== src/Synthetic/Done.antt =====
-- synthetic/src/main.rs: what has happened when the line is printed.
use whyslow.Base.{ℕ, ◌<◌, ◌^◌, ◌%◌, ◌≡◌, ◌∙◌, ap, none, some}
use whyslow.Synthetic.Ids.{has_id, Reached-id}
use whyslow.Synthetic.Mutex.{outside}
use whyslow.Synthetic.Read.{SystemAnswers, read_repeats}
use whyslow.Synthetic.Program.{finished, done, holder, waiter, Program, Reached}
use whyslow.Synthetic.Moves.{Joined-at}
use whyslow.Synthetic.Order.{Reached-IsSound, all_outside, free}
use whyslow.Synthetic.Reads.{has_read, Reached-HasRead, cold_direct_read-ok}

module _ (answers : SystemAnswers) where
  -- Whatever the order in which `main` and the two threads go on: when the line is printed, the file
  -- was opened and each of its 64 reads has succeeded, both threads have finished, no thread is in
  -- `lock`, holds the mutex or is in `unlock`, the word is 0, and the ids in the line are those that the
  -- system gives to the threads of the holder and of the waiter, as 32 bits.
  pub Reached-done :
      (p : Program)
      → Reached answers p
      → p.main ≡ done
      → ((answers.opening ≡ none) × ((i : ℕ) → i < read_repeats → answers.pread i ≡ none))
        × (((p.places holder ≡ finished) × (p.places waiter ≡ finished))
            × (((t : ℕ) → p.mutex.at t ≡ outside)
                × ((p.mutex.word ≡ 0)
                    × (p.line
                        ≡ some (
                          answers.sys_gettid holder % 2 ^ 32,
                          answers.sys_gettid waiter % 2 ^ 32,
                        )))))
  Reached-done p r e =
      let v = Reached-IsSound answers r in
      let (h, (w, _)) = Joined-at p done v e in
      let id : (t : ℕ) → p.places t ≡ finished → p.tids t ≡ answers.sys_gettid t % 2 ^ 32 =
        λ t over. Reached-id answers r t (ap has_id over) in
      let ids =
        ap (λ x. some (x, p.tids waiter)) (id holder h)
        ∙ ap (λ x. some (answers.sys_gettid holder % 2 ^ 32, x)) (id waiter w) in
      let out = all_outside answers p v h w in
      (
        cold_direct_read-ok answers (Reached-HasRead answers r (ap has_read h)),
        ((h, w), (out, (free answers p r out, v.printed e ∙ ids))),
      )
