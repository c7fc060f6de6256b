-- ===== src/Bpf/Target.antt =====
-- whyslow-cli/src/bpf.rs: `set_target_tgid` writes the one slot of `TARGET_TGID`.
use whyslow.Base.{◌≡◌, refl, arith, ℕ, [], ◌∷◌, Option, none, some}
use whyslow.Base.Result.{Error, ok, err, Anyhow, Lookup, missing, refused, found}
use whyslow.Base.Text.{codes}
use whyslow.Ebpf.Probes.{Maps, Probes}

-- `answer` is the error of `map.set`, if it fails, and then the slot is as before.
unfoldable pub set_target_tgid :
    (k : Maps) → Lookup → Option Error → ℕ → Probes k → Probes k × Anyhow Unit
set_target_tgid k missing answer tgid s =
    (s, err (codes "TARGET_TGID map missing from object" ∷ []))
set_target_tgid k (refused why) answer tgid s = (s, err why)
set_target_tgid k found (some why) tgid s = (s, err why)
set_target_tgid k found none tgid s = (record s { target = some tgid }, ok tt)

-- If the target is set, its slot holds the process.
pub set_target_tgid-target :
    (k : Maps) (map : Lookup) (answer : Option Error) (tgid : ℕ) (s : Probes k)
    → (set_target_tgid k map answer tgid s).1 ≡ ok tt
    → (set_target_tgid k map answer tgid s).0.target ≡ some tgid
unfolding set_target_tgid
set_target_tgid-target k missing answer tgid s e = absurd (ground arith)
set_target_tgid-target k (refused why) answer tgid s e = absurd (ground arith)
set_target_tgid-target k found (some why) tgid s e = absurd (ground arith)
set_target_tgid-target k found none tgid s e = refl
