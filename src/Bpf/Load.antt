-- ===== src/Bpf/Load.antt =====
-- whyslow-cli/src/bpf.rs: `load_and_attach`, with the answers of aya and the kernel as a parameter.
-- `bump_memlock_rlimit` ignores what its one call answers and is left out.
use whyslow.Base.{
  ◌≡◌, refl, ap, ◌↔◌, inl, inr, Option, none, some, List, [], ◌∷◌, ◌++◌, arith, All, Option-cases,
}
use whyslow.Base.Text.{Text, codes}
use whyslow.Base.Result.{
  Anyhow-cases, ok, err, Error, Anyhow, context, answered, Lookup, missing, refused, found,
}

-- The program's name, the category and the name of the tracepoint.
pub record TracepointSpec : Type 0 where
  pub prog_name : Text
  pub category : Text
  pub tp_name : Text

abbrev pub tracepoints : List TracepointSpec
tracepoints =
    record {
      prog_name = codes "sched_switch";
      category = codes "sched";
      tp_name = codes "sched_switch";
    }
    ∷ record {
      prog_name = codes "futex_enter";
      category = codes "syscalls";
      tp_name = codes "sys_enter_futex";
    }
    ∷ record {
      prog_name = codes "futex_exit";
      category = codes "syscalls";
      tp_name = codes "sys_exit_futex";
    }
    ∷ record {
      prog_name = codes "block_rq_issue";
      category = codes "block";
      tp_name = codes "block_rq_issue";
    }
    ∷ record {
      prog_name = codes "block_rq_complete";
      category = codes "block";
      tp_name = codes "block_rq_complete";
    }
    ∷ []

-- The answers: to loading the object, to looking a program up as a tracepoint program, and to its
-- `load` and `attach`; an error where a call fails.
pub record Answers : Type 0 where
  pub object_answer : Option Error
  pub program_mut : Text → Lookup
  pub load_answer : Text → Option Error
  pub attach_answer : Text → Text → Text → Option Error

module _ (a : Answers) where
  -- The body of the loop: all of it, or the first error.
  unfoldable pub attach_one : TracepointSpec → Anyhow Unit
  attach_one t = elim (a.program_mut t.prog_name) [
    | missing ↦ err ((codes "BPF program `" ++ t.prog_name ++ codes "` missing from object") ∷ [])
    | refused why ↦ err why
    | found ↦
        elim (context (codes "loading BPF program `" ++ t.prog_name ++ codes "`")
          (answered (a.load_answer t.prog_name))) [
            | err why ↦ err why
            | ok _ ↦
                context (codes "attaching to tracepoint " ++ t.category ++ codes ":" ++ t.tp_name)
                  (answered (a.attach_answer t.prog_name t.category t.tp_name))
          ]
  ]

  -- The programs that the loop attaches, in order, and its result.
  unfoldable pub attach_all : List TracepointSpec → List TracepointSpec × Anyhow Unit
  attach_all [] = ([], ok tt)
  attach_all (t ∷ ts) =
      let rest = attach_all ts in
      elim (attach_one t) [ err why ↦ ([], err why) | ok _ ↦ (t ∷ rest.0, rest.1) ]

  unfoldable pub load_and_attach : List TracepointSpec × Anyhow Unit
  load_and_attach =
      elim (context (codes "loading whyslow-ebpf object") (answered a.object_answer)) [
        | err why ↦ ([], err why)
        | ok _ ↦ attach_all tracepoints
      ]

  -- Every call that attaching the program makes is answered.
  pub record Works (t : TracepointSpec) : Type 0 where
    pub is_there : a.program_mut t.prog_name ≡ found
    pub loads : a.load_answer t.prog_name ≡ none
    pub attaches : a.attach_answer t.prog_name t.category t.tp_name ≡ none

  attach_one-ok : (t : TracepointSpec) → Works t → attach_one t ≡ ok tt
  unfolding attach_one
  attach_one-ok t w = rw (w.is_there, w.loads, w.attaches, attach_one)

  attach_one-Works : (t : TracepointSpec) → attach_one t ≡ ok tt → Works t
  unfolding attach_one
  attach_one-Works t e = record {
    is_there = ground arith;
    loads = ground arith;
    attaches = ground arith;
  }

  attach_all-ok :
      (ts : List TracepointSpec)
      → (((attach_all ts).1 ≡ ok tt) → ((attach_all ts).0 ≡ ts) × All Works ts)
        × (All Works ts → attach_all ts ≡ (ts, ok tt))
  unfolding attach_all
  attach_all-ok [] = (λ e. (refl, tt), λ w. refl)
  attach_all-ok (t ∷ ts) = elim (Anyhow-cases (attach_one t)) [
    | inl (_, fine) ↦
        let (made, works) = attach_all-ok ts in
        rw (fine, attach_all)
          (
            λ e. let (same, all) = made e in (ap (◌∷◌ t) same, (attach_one-Works t fine, all)),
            λ w. rw (works w.1),
          )
    | inr (why, bad) ↦
        rw (bad, attach_all)
          (λ e. absurd (ground arith), λ w. let fine = attach_one-ok t w.0 in absurd (ground arith))
  ]

  load_and_attach-opened : a.object_answer ≡ none → load_and_attach ≡ attach_all tracepoints
  unfolding load_and_attach
  load_and_attach-opened opens =
      ap
        (λ (o : Option Error).
          elim (context (codes "loading whyslow-ebpf object") (answered o))
            as (λ _. List TracepointSpec × Anyhow Unit) [
              | err why ↦ ([], err why)
              | ok _ ↦ attach_all tracepoints
            ])
        opens

  load_and_attach-failed :
      (why : Error)
      → a.object_answer ≡ some why
      → load_and_attach ≡ ([], err (codes "loading whyslow-ebpf object" ∷ why))
  unfolding load_and_attach
  load_and_attach-failed why fails = rw (fails, load_and_attach)

  -- Loading and attaching succeeds exactly if the object loads and each of the five programs is in it,
  -- is a tracepoint program, loads and attaches; and if it succeeds, exactly the five programs have
  -- been attached, each to its own tracepoint, in the order of the list.
  pub load_and_attach-ok_iff :
      ((load_and_attach.1 ≡ ok tt) ↔ ((a.object_answer ≡ none) × All Works tracepoints))
      × ((load_and_attach.1 ≡ ok tt) → load_and_attach.0 ≡ tracepoints)
  load_and_attach-ok_iff =
      let (made, works) = attach_all-ok tracepoints in
      elim (Option-cases a.object_answer) [
        | inl opens ↦
            simp (load_and_attach-opened opens)
              ((λ e. (opens, (made e).1), λ w. ap (λ x. x.1) (works w.1)), λ e. (made e).0)
        | inr (why, fails) ↦ simp (load_and_attach-failed why fails) (
          (λ e. absurd (ground arith), λ w. let none_is = w.0 in absurd (ground arith)),
          λ e. absurd (ground arith),
        )
      ]
