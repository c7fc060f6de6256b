-- ===== src/Main/Sample.antt =====
-- A world in which every call of `run` succeeds, and hits of a session in it.
use whyslow.Base.{
  ℕ, ◌+◌, ◌*◌, ◌^◌, ◌/◌, ◌%◌, refl, Bool, Option, ◌==◌, true, false, none, some, List, [], ◌∷◌,
  ◌++◌, map, arith, replicate, All,
}
use whyslow.Base.Text.{Text, codes, decimal}
use whyslow.Base.Result.{ok, found}
use whyslow.Event.Schema.{Event, new, event_sched_block}
use whyslow.Trace.Concrete.{numbers}
use whyslow.Causal.Env.{Env}
use whyslow.Child.{changed, stopped, neither}
use whyslow.Ebpf.Probes.{loaded}
use whyslow.Ebpf.Concrete.{maps}
use whyslow.Bpf.Load.{Answers}
use whyslow.Bpf.Drain.{Sent, IsWhole, bytes}
use whyslow.Main.Effects.{World, Polled}
use whyslow.Ebpf.Raw.{TraceEventRawSchedSwitch}
use whyslow.Ebpf.Kernel.{Helpers}
use whyslow.Ebpf.Probes.{Hit, sched_switch}

abbrev pub quiet_env : Env
quiet_env = record {
  F64 = ℕ;
  f64_of = λ n. n;
  f64_div = λ a b. a / b;
  f64_fixed2 = λ n. decimal n ++ codes ".00";
  localtime_r = λ s. record { tm_hour = s / 3600 % 24; tm_min = s / 60 % 60; tm_sec = s % 60 };
  read_link = λ path. none;
  terminal = record { no_color_set = false; is_terminal = true };
}

-- The child 70 was blocked from 400 to 900.
abbrev pub one_event : Event
one_event = new 900 500 0 70 71 event_sched_block (codes "app" ++ replicate 13 0)

abbrev pub one_sent : List Sent
one_sent = (one_event, 9 ∷ 9 ∷ 9 ∷ 9 ∷ []) ∷ []

pub one_sent-IsWhole : All IsWhole one_sent
one_sent-IsWhole = (
  (
    record {
      timestamp_ns_fits = omega arith;
      duration_ns_fits = omega arith;
      key_fits = omega arith;
      pid_fits = omega arith;
      tid_fits = omega arith;
      event_type_fits = omega arith;
      pad_length = refl;
      pad_bytes = search arith;
      comm_length = refl;
      comm_bytes = search arith;
    },
    refl,
  ),
  tt,
)

abbrev pub answering : Answers
answering = record {
  object_answer = none;
  program_mut = λ name. found;
  load_answer = λ name. none;
  attach_answer = λ name category tp. none;
}

abbrev pub seen : Polled
seen = record { items = map bytes one_sent; ret = 0 }

abbrev pub gone : Polled
gone = record { items = []; ret = 70 }

-- The child is the target.
abbrev pub traces_70 : Option ℕ → Bool
traces_70 none = false
traces_70 (some tgid) = tgid == 70

abbrev pub when : {A : Type 0} → Bool → List A → List A
when true xs = xs
when false xs = []

abbrev pub world : World
world = record {
  env = quiet_env;
  euid = 0;
  stdout = λ site. none;
  child = record { fork = ok 70; traceme = none; exec = none };
  waits = changed neither ∷ changed stopped ∷ [];
  is_running = true;
  bpf = answering;
  maps = maps;
  probes = loaded maps;
  target_map = found;
  set_answer = none;
  realtime = record { tv_sec = 1; tv_nsec = 0 };
  monotonic = record { tv_sec = 0; tv_nsec = 100 };
  detach = none;
  events_map = found;
  polls = λ s. when (traces_70 s.target) (seen ∷ gone ∷ []);
  started = 0;
  watches = λ s. [];
  last = λ s. [];
  serde = numbers;
  disk = record {
    create = none;
    writer = none;
    opening = none;
    not_found = codes "No such file or directory (os error 2)" ∷ [];
    reader = none;
  };
  files = λ path. none;
}

abbrev pub out_path : Text
out_path = codes "t.json"

abbrev pub argv : List Text
argv = codes "app" ∷ codes "-v" ∷ []

abbrev pub app_switch : ℕ → ℕ → ℕ → TraceEventRawSchedSwitch
app_switch prev state next = record {
  ent = record { kind = 1; flags = 0; preempt_count = 0; pid = 0 };
  prev_comm = codes "app" ++ replicate 13 0;
  prev_pid = prev;
  prev_prio = 120;
  prev_state = state;
  next_comm = codes "app" ++ replicate 13 0;
  next_pid = next;
  next_prio = 120;
}

abbrev pub on_cpu : ℕ → ℕ → Helpers
on_cpu tid now = record { pid_tgid = 70 * 2 ^ 32 + tid; ktime_ns = now; comm = none }

-- The thread 71 is switched out at 400, and back in at 900.
abbrev pub two_switches : List Hit
two_switches =
    sched_switch (on_cpu 72 900) (some (app_switch 72 0 71))
    ∷ sched_switch (on_cpu 71 400) (some (app_switch 71 1 72))
    ∷ []
