-- ===== src/Synthetic/Read.antt =====
-- synthetic/src/main.rs: the aligned buffer, the repeated direct read, and the check of the file that
-- is read.
use whyslow.Base.{
  ℕ, zero, suc, ◌*◌, Option, none, some, [], ◌∷◌, ◌++◌, ◌%◌, ◌^◌, ◌==◌, ltb, if◌then◌else◌,
}
use whyslow.Base.Text.{Text, codes}
use whyslow.Base.Result.{ok, err, Error, Anyhow}

abbrev pub file_size : ℕ
file_size = 64 * 1024

abbrev pub align : ℕ
align = 4096

abbrev pub read_repeats : ℕ
read_repeats = 64

-- `std::alloc::Layout`.
pub record Layout : Type 0 where
  pub size : ℕ
  pub alignment : ℕ

pub record AlignedBuf : Type 0 where
  pub ptr : ℕ
  pub layout : Layout

-- `allocated` is the pointer that the allocator returns; `none` where the assertion fails. A layout
-- of this alignment exists for every size that is used.
unfoldable pub new_buf : ℕ → ℕ → Option AlignedBuf
new_buf allocated size =
    if allocated == 0
    then none
    else some (record { ptr = allocated; layout = record { size = size; alignment = align } })

-- The answers of the system: of opening the file, of the allocator, the error of each `pread` that
-- fails, and what SYS_gettid returns to a thread.
pub record SystemAnswers : Type 0 where
  pub opening : Option Error
  pub allocated : ℕ
  pub pread : ℕ → Option Text
  pub sys_gettid : ℕ → ℕ

-- The id of the thread, as 32 bits.
unfoldable pub gettid : SystemAnswers → ℕ → ℕ
gettid a t = a.sys_gettid t % 2 ^ 32

-- The loop, with `n` reads to go, the next of them the `i`th.
unfoldable pub read_again : (ℕ → Option Text) → ℕ → ℕ → Anyhow Unit
read_again pread zero i = ok tt
read_again pread (suc n) i =
    let rest = read_again pread n (suc i) in
    elim (pread i) [ some why ↦ err ((codes "O_DIRECT pread failed: " ++ why) ∷ []) | none ↦ rest ]

-- `none` where it panics.
unfoldable pub cold_direct_read : SystemAnswers → Option (Anyhow Unit)
unfolding read_again new_buf
cold_direct_read a = elim a.opening [
  | some why ↦ some (err why)
  | none ↦ elim (new_buf a.allocated file_size) [
    | none ↦ none
    | some buf ↦ some (read_again a.pread read_repeats 0)
  ]
]

-- The file to read is the executable; `none` where the assertion on its length fails.
unfoldable pub read_source : Anyhow Text → Anyhow ℕ → Option (Anyhow Text)
read_source (err why) len = some (err why)
read_source (ok path) (err why) = some (err why)
read_source (ok path) (ok len) = if ltb len file_size then none else some (ok path)
