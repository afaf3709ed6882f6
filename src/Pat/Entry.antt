-- ===== src/Pat/Entry.antt =====
-- The entries of the table as functions of its bytes.
use tsanalytics.Base.{
  ℕ, zero, suc, ◌+◌, ◌*◌, ◌/◌, ◌%◌, ◌^◌, ◌≤◌, ◌<◌, ◌==◌, ◌≡◌, refl, ap, if◌then◌else◌, Bool-cases,
  inl, inr, List, [], ◌∷◌, none, some, length, IsBytes, byte_at, byte_at-lt, u16, arith,
}
use tsanalytics.GetBit.{get_bit}
use tsanalytics.GetBit.Word.{word}
use native.Mathlib.Decide.{dec_lt}
use tsanalytics.GetBit.Stream.{get_at, get_bit-none}
use tsanalytics.Reader.{◌>>=◌}
use tsanalytics.Pat.{PatPid, read_pid, read_pids}

-- The program number and the PID of the entry at byte `k`.
abbrev pub program_at : List ℕ → ℕ → ℕ
program_at buf k = byte_at buf k * 256 + byte_at buf (k + 1)

abbrev pub pid_at : List ℕ → ℕ → ℕ
pid_at buf k = byte_at buf (k + 2) % 32 * 256 + byte_at buf (k + 3)

-- Program number 0 names the network's PID.
abbrev pub entry : List ℕ → ℕ → PatPid
entry buf k =
    if program_at buf k == 0
    then record {
      program_number = program_at buf k;
      network_pid = pid_at buf k;
      program_map_pid = 0;
    }
    else record {
      program_number = program_at buf k;
      network_pid = 0;
      program_map_pid = pid_at buf k;
    }

-- `n` entries of four bytes, from byte `k` on.
unfoldable pub entries : List ℕ → ℕ → ℕ → List PatPid
entries buf zero k = []
entries buf (suc n) k = entry buf k ∷ entries buf n (k + 4)

module _ (buf : List ℕ) (b : IsBytes buf) where
  lt : (i : ℕ) → byte_at buf i < 256
  lt i = byte_at-lt buf i b

  get_program :
      (k : ℕ)
      → k + 8 ≤ length buf
      → k ≤ 2 ^ 39
      → get_bit buf (k * 8) 16 ≡ some (program_at buf k, k * 8 + 16)
  unfolding word
  get_program k room small =
      get_at buf b (k * 8) k 0 16 (omega arith) (omega arith) (omega arith) (omega (arith, lt)) refl

  module _ (k : ℕ) (room : k + 10 ≤ length buf) (small : k ≤ 2 ^ 39) where
    get_reserved : get_bit buf (k * 8 + 16) 3 ≡ some (byte_at buf (k + 2) / 32, k * 8 + 19)
    unfolding word
    get_reserved =
        get_at buf b (k * 8 + 16) (k + 2) 0 3 (omega arith) (omega arith) (omega arith)
          (omega (arith, lt)) (omega arith)

    get_pid : get_bit buf (k * 8 + 19) 13 ≡ some (pid_at buf k, k * 8 + 32)
    unfolding word
    get_pid =
        get_at buf b (k * 8 + 19) (k + 2) 3 13 (omega arith) (omega arith) (omega arith)
          (omega (arith, lt, ap (byte_at buf) third)) (omega arith)
      where
        third : k + 2 + 1 ≡ k + 3
        third = omega arith

    program_small : u16 (program_at buf k) ≡ program_at buf k
    program_small = omega (arith, lt k, lt (k + 1))

    pid_small : u16 (pid_at buf k) ≡ pid_at buf k
    pid_small = omega (arith, lt (k + 2), lt (k + 3))

    read_pid-entry : read_pid buf (k * 8) ≡ some (entry buf k, k * 8 + 32)
    unfolding read_pid
    read_pid-entry = elim (Bool-cases (program_at buf k == 0)) [
      | inl e ↦
          rw
            (
              get_program k (omega arith) small,
              ◌>>=◌,
              get_reserved,
              program_small,
              e,
              get_pid,
              pid_small,
            )
            (ap (λ n. some (named n, k * 8 + 32)) program_small)
      | inr e ↦
          rw
            (
              get_program k (omega arith) small,
              ◌>>=◌,
              get_reserved,
              program_small,
              e,
              get_pid,
              pid_small,
            )
            (ap (λ n. some (mapped n, k * 8 + 32)) program_small)
    ]
      where
        named : ℕ → PatPid
        named n = record { program_number = n; network_pid = pid_at buf k; program_map_pid = 0 }

        mapped : ℕ → PatPid
        mapped n = record { program_number = n; network_pid = 0; program_map_pid = pid_at buf k }

  read_pid-none : (k : ℕ) → length buf < k + 10 → k ≤ 2 ^ 39 → read_pid buf (k * 8) ≡ none
  unfolding read_pid
  read_pid-none k past small = elim (dec_lt (length buf) (k + 8)) [
    | yes short ↦ rw (get_bit-none buf (k * 8) 16 (omega arith), ◌>>=◌)
    | no enough ↦
        rw (get_program k (omega arith) small, ◌>>=◌, get_bit-none buf (k * 8 + 16) 3 (omega arith))
  ]

  -- The loop reads the entries, up to six bytes behind the last.
  pub read_pids-entries :
      (n k : ℕ)
      → k + n * 4 + 6 ≤ length buf
      → k + n * 4 ≤ 2 ^ 39
      → read_pids buf n (k * 8) ≡ some (entries buf n k, k * 8 + n * 32)
  unfolding read_pids entries
  read_pids-entries zero k room small = ap (λ o. some ([], o)) (omega arith)
  read_pids-entries (suc n) k room small =
      rw
        (
          read_pid-entry k (omega arith) (omega arith),
          ◌>>=◌,
          further,
          read_pids-entries n (k + 4) (omega arith) (omega arith),
        )
        (ap (λ o. some (entry buf k ∷ entries buf n (k + 4), o)) (omega arith))
    where
      further : k * 8 + 32 ≡ (k + 4) * 8
      further = omega arith

  -- One entry too many, and the loop runs past the buffer.
  pub read_pids-none :
      (n k : ℕ)
      → 1 ≤ n
      → length buf < k + n * 4 + 4
      → k + n * 4 ≤ 2 ^ 39
      → read_pids buf n (k * 8) ≡ none
  unfolding read_pids
  read_pids-none zero k pos past small = absurd (omega arith)
  read_pids-none (suc n) k pos past small = elim (dec_lt (length buf) (k + 10)) [
    | yes short ↦ rw (read_pid-none k short (omega arith), ◌>>=◌)
    | no enough ↦ rw (
      read_pid-entry k (omega arith) (omega arith),
      ◌>>=◌,
      further,
      read_pids-none n (k + 4) (omega arith) (omega arith) (omega arith),
    )
  ]
    where
      further : k * 8 + 32 ≡ (k + 4) * 8
      further = omega arith
