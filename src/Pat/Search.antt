-- ===== src/Pat/Search.antt =====
-- The search of the nodes for a service, and their release.
use tsanalytics.Base.{
  ℕ, zero, suc, ◌+◌, ◌*◌, ◌<◌, ◌≡◌, ◌≢◌, sym, refl, ap, ◌∙◌, List, [], ◌∷◌, arith,
}
use tsanalytics.Pat.{PatPid, find_pmt, free_pids}
use tsanalytics.Pat.Entry.{program_at, pid_at, entry, entries}

add-shift : (k j : ℕ) → k + suc j * 4 ≡ k + 4 + j * 4
add-shift k j = omega arith

entry-program_number : (buf : List ℕ) (k : ℕ) → (entry buf k).program_number ≡ program_at buf k
entry-program_number buf k = ground arith

entry-program_map_pid :
    (buf : List ℕ) (k : ℕ) → program_at buf k ≢ 0 → (entry buf k).program_map_pid ≡ pid_at buf k
entry-program_map_pid buf k some_id = ground arith

find_pmt-skip :
    (left : ℕ) (p : PatPid) (rest : List PatPid) (service_id : ℕ)
    → (p.program_number ≡ service_id → service_id ≡ 0)
    → find_pmt (suc left) (p ∷ rest) service_id ≡ find_pmt left rest service_id
unfolding find_pmt
find_pmt-skip left p rest service_id other = ground arith

find_pmt-hit :
    (left : ℕ) (p : PatPid) (rest : List PatPid) (service_id : ℕ)
    → p.program_number ≡ service_id
    → service_id ≢ 0
    → find_pmt (suc left) (p ∷ rest) service_id ≡ p.program_map_pid
unfolding find_pmt
find_pmt-hit left p rest service_id same some_id = ground arith

-- The first entry with the service's number is found.
pub find_pmt-entries :
    (buf : List ℕ) (n k i service_id : ℕ)
    → service_id ≢ 0
    → i < n
    → program_at buf (k + i * 4) ≡ service_id
    → ((j : ℕ) → j < i → program_at buf (k + j * 4) ≢ service_id)
    → find_pmt n (entries buf n k) service_id ≡ pid_at buf (k + i * 4)
unfolding entries
find_pmt-entries buf zero k i service_id some_id h found before = absurd (omega arith)
find_pmt-entries buf (suc n) k zero service_id some_id h found before =
    find_pmt-hit n (entry buf k) (entries buf n (k + 4)) service_id
      (entry-program_number buf k ∙ ap (program_at buf) (omega arith) ∙ found) some_id
    ∙ entry-program_map_pid buf k (λ e. some_id (sym found ∙ ap (program_at buf) (omega arith) ∙ e))
    ∙ ap (pid_at buf) (omega arith)
find_pmt-entries buf (suc n) k (suc i) service_id some_id h found before =
    find_pmt-skip n (entry buf k) (entries buf n (k + 4)) service_id (λ e. absurd (
      before 0 (omega arith)
        (ap (program_at buf) (omega arith) ∙ sym (entry-program_number buf k) ∙ e)))
    ∙ find_pmt-entries buf n (k + 4) i service_id some_id (omega arith)
        (ap (program_at buf) (sym (add-shift k i)) ∙ found)
        (λ j p e. before (suc j) (omega arith) (ap (program_at buf) (add-shift k j) ∙ e))
    ∙ ap (pid_at buf) (sym (add-shift k i))

pub find_pmt-none :
    (buf : List ℕ) (n k service_id : ℕ)
    → ((j : ℕ) → j < n → program_at buf (k + j * 4) ≡ service_id → service_id ≡ 0)
    → find_pmt n (entries buf n k) service_id ≡ 0
unfolding entries find_pmt
find_pmt-none buf zero k service_id unnamed = refl
find_pmt-none buf (suc n) k service_id unnamed =
    find_pmt-skip n (entry buf k) (entries buf n (k + 4)) service_id (λ e.
      unnamed 0 (omega arith)
        (ap (program_at buf) (omega arith) ∙ sym (entry-program_number buf k) ∙ e))
    ∙ find_pmt-none buf n (k + 4) service_id
        (λ j p e. unnamed (suc j) (omega arith) (ap (program_at buf) (add-shift k j) ∙ e))

pub free_pids-entries : (buf : List ℕ) (n k : ℕ) → free_pids n (entries buf n k) ≡ []
unfolding free_pids entries
free_pids-entries buf zero k = refl
free_pids-entries buf (suc n) k = free_pids-entries buf n (k + 4)
