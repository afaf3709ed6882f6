-- ===== src/Report/Programs.antt =====
-- The list of programs.
use mathlib.Core.List.{append_assoc, append-nil}
use tsanalytics.Base.{
  sym, ℕ, ◌==◌, ◌≡◌, ap, if◌then◌else◌, Bool-cases, inl, inr, false, List, [], ◌∷◌, ◌++◌, some,
  ◌>>=◌, length, codes, arith,
}
use tsanalytics.Pat.{PatPid}
use tsanalytics.Report.{program_text, program_loop}

-- The programs among the entries, each with a comma behind it.
pub with_commas : List PatPid → List ℕ
with_commas [] = []
with_commas (p ∷ rest) =
    if p.program_number == 0
    then with_commas rest
    else program_text p ++ (codes "," ++ with_commas rest)

not_last : (front : List PatPid) (last : PatPid) → (length (front ++ (last ∷ [])) == 0) ≡ false
not_last [] last = ground arith
not_last (p ∷ front) last = ground arith

-- With as many nodes as entries the loop returns. An entry for the network, whose number is 0,
-- is left out, and each program has a comma behind it but the last entry. If that is the
-- network's, the comma behind the last program remains.
pub program_loop-with_commas :
    (front : List PatPid) (last : PatPid)
    → program_loop (length (front ++ (last ∷ []))) (front ++ (last ∷ []))
      ≡ some (with_commas front ++ (if last.program_number == 0 then [] else program_text last))
unfolding program_loop with_commas
program_loop-with_commas [] last = elim (Bool-cases (last.program_number == 0)) [
  | inl e ↦ rw e
  | inr e ↦ rw e (ap some (append-nil (program_text last)))
]
program_loop-with_commas (p ∷ front) last = elim (Bool-cases (p.program_number == 0)) [
  | inl e ↦ rw (program_loop-with_commas front last, ◌>>=◌, e)
  | inr e ↦
      rw (program_loop-with_commas front last, ◌>>=◌, e, not_last front last)
        (ap some (
          sym (
            append_assoc (program_text p) (codes "," ++ with_commas front)
              (if last.program_number == 0 then [] else program_text last))))
]
