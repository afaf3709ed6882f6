-- ===== src/Report/Written.antt =====
-- Behind a PAT the report is written: the list of programs does not run off the table's nodes.
use tsanalytics.Base.{
  ℕ, zero, suc, ◌+◌, ◌≤◌, ◌==◌, ◌≡◌, refl, Bool-cases, inl, inr, if◌then◌else◌, List, [], ◌∷◌, some,
  ◌>>=◌, >>=-some, ◌/◌, length, arith, ap,
}
use tsanalytics.Pat.{PatPid}
use tsanalytics.Pat.Entry.{entries}
use tsanalytics.Pat.Table.{Listed, entry_count}
use tsanalytics.Digest.{Hashes, digests}
use tsanalytics.Analysis.{Locals, State, analyze}
use tsanalytics.Report.{program_loop, ts_info, report, tsanalytics_text}

-- With a node for each round the list of programs is written.
program_loop-some :
    (n : ℕ) (pids : List PatPid)
    → n ≤ length pids
    → (text : List ℕ) × (program_loop n pids ≡ some text)
unfolding program_loop
program_loop-some zero pids room = ([], refl)
program_loop-some (suc n) [] room = absurd (omega arith)
program_loop-some (suc n) (p ∷ pids) room =
    let (text, e) = program_loop-some n pids (omega arith) in >>=-some (program_loop n pids) _ e

pub length-entries : (buf : List ℕ) (n k : ℕ) → length (entries buf n k) ≡ n
unfolding entries
length-entries buf zero k = refl
length-entries buf (suc n) k = omega (arith, length-entries buf n (k + 4))

-- Behind a PAT the report is written.
pub report-some :
    (h : Hashes) (file pat : List ℕ) (s : State)
    → Listed pat s.pat
    → (text : List ℕ) × (report (length file) (digests h file) s ≡ some text)
unfolding report ts_info
report-some h file pat s listed =
    let (info, e) = info-some in
    >>=-some (if s.this_is_not_ts == 0 then ts_info (length file / 188) s else some []) _ e
  where
    stream_info : (info : List ℕ) × (ts_info (length file / 188) s ≡ some info)
    stream_info =
        let (programs, e) = program_loop-some s.pat.num_of_pids s.pat.pids (
          omega
            (arith, listed.count, ap length listed.pids, length-entries pat (entry_count pat) 8)) in
        >>=-some (program_loop s.pat.num_of_pids s.pat.pids) _ e

    info-some :
        (info : List ℕ) × ((if s.this_is_not_ts == 0
            then ts_info (length file / 188) s
            else some [])
          ≡ some info)
    info-some = elim (Bool-cases (s.this_is_not_ts == 0)) [
      | inl stream ↦ (stream_info.0, rw stream stream_info.1)
      | inr other ↦ ([], rw other)
    ]

pub tsanalytics_text-report :
    (h : Hashes) (l : Locals) (file : List ℕ) (s : State) (text : List ℕ)
    → analyze l file ≡ some s
    → report (length file) (digests h file) s ≡ some text
    → tsanalytics_text h l file ≡ some text
unfolding tsanalytics_text
tsanalytics_text-report h l file s text e e' = rw (e, ◌>>=◌) e'
