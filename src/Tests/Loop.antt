-- ===== src/Tests/Loop.antt =====
-- The loop over the packets of a file.
use tsanalytics.Base.{
  ℕ, ◌+◌, ◌*◌, ◌/◌, ◌≤◌, ◌≡◌, refl, List, [], ◌∷◌, ◌++◌, some, length, u64, arith,
}
use tsanalytics.Tests.Packets.{second_packet-IsFine, pat_packet-IsFine}
use tsanalytics.Tests.Data.{
  four, copying-IsStreaming, lost_packet, lost_packet-IsUnsynced, first_packet, second_packet,
  pat_packet, some_locals,
}
use tsanalytics.Digest.{packets, digests}
use tsanalytics.Analysis.{percent, State, initial, scan, analyze}
use tsanalytics.Digest.Hashing.{digests-whole}
use tsanalytics.Analysis.Sync.{scan-not_ts}
use tsanalytics.Analysis.Sound.{AllFine}
use tsanalytics.Analysis.Safety.{initial-IsSound, analyze-some}
use tsanalytics.DropList.Short.{Fits}
use tsanalytics.Analysis.Texts.{AllShort, scan-AllShort, initial-AllShort}
use tsanalytics.Analysis.Totals.{packets_of, scan-totals}

scan-AllShort_example :
    (t : State) × (scan some_locals 2 0 (pat_packet ∷ second_packet ∷ []) (initial some_locals)
      ≡ some t)
    × AllShort t
    × ((j : ℕ) → Fits (percent 2 j))
scan-AllShort_example =
    scan-AllShort some_locals 2 0 (pat_packet ∷ second_packet ∷ []) (initial some_locals)
      (pat_packet-IsFine, (second_packet-IsFine, tt)) (omega arith) (initial-IsSound some_locals)
      (initial-AllShort some_locals)

live : (initial some_locals).this_is_not_ts ≡ 0
unfolding initial
live = refl

scan-totals_example :
    (t : State) × (scan some_locals 2 0 (pat_packet ∷ second_packet ∷ []) (initial some_locals)
      ≡ some t)
    × ((q : ℕ)
        → (t.counts q).total
          ≡ u64 (
              ((initial some_locals).counts q).total
              + 2 * packets_of q (pat_packet ∷ second_packet ∷ [])))
scan-totals_example =
    scan-totals some_locals 2 0 (pat_packet ∷ second_packet ∷ []) (initial some_locals)
      (pat_packet-IsFine, (second_packet-IsFine, tt)) (refl, (refl, tt)) live (omega arith)
      (initial-IsSound some_locals)

-- A file of two packets and three bytes.
abbrev small_file : List ℕ
small_file = pat_packet ++ second_packet ++ (1 ∷ 2 ∷ 3 ∷ [])

small_file-AllFine : AllFine (packets (length small_file / 188) small_file)
unfolding packets
small_file-AllFine = (pat_packet-IsFine, (second_packet-IsFine, tt))

analyze-some_example :
    (s : State) × (analyze some_locals small_file ≡ some s)
    × ((q : ℕ) → (s.counts q).drop ≤ length small_file / 188)
analyze-some_example = analyze-some some_locals small_file small_file-AllFine (omega arith)

digests-whole_example :
    digests four small_file
    ≡ record { md5 = small_file; sha1 = small_file; sha256 = small_file; sha512 = small_file }
digests-whole_example =
    digests-whole four copying-IsStreaming copying-IsStreaming copying-IsStreaming
      copying-IsStreaming small_file

-- The variables behind a hundred such packets.
abbrev lost : State
lost = record (initial some_locals) { sync_error = 100; sync_err_repeat = 100; this_is_not_ts = 0 }

scan-not_ts_example :
    scan some_locals 103 100 ((lost_packet ∷ lost_packet ∷ []) ++ (first_packet ∷ [])) lost
    ≡ some (record lost { sync_error = 102; sync_err_repeat = 102; this_is_not_ts = 1 })
scan-not_ts_example =
    scan-not_ts some_locals 103 100 lost_packet (lost_packet ∷ []) (first_packet ∷ []) lost
      (lost_packet-IsUnsynced, (lost_packet-IsUnsynced, tt)) refl refl
