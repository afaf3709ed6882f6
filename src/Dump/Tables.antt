-- ===== src/Dump/Tables.antt =====
-- The printing functions stay inside the buffers and the lists of the structures they print.
use tsanalytics.Base.{
  ℕ, zero, suc, ◌+◌, ◌≤◌, ◌≡◌, refl, ap, List, [], ◌∷◌, some, ◌>>=◌, >>=-some, length,
  get_elem?-eq-get_or, IsBytes, arith,
}
use tsanalytics.Crc.Total.{section_length}
use tsanalytics.Pat.{PatPid, Pat, st_pat}
use tsanalytics.Pat.Table.{entry_count, st_pat-Listed}
use tsanalytics.Report.Written.{length-entries}
use tsanalytics.Pmt.{Stream}
use tsanalytics.Pmt.Source.{Source, table}
use tsanalytics.Dump.{dump_bytes, packetdump, dump_pids, dump_pat, dump_streams, dump_pmt}

dump_bytes-some :
    (p : List ℕ) (left i : ℕ)
    → i + left ≤ length p
    → (text : List ℕ) × (dump_bytes p left i ≡ some text)
unfolding dump_bytes
dump_bytes-some p zero i room = ([], refl)
dump_bytes-some p (suc left) i room =
    let (behind, e) = dump_bytes-some p left (i + 1) (omega arith) in
    rw (get_elem?-eq-get_or p i 0 (omega arith), ◌>>=◌) (>>=-some (dump_bytes p left (i + 1)) _ e)

packetdump-some :
    (address : ℕ) (p : List ℕ) (size : ℕ)
    → size ≤ length p
    → (text : List ℕ) × (packetdump address p size ≡ some text)
unfolding packetdump
packetdump-some address p size room =
    >>=-some (dump_bytes p size 0) _ (dump_bytes-some p size 0 (omega arith)).1

dump_pids-some :
    (n : ℕ) (pids : List PatPid)
    → n ≤ length pids
    → (text : List ℕ) × (dump_pids n pids ≡ some text)
unfolding dump_pids
dump_pids-some zero pids room = ([], refl)
dump_pids-some (suc n) [] room = absurd (omega arith)
dump_pids-some (suc n) (p ∷ pids) room =
    >>=-some (dump_pids n pids) _ (dump_pids-some n pids (omega arith)).1

-- The table of a section with its header and its CRC can be printed.
dump_pat-st_pat :
    (buf : List ℕ) (out : Pat)
    → IsBytes buf
    → 9 ≤ section_length buf
    → section_length buf + 8 ≤ length buf
    → (text : List ℕ) × ((st_pat out buf >>= dump_pat) ≡ some text)
unfolding dump_pat
dump_pat-st_pat buf out b long room =
    let (pat, e, listed) = st_pat-Listed buf b long room out in
    rw (e, ◌>>=◌)
      (>>=-some (dump_pids pat.num_of_pids pat.pids) _
        (dump_pids-some pat.num_of_pids pat.pids (
          omega (
            arith,
            listed.count,
            ap length listed.pids,
            length-entries buf (entry_count buf) 8,
          ))).1)

dump_streams-some :
    (n : ℕ) (streams : List Stream)
    → n ≤ length streams
    → (text : List ℕ) × (dump_streams n streams ≡ some text)
unfolding dump_streams
dump_streams-some zero streams room = ([], refl)
dump_streams-some (suc n) [] room = absurd (omega arith)
dump_streams-some (suc n) (p ∷ streams) room =
    >>=-some (dump_streams n streams) _ (dump_streams-some n streams (omega arith)).1

dump_pmt-table : (s : Source) → (text : List ℕ) × (dump_pmt (table s) ≡ some text)
unfolding dump_pmt
dump_pmt-table s =
    >>=-some (dump_streams (table s).num_of_streams (table s).streams) _
      (dump_streams-some (table s).num_of_streams (table s).streams (omega arith)).1
