-- ===== src/Tests/Counters.antt =====
-- The continuity check, the counters and the list of defects.
use tsanalytics.Base.{ℕ, ◌+◌, ◌≡◌, refl, List, [], ◌∷◌, some, same_bytes, if◌then◌else◌, arith}
use tsanalytics.Tests.Data.{
  first_packet, late_packet, next_packet, late_packet-IsPacket, next_packet-IsPacket, counted,
  some_counts, some_counts-Ready,
}
use tsanalytics.Head.{Head}
use tsanalytics.DropCount.{DropCount, Counts, drop_check_and_count, mark_last_drop_count}
use tsanalytics.DropCount.Check.{Checked, drop_check_and_count-Checked}
use tsanalytics.DropCount.Sequence.{Clean, check_all}
use tsanalytics.DropCount.Gap.{Jumps, OneDrop, check_all-OneDrop}
use tsanalytics.DropCount.Last.{LastSeen, marked, mark_last_drop_count-LastSeen}
use tsanalytics.DropList.{Entry, fresh, add_drop_list}
use tsanalytics.DropList.Lookup.{find, counters, capped, find-add_drop_list}
use tsanalytics.DropList.Keys.{AllBounded, add_drop_list-AllBounded}

late_packet-Clean : Clean 0x100 5 late_packet
late_packet-Clean = record {
  packet = late_packet-IsPacket;
  of_pid = refl;
  no_error = refl;
  clear = refl;
  payload = refl;
  counter = refl;
}

next_packet-Clean : Clean 0x100 6 next_packet
next_packet-Clean = record {
  packet = next_packet-IsPacket;
  of_pid = refl;
  no_error = refl;
  clear = refl;
  payload = refl;
  counter = refl;
}

late_packet-Jumps : Jumps (some_counts 0x100) 0x100 5 late_packet
late_packet-Jumps = record {
  clean = late_packet-Clean;
  plain = refl;
  stream = omega arith;
  used = omega arith;
  skips = omega arith;
  differs = λ e. cc;
}

drop_check_and_count_example :
    (v : ℕ) × (counts' : Counts) × ((h b : Head)
      → drop_check_and_count h b some_counts late_packet ≡ some (v, counts'))
    × Checked some_counts late_packet v counts'
drop_check_and_count_example =
    drop_check_and_count-Checked some_counts late_packet some_counts-Ready late_packet-IsPacket

check_all-OneDrop_example :
    (counts' : Counts) × ((h b : Head)
      → check_all h b some_counts (late_packet ∷ next_packet ∷ []) ≡ some counts')
    × OneDrop some_counts counts' 0x100 2 7
check_all-OneDrop_example =
    check_all-OneDrop late_packet (next_packet ∷ []) some_counts-Ready (λ q. omega arith)
      late_packet-Jumps (next_packet-Clean, tt)

mark_last_example :
    (l : ℕ) × LastSeen some_counts 8192 l
    × ((q : ℕ) → mark_last_drop_count some_counts q ≡ marked some_counts l q)
mark_last_example = mark_last_drop_count-LastSeen some_counts

-- Two keys of the percentage kind, and a list with one of them.
abbrev ten : List ℕ
ten = 49 ∷ 48 ∷ []

abbrev twelve : List ℕ
twelve = 49 ∷ 50 ∷ []

abbrev entries : List Entry
entries = fresh ten ∷ []

abbrev dropped : DropCount
dropped = record (counted 1 3 first_packet) { drop = 1; now_drop = 1 }

find-add_drop_list_example : find twelve (add_drop_list entries twelve dropped) ≡ (
    if same_bytes twelve twelve
    then some (record {
      key = twelve;
      drop = capped ((counters twelve entries).drop + dropped.now_drop);
      error = capped ((counters twelve entries).error + dropped.now_error);
      scrambling = capped ((counters twelve entries).scrambling + dropped.now_scrambling);
    })
    else find twelve entries)
find-add_drop_list_example =
    find-add_drop_list twelve twelve dropped entries (omega arith) (omega arith, tt) (omega arith)

add_drop_list-AllBounded_example : AllBounded (add_drop_list entries twelve dropped)
add_drop_list-AllBounded_example =
    add_drop_list-AllBounded twelve dropped entries (omega arith) (omega arith, tt)
