-- ===== src/Packet/Release.antt =====
-- Releasing the cells: what `free_packet_list_all` leaves of each.
use tsanalytics.Base.{ℕ, zero, suc, ◌+◌, ◌<◌, ltb, leb, ◌≡◌, if◌then◌else◌, ◌&&◌, none, arith}
use tsanalytics.Packet.{Cell, Store, free_packet_list, free_loop, free_packet_list_all}

-- A cell without a block and without a section. Whether its PID is enabled stays.
abbrev pub cleared : Cell → Cell
cleared cell = record cell { payload = none; size = 0; copybytes = 0; crc_check = 0; loading = 0 }

free_loop-cleared :
    (left i : ℕ) (store : Store) (q : ℕ)
    → (free_loop left i store).cells q
      ≡ (if leb i q && ltb q (i + left) then cleared (store.cells q) else store.cells q)
unfolding free_loop free_packet_list
free_loop-cleared zero i store q = ground arith
free_loop-cleared (suc left) i store q =
    ground (arith, free_loop-cleared left (i + 1) (free_packet_list i store) q)

-- Every cell of the array is cleared, and its `enable` stays as it was.
free_packet_list_all-cleared :
    (store : Store) (q : ℕ)
    → q < 8192
    → (free_packet_list_all store).cells q ≡ cleared (store.cells q)
unfolding free_packet_list_all
free_packet_list_all-cleared store q h = ground (arith, free_loop-cleared 8192 0 store q)
