-- ===== src/Packet.antt =====
-- m2tlib/packet.c: `st_packet`, which puts a PID's sections together from packet payloads.
pub mod Block
pub mod Assemble
pub mod Section
pub mod Release
pub mod Feed
pub mod Listening
use tsanalytics.Base.{
  ℕ, zero, suc, ◌+◌, ◌-◌, ◌*◌, ◌≤◌, ◌<◌, ◌==◌, ltb, leb, if◌then◌else◌, List, [], ◌∷◌, ◌++◌, Option,
  none, some, ◌>>=◌, length, take, drop, replicate, u8, u16, u64, ◌-u64◌,
}
use tsanalytics.GetBit.{get_bit}
use tsanalytics.Adapt.{adapt_zero}
use tsanalytics.Head.{Head, st_head}
use tsanalytics.Crc.{crc32_check}

-- `PACKET_LIST`. `payload` is `NULL` or a block of its own.
pub record Cell : Type 0 where
  pub enable : ℕ
  pub payload : Option (List ℕ)
  pub size : ℕ
  pub copybytes : ℕ
  pub crc_check : ℕ
  pub loading : ℕ

-- The array `PACKET_LIST[8192]` by PID, and the number of blocks that `calloc` has returned and
-- `free` has not taken back. `calloc` is taken to succeed.
pub record Store : Type 0 where
  pub cells : ℕ → Cell
  pub live : ℕ

abbrev pub put : Store → ℕ → Cell → Store
put store pid cell = record store { cells = λ q. if q == pid then cell else store.cells q }

-- `free(payload)`: nothing happens at `NULL`.
abbrev pub free : Option (List ℕ) → ℕ → ℕ
free none live = live
free (some block) live = live - 1

-- `memcpy(block + at, src, n)`, undefined where either side is too short.
pub memcpy : List ℕ → ℕ → List ℕ → ℕ → Option (List ℕ)
memcpy block at src n =
    if leb (at + n) (length block)
    then (if leb n (length src)
        then some (take at block ++ (take n src ++ drop (at + n) block))
        else none)
    else none

-- `TS_HEAD head; memset(&head, 0, sizeof(head));`
abbrev pub head_zero : Head
head_zero = record {
  sync_byte = 0;
  transport_error_indicator = 0;
  payload_unit_start_indicator = 0;
  transport_priority = 0;
  pid = 0;
  transport_scrambling_control = 0;
  adaptation_field_control = 0;
  continuity_counter = 0;
  payload_start_pos = 0;
  adaptation_field_length = 0;
  adapt = adapt_zero;
}

-- The first packet of a section: the cell starts anew. The source allocates the block twice, and
-- the first of the two is lost.
pub start : ℕ → Cell → ℕ → List ℕ → Option (Cell × ℕ)
start pos cell live buf = do
  let live' = if ltb 0 cell.copybytes then free cell.payload live else live
  (len, boff) ← get_bit buf (12 + pos * 8) 12
  let size = u16 (u16 len + 3)
  some (
    record cell { copybytes = 0; size = size; payload = some (replicate (size + 188) 0) },
    live' + 2,
  )

-- What follows the copy: the result and the cell.
pub complete : ℕ → Cell → List ℕ → Option (ℕ × Cell)
complete pid cell block =
    if ltb cell.size cell.copybytes
    then (let done = record cell { loading = 0 } in
        if ltb cell.size 7
        then some (0, done)
        else if pid == 0
        then some (1, done)
        else do check ← crc32_check block; some (1, record done { crc_check = u8 check }))
    else some (0, record cell { loading = 1 })

-- The copy of the packet's payload behind what the cell holds.
pub copy : ℕ → ℕ → Cell → List ℕ → Option (ℕ × Cell)
copy pid pos cell buf =
    let copy_size = 188 -u64 pos in
    if ltb 188 copy_size then some (0, cell) else do
      block ← cell.payload
      block' ← memcpy block cell.copybytes (drop pos buf) copy_size
      complete pid
          (record cell { payload = some block'; copybytes = u16 (cell.copybytes + copy_size) })
          block'

-- 1 if the packet completes a section that is to be looked at, and 0 otherwise.
pub st_packet : Store → List ℕ → Option (ℕ × Store)
st_packet store buf = do
  head ← st_head head_zero buf
  let cell = store.cells head.pid
  if head.payload_unit_start_indicator == 1
      then (do
        (cell', live') ← start head.payload_start_pos cell store.live buf
        (result, cell'') ← copy head.pid head.payload_start_pos cell' buf
        some (result, put (record store { live = live' }) head.pid cell''))
      else (if cell.loading == 0 then some (0, store) else do
        (result, cell') ← copy head.pid head.payload_start_pos cell buf
        some (result, put store head.pid cell'))

-- `free_packet_list` for the cell of one PID.
pub free_packet_list : ℕ → Store → Store
free_packet_list pid store =
    let cell = store.cells pid in
    put (record store { live = free cell.payload store.live }) pid
      (record cell { payload = none; size = 0; copybytes = 0; crc_check = 0; loading = 0 })

-- The loop of `free_packet_list_all` at `i`, with `left` of its rounds to go.
pub free_loop : ℕ → ℕ → Store → Store
free_loop zero i store = store
free_loop (suc left) i store = free_loop left (i + 1) (free_packet_list i store)

pub free_packet_list_all : Store → Store
free_packet_list_all store = free_loop 8192 0 store
