-- ===== src/Packet/Assemble.antt =====
-- `st_packet` as a whole: what the first packet of a section and each further one leave.
use tsanalytics.Base.{
  ℕ, ◌+◌, ◌*◌, ◌/◌, ◌%◌, ◌≤◌, ◌<◌, ◌==◌, ltb, ◌≡◌, ◌≢◌, refl, sym, ap, ◌∙◌, if◌then◌else◌, false,
  List, [], ◌++◌, Option, none, some, ◌>>=◌, get_or-drop, length, length-append, drop, replicate,
  length-drop, length-replicate, IsBytes, byte_at, byte_at-lt, drop-IsBytes, replicate-IsBytes, u16,
  arith,
}
use tsanalytics.GetBit.{get_bit}
use tsanalytics.GetBit.Word.{word}
use tsanalytics.GetBit.Field.{field}
use tsanalytics.GetBit.Stream.{get_bit-field}
use tsanalytics.Head.{Head, st_head}
use tsanalytics.Head.Decode.{layout, Parsed, IsPacket, st_head-Parsed}
use tsanalytics.Crc.Total.{section_length}
use tsanalytics.Packet.{Cell, Store, put, free, head_zero, start, copy, st_packet}
use tsanalytics.Packet.Block.{Holds, Assembled, copy-Assembled, section_length-append}

-- The PID of a packet, where its payload begins, and the payload.
abbrev pub pid_of : List ℕ → ℕ
pid_of buf = byte_at buf 1 % 32 * 256 + byte_at buf 2

abbrev pub payload_at : List ℕ → ℕ
payload_at buf = (layout (byte_at buf 3 / 16 % 4) (byte_at buf 4)).1 + byte_at buf 1 / 64 % 2

abbrev pub payload_of : List ℕ → List ℕ
payload_of buf = drop (payload_at buf) buf

-- The section length that `st_packet` reads from the payload's second and third byte.
get_section_length :
    (buf : List ℕ) (pos : ℕ)
    → IsBytes buf
    → length buf ≡ 188
    → pos ≤ 179
    → get_bit buf (12 + pos * 8) 12 ≡ some (section_length (drop pos buf), 12 + pos * 8 + 12)
get_section_length buf pos bytes whole inside =
    get_bit-field buf (12 + pos * 8) 12 bytes (omega arith)
    ∙ ap (λ v. some (v, 12 + pos * 8 + 12)) value
  where
    lt : (i : ℕ) → byte_at buf i < 256
    lt i = byte_at-lt buf i bytes

    at_byte : (12 + pos * 8) / 8 ≡ pos + 1
    at_byte = omega arith

    at_bit : (12 + pos * 8) % 8 ≡ 4
    at_bit = omega arith

    second : byte_at (drop pos buf) 2 ≡ byte_at buf (pos + 1 + 1)
    second = get_or-drop pos buf 2 0 ∙ ap (byte_at buf) (omega arith)

    value : field buf (12 + pos * 8) 12 ≡ section_length (drop pos buf)
    value =
        unfold field word in
        rw (at_byte, at_bit) (omega (arith, lt, get_or-drop pos buf 1 0, second))

-- The cell before the first copy: an empty section in a cleared block.
start-Holds :
    (pos : ℕ) (cell : Cell) (live : ℕ) (buf : List ℕ)
    → IsBytes buf
    → length buf ≡ 188
    → pos ≤ 179
    → (cell' : Cell) × (start pos cell live buf
        ≡ some (cell', (if ltb 0 cell.copybytes then free cell.payload live else live) + 2))
      × Holds cell' []
      × (cell'.size ≡ section_length (drop pos buf) + 3)
unfolding start
start-Holds pos cell live buf bytes whole inside = (
  started (section_length (drop pos buf)),
  rw (get_section_length buf pos bytes whole inside, ◌>>=◌),
  record {
    block = replicate (u16 (u16 (section_length (drop pos buf)) + 3) + 188) 0;
    there = refl;
    room = length-replicate (u16 (u16 (section_length (drop pos buf)) + 3) + 188) 0;
    clean = replicate-IsBytes (u16 (u16 (section_length (drop pos buf)) + 3) + 188);
    count = refl;
    front = refl;
    small = omega (arith, lt 1, lt 2);
  },
  omega (arith, lt 1, lt 2),
)
  where
    lt : (i : ℕ) → byte_at (drop pos buf) i < 256
    lt i = byte_at-lt (drop pos buf) i (drop-IsBytes pos buf bytes)

    started : ℕ → Cell
    started len = record cell {
      copybytes = 0;
      size = u16 (u16 len + 3);
      payload = some (replicate (u16 (u16 len + 3) + 188) 0);
    }

-- The cell of `pid` is `cell`, and the other cells are as they were.
pub record Puts (store store' : Store) (pid : ℕ) (cell : Cell) : Type 0 where
  pub own : store'.cells pid ≡ cell
  pub others : (q : ℕ) → q ≢ pid → store'.cells q ≡ store.cells q

pub put-Puts :
    (store : Store) (live pid : ℕ) (cell : Cell)
    → Puts store (put (record store { live = live }) pid cell) pid cell
put-Puts store live pid cell = record { own = ground arith; others = λ q ne. ground arith }

-- The call once its parts are known.
module _ (store : Store) (buf : List ℕ) (head : Head) (e : st_head head_zero buf ≡ some head)
    (parsed : Parsed buf head) (cell' : Cell) (r : ℕ) where
  enters_start :
      (cell : Cell) (live' : ℕ)
      → byte_at buf 1 / 64 % 2 ≡ 1
      → start (payload_at buf) (store.cells (pid_of buf)) store.live buf ≡ some (cell, live')
      → copy (pid_of buf) (payload_at buf) cell buf ≡ some (r, cell')
      → st_packet store buf ≡ some (r, put (record store { live = live' }) (pid_of buf) cell')
  unfolding st_packet
  enters_start cell live' first s c =
      rw (e, ◌>>=◌, parsed.start ∙ first, parsed.position, parsed.pid, s, c)

  pub enters_continue :
      byte_at buf 1 / 64 % 2 ≡ 0
      → (store.cells (pid_of buf)).loading ≢ 0
      → copy (pid_of buf) (payload_at buf) (store.cells (pid_of buf)) buf ≡ some (r, cell')
      → st_packet store buf ≡ some (r, put store (pid_of buf) cell')
  unfolding st_packet
  enters_continue more loading c =
      rw (e, ◌>>=◌, parsed.start ∙ more, parsed.position, parsed.pid, busy, c)
    where
      busy : ((store.cells (pid_of buf)).loading == 0) ≡ false
      busy = ground arith

free-le : (payload : Option (List ℕ)) (live : ℕ) → live ≤ free payload live + 1
free-le none live = omega arith
free-le (some block) live = omega arith

-- What a call leaves: the result, the cell of the packet's PID with the bytes of its section so
-- far, and the other cells as they were.
pub record Stored (store : Store) (buf bytes : List ℕ) (r : ℕ) (store' : Store) : Type 0 where
  pub cell : Cell
  pub returns : st_packet store buf ≡ some (r, store')
  pub assembled : Assembled bytes r cell
  pub puts : Puts store store' (pid_of buf) cell

module _ (store : Store) (buf : List ℕ) (packet : IsPacket buf) where
  -- For a whole packet with its sync byte that begins a section, its payload at offset 179 or
  -- before, the call returns. Whatever the cell held, it now holds the packet's payload; the
  -- other cells are as they were, and there is at least one allocated block more than before.
  pub st_packet-start :
      byte_at buf 1 / 64 % 2 ≡ 1
      → payload_at buf ≤ 179
      → (r : ℕ) × (store' : Store) × Stored store buf (payload_of buf) r store'
        × (store.live + 1 ≤ store'.live)
  st_packet-start first inside =
      let (head, parsed, eq) = st_head-Parsed buf packet.bytes packet.whole packet.sync in
      let before = store.cells (pid_of buf) in
      let (cell, started, holds, size) =
        start-Holds (payload_at buf) before store.live buf packet.bytes packet.whole inside in
      let (r, cell', copied, assembled) =
        copy-Assembled (pid_of buf) (payload_at buf) cell [] buf holds (omega arith) packet.bytes
          packet.whole (omega arith) (omega (arith, length-drop (payload_at buf) buf, packet.whole))
          size in
      let live' : ℕ =
        (if ltb 0 before.copybytes then free before.payload store.live else store.live) + 2 in
      (
        r,
        put (record store { live = live' }) (pid_of buf) cell',
        record {
          cell = cell';
          returns =
              enters_start store buf head (eq head_zero) parsed cell' r cell live' first started
                copied;
          assembled = assembled;
          puts = put-Puts store live' (pid_of buf) cell';
        },
        ground (arith, free-le before.payload store.live),
      )

  -- For a whole packet with its sync byte that goes on with a section that its PID's cell is
  -- loading, its payload at offset 188 or before, the call returns. The payload is put behind
  -- what the cell holds; the other cells and the number of allocated blocks are as they were.
  pub st_packet-continue :
      (bytes : List ℕ) {r₀ : ℕ}
      → byte_at buf 1 / 64 % 2 ≡ 0
      → payload_at buf ≤ 188
      → Assembled bytes r₀ (store.cells (pid_of buf))
      → (store.cells (pid_of buf)).loading ≢ 0
      → (r : ℕ) × (store' : Store) × Stored store buf (bytes ++ payload_of buf) r store'
        × (store'.live ≡ store.live)
  st_packet-continue bytes more inside a loading =
      let (head, parsed, eq) = st_head-Parsed buf packet.bytes packet.whole packet.sync in
      let cell = store.cells (pid_of buf) in
      let (r, cell', copied, assembled) =
        copy-Assembled (pid_of buf) (payload_at buf) cell bytes buf a.holds
          (ground (arith, a.loading, a.size)) packet.bytes packet.whole inside
          (omega (arith, a.three, length-append bytes (payload_of buf)))
          (a.size ∙ ap (λ n. n + 3) (sym (section_length-append bytes (payload_of buf) a.three))) in
      (
        r,
        put store (pid_of buf) cell',
        record {
          cell = cell';
          returns =
              enters_continue store buf head (eq head_zero) parsed cell' r more loading copied;
          assembled = assembled;
          puts = put-Puts store store.live (pid_of buf) cell';
        },
        refl,
      )
