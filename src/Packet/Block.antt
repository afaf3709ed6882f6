-- ===== src/Packet/Block.antt =====
-- What a cell's block holds, and the copy that extends it.
use tsanalytics.Base.{
  ℕ, ◌+◌, ◌≤◌, ◌==◌, ltb, leb, ◌≡◌, refl, ap, ◌∙◌, if◌then◌else◌, ◌&&◌, Bool, true, false,
  Bool-cases, inl, inr, List, ◌++◌, some, ◌>>=◌, length, take, drop, length-append, length-drop,
  take-append_length, take-append_left, take_all, get_or-take, IsBytes, byte_at, take-IsBytes,
  drop-IsBytes, append-IsBytes, u8, u16, ◌-u64◌, arith,
}
use tsanalytics.Crc.{crc32_check}
use tsanalytics.Crc.Total.{section_length, crc32_check-total}
use tsanalytics.Packet.{Cell, memcpy, complete, copy}

-- The block of the cell begins with `bytes`, which are all that was copied, and has the room that
-- was asked for.
pub record Holds (cell : Cell) (bytes : List ℕ) : Type 0 where
  pub block : List ℕ
  pub there : cell.payload ≡ some block
  pub room : length block ≡ cell.size + 188
  pub clean : IsBytes block
  pub count : cell.copybytes ≡ length bytes
  pub front : take (length bytes) block ≡ bytes
  pub small : cell.size ≤ 4098

-- A copy inside the block's room appends the source to what the block holds.
memcpy-append :
    (block bytes src : List ℕ)
    → take (length bytes) block ≡ bytes
    → length bytes + length src ≤ length block
    → IsBytes block
    → IsBytes src
    → (block' : List ℕ) × (memcpy block (length bytes) src (length src) ≡ some block')
      × (length block' ≡ length block)
      × (take (length (bytes ++ src)) block' ≡ bytes ++ src)
      × IsBytes block'
unfolding memcpy
memcpy-append block bytes src front room clean good = (
  bytes ++ (src ++ rest),
  rw (front, take_all (length src) src (omega arith)) (ground arith),
  omega (
    arith,
    length-append bytes (src ++ rest),
    length-append src rest,
    length-drop (length bytes + length src) block,
  ),
  rw (
    length-append bytes src,
    take-append_length bytes (src ++ rest) (length src),
    take-append_left src rest (length src) (omega arith),
    take_all (length src) src (omega arith),
  ),
  append-IsBytes bytes (src ++ rest) (rw front at (take-IsBytes (length bytes) block clean))
      (append-IsBytes src rest good (drop-IsBytes (length bytes + length src) block clean)),
)
  where
    rest : List ℕ
    rest = drop (length bytes + length src) block

-- The length field does not depend on what stands behind it.
pub section_length-front :
    (block bytes : List ℕ)
    → take (length bytes) block ≡ bytes
    → 3 ≤ length bytes
    → section_length block ≡ section_length bytes
section_length-front block bytes front three = omega (
  arith,
  get_or-take (length bytes) 1 block 0 (omega arith),
  get_or-take (length bytes) 2 block 0 (omega arith),
  ap (λ b. byte_at b 1) front,
  ap (λ b. byte_at b 2) front,
)

pub section_length-append :
    (bytes more : List ℕ) → 3 ≤ length bytes → section_length (bytes ++ more) ≡ section_length bytes
section_length-append bytes more three =
    section_length-front (bytes ++ more) bytes
      (take-append_left bytes more (length bytes) (omega arith)
        ∙ take_all (length bytes) bytes (omega arith))
      three

-- Whether a section of `size` bytes is complete and long enough, when so many have been copied.
abbrev pub is_complete : ℕ → ℕ → Bool
is_complete size copied = ltb size copied && leb 7 size

-- What a copy leaves of a cell whose section began with `bytes`: all of them in the block, the
-- result, and the loading flag.
pub record Assembled (bytes : List ℕ) (r : ℕ) (cell : Cell) : Type 0 where
  pub holds : Holds cell bytes
  pub three : 3 ≤ length bytes
  pub size : cell.size ≡ section_length bytes + 3
  pub result : r ≡ (if is_complete (section_length bytes + 3) (length bytes) then 1 else 0)
  pub loading : cell.loading ≡ (if ltb (section_length bytes + 3) (length bytes) then 0 else 1)

-- The block does not depend on the flags of the cell.
flags-Holds :
    {cell : Cell} {bytes : List ℕ} (loading crc_check : ℕ)
    → Holds cell bytes
    → Holds (record cell { loading = loading; crc_check = crc_check }) bytes
flags-Holds loading crc_check h = record {
  block = h.block;
  there = h.there;
  room = h.room;
  clean = h.clean;
  count = h.count;
  front = h.front;
  small = h.small;
}

module _ (pid : ℕ) (cell : Cell) (bytes : List ℕ) (h : Holds cell bytes) (three : 3 ≤ length bytes)
    (size : cell.size ≡ section_length bytes + 3) where
  same_length : section_length h.block ≡ section_length bytes
  same_length = section_length-front h.block bytes h.front three

  -- A section of at least seven bytes has its CRC checked, inside the block.
  checked : leb 7 cell.size ≡ true → (r : ℕ) × (crc32_check h.block ≡ some r) × (r ≤ 1)
  checked long =
      crc32_check-total h.block h.clean (ground (arith, same_length))
        (omega (arith, same_length, h.room))

  finished-Assembled :
      (r loading crc_check : ℕ)
      → r ≡ (if is_complete cell.size cell.copybytes then 1 else 0)
      → loading ≡ (if ltb cell.size cell.copybytes then 0 else 1)
      → Assembled bytes r (record cell { loading = loading; crc_check = crc_check })
  finished-Assembled r loading crc_check e e' = record {
    holds = flags-Holds loading crc_check h;
    three = three;
    size = size;
    result = ground (arith, h.count);
    loading = ground (arith, h.count);
  }

  -- The end of the function is always reached.
  complete-Assembled :
      (r : ℕ) × (cell' : Cell) × (complete pid cell h.block ≡ some (r, cell'))
      × Assembled bytes r cell'
  unfolding complete
  complete-Assembled = elim (Bool-cases (ltb cell.size cell.copybytes)) [
    | inr unfinished ↦ (
      0,
      record cell { loading = 1 },
      rw unfinished,
      finished-Assembled 0 1 cell.crc_check (ground arith) (ground arith),
    )
    | inl finished ↦ elim (Bool-cases (ltb cell.size 7)) [
      | inl short ↦ (
        0,
        record cell { loading = 0 },
        rw (finished, short),
        finished-Assembled 0 0 cell.crc_check (ground arith) (ground arith),
      )
      | inr long ↦ elim (Bool-cases (pid == 0)) [
        | inl pat ↦ (
          1,
          record cell { loading = 0 },
          rw (finished, long, pat),
          finished-Assembled 1 0 cell.crc_check (ground arith) (ground arith),
        )
        | inr other ↦
            let (check, e, bit) = checked (ground arith) in
            (
              1,
              record cell { loading = 0; crc_check = u8 check },
              rw (finished, long, other, e, ◌>>=◌),
              finished-Assembled 1 0 (u8 check) (ground arith) (ground arith),
            )
      ]
    ]
  ]

-- The size of the copy passes its test, and the copy is made.
copy_enters :
    (pid pos : ℕ) (cell : Cell) (buf block block' : List ℕ)
    → pos ≤ 188
    → cell.payload ≡ some block
    → memcpy block cell.copybytes (drop pos buf) (188 -u64 pos) ≡ some block'
    → copy pid pos cell buf
      ≡ complete pid
          (record cell { payload = some block'; copybytes = u16 (cell.copybytes + (188 -u64 pos)) })
          block'
unfolding copy
copy_enters pid pos cell buf block block' inside there e = rw (sized, there, ◌>>=◌, e)
  where
    sized : ltb 188 (188 -u64 pos) ≡ false
    sized = ground arith

module _ (pid pos : ℕ) (cell : Cell) (bytes buf : List ℕ) (h : Holds cell bytes)
    (space : length bytes ≤ cell.size) (good : IsBytes buf) (whole : length buf ≡ 188)
    (inside : pos ≤ 188) (three : 3 ≤ length (bytes ++ drop pos buf))
    (size : cell.size ≡ section_length (bytes ++ drop pos buf) + 3) where
  amount : length (drop pos buf) ≡ 188 -u64 pos
  amount = omega (arith, length-drop pos buf)

  -- The outcome, once the copy has left `block'`.
  copied-Assembled :
      (block' : List ℕ)
      → memcpy h.block (length bytes) (drop pos buf) (length (drop pos buf)) ≡ some block'
      → length block' ≡ length h.block
      → take (length (bytes ++ drop pos buf)) block' ≡ bytes ++ drop pos buf
      → IsBytes block'
      → (r : ℕ) × (cell' : Cell) × (copy pid pos cell buf ≡ some (r, cell'))
        × Assembled (bytes ++ drop pos buf) r cell'
  copied-Assembled block' e same front clean =
      let (r, done, eq, assembled) =
        complete-Assembled pid
          (record cell { payload = some block'; copybytes = u16 (cell.copybytes + (188 -u64 pos)) })
          (bytes ++ drop pos buf) extended three size in
      (
        r,
        done,
        copy_enters pid pos cell buf h.block block' inside h.there (rw (h.count, ← amount) e) ∙ eq,
        assembled,
      )
    where
      extended :
          Holds
            (record cell {
              payload = some block';
              copybytes = u16 (cell.copybytes + (188 -u64 pos));
            })
            (bytes ++ drop pos buf)
      extended = record {
        block = block';
        there = refl;
        room = same ∙ h.room;
        clean = clean;
        count = omega (arith, h.count, h.small, amount, length-append bytes (drop pos buf));
        front = front;
        small = h.small;
      }

  -- The payload of a packet is copied behind what the cell holds, and the end of the function
  -- reached. The cell has room for it as long as its section is not complete.
  pub copy-Assembled :
      (r : ℕ) × (cell' : Cell) × (copy pid pos cell buf ≡ some (r, cell'))
      × Assembled (bytes ++ drop pos buf) r cell'
  copy-Assembled =
      let (block', e, same, front, clean) =
        memcpy-append h.block bytes (drop pos buf) h.front (omega (arith, h.room, amount)) h.clean
          (drop-IsBytes pos buf good) in
      copied-Assembled block' e same front clean
