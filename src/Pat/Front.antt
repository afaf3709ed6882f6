-- ===== src/Pat/Front.antt =====
-- The table depends on the bytes of its section alone, not on what stands behind them.
use tsanalytics.Base.{
  ℕ, zero, suc, ◌+◌, ◌*◌, ◌≤◌, ◌<◌, ◌≡◌, refl, sym, ap, ◌∙◌, List, ◌∷◌, length, take, get_or-take,
  byte_at, arith,
}
use tsanalytics.Crc.Total.{section_length}
use tsanalytics.Pat.{Pat}
use tsanalytics.Pat.Entry.{entry, entries}
use tsanalytics.Pat.Table.{Listed, entry_count}

module _ (block bytes : List ℕ) (front : take (length bytes) block ≡ bytes) where
  same_byte : (i : ℕ) → i < length bytes → byte_at block i ≡ byte_at bytes i
  same_byte i inside =
      sym (get_or-take (length bytes) i block 0 inside) ∙ ap (λ b. byte_at b i) front

  same_entries : (n k : ℕ) → k + n * 4 ≤ length bytes → entries block n k ≡ entries bytes n k
  unfolding entries
  same_entries zero k inside = refl
  same_entries (suc n) k inside =
      rw
        (
          same_byte k (omega arith),
          same_byte (k + 1) (omega arith),
          same_byte (k + 2) (omega arith),
          same_byte (k + 3) (omega arith),
        )
        (ap (λ es. entry bytes k ∷ es) (same_entries n (k + 4) (omega arith)))

  pub Listed-front :
      (pat : Pat)
      → 9 ≤ section_length bytes
      → section_length bytes + 3 ≤ length bytes
      → Listed block pat
      → Listed bytes pat
  Listed-front pat long whole l = record {
    table = l.table ∙ same_byte 0 (omega arith);
    syntax = omega (arith, l.syntax, same_byte 1 (omega arith));
    length = l.length ∙ same_length;
    stream = omega (arith, l.stream, same_byte 3 (omega arith), same_byte 4 (omega arith));
    version = omega (arith, l.version, same_byte 5 (omega arith));
    current = omega (arith, l.current, same_byte 5 (omega arith));
    section = omega (arith, l.section, same_byte 6 (omega arith));
    last = omega (arith, l.last, same_byte 7 (omega arith));
    count = l.count ∙ same_count;
    pids =
        l.pids
        ∙ ap (λ n. entries block n 8) same_count
        ∙ same_entries (entry_count bytes) 8 (omega arith);
  }
    where
      same_length : section_length block ≡ section_length bytes
      same_length = omega (arith, same_byte 1 (omega arith), same_byte 2 (omega arith))

      same_count : entry_count block ≡ entry_count bytes
      same_count = omega (arith, same_length)
