-- ===== src/Report.antt =====
-- tsanalytics.c: the text that is written behind the loop, and the function as a whole.
pub mod Programs
pub mod Plain
pub mod Written
use tsanalytics.Base.{
  ℕ, zero, suc, ◌+◌, ◌-◌, ◌/◌, ◌%◌, ◌==◌, not, ltb, if◌then◌else◌, List, [], ◌∷◌, ◌++◌, Option,
  none, some, ◌>>=◌, length, codes, decimal, hexadecimal, zero_padded,
}
use tsanalytics.Time.{Tm, tm_to_text}
use tsanalytics.Pat.{PatPid, Pat}
use tsanalytics.Json.{int_text, conv_json_drop_pid, conv_json_drop_key}
use tsanalytics.Digest.{Hashes, Digests, digests}
use tsanalytics.Analysis.{Locals, State, analyze}

-- `VERSION`
abbrev pub version : List ℕ
version = codes "0.06"

-- `%02x` of a byte, in small letters, and the loop over a digest.
abbrev pub hex_digit : ℕ → ℕ
hex_digit d = if ltb d 10 then d + 48 else d + 87

pub digest_text : List ℕ → List ℕ
digest_text [] = []
digest_text (b ∷ bs) = hex_digit (b / 16) ∷ hex_digit (b % 16) ∷ digest_text bs

-- The lines up to `this_is_not_TS`.
pub file_info : {h : Hashes} → ℕ → Digests h → List ℕ
file_info size d =
    codes "{\n"
    ++ codes "  \"tsanalytics\":{\n"
    ++ codes "     \"version\":\""
    ++ version
    ++ codes "\"\n"
    ++ codes "  },\n"
    ++ codes "  \"FileInfo\":{\n"
    ++ codes "     \"size\":\""
    ++ decimal size
    ++ codes "\",\n"
    ++ codes "     \"md5\":\""
    ++ digest_text d.md5
    ++ codes "\",\n"
    ++ codes "     \"sha1\":\""
    ++ digest_text d.sha1
    ++ codes "\",\n"
    ++ codes "     \"sha256\":\""
    ++ digest_text d.sha256
    ++ codes "\",\n"
    ++ codes "     \"sha512\":\""
    ++ digest_text d.sha512
    ++ codes "\"\n"
    ++ codes "  }"

-- The text of `first_tot` or `last_tot`.
abbrev pub tot_text : Tm → List ℕ
tot_text tm = if tm.tm_mday == 0 then codes "unknown" else tm_to_text tm

-- The text for an entry that names a program.
abbrev pub program_text : PatPid → List ℕ
program_text p = codes "\"0x" ++ zero_padded 4 (hexadecimal p.program_number) ++ codes "\""

-- The loop at `pat_p`, with so many rounds to go; a list that ends before is read at `NULL`.
-- The round is the last one where `i` is `num_of_pids` - 1.
pub program_loop : ℕ → List PatPid → Option (List ℕ)
program_loop zero pids = some []
program_loop (suc left) [] = none
program_loop (suc left) (p ∷ rest) = do
  behind ← program_loop left rest
  some (
      if not (p.program_number == 0)
      then program_text p ++ (if left == 0 then behind else codes "," ++ behind)
      else behind)

-- The lines of `TSInfo`.
pub ts_info : ℕ → State → Option (List ℕ)
ts_info packet_count s = do
  programs ← program_loop s.pat.num_of_pids s.pat.pids
  some (
      codes ",\n"
      ++ codes "  \"TSInfo\":{\n"
      ++ codes "      \"sync_error\":\""
      ++ int_text s.sync_error
      ++ codes "\",\n"
      ++ codes "      \"packet_total\":\""
      ++ int_text packet_count
      ++ codes "\",\n"
      ++ codes "      \"first_tot\":\""
      ++ tot_text s.first_tot
      ++ codes "\",\n"
      ++ codes "      \"last_tot\":\""
      ++ tot_text s.last_tot
      ++ codes "\",\n"
      ++ codes "      \"transport_stream_id\":\"0x"
      ++ hexadecimal s.pat.transport_stream_id
      ++ codes "\",\n"
      ++ codes "      \"programs\":["
      ++ programs
      ++ codes "],\n"
      ++ conv_json_drop_pid s.counts 6
      ++ codes ",\n"
      ++ conv_json_drop_key s.drop_list_per (codes "percent") 6
      ++ codes ",\n"
      ++ conv_json_drop_key s.drop_list_tot (codes "tot") 6
      ++ codes "\n"
      ++ codes "   }")

-- The part on the stream is left out for a file that is not one.
pub report : {h : Hashes} → ℕ → Digests h → State → Option (List ℕ)
report size d s = do
  info ← if s.this_is_not_ts == 0 then ts_info (size / 188) s else some []
  some (file_info size d ++ (info ++ codes "\n}\n"))

-- The output of `tsanalytics` for a file that can be read.
pub tsanalytics_text : Hashes → Locals → List ℕ → Option (List ℕ)
tsanalytics_text h l file = do s ← analyze l file; report (length file) (digests h file) s
