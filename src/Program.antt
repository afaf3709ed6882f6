-- ===== src/Program.antt =====
-- main.c and tsanalytics.c: the program from its arguments to what it leaves behind.
pub mod Refusal
pub mod Recording
use tsanalytics.Base.{
  ℕ, ◌==◌, not, ◌&&◌, ltb, Bool, if◌then◌else◌, ℤ, pos, negsuc, bit_and, List, [], ◌++◌, Option,
  none, some, ◌>>=◌, length, codes,
}
use tsanalytics.Args.{Args, Run, usage, analysis, main_args}
use tsanalytics.Digest.{Hashes}
use tsanalytics.Analysis.{Locals}
use tsanalytics.Report.{version, tsanalytics_text}

-- A file or a directory: its mode, its bytes, and whether it can be opened for reading. The size
-- that `stat` gives is the number of the bytes.
pub record Node : Type 0 where
  pub st_mode : ℕ
  pub bytes : List ℕ
  pub readable : Bool

-- The files when the program starts: what stands at a path, whether a path can be opened for
-- writing, whether two paths lead to one file, and two constants of `sys/stat.h`.
pub record Files : Type 0 where
  pub node : List ℕ → Option Node
  pub writable : List ℕ → Bool
  pub same_file : List ℕ → List ℕ → Bool
  pub s_ifmt : ℕ
  pub s_ifreg : ℕ

-- -1 for a path that cannot be read or is no regular file.
pub get_file_size : Files → List ℕ → ℤ
get_file_size f target = elim (f.node target) [
  | none ↦ negsuc 0
  | some st ↦
      if not (bit_and st.st_mode f.s_ifmt == f.s_ifreg) then negsuc 0 else pos (length st.bytes)
]

-- `fopen` with "rb", by the bytes that can be read.
pub open_input : Files → List ℕ → Option (List ℕ)
open_input f path = elim (f.node path) [
  | none ↦ none
  | some st ↦ if st.readable then some st.bytes else none
]

-- What a run leaves: the exit status, the text on the standard output and on the standard error
-- stream, and the path and the text of the output file.
pub record Ended : Type 0 where
  pub status : ℕ
  pub out : List ℕ
  pub err : List ℕ
  pub written : Option (List ℕ × List ℕ)

abbrev pub cannot_open_input : List ℕ → Ended
cannot_open_input path = record {
  status = 1;
  out = [];
  err = codes "Cannot open input file: " ++ path ++ codes "\n";
  written = none;
}

abbrev pub cannot_open_output : List ℕ → Ended
cannot_open_output path = record {
  status = 1;
  out = codes "OUTPUT\n";
  err = codes "Cannot open output file: " ++ path ++ codes "\n";
  written = none;
}

-- The output goes to the standard output or to a file. A file that is the recording itself is
-- cut to nothing before the recording is read: its bytes are then what `buf` happens to hold.
pub write_output : Files → Hashes → Locals → List ℕ → List ℕ → Option (List ℕ) → Option Ended
write_output f h l path bytes none = do
  text ← tsanalytics_text h l bytes
  some (record { status = 0; out = text; err = []; written = none })
write_output f h l path bytes (some out_path) =
    if not (f.writable out_path)
    then some (cannot_open_output out_path)
    else if f.same_file path out_path && ltb 0 (length bytes)
    then none
    else (do
      text ← tsanalytics_text h l bytes
      some (record {
        status = 0;
        out = codes "OUTPUT\n";
        err = [];
        written = some (out_path, text);
      }))

-- `tsanalytics`.
pub analyze_path : Files → Hashes → Locals → List ℕ → Option (List ℕ) → Option Ended
analyze_path f h l from_path out_path = elim (get_file_size f from_path) [
  | negsuc n ↦ some (cannot_open_input from_path)
  | pos filesize ↦ elim (open_input f from_path) [
    | none ↦ some (cannot_open_input from_path)
    | some bytes ↦ write_output f h l from_path bytes out_path
  ]
]

-- `show_usage`, and the exit behind it.
abbrev pub show_usage : Ended
show_usage = record {
  status = 1;
  out = [];
  err =
      codes "tsanalytics ver."
      ++ version
      ++ codes "\n"
      ++ codes "Usage: ./tsanalytics XXXX.ts -o XXXX.json\n";
  written = none;
}

-- `tsanalytics(&params)`: `main` has made sure of `from_path`.
abbrev pub call_tsanalytics : Files → Hashes → Locals → Args → Option Ended
call_tsanalytics f h l params = do path ← params.from_path; analyze_path f h l path params.out_path

module _ (scan_hex scan_int : List ℕ → Option ℕ) where
  pub main : Files → Hashes → Locals → List (List ℕ) → Option Ended
  main f h l argv = do
    r ← main_args scan_hex scan_int argv
    elim r [ usage ↦ some show_usage | analysis params ↦ call_tsanalytics f h l params ]
