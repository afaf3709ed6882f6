-- ===== src/Program/Recording.antt =====
-- The program on a recording that has a PAT.
use tsanalytics.Base.{
  ℕ, ◌/◌, ◌^◌, ◌≤◌, ◌<◌, ◌==◌, ◌≡◌, true, false, bit_and, List, [], Option, none, some, ◌>>=◌,
  length, codes, arith, ◌∙◌,
}
use tsanalytics.Args.Order.{Item, AllItems, words, last_file, last_out}
use tsanalytics.Pat.Table.{Listed}
use tsanalytics.Digest.{Hashes, packets, digests}
use tsanalytics.Analysis.{Locals, State, analyze}
use tsanalytics.Analysis.Sound.{AllFine}
use tsanalytics.Analysis.Broadcast.{Broadcast, analyze-Listed}
use tsanalytics.Report.{report}
use tsanalytics.Report.Written.{report-some, tsanalytics_text-report}
use tsanalytics.Program.{Node, Files, get_file_size, open_input, write_output, analyze_path, main}
use tsanalytics.Program.Refusal.{main-named}

-- A regular file of these bytes that can be read.
pub record IsRecording (f : Files) (path bytes : List ℕ) : Type 0 where
  pub st : Node
  pub there : f.node path ≡ some st
  pub regular : bit_and st.st_mode f.s_ifmt ≡ f.s_ifreg
  pub readable : st.readable ≡ true
  pub holds : st.bytes ≡ bytes

module _ (f : Files) (h : Hashes) (l : Locals) where
  analyze_path-recording :
      (path bytes : List ℕ) (out_path : Option (List ℕ))
      → IsRecording f path bytes
      → analyze_path f h l path out_path ≡ write_output f h l path bytes out_path
  unfolding analyze_path get_file_size open_input
  analyze_path-recording path bytes out_path r =
      rw (
        analyze_path, get_file_size, r.there, regular_mode, open_input, r.there, r.readable,
        r.holds,
      )
    where
      regular_mode : (bit_and r.st.st_mode f.s_ifmt == f.s_ifreg) ≡ true
      regular_mode = ground (arith, r.regular)

  module _ (scan_hex scan_int : List ℕ → Option ℕ) (xs : List Item) (items : AllItems xs) where
    -- Paths of recordings, none of which is `-s` or `-o`, and options `-o` with their paths, in
    -- any order, at least one of each. The last recording is a regular file that can be read, and
    -- has a PAT as `analyze-Listed` wants it. The last output is another file and can be written.
    -- The program ends with status 0 and leaves in the output the report of an analysis of the
    -- recording whose table is that PAT's.
    pub main-Listed :
        (path out_path bytes : List ℕ) (len : ℕ) (pat : List ℕ)
        → last_file none xs ≡ some path
        → last_out none xs ≡ some out_path
        → IsRecording f path bytes
        → f.writable out_path ≡ true
        → f.same_file path out_path ≡ false
        → 9 ≤ len
        → AllFine (packets (length bytes / 188) bytes)
        → length bytes < 2 ^ 64
        → Broadcast len pat (packets (length bytes / 188) bytes)
        → (s : State) × (text : List ℕ) × (analyze l bytes ≡ some s)
          × Listed pat s.pat
          × (report (length bytes) (digests h bytes) s ≡ some text)
          × (main scan_hex scan_int f h l (words xs)
              ≡ some (record {
                status = 0;
                out = codes "OUTPUT\n";
                err = [];
                written = some (out_path, text);
              }))
    unfolding write_output
    main-Listed path out_path bytes len pat file out r w other long fine small b =
        let (s, e, listed) = analyze-Listed l len pat bytes long fine small b in
        let (text, e') = report-some h bytes pat s listed in
        (
          s,
          text,
          e,
          listed,
          e',
          main-named f h l scan_hex scan_int xs items path file
              ∙ analyze_path-recording path bytes (last_out none xs) r
              ∙ rw (
                out,
                write_output,
                w,
                other,
                tsanalytics_text-report h l bytes s text e e',
                ◌>>=◌,
              ),
        )
