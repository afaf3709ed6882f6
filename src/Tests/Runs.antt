-- ===== src/Tests/Runs.antt =====
-- The program from its command line.
use tsanalytics.Base.{
  ℕ, ◌≡◌, refl, true, if◌then◌else◌, List, [], ◌∷◌, Option, none, some, length, codes, same_bytes,
  arith,
}
use tsanalytics.Tests.Data.{some_locals, four}
use tsanalytics.Tests.Reception.{recording, pat, recording-AllFine, recording-Broadcast}
use tsanalytics.Args.Order.{Item, file, out, words}
use tsanalytics.Pat.Table.{Listed}
use tsanalytics.Digest.{digests}
use tsanalytics.Analysis.{State, analyze}
use tsanalytics.Report.{report}
use tsanalytics.Program.{Files, main}
use tsanalytics.Program.Recording.{IsRecording, main-Listed}

abbrev no_number : List ℕ → Option ℕ
no_number text = none

-- A regular file with the recording, and nothing else.
abbrev files : Files
files = record {
  node = λ path.
      if same_bytes path (codes "a.ts")
      then some (record { st_mode = 0x81a4; bytes = recording; readable = true })
      else none;
  writable = λ path. true;
  same_file = same_bytes;
  s_ifmt = 0xf000;
  s_ifreg = 0x8000;
}

abbrev good_items : List Item
good_items = out (codes "a.json") ∷ file (codes "a.ts") ∷ []

abbrev wrong_items : List Item
wrong_items = out (codes "a.json") ∷ file (codes "b.ts") ∷ []

recording-IsRecording : IsRecording files (codes "a.ts") recording
recording-IsRecording = record {
  st = record { st_mode = 0x81a4; bytes = recording; readable = true };
  there = refl;
  regular = refl;
  readable = refl;
  holds = refl;
}

main-Listed_example :
    (s : State) × (text : List ℕ) × (analyze some_locals recording ≡ some s)
    × Listed pat s.pat
    × (report (length recording) (digests four recording) s ≡ some text)
    × (main no_number no_number files four some_locals (words good_items)
        ≡ some (record {
          status = 0;
          out = codes "OUTPUT\n";
          err = [];
          written = some (codes "a.json", text);
        }))
main-Listed_example =
    main-Listed files four some_locals no_number no_number good_items (tt, ((refl, refl), tt))
      (codes "a.ts") (codes "a.json") recording 200 pat refl refl recording-IsRecording refl refl
      (omega arith) recording-AllFine (omega arith) recording-Broadcast
