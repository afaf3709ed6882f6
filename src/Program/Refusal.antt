-- ===== src/Program/Refusal.antt =====
-- Arguments and recordings that the program refuses.
use tsanalytics.Base.{ℕ, ◌≡◌, ◌≢◌, false, bit_and, List, Option, none, some, ◌>>=◌}
use tsanalytics.Args.Order.{Item, AllItems, words, last_file, last_out, main_args-words}
use tsanalytics.Digest.{Hashes}
use tsanalytics.Analysis.{Locals}
use tsanalytics.Program.{Node, Files, analyze_path, main}

-- A path with nothing at it, with something that is no regular file, or with a file that cannot be
-- opened.
pub data Refused (f : Files) (path : List ℕ) : Type 0 where
  absent : f.node path ≡ none → Refused f path
  irregular :
      (st : Node) → f.node path ≡ some st → bit_and st.st_mode f.s_ifmt ≢ f.s_ifreg → Refused f path
  unreadable : (st : Node) → f.node path ≡ some st → st.readable ≡ false → Refused f path

module _ (f : Files) (h : Hashes) (l : Locals) where
  module _ (scan_hex scan_int : List ℕ → Option ℕ) (xs : List Item) (items : AllItems xs) where
    -- The run for a path that is named.
    pub main-named :
        (path : List ℕ)
        → last_file none xs ≡ some path
        → main scan_hex scan_int f h l (words xs) ≡ analyze_path f h l path (last_out none xs)
    unfolding main
    main-named path e = rw (main_args-words scan_hex scan_int xs items, ◌>>=◌, e)
