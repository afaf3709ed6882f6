-- ===== src/Args/Order.antt =====
-- The arguments in any order.
use tsanalytics.Base.{
  ℕ, ◌≡◌, refl, false, true, suc, ltb, length, arith, List, [], ◌∷◌, Option, none, some, codes,
  same_bytes,
}
use tsanalytics.Args.{Args, check_param, arg_loop, launch, main_args}

-- A path of a recording, or `-o` with the path of the output.
pub data Item : Type 0 where
  file : List ℕ → Item
  out : List ℕ → Item

-- A recording's path is none of the options.
abbrev pub IsItem : Item → Type 0
IsItem (file f) = (same_bytes f (codes "-s") ≡ false) × (same_bytes f (codes "-o") ≡ false)
IsItem (out o) = Unit {0}

abbrev pub AllItems : List Item → Type 0
AllItems [] = Unit {0}
AllItems (x ∷ xs) = IsItem x × AllItems xs

abbrev pub words : List Item → List (List ℕ)
words [] = []
words (file f ∷ xs) = f ∷ words xs
words (out o ∷ xs) = codes "-o" ∷ o ∷ words xs

-- The last path of each kind, or the one given where there is none.
abbrev pub last_file : Option (List ℕ) → List Item → Option (List ℕ)
last_file d [] = d
last_file d (file f ∷ xs) = last_file (some f) xs
last_file d (out o ∷ xs) = last_file d xs

abbrev pub last_out : Option (List ℕ) → List Item → Option (List ℕ)
last_out d [] = d
last_out d (file f ∷ xs) = last_out d xs
last_out d (out o ∷ xs) = last_out (some o) xs

more : (n : ℕ) → ltb 0 (suc n) ≡ true
more n = ground arith

module _ (scan_hex scan_int : List ℕ → Option ℕ) where
  arg_loop-words :
      (xs : List Item) (p : Args)
      → AllItems xs
      → arg_loop scan_hex scan_int (words xs) p
        ≡ some
            (record p { from_path = last_file p.from_path xs; out_path = last_out p.out_path xs })
  unfolding arg_loop check_param
  arg_loop-words [] p i = refl
  arg_loop-words (file f ∷ []) p i = refl
  arg_loop-words (file f ∷ file g ∷ xs) p i =
      rw (i.0.0, i.0.1) (arg_loop-words (file g ∷ xs) (record p { from_path = some f }) i.1)
  arg_loop-words (file f ∷ out o ∷ xs) p i =
      rw (i.0.0, i.0.1) (arg_loop-words (out o ∷ xs) (record p { from_path = some f }) i.1)
  arg_loop-words (out o ∷ xs) p i =
      rw (more (length (words xs))) (arg_loop-words xs (record p { out_path = some o }) i.1)

  -- Paths of recordings, none of which is `-s` or `-o`, and options `-o` with their paths, in any
  -- order: without a recording `main` shows the usage, else it analyses the last recording, with
  -- the output to the last path of an option, or to the standard output without one.
  pub main_args-words :
      (xs : List Item)
      → AllItems xs
      → main_args scan_hex scan_int (words xs)
        ≡ some (
            launch (last_file none xs) (record {
              service_id = 0;
              from_path = last_file none xs;
              out_path = last_out none xs;
            }))
  unfolding main_args
  main_args-words xs i = rw (
    main_args,
    arg_loop-words xs (record { service_id = 0; from_path = none; out_path = none }) i,
  )
