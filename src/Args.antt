-- ===== src/Args.antt =====
-- main.c: the arguments of the command line.
pub mod Order
use tsanalytics.Base.{
  ℕ, ◌%◌, ◌^◌, ◌==◌, ltb, ◌&&◌, if◌then◌else◌, Bool, true, false, List, [], ◌∷◌, Option, none, some,
  length, take, codes, same_bytes, u16,
}

-- `ARGS_TSANALYTICS`, a path that is `NULL` as `none`.
pub record Args : Type 0 where
  pub service_id : ℕ
  pub from_path : Option (List ℕ)
  pub out_path : Option (List ℕ)

-- `check_param( str, option, i, argc )`, by the arguments behind the one at `i`: there are some
-- if i < argc - 1.
pub check_param : List ℕ → List ℕ → List (List ℕ) → ℕ
check_param str option behind = if same_bytes str option && ltb 0 (length behind) then 1 else 0

-- What `main` does with the arguments: the usage and exit 1, or `tsanalytics`.
pub data Run : Type 0 where
  usage : Run
  analysis : Args → Run

abbrev pub launch : Option (List ℕ) → Args → Run
launch none params = usage
launch (some path) params = analysis params

-- `sscanf` with `0x%x` and with `%d`, by the text: the number, if there is one.
module _ (scan_hex scan_int : List ℕ → Option ℕ) where
  -- A number is stored as four bytes in `service_id`, which has two: that is undefined.
  pub read_service : List ℕ → ℕ → Option ℕ
  read_service text service_id =
      let scanned =
        if same_bytes (take 2 text) (codes "0x") then scan_hex text else scan_int text in
      elim scanned [ none ↦ some service_id | some n ↦ none ]

  -- The loop at the first of these arguments. For the last one `check_param` gives 0.
  pub arg_loop : List (List ℕ) → Args → Option Args
  arg_loop [] p = some p
  arg_loop (str ∷ []) p = some (record p { from_path = some str })
  arg_loop (str ∷ value ∷ rest) p =
      let with_out = arg_loop rest (record p { out_path = some value }) in
      let with_from = arg_loop (value ∷ rest) (record p { from_path = some str }) in
      if check_param str (codes "-s") (value ∷ rest) == 1
      then (elim (read_service value p.service_id) [
        | none ↦ none
        | some n ↦ arg_loop rest (record p { service_id = n })
      ])
      else if check_param str (codes "-o") (value ∷ rest) == 1
      then with_out
      else with_from

  pub main_args : List (List ℕ) → Option Run
  main_args argv =
      elim (arg_loop argv (record { service_id = 0; from_path = none; out_path = none })) [
        | none ↦ none
        | some p ↦ some (launch p.from_path p)
      ]
