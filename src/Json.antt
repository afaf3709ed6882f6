-- ===== src/Json.antt =====
-- conv_json.c: the counters as JSON text. A call appends its text to the output.
pub mod Pids
pub mod Keys
use tsanalytics.Base.{
  ℕ, zero, suc, ◌+◌, ◌-◌, ◌%◌, ◌^◌, ◌==◌, ltb, if◌then◌else◌, List, [], ◌∷◌, ◌++◌, replicate, codes,
  decimal, hexadecimal, zero_padded,
}
use tsanalytics.DropCount.{DropCount, Counts}
use tsanalytics.DropList.{Entry}

-- `%d` takes an `int`: the low 32 bits of its argument, signed.
pub int_text : ℕ → List ℕ
int_text n =
    let v = n % 2 ^ 32 in if ltb v (2 ^ 31) then decimal v else codes "-" ++ decimal (2 ^ 32 - v)

abbrev pub indent : ℕ → List ℕ
indent n = replicate n b' '

-- A line for a PID, without its end.
pub pid_line : ℕ → ℕ → DropCount → List ℕ
pid_line in_ i p =
    indent (in_ + 3)
    ++ codes "\"0x"
    ++ zero_padded 4 (hexadecimal i)
    ++ codes "\" : {\"total\":\""
    ++ int_text p.total
    ++ codes "\", \"drop\":\""
    ++ int_text p.drop
    ++ codes "\", \"error\":\""
    ++ int_text p.error
    ++ codes "\", \"scrambling\":\""
    ++ int_text p.scrambling
    ++ codes "\"}"

-- The loop at PID `i`, with so many to go.
pub pid_loop : ℕ → ℕ → ℕ → Counts → List ℕ
pid_loop in_ zero i p = []
pid_loop in_ (suc left) i p =
    let rest = pid_loop in_ left (i + 1) p in
    if ltb 0 (p i).total
    then pid_line in_ i (p i) ++ ((if (p i).last == 0 then codes ",\n" else codes "\n") ++ rest)
    else rest

pub conv_json_drop_pid : Counts → ℕ → List ℕ
conv_json_drop_pid p in_ =
    indent in_ ++ codes "\"drop_pid\":{\n" ++ pid_loop in_ 8192 0 p ++ indent in_ ++ codes "}"

-- A line for a key, without its end.
pub key_line : ℕ → Entry → List ℕ
key_line in_ p =
    indent (in_ + 3)
    ++ codes "\""
    ++ p.key
    ++ codes "\" : {\"drop\":\""
    ++ int_text p.drop
    ++ codes "\", \"error\":\""
    ++ int_text p.error
    ++ codes "\", \"scrambling\":\""
    ++ int_text p.scrambling
    ++ codes "\"}"

-- The loop at the first of these nodes, with so many rounds to go.
pub key_loop : ℕ → ℕ → List Entry → List ℕ
key_loop in_ zero entries = []
key_loop in_ (suc left) [] = []
key_loop in_ (suc left) (p ∷ rest) =
    let behind = key_loop in_ left rest in
    key_line in_ p
    ++ (if left == 0
        then codes "\n"
        else elim rest [ [] ↦ codes "\n" ++ behind | q ∷ qs ↦ codes ",\n" ++ behind ])

pub conv_json_drop_key : List Entry → List ℕ → ℕ → List ℕ
conv_json_drop_key p name in_ =
    indent in_
    ++ codes "\"drop_"
    ++ name
    ++ codes "\":{\n"
    ++ key_loop in_ 20000 p
    ++ indent in_
    ++ codes "}"
