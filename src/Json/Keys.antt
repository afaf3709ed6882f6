-- ===== src/Json/Keys.antt =====
-- The lines of a list of defects: joined by commas, the last without one.
use tsanalytics.Base.{
  ℕ, zero, suc, ◌==◌, ◌≡◌, refl, ap, List, [], ◌∷◌, ◌++◌, false, take, codes, arith,
}
use tsanalytics.DropList.{Entry}
use tsanalytics.Json.{indent, key_line, key_loop, conv_json_drop_key}

-- Lines as JSON members: a comma behind each but the last.
unfoldable pub members : List (List ℕ) → List ℕ
members [] = []
members (x ∷ []) = x ++ codes "\n"
members (x ∷ y ∷ rest) = x ++ (codes ",\n" ++ members (y ∷ rest))

abbrev pub key_lines : ℕ → List Entry → List (List ℕ)
key_lines in_ [] = []
key_lines in_ (p ∷ rest) = key_line in_ p ∷ key_lines in_ rest

not_zero : (n : ℕ) → (suc n == 0) ≡ false
not_zero n = ground arith

key_loop-members :
    (in_ left : ℕ) (entries : List Entry)
    → key_loop in_ left entries ≡ members (key_lines in_ (take left entries))
unfolding key_loop members
key_loop-members in_ zero entries = refl
key_loop-members in_ (suc left) [] = refl
key_loop-members in_ (suc zero) (p ∷ []) = refl
key_loop-members in_ (suc zero) (p ∷ q ∷ rest) = refl
key_loop-members in_ (suc (suc left)) (p ∷ []) = rw (not_zero left)
key_loop-members in_ (suc (suc left)) (p ∷ q ∷ rest) =
    rw (not_zero left)
      (ap (λ t. key_line in_ p ++ (codes ",\n" ++ t)) (key_loop-members in_ (suc left) (q ∷ rest)))

-- The object has one member for each of the first 20000 nodes, in their order, with a comma
-- behind each but the last.
conv_json_drop_key-members :
    (entries : List Entry) (name : List ℕ) (in_ : ℕ)
    → conv_json_drop_key entries name in_
      ≡ indent in_
        ++ codes "\"drop_"
        ++ name
        ++ codes "\":{\n"
        ++ members (key_lines in_ (take 20000 entries))
        ++ indent in_
        ++ codes "}"
unfolding conv_json_drop_key
conv_json_drop_key-members entries name in_ = rw (key_loop-members in_ 20000 entries)
