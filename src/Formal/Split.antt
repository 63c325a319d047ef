-- ===== src/Formal/Split.antt =====
-- _split_top_level of src/mind3/core/formal_templates.py: a text cut at an operator outside parentheses.
use Prim.Native.Char.{Char, code}
use Prim.Native.String.{◌++◌ as append, count}
use mind.Prelude.{ℕ, zero, suc, ◌-◌, String, true, false, ◌&&◌, List, [], ◌∷◌, ◌==◌}
use mind.Formal.Scan.{starts_with}

-- The character goes to the front of the first part.
unfoldable pub cons_first : Char → List String → List String
cons_first c [] = String.◌∷◌ c String.[] ∷ []
cons_first c (p ∷ ps) = String.◌∷◌ c p ∷ ps

-- The parts of a text, of which the first `skip` characters belong to an operator; the depth is the
-- number of parentheses opened less the number closed, and may be negative.
unfoldable pub split_from : String → ℕ → ℕ → ℕ → String → List String
split_from op opened closed skip String.[] = "" ∷ []
split_from op opened closed (suc skip) (String.◌∷◌ c s) = split_from op opened closed skip s
split_from op opened closed zero (String.◌∷◌ c s) =
    let is_open = code c == 40 in
    let is_close = code c == 41 in
    let here = opened == closed && starts_with op (String.◌∷◌ c s) in
    elim is_open [
      | true ↦ cons_first c (split_from op (suc opened) closed 0 s)
      | false ↦ elim is_close [
        | true ↦ cons_first c (split_from op opened (suc closed) 0 s)
        | false ↦ elim here [
          | true ↦ "" ∷ split_from op opened closed (count op - 1) s
          | false ↦ cons_first c (split_from op opened closed 0 s)
        ]
      ]
    ]

-- `_split_top_level`
unfoldable pub split_top_level : String → String → List String
split_top_level text op = split_from op 0 0 0 text

-- `op.join(parts)`
unfoldable pub join_parts : String → List String → String
join_parts op [] = ""
join_parts op (p ∷ []) = p
join_parts op (p ∷ q ∷ ps) = append p (append op (join_parts op (q ∷ ps)))
