-- ===== src/Formal/Node.antt =====
-- The syntax trees of src/mind3/core/formal_templates.py, and how a comparison becomes an atom:
-- fold_number and the comparison half of parse_cmp. A number token has ASCII letters only, and the
-- names in a tree have printable characters only, so lower() and repr() are those of such texts.
use Prim.Native.Char.{Char, code}
use Prim.Native.String.{◌++◌ as append, compare}
use Prim.Native.Nat.{Ordering}
use text.Mathlib.Text.{◌==◌ as str_eq}
use mind.Prelude.{String, Bool, true, false, not, ◌&&◌, ◌||◌, if◌then◌else◌, ◌==◌}
use mind.Formal.Token.{Unicode, is_space}

pub data Node : Type 0 where
  const : Bool → Node
  var : String → Node
  not_node : Node → Node
  and_node or_node : Node → Node → Node

-- The characters of a text that pass the test.
remove : (Char → Bool) → String → String
remove p String.[] = String.[]
remove p (String.◌∷◌ c s) = if p c then remove p s else String.◌∷◌ c (remove p s)

-- The character that stands where `c` stands in the first text, or `c` where it does not.
unfoldable pub translate : String → String → Char → Char
translate (String.◌∷◌ a s) (String.◌∷◌ b t) c = if code c == code a then b else translate s t c
translate _ _ c = c

unfoldable pub lower : String → String
unfolding translate
lower String.[] = String.[]
lower (String.◌∷◌ c s) =
    String.◌∷◌ (translate "ABCDEFGHIJKLMNOPQRSTUVWXYZ" "abcdefghijklmnopqrstuvwxyz" c) (lower s)

has : Char → String → Bool
has q String.[] = false
has q (String.◌∷◌ c s) = (code c == code q) || has q s

escape : Char → String → String
escape q String.[] = String.[]
escape q (String.◌∷◌ c s) =
    if code c == code q || code c == code "\\"
    then String.◌∷◌ "\\" (String.◌∷◌ c (escape q s))
    else String.◌∷◌ c (escape q s)

-- `repr(s)` of a text: double quotes where it has a single quote and no double quote.
repr_text : String → String
unfolding has escape
repr_text s =
    if has "'" s && not (has "\"" s)
    then append "\"" (append (escape "\"" s) "\"")
    else append "'" (append (escape "'" s) "'")

-- `repr(node)` of the tuple.
unfoldable pub repr : Node → String
unfolding repr_text
repr (const true) = "('const', True)"
repr (const false) = "('const', False)"
repr (var x) = append "('var', " (append (repr_text x) ")")
repr (not_node a) = append "('not', " (append (repr a) ")")
repr (and_node a b) = append "('and', " (append (repr a) (append ", " (append (repr b) ")")))
repr (or_node a b) = append "('or', " (append (repr a) (append ", " (append (repr b) ")")))

-- `fold_number`
unfoldable pub fold_number : Unicode → String → Node
unfolding remove lower
fold_number u raw =
    let low = lower (remove (λ c. code c == code "_") raw) in
    if str_eq low "1'b1" || str_eq low "1"
    then const true
    else if str_eq low "1'b0" || str_eq low "0"
    then const false
    else var (append "lit:" (remove (is_space u) low))

key : Node → String
unfolding repr
key (var x) = x
key node = repr node

-- The atom of two operands in the order of their keys.
atom : Bool → String → String → Node
atom equal lkey rkey =
    let name = λ (a b : String).
      append "cmp:"
        (append (if equal then "eq" else "ne") (append ":" (append a (append ":" b)))) in
    elim (compare lkey rkey) [ Ordering.gt ↦ var (name rkey lkey) | _ ↦ var (name lkey rkey) ]

same : Bool → Bool → Bool
same true b = b
same false b = not b

-- `left == right`, or `left != right` where `equal` is false.
unfoldable pub comparison : Bool → Node → Node → Node
unfolding key atom same
comparison equal (const a) (const b) = const (same equal (same a b))
comparison equal (var x) (var y) = if str_eq x y then const equal else atom equal x y
comparison equal left right = atom equal (key left) (key right)
