-- ===== src/Glob.antt =====
-- src/pattern/glob_pattern.cpp: patterns with `*`, `?`, classes of characters and escapes. An exception
-- that `compile` throws is `none`.
pub mod Matches
pub mod Escape
use serverlink.Prelude.{
  ℕ, zero, suc, ◌==◌, leb, ltb, Bool, true, false, not, ◌&&◌, ◌||◌, if◌then◌else◌, Option, none,
  some, List, [], ◌∷◌, ◌++◌, Bytes, length,
}

-- A class has its characters, its ranges, and whether it is negated.
pub data Segment : Type 0 where
  literal : ℕ → Segment
  star question : Segment
  char_class : Bytes → List (ℕ × ℕ) → Bool → Segment

-- The loop over the characters of a class. Its last result is the text behind `]`.
unfoldable pub class_loop : Bool → Bytes → List (ℕ × ℕ) → Bytes → Option (Segment × Bytes)
class_loop negated chars ranges [] = none
class_loop negated chars ranges (c ∷ []) =
    if c == b']' then some (char_class chars ranges negated, []) else none
class_loop negated chars ranges (c ∷ (d ∷ [])) =
    let single = class_loop negated (chars ++ c ∷ []) ranges (d ∷ []) in
    if c == b']' then some (char_class chars ranges negated, d ∷ []) else single
class_loop negated chars ranges (c ∷ (d ∷ (e ∷ rest))) =
    let single = class_loop negated (chars ++ c ∷ []) ranges (d ∷ (e ∷ rest)) in
    let range = class_loop negated chars (ranges ++ (c, e) ∷ []) rest in
    if c == b']'
    then some (char_class chars ranges negated, d ∷ (e ∷ rest))
    else if d == b'-' && not (e == b']')
    then (if ltb e c then none else range)
    else single

-- `parse_char_class`, behind the `[`.
unfoldable pub parse_char_class : Bytes → Option (Segment × Bytes)
unfolding class_loop
parse_char_class [] = none
parse_char_class (c ∷ cs) =
    if c == b'^' || c == b'!' then class_loop true [] [] cs else class_loop false [] [] (c ∷ cs)

abbrev pub escaped : ℕ → Bytes → Option (Segment × Bytes)
escaped c [] = some (literal c, [])
escaped c (d ∷ ds) = some (literal d, ds)

-- A round of the loop of `compile`.
unfoldable pub next_segment : ℕ → Bytes → Option (Segment × Bytes)
unfolding parse_char_class
next_segment c cs =
    if c == b'*'
    then some (star, cs)
    else if c == b'?'
    then some (question, cs)
    else if c == b'['
    then parse_char_class cs
    else if c == b'\\'
    then escaped c cs
    else some (literal c, cs)

abbrev pub push : Segment → Option (List Segment) → Option (List Segment)
push segment none = none
push segment (some segments) = some (segment ∷ segments)

-- A round takes a character at least, so the length of the text is fuel enough.
unfoldable pub compile_loop : ℕ → Bytes → Option (List Segment)
unfolding next_segment
compile_loop f [] = some []
compile_loop zero (c ∷ cs) = none
compile_loop (suc f) (c ∷ cs) = elim (next_segment c cs) [
  | none ↦ none
  | some (segment, rest) ↦ push segment (compile_loop f rest)
]

unfoldable pub compile : Bytes → Option (List Segment)
unfolding compile_loop
compile pattern = compile_loop (length pattern) pattern

abbrev pub has_char : Bytes → ℕ → Bool
has_char [] c = false
has_char (x ∷ xs) c = if c == x then true else has_char xs c

abbrev pub in_ranges : List (ℕ × ℕ) → ℕ → Bool
in_ranges [] c = false
in_ranges ((a, b) ∷ m) c = if leb a c && leb c b then true else in_ranges m c

-- `char_class_match`
abbrev pub char_class_match : Bytes → List (ℕ × ℕ) → Bool → ℕ → Bool
char_class_match chars ranges negated c =
    let matched = has_char chars c || in_ranges ranges c in if negated then not matched else matched

-- The characters that a segment other than a star stands for.
abbrev pub accepts : Segment → ℕ → Bool
accepts (literal x) c = c == x
accepts star c = false
accepts question c = true
accepts (char_class chars ranges negated) c = char_class_match chars ranges negated c

-- The rest of the pattern is tried at each place, from the first one on.
unfoldable pub try_all : (Bytes → Bool) → Bytes → Bool
try_all rest [] = rest []
try_all rest (c ∷ cs) = if rest (c ∷ cs) then true else try_all rest cs

abbrev pub step : Segment → (Bytes → Bool) → Bytes → Bool
step segment rest [] = false
step segment rest (c ∷ cs) = if accepts segment c then rest cs else false

unfoldable pub match_impl : List Segment → Bytes → Bool
unfolding try_all
match_impl [] [] = true
match_impl [] (c ∷ cs) = false
match_impl (star ∷ p) s = try_all (match_impl p) s
match_impl (segment ∷ p) s = step segment (match_impl p) s

unfoldable pub match : Option (List Segment) → Bytes → Bool
unfolding match_impl
match none s = false
match (some segments) s = match_impl segments s
