-- ===== src/Patterns.antt =====
-- src/pattern/pattern_trie.cpp: the patterns that were subscribed to, each with a count. The lock makes
-- an operation one step; an overload that takes a pointer and a size makes a text of them.
pub mod Counting
use serverlink.Prelude.{
  ℕ, ◌+◌, ◌-◌, ◌%◌, ◌^◌, ◌==◌, Bool, true, false, if◌then◌else◌, Option, none, some, List, [], ◌∷◌,
  ◌++◌, Bytes, bytes_beq, length, map,
}
use serverlink.Glob.{Segment, compile, match}

-- `refcount` is a `uint32_t`.
pub record PatternEntry : Type 0 where
  pub pattern_str : Bytes
  pub matcher : Option (List Segment)
  pub refcount : ℕ

abbrev pub PatternTrie : Type 0
PatternTrie = List PatternEntry

unfoldable pub find_pattern : Bytes → PatternTrie → Option PatternEntry
find_pattern pattern [] = none
find_pattern pattern (e ∷ t) =
    if bytes_beq e.pattern_str pattern then some e else find_pattern pattern t

abbrev pub inc32 : ℕ → ℕ
inc32 n = (n + 1) % 2 ^ 32

abbrev pub dec32 : ℕ → ℕ
dec32 n = (n + (2 ^ 32 - 1)) % 2 ^ 32

-- The count of the entry that `find_pattern` finds is changed.
unfoldable pub set_refcount : Bytes → ℕ → PatternTrie → PatternTrie
set_refcount pattern n [] = []
set_refcount pattern n (e ∷ t) =
    if bytes_beq e.pattern_str pattern
    then record e { refcount = n } ∷ t
    else e ∷ set_refcount pattern n t

unfoldable pub erase_entry : Bytes → PatternTrie → PatternTrie
erase_entry pattern [] = []
erase_entry pattern (e ∷ t) =
    if bytes_beq e.pattern_str pattern then t else e ∷ erase_entry pattern t

-- A pattern that does not compile is not added.
abbrev pub append_entry : Bytes → Option (List Segment) → PatternTrie → Bool × PatternTrie
append_entry pattern none t = (false, t)
append_entry pattern (some segments) t =
    (true, t ++ record { pattern_str = pattern; matcher = some segments; refcount = 1 } ∷ [])

abbrev pub add_to : Bytes → PatternTrie → Option PatternEntry → Bool × PatternTrie
add_to pattern t none = append_entry pattern (compile pattern) t
add_to pattern t (some e) = (false, set_refcount pattern (inc32 e.refcount) t)

unfoldable pub add : Bytes → PatternTrie → Bool × PatternTrie
add pattern t = add_to pattern t (find_pattern pattern t)

abbrev pub rm_from : Bytes → PatternTrie → Option PatternEntry → Bool × PatternTrie
rm_from pattern t none = (false, t)
rm_from pattern t (some e) =
    if dec32 e.refcount == 0
    then (true, erase_entry pattern t)
    else (true, set_refcount pattern (dec32 e.refcount) t)

unfoldable pub rm : Bytes → PatternTrie → Bool × PatternTrie
rm pattern t = rm_from pattern t (find_pattern pattern t)

unfoldable pub check : Bytes → PatternTrie → Bool
check text [] = false
check text (e ∷ t) = if match e.matcher text then true else check text t

unfoldable pub num_patterns : PatternTrie → ℕ
num_patterns t = length t

-- The patterns that `apply` hands to its function, in order.
unfoldable pub apply : PatternTrie → List Bytes
apply t = map (λ e. e.pattern_str) t
