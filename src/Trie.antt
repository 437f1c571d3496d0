-- ===== src/Trie.antt =====
-- src/pipe/trie.cpp: the prefixes that a socket subscribed to, each with its count of references. A
-- failed assertion, or the use of a child that is not there, is `broken`; memory is not modelled.
pub mod Tables
pub mod Cuts
pub mod Refs
pub mod Growth
pub mod Shrink
pub mod Removal
pub mod Lookup
use serverlink.Prelude.{
  ℕ, zero, suc, ◌+◌, ◌-◌, ◌%◌, ◌^◌, ◌==◌, leb, ltb, Bool, true, false, not, ◌&&◌, ◌||◌,
  if◌then◌else◌, Option, none, some, List, [], ◌∷◌, ◌++◌, Bytes,
}
use serverlink.Trie.Tables.{
  Trie, Slots, node, end, gap, sub, slots_len, at, put, clear, gaps, pad, skip, keep, leading, used,
  is_some, is_redundant,
}

abbrev pub new_trie : Trie
new_trie = node 0 0 0 0 end

pub data Outcome : Type 0 where
  done : Bool → Trie → Outcome
  broken : Outcome

-- A table that has a place for a byte: the smallest byte, the size and the places.
pub record Table : Type 0 where
  pub smallest : ℕ
  pub count : ℕ
  pub slots : Slots

abbrev pub is_outside : ℕ → ℕ → ℕ → Bool
is_outside c m n = ltb c m || leb (m + n) c

abbrev pub grow : ℕ → ℕ → ℕ → Slots → Table
grow c m n s =
    if is_outside c m n
    then (if n == 0
        then record { smallest = c; count = 1; slots = gaps 1 end }
        else if ltb m c
        then record { smallest = m; count = c - m + 1; slots = pad s (c - m + 1 - n) }
        else record { smallest = c; count = m + n - c; slots = gaps (m - c) s })
    else record { smallest = m; count = n; slots = s }

abbrev pub or_new : Option Trie → Trie
or_new none = new_trie
or_new (some t) = t

abbrev pub put_back : ℕ → Table → ℕ → ℕ → Outcome → Outcome
put_back r g l i broken = broken
put_back r g l i (done b t) = done b (node r g.smallest g.count l (put g.slots i t))

-- A new child is counted, and the count compared with the size of the table.
abbrev pub live_after : ℕ → Option Trie → ℕ
live_after l none = l + 1
live_after l (some t) = l

abbrev pub is_counted : ℕ → ℕ → Option Trie → Bool
is_counted n l none = if n == 1 then l == 1 else ltb 1 l
is_counted n l (some t) = true

unfoldable pub add : Bytes → Trie → Outcome
add [] (node r m n l s) = let r' = (r + 1) % 2 ^ 32 in done (r' == 1) (node r' m n l s)
add (c ∷ cs) (node r m n l s) =
    let g = grow c m n s in
    let old = at g.slots (c - g.smallest) in
    let child = add cs (or_new old) in
    if is_counted g.count (live_after l old) old
    then put_back r g (live_after l old) (c - g.smallest) child
    else broken

-- The only child left takes the place of the table.
abbrev pub single : Bool → ℕ → ℕ → ℕ → Option Trie → Outcome
single b r m l none = broken
single b r m l (some t) = done b (node r m 1 l (sub t end))

abbrev pub shrink : Bool → ℕ → ℕ → ℕ → ℕ → Slots → ℕ → Outcome
shrink b r m n l s c =
    if l == 1
    then (if c == m
        then single b r (m + n - 1) l (at s (n - 1))
        else if c == m + n - 1
        then single b r m l (at s 0)
        else broken)
    else if c == m
    then (if leading s == n
        then broken
        else done b (node r (m + leading s) (n - leading s) l (skip (leading s) s)))
    else if c == m + n - 1
    then (if used s == 0 then broken else done b (node r m (used s) l (keep (used s) s)))
    else done b (node r m n l s)

abbrev pub remove_child : Bool → ℕ → ℕ → ℕ → ℕ → Slots → ℕ → Outcome
remove_child b r m n l s c =
    if n == 1
    then (if l - 1 == 0 then done b (node r m 0 (l - 1) end) else broken)
    else if ltb 1 l
    then shrink b r m n (l - 1) (clear s (c - m)) c
    else broken

abbrev pub after_rm : ℕ → ℕ → ℕ → ℕ → Slots → ℕ → Outcome → Outcome
after_rm r m n l s c broken = broken
after_rm r m n l s c (done b t) =
    if is_redundant t then remove_child b r m n l s c else done b (node r m n l (put s (c - m) t))

unfoldable pub rm : Bytes → Trie → Outcome
rm [] (node r m n l s) =
    if r == 0 then done false (node r m n l s) else done (r - 1 == 0) (node (r - 1) m n l s)
rm (c ∷ cs) (node r m n l s) =
    let child = rm cs (or_new (at s (c - m))) in
    if (n == 0) || is_outside c m n
    then done false (node r m n l s)
    else if is_some (at s (c - m))
    then after_rm r m n l s c child
    else done false (node r m n l s)

-- The place of a byte; a table of one place has its child always.
abbrev pub down : ℕ → Option Trie → (Trie → Option Bool) → Option Bool
down n none more = if n == 1 then none else some false
down n (some t) more = more t

unfoldable pub check : Bytes → Trie → Option Bool
check [] (node r m n l s) = some (not (r == 0))
check (c ∷ cs) (node r m n l s) =
    if not (r == 0)
    then some true
    else if is_outside c m n
    then some false
    else down n (at s (c - m)) (check cs)

-- The prefixes that `apply` hands to its function, with the bytes on the way to the node in front.
unfoldable mutual
  pub apply_helper : Bytes → Trie → List Bytes
  apply_helper buff (node r m n l s) = (if r == 0 then [] else buff ∷ []) ++ apply_table buff m s

  pub apply_table : Bytes → ℕ → Slots → List Bytes
  apply_table buff c end = []
  apply_table buff c (gap s) = apply_table buff (c + 1) s
  apply_table buff c (sub t s) = apply_helper (buff ++ c ∷ []) t ++ apply_table buff (c + 1) s

unfoldable pub apply : Trie → List Bytes
apply t = apply_helper [] t
