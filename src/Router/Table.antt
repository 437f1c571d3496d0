-- ===== src/Router/Table.antt =====
-- `routing_socket_base_t` of src/core/socket_base.cpp: the outbound pipes by the peers' routing ids.
use serverlink.Prelude.{
  ℕ, ◌==◌, Bool, true, false, if◌then◌else◌, Option, none, some, List, [], ◌∷◌, Bytes, bytes_eq,
  find, insert, erase,
}

pub record OutPipe : Type 0 where
  pub pipe : ℕ
  pub active : Bool

abbrev pub OutPipes : Type 0
OutPipes = List (Bytes × OutPipe)

-- An id that is taken already is a failed assertion.
unfoldable pub add_out_pipe : Bytes → ℕ → OutPipes → Option OutPipes
add_out_pipe id p m = elim (find id m) [
  | none ↦ some (insert id (record { pipe = p; active = true }) m)
  | some o ↦ none
]

unfoldable pub has_out_pipe : Bytes → OutPipes → Bool
has_out_pipe id m = elim (find id m) [ none ↦ false | some o ↦ true ]

unfoldable pub lookup_out_pipe : Bytes → OutPipes → Option OutPipe
lookup_out_pipe id m = find id m

unfoldable pub erase_out_pipe : ℕ → OutPipes → OutPipes
erase_out_pipe p [] = []
erase_out_pipe p ((id, o) ∷ m) = if o.pipe == p then m else (id, o) ∷ erase_out_pipe p m

-- The entry of an id, which goes, or no pipe.
unfoldable pub try_erase_out_pipe : Bytes → OutPipes → Option OutPipe × OutPipes
try_erase_out_pipe id m = (find id m, erase id m)

unfoldable pub any_of_out_pipes : (ℕ → Bool) → OutPipes → Bool
any_of_out_pipes func [] = false
any_of_out_pipes func ((id, o) ∷ m) = if func o.pipe then true else any_of_out_pipes func m

-- A pipe that is active, or not there, is a failed assertion.
unfoldable pub xwrite_activated : ℕ → OutPipes → Option OutPipes
xwrite_activated p [] = none
xwrite_activated p ((id, o) ∷ m) =
    let rest = xwrite_activated p m in
    if o.pipe == p
    then (if o.active then none else some ((id, record o { active = true }) ∷ m))
    else elim rest [ none ↦ none | some m' ↦ some ((id, o) ∷ m') ]
