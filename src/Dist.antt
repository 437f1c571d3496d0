-- ===== src/Dist.antt =====
-- src/pipe/dist.cpp over src/core/array.hpp: a message goes to all matching pipes. Pipes are numbers,
-- in an array whose first items are the matching, the active and the eligible pipes; what writing to a
-- pipe and flushing it do are parameters, and so are the references to a message's content.
pub mod Slots
pub mod Bounds
pub mod Delivery
pub mod Matching
use serverlink.Prelude.{
  ℕ, zero, suc, ◌+◌, ◌-◌, ◌==◌, ltb, leb, not, ◌&&◌, Bool, true, false, if◌then◌else◌, Option, none,
  some, List, [], ◌∷◌, ◌++◌, length, get_or, get_elem?,
}
use serverlink.Msg.{Msg, is_more}
use serverlink.Fq.{index, swap, erase_at}

pub record Dist : Type 0 where
  pub pipes : List ℕ
  pub matching : ℕ
  pub active : ℕ
  pub eligible : ℕ
  pub more : Bool

unfoldable pub new_dist : Dist
new_dist = record { pipes = []; matching = 0; active = 0; eligible = 0; more = false }

-- Between the parts of a message, a pipe is not active yet.
unfoldable pub attach : ℕ → Dist → Dist
attach p d =
    let ps = d.pipes ++ p ∷ [] in
    if d.more
    then record d { pipes = swap d.eligible (length ps - 1) ps; eligible = d.eligible + 1 }
    else record d {
      pipes = swap d.active (length ps - 1) ps;
      active = d.active + 1;
      eligible = d.eligible + 1;
    }

-- An item's own index is read before it is compared with the item at that place.
unfoldable pub has_pipe : ℕ → Dist → Bool
has_pipe p d =
    if leb (length d.pipes) (index d.pipes p)
    then false
    else get_or d.pipes (index d.pipes p) 0 == p

unfoldable pub match : ℕ → Dist → Dist
match p d =
    if ltb (index d.pipes p) d.matching
    then d
    else if leb d.eligible (index d.pipes p)
    then d
    else record d { pipes = swap (index d.pipes p) d.matching d.pipes; matching = d.matching + 1 }

unfoldable pub unmatch : Dist → Dist
unmatch d = record d { matching = 0 }

-- The pipes from `i` on, `n` of them, go to the front.
abbrev pub reverse_loop : ℕ → ℕ → Dist → Dist
reverse_loop zero i d = d
reverse_loop (suc n) i d =
    reverse_loop n (i + 1)
      (record d { pipes = swap i d.matching d.pipes; matching = d.matching + 1 })

unfoldable pub reverse_match : Dist → Dist
reverse_match d = reverse_loop (d.eligible - d.matching) d.matching (unmatch d)

abbrev pub leave_matching : ℕ → Dist → Dist
leave_matching p d =
    if ltb (index d.pipes p) d.matching
    then record d {
      pipes = swap (index d.pipes p) (d.matching - 1) d.pipes;
      matching = d.matching - 1;
    }
    else d

abbrev pub leave_active : ℕ → Dist → Dist
leave_active p d =
    if ltb (index d.pipes p) d.active
    then record d { pipes = swap (index d.pipes p) (d.active - 1) d.pipes; active = d.active - 1 }
    else d

abbrev pub leave_eligible : ℕ → Dist → Dist
leave_eligible p d =
    if ltb (index d.pipes p) d.eligible
    then record d {
      pipes = swap (index d.pipes p) (d.eligible - 1) d.pipes;
      eligible = d.eligible - 1;
    }
    else d

unfoldable pub pipe_terminated : ℕ → Dist → Dist
pipe_terminated p d =
    let d' = leave_eligible p (leave_active p (leave_matching p d)) in
    record d' { pipes = erase_at (index d'.pipes p) d'.pipes }

abbrev pub make_eligible : ℕ → Dist → Dist
make_eligible p d =
    if ltb d.eligible (length d.pipes)
    then record d { pipes = swap (index d.pipes p) d.eligible d.pipes; eligible = d.eligible + 1 }
    else d

abbrev pub make_active : Dist → Dist
make_active d =
    if not d.more && ltb d.active (length d.pipes)
    then record d { pipes = swap (d.eligible - 1) d.active d.pipes; active = d.active + 1 }
    else d

unfoldable pub activated : ℕ → Dist → Dist
activated p d = make_active (make_eligible p d)

-- A pipe that cannot be written to is not eligible any more.
unfoldable pub drop_pipe : ℕ → Dist → Dist
drop_pipe p d =
    let ps = swap (index d.pipes p) (d.matching - 1) d.pipes in
    let qs = swap (index ps p) (d.active - 1) ps in
    record d {
      pipes = swap (d.active - 1) (d.eligible - 1) qs;
      matching = d.matching - 1;
      active = d.active - 1;
      eligible = d.eligible - 1;
    }

module _ {S : Type 0} (pipe_write : ℕ → Msg → S → Bool × S) (pipe_flush : ℕ → S → S) where
  abbrev pub flush_last : ℕ → Msg → S → S
  flush_last p m s = if is_more m then s else pipe_flush p s

  -- A round moves on or leaves one pipe less, so the number of matching pipes is fuel enough. The last
  -- component counts the pipes that failed.
  unfoldable pub write_loop : ℕ → ℕ → Msg → Dist → S → Dist × S × ℕ
  write_loop zero i m d s = (d, s, 0)
  write_loop (suc n) i m d s =
      let p = get_or d.pipes i 0 in
      elim (pipe_write p m s).0 [
        | true ↦ write_loop n (i + 1) m d (flush_last p m (pipe_write p m s).1)
        | false ↦
            (let rest = write_loop n i m (drop_pipe p d) (pipe_write p m s).1 in
              (rest.0, rest.1, rest.2 + 1))
      ]

  -- The references to the content of a message, `vsm` for one without: the sender's is given up.
  abbrev pub refs_after : Bool → ℕ → ℕ → ℕ → ℕ
  refs_after vsm refs matching failed =
      if matching == 0 then refs - 1 else if vsm then refs else refs + (matching - 1) - failed

  unfoldable pub distribute : Bool → Msg → Dist → S × ℕ → Dist × S × ℕ
  distribute vsm m d (s, refs) =
      let r = write_loop d.matching 0 m d s in (r.0, r.1, refs_after vsm refs d.matching r.2)

  abbrev pub sent_all : Msg → Dist → Dist
  sent_all m d = record d { active = if is_more m then d.active else d.eligible; more = is_more m }

  unfoldable pub send_to_matching : Bool → Msg → Dist → S × ℕ → Dist × S × ℕ
  send_to_matching vsm m d t = let r = distribute vsm m d t in (sent_all m r.0, r.1, r.2)

  unfoldable pub send_to_all : Bool → Msg → Dist → S × ℕ → Dist × S × ℕ
  send_to_all vsm m d t = send_to_matching vsm m (record d { matching = d.active }) t

abbrev pub check_loop : (ℕ → Bool) → ℕ → ℕ → Dist → Bool
check_loop pipe_check_hwm zero i d = true
check_loop pipe_check_hwm (suc n) i d =
    if not (pipe_check_hwm (get_or d.pipes i 0))
    then false
    else check_loop pipe_check_hwm n (i + 1) d

unfoldable pub check_hwm : (ℕ → Bool) → Dist → Bool
check_hwm pipe_check_hwm d = check_loop pipe_check_hwm d.matching 0 d

unfoldable pub get_pipe_count : Dist → ℕ
get_pipe_count d = length d.pipes

unfoldable pub get_pipe : ℕ → Dist → Option ℕ
get_pipe i d = get_elem? d.pipes i
