-- ===== src/Dist/Bounds.antt =====
-- The bounds that a distributor keeps (src/pipe/dist.cpp).
use serverlink.Prelude.{
  ℕ, zero, suc, ◌+◌, ◌-◌, ◌≤◌, ◌<◌, ◌≡◌, ◌⊎◌, arith, ltb, true, false, if◌then◌else◌, List, [], ◌∷◌,
  ◌++◌, length, length-append,
}
use serverlink.Dist.Slots.{count, count-swap, index-swap}
use serverlink.Fq.{index, swap}
use serverlink.Fq.Bounds.{length-swap, length-erase_at}
use serverlink.Dist.{
  Dist, attach, match, unmatch, reverse_loop, reverse_match, pipe_terminated, activated, drop_pipe,
}

-- The matching pipes are active, the active ones eligible; outside a message, the eligible ones active.
pub record IsValid (d : Dist) : Type 0 where
  pub matching : d.matching ≤ d.active
  pub active : d.active ≤ d.eligible
  pub eligible : d.eligible ≤ length d.pipes
  pub more : (d.more ≡ true) ⊎ (d.active ≡ d.eligible)

pub attach-IsValid : (p : ℕ) (d : Dist) → IsValid d → IsValid (attach p d)
unfolding attach
attach-IsValid p d v = ground (
  arith,
  length-append d.pipes (p ∷ []),
  length-swap d.active (length (d.pipes ++ p ∷ []) - 1) (d.pipes ++ p ∷ []),
  length-swap d.eligible (length (d.pipes ++ p ∷ []) - 1) (d.pipes ++ p ∷ []),
)

pub match-IsValid : (p : ℕ) (d : Dist) → d.more ≡ false → IsValid d → IsValid (match p d)
unfolding match
match-IsValid p d h v = ground (arith, length-swap (index d.pipes p) d.matching d.pipes)

reverse_loop-IsValid :
    (n i : ℕ) (d : Dist) → d.matching + n ≤ d.active → IsValid d → IsValid (reverse_loop n i d)
reverse_loop-IsValid zero i d h v = v
reverse_loop-IsValid (suc n) i d h v =
    let d' : Dist = record d { pipes = swap i d.matching d.pipes; matching = d.matching + 1 } in
    ground (arith, length-swap i d.matching d.pipes, reverse_loop-IsValid n (i + 1) d')

pub reverse_match-IsValid : (d : Dist) → d.more ≡ false → IsValid d → IsValid (reverse_match d)
unfolding reverse_match unmatch
reverse_match-IsValid d h v =
    ground
      (arith, reverse_loop-IsValid (d.eligible - d.matching) d.matching (record d { matching = 0 }))

pub activated-IsValid : (p : ℕ) (d : Dist) → IsValid d → IsValid (activated p d)
unfolding activated
activated-IsValid p d v = ground (
  arith,
  length-swap (index d.pipes p) d.eligible d.pipes,
  length-swap d.eligible d.active (swap (index d.pipes p) d.eligible d.pipes),
  length-swap (d.eligible + 1 - 1) d.active (swap (index d.pipes p) d.eligible d.pipes),
  length-swap (d.eligible - 1) d.active d.pipes,
)

pub drop_pipe-IsValid : (p : ℕ) (d : Dist) → IsValid d → 0 < d.matching → IsValid (drop_pipe p d)
unfolding drop_pipe
drop_pipe-IsValid p d v h =
    let ps : List ℕ = swap (index d.pipes p) (d.matching - 1) d.pipes in
    let qs : List ℕ = swap (index ps p) (d.active - 1) ps in
    ground (
      arith,
      length-swap (index d.pipes p) (d.matching - 1) d.pipes,
      length-swap (index ps p) (d.active - 1) ps,
      length-swap (d.active - 1) (d.eligible - 1) qs,
    )

left : ℕ → ℕ → List ℕ → List ℕ
left p n xs = if ltb (index xs p) n then swap (index xs p) (n - 1) xs else xs

leave_lem :
    (p n : ℕ) (xs : List ℕ)
    → index xs p < length xs
    → n ≤ length xs
    → count xs p ≤ 1
    → (length (left p n xs) ≡ length xs)
      × (count (left p n xs) p ≡ count xs p)
      × (index (left p n xs) p ≡ (if ltb (index xs p) n then n - 1 else index xs p))
unfolding left
leave_lem p n xs h hn u = ground (
  arith,
  length-swap (index xs p) (n - 1) xs,
  count-swap (index xs p) (n - 1) p xs,
  index-swap xs p (n - 1),
)

-- When a pipe that stands in the array once goes, the bounds of the distributor stay in order.
pub pipe_terminated-IsValid :
    (p : ℕ) (d : Dist)
    → index d.pipes p < length d.pipes
    → count d.pipes p ≤ 1
    → IsValid d
    → IsValid (pipe_terminated p d)
unfolding pipe_terminated left
pipe_terminated-IsValid p d h u v =
    let xs : List ℕ = left p d.matching d.pipes in
    let ys : List ℕ = left p d.active xs in
    let zs : List ℕ = left p d.eligible ys in
    ground (
      arith,
      leave_lem p d.matching d.pipes h,
      leave_lem p d.active xs,
      leave_lem p d.eligible ys,
      length-erase_at (index zs p) zs,
    )
