-- ===== src/Examples/Queues.antt =====
-- A queue with items in all its parts, and pipes that are read in turn.
use serverlink.Prelude.{
  ℕ, ◌+◌, ◌≡◌, ◌⊎◌, inl, refl, false, Option, none, some, [], ◌∷◌, arith, ◌==◌, if◌then◌else◌,
}
use serverlink.Msg.{Msg}
use serverlink.Fq.{Fq, recvpipe}
use serverlink.Fq.Bounds.{Fair, recvpipe-Fair, pipe_terminated-IsValid}
use serverlink.Fq.Bounds
use serverlink.Ypipe.Fifo.{ready, read_lem}
use serverlink.Ypipe.{Ypipe, check_read_lem, empty, unwrite, check_read, prefetch, IsValid}
use serverlink.Ypipe

-- Two messages are flushed, one is read already, and a third is half written.
abbrev busy : Ypipe ℕ
busy = record { items = 10 ∷ 11 ∷ 12 ∷ []; front = 1; w = 2; f = 2; r = some 2; c = some 2 }

busy-IsValid : IsValid busy
busy-IsValid = ground arith

read_lem_example :
    ((ready busy ≡ []) × ((Ypipe.read busy).0 ≡ none) × (ready (Ypipe.read busy).1 ≡ []))
    ⊎ ((x : ℕ) × ((Ypipe.read busy).0 ≡ some x) × (ready busy ≡ x ∷ ready (Ypipe.read busy).1))
read_lem_example = read_lem busy busy-IsValid

-- What is flushed is read in order, and then nothing.
read_busy : ((Ypipe.read busy).0 ≡ some 11) × ((Ypipe.read (Ypipe.read busy).1).0 ≡ none)
unfolding Ypipe.read check_read prefetch
read_busy = (refl, refl)

-- Three pipes, the first two of which are active; the first has nothing to read.
abbrev turns : Fq
turns = record { pipes = 5 ∷ 6 ∷ 7 ∷ []; active = 2; current = 0; more = false }

turns-IsValid : Bounds.IsValid turns
turns-IsValid = record { active = omega arith; current = inl (omega arith) }

abbrev only_six : ℕ → ℕ → Option Msg × ℕ
only_six p s =
    (if p == 6 then some (record { delimiter = false; flags = 0; body = [] }) else none, s + 1)

recvpipe-Fair_example : Fair only_six (recvpipe only_six turns 0)
recvpipe-Fair_example = recvpipe-Fair only_six turns 0 turns-IsValid
