-- ===== src/Examples/Pipes.antt =====
-- A pair of pipes over empty queues, and a queue with a message in it.
use serverlink.Prelude.{◌≡◌, ◌≢◌, ◌⊎◌, inl, refl, true, false, Option, none, some, [], ◌∷◌, arith}
use serverlink.Prelude.Int.{pos}
use serverlink.Msg.{Msg, is_credential, is_delimiter}
use serverlink.Pipe.Endpoint.{
  activate_write, Pipe, create, set_nodelay, compute_lwm, active, check_write,
  process_activate_write,
}
use serverlink.Pipe.Transfer.{
  count_read, fetch, unwrite_all, rollback, read, write, received, flush,
}
use serverlink.Pipe.Term.{
  process_pipe_term, process_pipe_term_ack, terminate, drain, write_delimiter,
}
use serverlink.Pipe.Handshake.{IsOrderly, got_term}
use serverlink.Pipe.Ops.{apply, op_terminate, op_nodelay, apply-IsOrderly}
use serverlink.Pipe.Ends.{End}
use serverlink.Pipe.Pair.{Reach, start, left, right, call, take_term, take_ack, fresh}
use serverlink.Pipe.Closing.{freed_unused, process_pipe_term_ack_safe, handshake_progress, Takes}
use serverlink.Pipe.Credit.{
  write-Bounded, Bounded, Lags, read-Lags, caught_up-check_write, notified,
}
use serverlink.Ypipe.{Ypipe, check_read_lem, empty, unwrite, check_read, prefetch, IsValid}
use serverlink.Ypipe
use serverlink.Ypipe.Base.{ypipe}

abbrev hello : Msg
hello = record { delimiter = false; flags = 0; body = 104 ∷ 105 ∷ [] }

abbrev queue : Ypipe Msg
queue = record { items = []; front = 0; w = 0; f = 0; r = some 0; c = some 0 }

abbrev End0 : Type 0
End0 = End (Ypipe Msg)

abbrev new_end : End0
new_end = fresh ypipe queue queue (pos 2) (pos 2) false

abbrev or_end : Option (Pipe (Ypipe Msg)) → End0
or_end none = new_end
or_end (some p) = record { pipe = p; gone = false }

-- The left user terminates the pair, and the right end, which does not wait for a delimiter, takes
-- the request; then the left end takes the acknowledgement.
abbrev asker : End0
asker = or_end (apply ypipe (op_terminate true) new_end.pipe)

abbrev hasty : End0
hasty = or_end (apply ypipe op_nodelay new_end.pipe)

abbrev answerer : End0
answerer = or_end (process_pipe_term ypipe hasty.pipe)

asked : Reach ypipe new_end new_end asker answerer
unfolding create set_nodelay terminate write_delimiter rollback flush unwrite_all process_pipe_term
    apply Ypipe.write Ypipe.flush unwrite
asked =
    right (right (left start (call (op_terminate true) refl refl)) (call op_nodelay refl refl))
      (take_term (refl, refl, refl) refl)

process_pipe_term_ack_safe_example : process_pipe_term_ack ypipe asker.pipe ≢ none
unfolding create set_nodelay terminate write_delimiter rollback flush unwrite_all process_pipe_term
    apply Ypipe.write Ypipe.flush unwrite
process_pipe_term_ack_safe_example =
    process_pipe_term_ack_safe ypipe queue queue queue queue (pos 2) (pos 2) (pos 2) (pos 2) false
      false asked (refl, refl, inl refl)

abbrev dead : End0
dead = record { pipe = (or_end (process_pipe_term_ack ypipe asker.pipe)).pipe; gone = true }

freed_unused_example : (answerer.gone ≡ true) ⊎ (answerer.pipe.out_open ≡ false)
unfolding create set_nodelay terminate write_delimiter rollback flush unwrite_all process_pipe_term
    process_pipe_term_ack drain apply Ypipe.write Ypipe.flush unwrite
freed_unused_example =
    freed_unused ypipe queue queue queue queue (pos 2) (pos 2) (pos 2) (pos 2) false false
      (left {c' = dead} asked (take_ack (refl, refl, inl refl) refl)) refl

handshake_progress_example :
    ((asker.gone ≡ true) × (answerer.gone ≡ true))
    ⊎ (Takes ypipe asker answerer ⊎ Takes ypipe answerer asker)
unfolding create set_nodelay terminate write_delimiter rollback flush unwrite_all process_pipe_term
    apply Ypipe.write Ypipe.flush unwrite
handshake_progress_example =
    handshake_progress ypipe queue queue queue queue (pos 2) (pos 2) (pos 2) (pos 2) false false
      asked refl (λ e. ground arith) (λ e. ground arith)

abbrev new_pipe : Pipe (Ypipe Msg)
new_pipe = record (create queue queue (pos 2) (pos 2) false) { state = active }

abbrev closing : Pipe (Ypipe Msg)
closing = asker.pipe

asked-IsOrderly : IsOrderly closing
unfolding create terminate write_delimiter rollback flush unwrite_all apply Ypipe.write Ypipe.flush
    unwrite
asked-IsOrderly = record { terms = refl; acks = refl; open_until_ack = refl }

abbrev closed : Pipe (Ypipe Msg)
closed = (or_end (process_pipe_term_ack ypipe closing)).pipe

new-IsOrderly : IsOrderly new_end.pipe
unfolding create
new-IsOrderly = record { terms = refl; acks = refl; open_until_ack = refl }

apply-IsOrderly_example :
    IsOrderly asker.pipe × (got_term asker.pipe.state ≡ got_term new_end.pipe.state)
unfolding create terminate write_delimiter rollback flush unwrite_all apply Ypipe.write Ypipe.flush
    unwrite
apply-IsOrderly_example =
    apply-IsOrderly ypipe (op_terminate true) new_end.pipe asker.pipe new-IsOrderly refl

new-Bounded : Bounded 2 new_end.pipe
unfolding create
new-Bounded = record {
  mark = refl;
  within = omega arith;
  written_u64 = omega arith;
  read_u64 = omega arith;
}

write-Bounded_example : Bounded 2 (write ypipe hello new_end.pipe).1
write-Bounded_example =
    write-Bounded ypipe 2 hello new_end.pipe (omega arith) (omega arith) new-Bounded

-- A reader with a message in its queue.
abbrev reader : Pipe (Ypipe Msg)
reader = record (new_end.pipe) {
  in_pipe = record { items = hello ∷ []; front = 0; w = 1; f = 1; r = some 0; c = some 1 };
}

abbrev after_read : Pipe (Ypipe Msg)
after_read = elim (read ypipe reader) [ none ↦ reader | some (m, p) ↦ p ]

new-Lags : Lags 1 reader
unfolding create compute_lwm
new-Lags = record { mark = refl; multiple = refl; behind = omega arith; close = omega arith }

read-Lags_example : Lags 1 after_read
unfolding read create compute_lwm fetch Ypipe.read check_read prefetch received count_read
    is_credential is_delimiter
read-Lags_example =
    read-Lags ypipe 1 reader after_read (some hello) (omega arith) (omega arith) refl new-Lags

-- A writer whose pipe is full, and a reader that took everything and told so.
abbrev full : Pipe (Ypipe Msg)
full = record (new_end.pipe) { out_active = false; msgs_written = 2 }

abbrev caught_up : Pipe (Ypipe Msg)
caught_up = record (new_end.pipe) { msgs_read = 2; sent = activate_write 2 ∷ activate_write 1 ∷ [] }

caught_up-Lags : Lags 1 caught_up
unfolding create compute_lwm
caught_up-Lags = record { mark = refl; multiple = refl; behind = omega arith; close = omega arith }

caught_up-check_write_example :
    (check_write (process_activate_write (notified caught_up.sent) full)).0 ≡ true
unfolding create compute_lwm
caught_up-check_write_example =
    caught_up-check_write 2 1 full caught_up refl refl (omega arith) (omega arith) caught_up-Lags
      refl (omega arith) refl
