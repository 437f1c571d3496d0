-- ===== src/Examples/Objects.antt =====
-- An object with two children, timers, and a distributor with three pipes.
use serverlink.Prelude.{
  ℕ, ◌+◌, ◌≤◌, ◌^◌, ◌≡◌, ◌≢◌, ◌↔◌, refl, arith, ◌==◌, ==_iff, Bool, true, false, not, ◌&&◌,
  if◌then◌else◌, none, some, List, [], ◌∷◌,
}
use serverlink.Prelude.Int.{pos, negsuc}
use serverlink.Msg.{Msg}
use serverlink.Own.{
  Own, running, aborted, Event, on_own, on_term, on_term_ack, process_command, run, process_own,
  process_term, process_term_ack, unregister_term_ack, check_term_acks, is_done, process_seqnum,
  register_term_acks,
}
use serverlink.Own.Ownership.{
  is_wrong, process_command-aborted_iff, terms, owns, kept, sent, run_terms,
}
use serverlink.Own.Acks.{all_terms, acks, awaited, run_acks}
use serverlink.Own.Wraps.{is_destroyed, run-is_destroyed}
use serverlink.Timers.{Timers, execute}
use serverlink.Timers.Execute.{fired_by, execute_lem}
use serverlink.Timers.Idle.{execute-idle}
use serverlink.Dist.{Dist, send_to_matching}
use serverlink.Dist.Bounds.{IsValid}
use serverlink.Dist.Slots.{among, count}
use serverlink.Dist.Delivery.{Log, logged, logged_flush, send_to_matching_delivery}

-- It owns 4, and one command is still to come.
abbrev parent : Own
parent = record {
  name = 1;
  terminating = false;
  sent_seqnum = 1;
  processed_seqnum = 0;
  owner = some 9;
  owned = 4 ∷ [];
  term_acks = 0;
  linger = negsuc 0;
}

-- It comes to own 5, is told to terminate, and both children acknowledge that.
abbrev ending : List Event
ending = on_own 5 ∷ on_term (pos 0) ∷ on_term_ack ∷ on_term_ack ∷ []

process_command-aborted_iff_example :
    (process_command on_term_ack parent ≡ aborted) ↔ (is_wrong on_term_ack parent ≡ true)
process_command-aborted_iff_example = process_command-aborted_iff on_term_ack parent refl

is_running : run ending parent ≢ aborted
unfolding run process_command process_own process_term process_term_ack unregister_term_ack
    check_term_acks is_done process_seqnum register_term_acks
is_running = ground arith

run_terms_example :
    terms (sent (run ending parent)) 5 + kept (run ending parent) 5
    ≡ owns ending 5 + kept (running parent []) 5
run_terms_example = run_terms ending parent 5 refl (omega arith) is_running

run_acks_example :
    all_terms (sent (run ending parent)) + 0 ≡ acks ending + awaited (run ending parent)
run_acks_example = run_acks ending parent is_running

abbrev long_lived : Own
long_lived = record parent { sent_seqnum = 0; processed_seqnum = 2 ^ 32 }

run-is_destroyed_example : is_destroyed (run ending long_lived) ≡ false
run-is_destroyed_example =
    run-is_destroyed ending long_lived (omega arith) (omega arith) (omega arith)

-- The first timer is due, the second one cancelled, the third one later.
abbrev clock : Timers
clock = record {
  next_timer_id = 3;
  timers =
      record { when = 5; timer_id = 1; interval = 10; handler = 0 }
      ∷ record { when = 6; timer_id = 2; interval = 10; handler = 0 }
      ∷ record { when = 20; timer_id = 3; interval = 10; handler = 0 }
      ∷ [];
  cancelled_timers = 2 ∷ [];
}

execute_lem_example : fired_by (execute 5 7 clock) ≡ some (1 ∷ [])
execute_lem_example = execute_lem 5 7 clock refl refl refl (omega arith)

abbrev idle : Timers
idle = record {
  next_timer_id = 1;
  timers = record { when = 5; timer_id = 1; interval = 0; handler = 0 } ∷ [];
  cancelled_timers = [];
}

execute-idle_example : execute 1000 7 idle ≡ none
execute-idle_example = execute-idle 1000 7 idle (omega arith) refl refl

-- All of the three pipes are active, two are matching; 6 cannot be written to.
abbrev spread : Dist
spread = record { pipes = 5 ∷ 6 ∷ 7 ∷ []; matching = 2; active = 3; eligible = 3; more = false }

spread-IsValid : IsValid spread
spread-IsValid = ground arith

spread_unique : (p : ℕ) → count spread.pipes p ≤ 1
spread_unique p = ground (arith, ==_iff 5 p, ==_iff 6 p, ==_iff 7 p)

abbrev full_six : ℕ → Msg → ℕ → Bool × ℕ
full_six p m s = (not (p == 6), s + 1)

abbrev empty_log : Log ℕ
empty_log = record { attempts = []; failed = []; store = 0 }

abbrev last_part : Msg
last_part = record { delimiter = false; flags = 0; body = [] }

send_to_matching_delivery_example :
    let r =
      send_to_matching
        (logged full_six)
        (logged_flush (λ p s. s))
        false
        last_part
        spread
        (empty_log, 1) in
    (count r.1.attempts 6 ≡ count empty_log.attempts 6 + among spread.pipes 0 spread.matching 6)
    × (count r.1.failed 6 + among r.0.pipes 0 r.0.matching 6
        ≡ count empty_log.failed 6 + among spread.pipes 0 spread.matching 6)
    × IsValid r.0
    × (r.2 + 1 ≡ 1 + (if false && not (spread.matching == 0) then 1 else r.0.matching))
send_to_matching_delivery_example =
    send_to_matching_delivery full_six (λ p s. s) false last_part spread empty_log 1 6
      spread-IsValid spread_unique (omega arith)
