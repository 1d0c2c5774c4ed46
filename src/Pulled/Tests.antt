-- ===== src/Pulled/Tests.antt =====
-- A pulled file read twice, and the theorems at it.
use citadel_agent.Prelude.{◌+◌, ◌≡◌, refl, none, some, [], ◌∷◌, arith}
use citadel_agent.Pulled.{
  read_in_flight_timeout, PulledReads, ReadTicket, ok, err, out_of_order, record_pull, begin_read,
  settle_read, plan_read, bytes, pulls, begins, settles, after, run,
}
use citadel_agent.Pulled.Cap.{IsCapped, run-IsCapped}
use citadel_agent.Pulled.Exclusive.{IsRefused, begin_read-exclusive}

abbrev nothing : PulledReads
nothing = record { entries = []; next_generation = 0 }

unfoldable pulled : PulledReads
unfolding record_pull
pulled = record_pull nothing 5 70 80 100

abbrev ticket : ReadTicket
ticket = record { saved = 70; identity = 80; generation = 1 }

reads_in_order :
    (begin_read
      (run pulled (begins 5 0 1000 200 ∷ settles 5 1 (some (0, 1000)) ∷ []))
      5
      500
      1000
      300).1
    ≡ err (out_of_order (some 1000))
unfolding pulled record_pull run after begin_read settle_read
reads_in_order = refl

-- The read of time 200 is taken as abandoned when another begins; settling it late lets a third begin
-- while the second still runs.
late_settle_frees_the_record :
    (begin_read
      (run pulled (
        begins 5 0 1000 200
        ∷ begins 5 0 1000 (200 + read_in_flight_timeout)
        ∷ settles 5 1 none
        ∷ []))
      5
      0
      1000
      (201 + read_in_flight_timeout)).1
    ≡ ok ticket
unfolding pulled record_pull run after begin_read settle_read
late_settle_frees_the_record = refl

last_chunk_is_short : plan_read 1500 1000 1000 ≡ bytes 500
unfolding plan_read
last_chunk_is_short = refl

run-IsCapped_example : IsCapped (run nothing (pulls 5 70 80 100 ∷ []))
run-IsCapped_example = run-IsCapped nothing (pulls 5 70 80 100 ∷ []) (omega arith)

-- A stale ticket, another pull and another file's read in between.
begin_read-exclusive_example :
    IsRefused
      (begin_read
        (run
          (begin_read pulled 5 0 1000 200).0
          (settles 5 9 none ∷ pulls 6 71 81 250 ∷ begins 6 0 10 260 ∷ []))
        5
        0
        1000
        300).1
unfolding pulled record_pull begin_read
begin_read-exclusive_example =
    begin_read-exclusive pulled 5 0 1000 200 ticket
      (settles 5 9 none ∷ pulls 6 71 81 250 ∷ begins 6 0 10 260 ∷ []) 0 1000 300 (refl, tt) refl
      ((λ _. refl), (refl, ((λ _. omega arith), tt))) (omega arith)
