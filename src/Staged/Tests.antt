-- ===== src/Staged/Tests.antt =====
-- A file of five bytes staged in two chunks, and the theorems at it.
use citadel_agent.Prelude.{◌≡◌, refl, true, false, some, List, [], ◌∷◌}
use citadel_agent.Staged.{
  temp_file_ttl, refuse, out_of_order, plan_chunk, Staging, prune, begin_chunk, create_upload,
  finish_start, end_chunk, take_complete, reserve_elsewhere, release_elsewhere, Step, begins,
  creates, starts, ends, takes, reserves, releases, after, run,
}
use citadel_agent.Staged.Accounts.{IsAccounted, run-IsAccounted}
use citadel_agent.Staged.Life.{Disk, Turn, sends, begun, written, turn, turns, new_session}

abbrev nothing : Staging
nothing = (new_session 0 0).staging

-- Two uploads are created before the first of them is put into the table.
abbrev steps : List Step
steps =
    begins 0 7 0 3 5
    ∷ creates 7 1 5 3 0 true
    ∷ reserves 100
    ∷ creates 8 2 9 9 3 true
    ∷ starts 1 0
    ∷ begins 1 7 3 2 5
    ∷ ends 7 2 true
    ∷ takes 7
    ∷ starts 0 2
    ∷ releases 100
    ∷ takes 8
    ∷ []

all_is_returned : run nothing steps ≡ nothing
unfolding run after begin_chunk prune plan_chunk create_upload finish_start end_chunk take_complete
    reserve_elsewhere release_elsewhere
all_is_returned = refl

run-IsAccounted_example : IsAccounted (run nothing steps)
run-IsAccounted_example = run-IsAccounted nothing steps refl

abbrev disk : Disk
disk = record { dir = 1; on_disk = 0; made = true }

-- A chunk out of order, then the right one.
abbrev turns_of_it : List Turn
turns_of_it =
    sends 0 0 (10 ∷ 11 ∷ 12 ∷ []) 5 disk
    ∷ begun 0 0
    ∷ sends 1 4 (14 ∷ []) 5 disk
    ∷ sends 2 3 (13 ∷ 14 ∷ []) 5 disk
    ∷ written true
    ∷ []

out_of_order_is_refused :
    (begin_chunk
      (turns (new_session 0 0) 7 (sends 0 0 (10 ∷ 11 ∷ 12 ∷ []) 5 disk ∷ begun 0 0 ∷ [])).staging
      1
      7
      4
      1
      5).1
    ≡ refuse (out_of_order 4 3)
unfolding turns turn begin_chunk prune plan_chunk create_upload finish_start
out_of_order_is_refused = refl

-- An upload is pruned while its second chunk is being written, and started again under its id: when
-- that write ends, the new upload counts the chunk as its own and is taken two bytes short.
abbrev restarted : List Turn
restarted =
    sends 0 0 (10 ∷ 11 ∷ []) 4 disk
    ∷ begun 0 0
    ∷ sends 1 2 (12 ∷ 13 ∷ []) 4 disk
    ∷ sends temp_file_ttl 0 (20 ∷ 21 ∷ []) 4 disk
    ∷ begun 0 temp_file_ttl
    ∷ written true
    ∷ []

counts_a_chunk_of_another :
    (take_complete (turns (new_session 0 0) 7 restarted).staging 7).1
    ≡ some (record {
      dir = 1;
      total = 4;
      received = 4;
      writing = false;
      started = temp_file_ttl;
      remaining = 0;
    })
unfolding turns turn begin_chunk prune plan_chunk create_upload finish_start end_chunk take_complete
counts_a_chunk_of_another = refl
