-- ===== src/Staged.antt =====
-- Browser files staged chunk by chunk: kernel/staged_uploads.rs, and the calls that
-- requests/file/staged_upload.rs makes between its awaits. A path is a number that names it, an
-- instant a number of nanoseconds.
pub mod Accounts
pub mod Plan
pub mod Life
pub mod Whole
pub mod Chunks
mod Tests
use citadel_agent.Prelude.{
  ℕ, zero, suc, ◌+◌, ◌-◌, ◌*◌, ◌%◌, ◌^◌, min, Bool, true, false, not, ◌&&◌, ◌||◌, Option, none,
  some, List, [], ◌∷◌, ◌++◌, ltb, leb, ◌==◌, if◌then◌else◌, length,
}
use citadel_agent.Assoc.{get, set, drop}

abbrev pub max_staged_upload_bytes : ℕ
max_staged_upload_bytes = 2 * 1024 * 1024 * 1024

abbrev pub max_stage_chunk_bytes : ℕ
max_stage_chunk_bytes = 1024 * 1024

abbrev pub max_browser_transfer_total_bytes : ℕ
max_browser_transfer_total_bytes = max_staged_upload_bytes

-- In nanoseconds.
abbrev pub temp_file_ttl : ℕ
temp_file_ttl = 600 * 1000000000

-- `AtomicU64::fetch_add` and `fetch_sub`, which wrap.
abbrev pub fetch_add : ℕ → ℕ → ℕ
fetch_add counter n = (counter + n) % 2 ^ 64

abbrev pub fetch_sub : ℕ → ℕ → ℕ
fetch_sub counter n = (counter + (2 ^ 64 - n % 2 ^ 64)) % 2 ^ 64

-- `remaining` is what the upload's reservation still holds.
pub record StagedUpload : Type 0 where
  pub dir : ℕ
  pub total : ℕ
  pub received : ℕ
  pub writing : Bool
  pub started : ℕ
  pub remaining : ℕ

pub data Refusal : Type 0 where
  empty_file file_too_large chunk_size past_end no_session no_upload other_size still_writing :
      Refusal
  out_of_order : ℕ → ℕ → Refusal

pub data ChunkPlan : Type 0 where
  start append : ChunkPlan
  refuse : Refusal → ChunkPlan

abbrev pub plan_existing : Option StagedUpload → ℕ → ℕ → ChunkPlan
plan_existing none offset total = if offset == 0 then start else refuse no_upload
plan_existing (some u) offset total =
    if not (u.total == total)
    then refuse other_size
    else if u.writing
    then refuse still_writing
    else if not (offset == u.received)
    then refuse (out_of_order offset u.received)
    else append

unfoldable pub plan_chunk : Option StagedUpload → ℕ → ℕ → ℕ → ChunkPlan
plan_chunk existing offset len total =
    if total == 0
    then refuse empty_file
    else if ltb max_staged_upload_bytes total
    then refuse file_too_large
    else if (len == 0) || ltb max_stage_chunk_bytes len
    then refuse chunk_size
    else if ltb total (min (offset + len) (2 ^ 64 - 1))
    then refuse past_end
    else plan_existing existing offset total

-- `Reservation::landed`: what is left of a reservation, and the counter.
abbrev pub landed : ℕ → ℕ → ℕ → ℕ × ℕ
landed remaining bytes in_flight =
    let n = min bytes remaining in (remaining - n, fetch_sub in_flight n)

abbrev pub Uploads : Type 0
Uploads = List (ℕ × StagedUpload)

-- What `start` has put on disk and reserved, before it takes the lock to insert the upload.
pub record Created : Type 0 where
  pub upload_id : ℕ
  pub dir : ℕ
  pub total : ℕ
  pub received : ℕ
  pub remaining : ℕ

-- One session's uploads, and whether the service holds the session; the counter, which is the
-- whole service's; the uploads of the session that are created and not yet in the table; and what
-- is reserved elsewhere: by other sessions, by files that come in one piece, and by uploads that
-- were taken for sending.
pub record Staging : Type 0 where
  pub connected : Bool
  pub uploads : Uploads
  pub in_flight : ℕ
  pub created : List Created
  pub elsewhere : ℕ

abbrev pub is_stale : ℕ → StagedUpload → Bool
is_stale now u = leb temp_file_ttl (now - u.started)

-- `prune`: the uploads that stay, the counter, and the directories to remove.
abbrev pub prune_table : ℕ → Uploads → ℕ → Uploads × (ℕ × List ℕ)
prune_table now [] in_flight = ([], (in_flight, []))
prune_table now ((id, u) ∷ us) in_flight =
    let stays = prune_table now us in_flight in
    let goes = prune_table now us (fetch_sub in_flight u.remaining) in
    if is_stale now u
    then (goes.0, (goes.1.0, u.dir ∷ goes.1.1))
    else ((id, u) ∷ stays.0, (stays.1.0, stays.1.1))

unfoldable pub prune : ℕ → Staging → Staging × List ℕ
prune now s =
    let r = prune_table now s.uploads s.in_flight in
    (record s { uploads = r.0; in_flight = r.1.0 }, r.1.1)

abbrev pub with_plan : Staging → ℕ → Option StagedUpload → ChunkPlan → Staging × ChunkPlan
with_plan s id (some u) append =
    (record s { uploads = set ◌==◌ id (record u { writing = true }) s.uploads }, append)
with_plan s id found plan = (s, plan)

-- The first lock of `stage`.
unfoldable pub begin_chunk : Staging → ℕ → ℕ → ℕ → ℕ → ℕ → Staging × ChunkPlan
unfolding prune plan_chunk
begin_chunk s now id offset len total =
    let (pruned, dirs) = prune now s in
    let found = get ◌==◌ id pruned.uploads in
    if s.connected
    then with_plan pruned id found (plan_chunk found offset len total)
    else (s, refuse no_session)

-- The blocking part of `start`: the whole file is reserved, then refused or put on disk. `on_disk`
-- is what the root holds, `made` whether the directory and the file were created.
unfoldable pub create_upload : Staging → ℕ → ℕ → ℕ → ℕ → ℕ → Bool → Staging × Bool
create_upload s id dir total len on_disk made =
    let before = s.in_flight in
    let reserved = fetch_add before total in
    let (left, counter) = landed total len reserved in
    let fresh : Created = record {
      upload_id = id;
      dir = dir;
      total = total;
      received = len;
      remaining = left;
    } in
    if ltb max_browser_transfer_total_bytes
        (min (min (on_disk + before) (2 ^ 64 - 1) + total) (2 ^ 64 - 1))
      || not made
    then (record s { in_flight = fetch_sub reserved total }, false)
    else (record s { in_flight = counter; created = fresh ∷ s.created }, true)

abbrev pub insert_upload : Staging → ℕ → StagedUpload → Option StagedUpload → Staging × Bool
insert_upload s id u none = (record s { uploads = set ◌==◌ id u s.uploads }, true)
insert_upload s id u (some old) =
    (record s { in_flight = fetch_sub s.in_flight u.remaining }, false)

-- What stands at an index, and the rest.
abbrev pub pick {ℓ} : {A : Type ℓ} → ℕ → List A → Option (A × List A)
pick k [] = none
pick zero (x ∷ xs) = some (x, xs)
pick (suc k) (x ∷ xs) = elim (pick k xs) [ none ↦ none | some (y, ys) ↦ some (y, x ∷ ys) ]

abbrev pub staged : Created → ℕ → StagedUpload
staged c now = record {
  dir = c.dir;
  total = c.total;
  received = c.received;
  writing = false;
  started = now;
  remaining = c.remaining;
}

abbrev pub finish_picked : Staging → ℕ → Option (Created × List Created) → Staging × Bool
finish_picked s now none = (s, false)
finish_picked s now (some (c, others)) =
    let found = get ◌==◌ c.upload_id s.uploads in
    if s.connected
    then insert_upload (record s { created = others }) c.upload_id (staged c now) found
    else (record s { created = others; in_flight = fetch_sub s.in_flight c.remaining }, false)

-- The end of `start`: one of the uploads that were created is put into the table, or dropped.
unfoldable pub finish_start : Staging → ℕ → ℕ → Staging × Bool
finish_start s k now = finish_picked s now (pick k s.created)

abbrev pub append_to : Staging → ℕ → ℕ → Bool → Option StagedUpload → Staging × Option ℕ
append_to s id len ok none = (s, none)
append_to s id len false (some u) = (
  record s { uploads = drop ◌==◌ id s.uploads; in_flight = fetch_sub s.in_flight u.remaining },
  none,
)
append_to s id len true (some u) =
    let (left, counter) = landed u.remaining len s.in_flight in
    let after : StagedUpload = record u {
      writing = false;
      received = u.received + len;
      remaining = left;
    } in
    (record s { uploads = set ◌==◌ id after s.uploads; in_flight = counter }, some after.received)

-- The second lock of `stage`, once the chunk is written or not.
unfoldable pub end_chunk : Staging → ℕ → ℕ → Bool → Staging × Option ℕ
end_chunk s id len ok = append_to s id len ok (get ◌==◌ id s.uploads)

-- The upload leaves the table with its reservation, which its taker drops later.
abbrev pub take_found : Staging → ℕ → Option StagedUpload → Staging × Option StagedUpload
take_found s id none = (s, none)
take_found s id (some u) = if u.writing || ltb u.received u.total then (s, none) else (
  record s { uploads = drop ◌==◌ id s.uploads; elsewhere = s.elsewhere + u.remaining },
  some u,
)

unfoldable pub take_complete : Staging → ℕ → Staging × Option StagedUpload
take_complete s id = take_found s id (get ◌==◌ id s.uploads)

-- A reservation made and, in part or whole, given back by something else that shares the counter.
unfoldable pub reserve_elsewhere : Staging → ℕ → Staging
reserve_elsewhere s n = record s {
  in_flight = fetch_add s.in_flight n;
  elsewhere = s.elsewhere + n;
}

unfoldable pub release_elsewhere : Staging → ℕ → Staging
release_elsewhere s n =
    let (left, counter) = landed s.elsewhere n s.in_flight in
    record s { in_flight = counter; elsewhere = left }

abbrev pub drop_all : Uploads → ℕ → ℕ
drop_all [] in_flight = in_flight
drop_all ((id, u) ∷ us) in_flight = drop_all us (fetch_sub in_flight u.remaining)

-- The session ends: its table is dropped with the reservations in it.
unfoldable pub disconnect : Staging → Staging
disconnect s = record s {
  connected = false;
  uploads = [];
  in_flight = drop_all s.uploads s.in_flight;
}

-- A new session of the account, in place of the one that there may be.
unfoldable pub connect : Staging → Staging
unfolding disconnect
connect s = record (disconnect s) { connected = true }

-- What tasks do to the state, in any order.
pub data Step : Type 0 where
  begins : ℕ → ℕ → ℕ → ℕ → ℕ → Step
  creates : ℕ → ℕ → ℕ → ℕ → ℕ → Bool → Step
  starts : ℕ → ℕ → Step
  ends : ℕ → ℕ → Bool → Step
  takes : ℕ → Step
  reserves releases : ℕ → Step
  disconnects connects : Step

unfoldable pub after : Staging → Step → Staging
after s (begins now id offset len total) = (begin_chunk s now id offset len total).0
after s (creates id dir total len on_disk made) = (create_upload s id dir total len on_disk made).0
after s (starts k now) = (finish_start s k now).0
after s (ends id len ok) = (end_chunk s id len ok).0
after s (takes id) = (take_complete s id).0
after s (reserves n) = reserve_elsewhere s n
after s (releases n) = release_elsewhere s n
after s disconnects = disconnect s
after s connects = connect s

unfoldable pub run : Staging → List Step → Staging
run s [] = s
run s (c ∷ cs) = run (after s c) cs
