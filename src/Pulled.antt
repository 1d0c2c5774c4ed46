-- ===== src/Pulled.antt =====
-- kernel/pulled_reads.rs: which pulled files a session may read, and where each read is. A key, a
-- path and a file's identity are numbers that name them, an instant a number of nanoseconds.
pub mod Cap
pub mod OneKey
pub mod Exclusive
mod Tests
use citadel_agent.Prelude.{
  ℕ, zero, suc, ◌+◌, ◌-◌, ◌*◌, ◌%◌, ◌^◌, min, Bool, true, false, not, ◌&&◌, ◌||◌, Option, none,
  some, List, [], ◌∷◌, ltb, leb, ◌==◌, if◌then◌else◌, length,
}
use citadel_agent.Assoc.{get, set, drop}
use citadel_agent.Staged.{max_browser_transfer_total_bytes}

abbrev pub max_read_chunk_bytes : ℕ
max_read_chunk_bytes = 1024 * 1024

-- In nanoseconds, as the next.
abbrev pub read_in_flight_timeout : ℕ
read_in_flight_timeout = 30 * 1000000000

abbrev pub picked_file_ttl : ℕ
picked_file_ttl = 30 * 60 * 1000000000

abbrev pub max_picked_files : ℕ
max_picked_files = 64

pub record PulledRead : Type 0 where
  pub saved : ℕ
  pub identity : ℕ
  pub recorded_at : ℕ
  pub generation : ℕ
  pub next_offset : Option ℕ
  pub in_flight_since : Option ℕ

pub record ReadTicket : Type 0 where
  pub saved : ℕ
  pub identity : ℕ
  pub generation : ℕ

abbrev pub Entries : Type 0
Entries = List (ℕ × PulledRead)

pub record PulledReads : Type 0 where
  pub entries : Entries
  pub next_generation : ℕ

pub data ReadError : Type 0 where
  bad_length not_pulled expired in_progress file_too_large past_end : ReadError
  out_of_order : Option ℕ → ReadError

-- `entries.retain`, by the age of each.
abbrev pub sweep : ℕ → Entries → Entries
sweep now [] = []
sweep now ((k, r) ∷ es) =
    let kept = sweep now es in
    if ltb (now - r.recorded_at) picked_file_ttl then (k, r) ∷ kept else kept

-- `min_by_key` over the entries: the first of the oldest.
abbrev pub older : ℕ × ℕ → Option (ℕ × ℕ) → ℕ × ℕ
older (k, at) none = (k, at)
older (k, at) (some (j, bt)) = if leb at bt then (k, at) else (j, bt)

abbrev pub oldest : Entries → Option (ℕ × ℕ)
oldest [] = none
oldest ((k, r) ∷ es) = some (older (k, r.recorded_at) (oldest es))

abbrev pub drop_key : Option (ℕ × ℕ) → Entries → Entries
drop_key none es = es
drop_key (some (k, at)) es = drop ◌==◌ k es

-- The loop of `record`; as many rounds as there are entries are enough.
abbrev pub evict : ℕ → Entries → Entries
evict zero es = es
evict (suc rounds) es =
    let fewer = evict rounds (drop_key (oldest es) es) in
    if ltb max_picked_files (length es) then fewer else es

unfoldable pub record_pull : PulledReads → ℕ → ℕ → ℕ → ℕ → PulledReads
record_pull s key saved identity now =
    let generation = (s.next_generation + 1) % 2 ^ 64 in
    let read : PulledRead = record {
      saved = saved;
      identity = identity;
      recorded_at = now;
      generation = generation;
      next_offset = none;
      in_flight_since = none;
    } in
    let entries = set ◌==◌ key read (sweep now s.entries) in
    record { entries = evict (length entries) entries; next_generation = generation }

pub data Outcome : Type 0 where
  ok : ReadTicket → Outcome
  err : ReadError → Outcome

abbrev pub is_next : ℕ → Option ℕ → Bool
is_next offset none = false
is_next offset (some next) = offset == next

-- A read holds the record, and is not taken as abandoned.
abbrev pub is_held : ℕ → Option ℕ → Bool
is_held now none = false
is_held now (some since) = ltb (now - since) read_in_flight_timeout

abbrev pub begin_found : PulledReads → ℕ → ℕ → ℕ → Option PulledRead → PulledReads × Outcome
begin_found s key offset now none = (s, err not_pulled)
begin_found s key offset now (some r) =
    if leb picked_file_ttl (now - r.recorded_at)
    then (s, err expired)
    else if not (offset == 0) && not (is_next offset r.next_offset)
    then (s, err (out_of_order r.next_offset))
    else if is_held now r.in_flight_since
    then (s, err in_progress)
    else (
      record s { entries = set ◌==◌ key (record r { in_flight_since = some now }) s.entries },
      ok (record { saved = r.saved; identity = r.identity; generation = r.generation }),
    )

unfoldable pub begin_read : PulledReads → ℕ → ℕ → ℕ → ℕ → PulledReads × Outcome
begin_read s key offset max_len now =
    if (max_len == 0) || ltb max_read_chunk_bytes max_len
    then (s, err bad_length)
    else begin_found s key offset now (get ◌==◌ key s.entries)

-- `checked_add` of a `u64`.
abbrev pub checked_add : ℕ → ℕ → Option ℕ
checked_add a b = if ltb (a + b) (2 ^ 64) then some (a + b) else none

abbrev pub next_after : Option ℕ → Option (ℕ × ℕ) → Option ℕ
next_after next none = next
next_after next (some (offset, len)) = checked_add offset len

abbrev pub settle_found : PulledReads → ℕ → ℕ → Option (ℕ × ℕ) → Option PulledRead → PulledReads
settle_found s key generation landed none = s
settle_found s key generation landed (some r) =
    if not (r.generation == generation) then s else record s {
      entries =
          set ◌==◌ key
            (record r { in_flight_since = none; next_offset = next_after r.next_offset landed })
            s.entries;
    }

unfoldable pub settle_read : PulledReads → ℕ → ℕ → Option (ℕ × ℕ) → PulledReads
settle_read s key generation landed = settle_found s key generation landed (get ◌==◌ key s.entries)

pub data Chunk : Type 0 where
  bytes : ℕ → Chunk
  refused : ReadError → Chunk

-- The length of a chunk, on a machine whose `usize` has 64 bits.
unfoldable pub plan_read : ℕ → ℕ → ℕ → Chunk
plan_read total offset max_len =
    if ltb max_browser_transfer_total_bytes total
    then refused file_too_large
    else if ltb total offset || ((offset == total) && ltb 0 total)
    then refused past_end
    else bytes (min (total - offset) max_len)

pub data Op : Type 0 where
  pulls : ℕ → ℕ → ℕ → ℕ → Op
  begins : ℕ → ℕ → ℕ → ℕ → Op
  settles : ℕ → ℕ → Option (ℕ × ℕ) → Op

unfoldable pub after : PulledReads → Op → PulledReads
after s (pulls key saved identity now) = record_pull s key saved identity now
after s (begins key offset max_len now) = (begin_read s key offset max_len now).0
after s (settles key generation landed) = settle_read s key generation landed

unfoldable pub run : PulledReads → List Op → PulledReads
run s [] = s
run s (o ∷ os) = run (after s o) os
