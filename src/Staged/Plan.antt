-- ===== src/Staged/Plan.antt =====
-- When a chunk is appended (kernel/staged_uploads.rs, `plan_chunk`).
use citadel_agent.Prelude.{
  ℕ, ◌+◌, ◌-◌, ◌^◌, ◌≤◌, ◌<◌, min, ◌≡◌, ◌↔◌, refl, sym, Bool, true, false, not, ◌||◌, Option, some,
  ltb, ◌==◌, if◌then◌else◌, arith, ==→eq,
}
use citadel_agent.Staged.{
  max_staged_upload_bytes, max_stage_chunk_bytes, StagedUpload, Refusal, ChunkPlan, start, append,
  refuse, plan_existing, plan_chunk,
}

-- What the code refuses a chunk for, and no more: the chunk of an upload in progress is taken when
-- its size is in bounds and it continues that upload, within the size declared at its start.
abbrev pub Continues : StagedUpload → ℕ → ℕ → ℕ → Type 0
Continues u offset len total =
    ((0 < total) × (total ≤ max_staged_upload_bytes))
    × (((0 < len) × (len ≤ max_stage_chunk_bytes))
        × ((offset + len ≤ total)
            × ((u.total ≡ total) × ((u.writing ≡ false) × (offset ≡ u.received)))))

unrefused : (r : Refusal) → refuse r ≡ append → ⊥
unrefused r e = cc

-- A plan behind a guard is to append only past the guard.
guarded :
    (t : Bool) (r : Refusal) (p : ChunkPlan)
    → (if t then refuse r else p) ≡ append
    → (t ≡ false) × (p ≡ append)
guarded true r p h = absurd (unrefused r h)
guarded false r p h = (refl, h)

unnegated : (b : Bool) → not b ≡ false → b ≡ true
unnegated true h = refl
unnegated false h = sym h

pub either_false : (a b : Bool) → (a || b) ≡ false → (a ≡ false) × (b ≡ false)
either_false true b h = absurd (cc)
either_false false b h = (refl, h)

existing-Continues :
    (u : StagedUpload) (offset total : ℕ)
    → plan_existing (some u) offset total ≡ append
    → (u.total ≡ total) × ((u.writing ≡ false) × (offset ≡ u.received))
existing-Continues u offset total h =
    let (a, h₁) = guarded (not (u.total == total)) _ _ h in
    let (b, h₂) = guarded u.writing _ _ h₁ in
    let (c, h₃) = guarded (not (offset == u.received)) _ _ h₂ in
    (==→eq u.total total (unnegated _ a), (b, ==→eq offset u.received (unnegated _ c)))

pub plan_chunk-Continues :
    (u : StagedUpload) (offset len total : ℕ)
    → plan_chunk (some u) offset len total ≡ append
    → Continues u offset len total
unfolding plan_chunk
plan_chunk-Continues u offset len total h =
    let (a, h₁) = guarded (total == 0) _ _ h in
    let (b, h₂) = guarded (ltb max_staged_upload_bytes total) _ _ h₁ in
    let (c, h₃) = guarded ((len == 0) || ltb max_stage_chunk_bytes len) _ _ h₂ in
    let (d, h₄) = guarded (ltb total (min (offset + len) (2 ^ 64 - 1))) _ _ h₃ in
    let (e, f) = either_false (len == 0) (ltb max_stage_chunk_bytes len) c in
    let size : total ≤ max_staged_upload_bytes = ground arith in
    (
      (ground arith, size),
      ((ground arith, ground arith), (ground (arith, size), existing-Continues u offset total h₄)),
    )

-- A chunk that begins an upload lies within its declared size.
pub plan_chunk-start :
    (found : Option StagedUpload) (offset len total : ℕ)
    → plan_chunk found offset len total ≡ start
    → offset + len ≤ total
unfolding plan_chunk
plan_chunk-start found offset len total h =
    let (a, h₁) = kept_start (total == 0) _ _ h in
    let (b, h₂) = kept_start (ltb max_staged_upload_bytes total) _ _ h₁ in
    let (c, h₃) = kept_start ((len == 0) || ltb max_stage_chunk_bytes len) _ _ h₂ in
    let (d, _) = kept_start (ltb total (min (offset + len) (2 ^ 64 - 1))) _ _ h₃ in
    let size : total ≤ max_staged_upload_bytes = ground arith in ground (arith, size)
  where
    no_start : (r : Refusal) → refuse r ≡ start → ⊥
    no_start r e = cc

    kept_start :
        (t : Bool) (r : Refusal) (p : ChunkPlan)
        → (if t then refuse r else p) ≡ start
        → (t ≡ false) × (p ≡ start)
    kept_start true r p h = absurd (no_start r h)
    kept_start false r p h = (refl, h)

appended_lem :
    (u : StagedUpload) (offset len total : ℕ)
    → Continues u offset len total
    → plan_chunk (some u) offset len total ≡ append
unfolding plan_chunk
appended_lem u offset len total ((a, b), ((c, d), (e, (f, (g, h))))) =
    let some_size : (total == 0) ≡ false = ground arith in
    let small : ltb max_staged_upload_bytes total ≡ false = ground arith in
    let some_bytes : (len == 0) ≡ false = ground arith in
    let few : ltb max_stage_chunk_bytes len ≡ false = ground arith in
    let inside : ltb total (min (offset + len) (2 ^ 64 - 1)) ≡ false = ground arith in
    let same_size : (u.total == total) ≡ true = ground arith in
    let next : (offset == u.received) ≡ true = ground arith in
    rw (some_size, small, some_bytes, few, inside, same_size, g, next) refl

-- A chunk of an upload in progress is appended exactly if its size is in bounds, it lies within the
-- size declared at the start, no other chunk is being written, and it begins where the bytes
-- received end.
pub plan_chunk_iff :
    (u : StagedUpload) (offset len total : ℕ)
    → (plan_chunk (some u) offset len total ≡ append) ↔ Continues u offset len total
plan_chunk_iff u offset len total =
    (plan_chunk-Continues u offset len total, appended_lem u offset len total)
