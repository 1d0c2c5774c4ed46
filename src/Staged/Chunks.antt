-- ===== src/Staged/Chunks.antt =====
-- One staged upload, from its first chunk to its sending (kernel/staged_uploads.rs and
-- requests/file/staged_upload.rs).
use citadel_agent.Prelude.{ℕ, Option, none, some, List}
use citadel_agent.Staged.{Created}
use citadel_agent.Staged.Life.{Life}
use citadel_agent.Staged.Whole.{IsFresh, AreFresh}

abbrev ArePicked : ℕ → Option (Created × List Created) → Option (List ℕ × List (List ℕ)) → Type 0
ArePicked id none none = Unit
ArePicked id none (some q) = ⊥
ArePicked id (some p) none = ⊥
ArePicked id (some (c, cs)) (some (b, bs)) = IsFresh id c b × AreFresh id cs bs
