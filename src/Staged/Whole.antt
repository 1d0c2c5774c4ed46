-- ===== src/Staged/Whole.antt =====
-- What an upload that is received chunk by chunk keeps (kernel/staged_uploads.rs).
use citadel_agent.Prelude.{
  ℕ, ◌+◌, ◌-◌, ◌≤◌, min, ◌≡◌, refl, sym, subst, inl, inr, Bool, true, false, Bool-cases, ◌||◌,
  Option, none, some, is_some, List, [], ◌∷◌, ◌++◌, ltb, ◌==◌, if◌then◌else◌, arith, length,
  length-append, ==→eq, ==_refl,
}
use citadel_agent.Assoc.{
  get, IsDistinct, none≢some, set-IsDistinct, get-set_same, drop-IsDistinct, get-drop_same,
}
use citadel_agent.Staged.{
  fetch_sub, StagedUpload, Created, Uploads, Staging, is_stale, prune_table, append_to, take_found,
}
use citadel_agent.Staged.Life.{Life}

abbrev pub waiting : Option (List ℕ) → ℕ
waiting none = 0
waiting (some bytes) = length bytes

-- What is received is what the file holds, and the chunk being written fits behind it.
abbrev pub IsWhole : Option StagedUpload → List ℕ → Option (List ℕ) → Type 0
IsWhole none file pending = Unit
IsWhole (some u) file pending =
    (u.received ≡ length file)
    × ((u.writing ≡ is_some pending) × (u.received + waiting pending ≤ u.total))

-- What is on disk of a created upload is its first chunk, within its size.
abbrev pub IsFresh : ℕ → Created → List ℕ → Type 0
IsFresh id c bytes = (c.upload_id ≡ id) × ((c.received ≡ length bytes) × (length bytes ≤ c.total))

abbrev pub AreFresh : ℕ → List Created → List (List ℕ) → Type 0
AreFresh id [] [] = Unit
AreFresh id [] (b ∷ bs) = ⊥
AreFresh id (c ∷ cs) [] = ⊥
AreFresh id (c ∷ cs) (b ∷ bs) = IsFresh id c b × AreFresh id cs bs

abbrev pub IsSettled : ℕ → Uploads → List ℕ → Option (List ℕ) → Type 0
IsSettled id us file pending = IsDistinct ◌==◌ us × IsWhole (get ◌==◌ id us) file pending

abbrev pub IsSound : Life → ℕ → Type 0
IsSound l id =
    AreFresh id l.staging.created l.fresh × IsSettled id l.staging.uploads l.file l.pending

get-prune-none :
    (now id c : ℕ) (us : Uploads)
    → get ◌==◌ id us ≡ none
    → get ◌==◌ id (prune_table now us c).0 ≡ none
get-prune-none now id c [] h = refl
get-prune-none now id c ((j, u) ∷ us) h = elim (Bool-cases (id == j)) [
  | inl f ↦ absurd (none≢some u (sym (rw f at h)))
  | inr f ↦ elim (Bool-cases (is_stale now u)) [
    | inl e ↦ rw e (get-prune-none now id (fetch_sub c u.remaining) us (rw f at h))
    | inr e ↦ rw (e, f) (get-prune-none now id c us (rw f at h))
  ]
]

pub prune-IsDistinct :
    (now c : ℕ) (us : Uploads) → IsDistinct ◌==◌ us → IsDistinct ◌==◌ (prune_table now us c).0
prune-IsDistinct now c [] d = tt
prune-IsDistinct now c ((j, u) ∷ us) d = elim (Bool-cases (is_stale now u)) [
  | inl e ↦ rw e (prune-IsDistinct now (fetch_sub c u.remaining) us d.1)
  | inr e ↦ rw e (get-prune-none now j c us d.0, prune-IsDistinct now c us d.1)
]

-- Pruning leaves an upload as it is, or takes it away.
pub prune-IsWhole :
    (now id c : ℕ) (us : Uploads) (file : List ℕ) (pending : Option (List ℕ))
    → IsDistinct ◌==◌ us
    → IsWhole (get ◌==◌ id us) file pending
    → IsWhole (get ◌==◌ id (prune_table now us c).0) file pending
prune-IsWhole now id c [] file pending d w = tt
prune-IsWhole now id c ((j, u) ∷ us) file pending d w = elim (Bool-cases (is_stale now u)) [
  | inl e ↦ elim (Bool-cases (id == j)) [
    | inl f ↦
        let gone =
          get-prune-none now id (fetch_sub c u.remaining) us
            (subst (λ k. get ◌==◌ k us ≡ none) (sym (==→eq id j f)) d.0) in
        rw (e, gone) tt
    | inr f ↦ rw e (prune-IsWhole now id (fetch_sub c u.remaining) us file pending d.1 (rw f at w))
  ]
  | inr e ↦ elim (Bool-cases (id == j)) [
    | inl f ↦ rw (e, f) (rw f at w)
    | inr f ↦ rw (e, f) (prune-IsWhole now id c us file pending d.1 (rw f at w))
  ]
]

written-IsWhole :
    (u : StagedUpload) (file bytes : List ℕ) (n : ℕ)
    → IsWhole (some u) file (some bytes)
    → IsWhole
        (some (record u { writing = false; received = u.received + length bytes; remaining = n }))
        (file ++ bytes)
        none
written-IsWhole u file bytes n (w, (f, b)) =
    (omega (arith, length-append file bytes, w), (refl, omega (arith, b)))

pub written-IsSound :
    (l : Life) (id : ℕ) (ok : Bool) (bytes : List ℕ) (found : Option StagedUpload)
    → get ◌==◌ id l.staging.uploads ≡ found
    → IsDistinct ◌==◌ l.staging.uploads
    → IsWhole found l.file (some bytes)
    → IsDistinct ◌==◌ (append_to l.staging id (length bytes) ok found).0.uploads
      × IsWhole
          (get ◌==◌ id (append_to l.staging id (length bytes) ok found).0.uploads)
          (if ok then l.file ++ bytes else l.file)
          none
written-IsSound l id ok bytes none e d w = (d, rw e tt)
written-IsSound l id false bytes (some u) e d w = (
  drop-IsDistinct ◌==◌ ==→eq ==_refl id l.staging.uploads d,
  rw (get-drop_same ◌==◌ ==→eq ==_refl id l.staging.uploads d) tt,
)
written-IsSound l id true bytes (some u) e d w = (
  set-IsDistinct ◌==◌ ==→eq ==_refl id _ l.staging.uploads d,
  rw (get-set_same ◌==◌ ==→eq ==_refl id _ l.staging.uploads)
      (written-IsWhole u l.file bytes (u.remaining - min (length bytes) u.remaining) w),
)

pub sent-IsWhole :
    (s : Staging) (id : ℕ) (file : List ℕ) (pending : Option (List ℕ)) (found : Option StagedUpload)
    → get ◌==◌ id s.uploads ≡ found
    → IsDistinct ◌==◌ s.uploads
    → IsWhole found file pending
    → IsDistinct ◌==◌ (take_found s id found).0.uploads
      × IsWhole (get ◌==◌ id (take_found s id found).0.uploads) file pending
sent-IsWhole s id file pending none e d w = (d, rw e tt)
sent-IsWhole s id file pending (some u) e d w =
    elim (Bool-cases (u.writing || ltb u.received u.total)) [
      | inl f ↦ rw f (d, rw e w)
      | inr f ↦ rw f (
        drop-IsDistinct ◌==◌ ==→eq ==_refl id s.uploads d,
        rw (get-drop_same ◌==◌ ==→eq ==_refl id s.uploads d) tt,
      )
    ]
