-- ===== src/Store/Redelivery.antt =====
-- Appends of a message that is stored (kernel/conversations/store.rs, `append` and
-- `already_stored`).
use citadel_agent.Prelude.{
  ℕ, suc, ◌+◌, ◌≤◌, ◌≡◌, ◌⊎◌, arith, Bool-cases, ==→eq, refl, sym, subst, ◌∙◌, inl, inr, Bool, true,
  false, Option, none, some, Option-cases, unwrap_or, List, leb, ◌==◌, if_known, length, ==_refl,
}
use citadel_agent.Assoc.{both_ways}
use citadel_agent.Store.{
  Message, Page, Metadata, Records, load_metadata, load_page, empty_page, place, record_append,
  has_id, page_has, on_previous, already_stored, Write, saves_page, apply, apply_all,
  start_metadata, is_none, behind_page, written, newest_page, append, messages_per_page, Delivery,
  appends,
}
use citadel_agent.Store.Kept.{append_lem, IsNumbered}
use citadel_agent.Store.Grown.{written-IsGrown, appends-IsGrown}
use citadel_agent.Store.Pages.{place-has_id, load-saved_same, or_left, or_right}

-- The message stands on the newest page that the metadata points to.
abbrev IsOnNewest : ℕ → ℕ → Records → Type 0
IsOnNewest own id s =
    (m : Metadata) × ((load_metadata own s ≡ some m)
      × (page_has id (load_page s m.latest_page) ≡ true))

behind-IsOnNewest :
    (own : ℕ) (s : Records) (metadata : Metadata) (page : Page) (m : Message) (is_new : Bool)
    (now : ℕ)
    → page.page_number ≡ metadata.latest_page
    → IsOnNewest own m.id (apply_all s (behind_page own metadata page m is_new now))
unfolding load_metadata load_page record_append place
behind-IsOnNewest own s metadata page m is_new now e =
    let placed = place page m in
    let there : has_id m.id placed.messages ≡ true =
      place-has_id m.id page m
      ∙ or_right (has_id m.id page.messages) (m.id == m.id) (==_refl m.id) in
    let on_page : page_has m.id (load_page (apply s (saves_page placed)) placed.page_number)
        ≡ true =
      rw (load-saved_same s placed) there in
    (
      record_append metadata m is_new own now,
      (
        refl,
        subst (λ n. page_has m.id (load_page (apply s (saves_page placed)) n) ≡ true) e on_page,
      ),
    )

newest_number :
    (r : Records) (metadata : Metadata) (m : Message)
    → IsNumbered r
    → (newest_page r metadata m).page_number ≡ metadata.latest_page
newest_number r metadata m numbered = elim (Option-cases (load_page r metadata.latest_page)) [
  | inl e ↦ rw e refl
  | inr (p, e) ↦ rw e (numbered metadata.latest_page p e)
]

written-IsOnNewest :
    (own : ℕ) (r : Records) (metadata : Metadata) (m : Message) (is_new : Bool) (now : ℕ)
    → IsNumbered r
    → IsOnNewest own m.id
        (apply_all r (written own metadata (newest_page r metadata m) m is_new now))
written-IsOnNewest own r metadata m is_new now numbered =
    let page = newest_page r metadata m in
    let next = record metadata { latest_page = metadata.latest_page + 1 } in
    if_known (λ (ws : List Write). IsOnNewest own m.id (apply_all r ws))
      (leb messages_per_page (length page.messages)) _ _
      (λ full.
        behind-IsOnNewest own (apply r (saves_page page)) next
          (empty_page next.latest_page m.timestamp) m is_new now refl)
      (λ room.
        behind-IsOnNewest own r metadata page m is_new now (newest_number r metadata m numbered))

has_loaded :
    (id number at : ℕ) (page : Option Page)
    → page_has id page ≡ true
    → has_id id (unwrap_or page (empty_page number at)).messages ≡ true
has_loaded id number at none h = absurd (both_ways false h refl)
has_loaded id number at (some p) h = h

-- The message stands on the newest page or on the one before it.
seen_again :
    (own : ℕ) (s : Records) (m : Message) (user : Option ℕ) (now k : ℕ) (n : Metadata)
    → load_metadata own s ≡ some n
    → (n.latest_page ≡ k) ⊎ (n.latest_page ≡ suc k)
    → page_has m.id (load_page s k) ≡ true
    → append own s m user now ≡ none
unfolding append already_stored
seen_again own s m user now k n known near has =
    let metadata = start_metadata own m user now (some n) in
    let page = newest_page s metadata m in
    let seen : already_stored s metadata page m.id ≡ true = elim near [
      | inl same ↦ or_left (has_id m.id page.messages) (on_previous s metadata.latest_page m.id) (
          has_loaded m.id n.latest_page m.timestamp (load_page s n.latest_page)
            (subst (λ j. page_has m.id (load_page s j) ≡ true) (sym same) has))
      | inr before ↦
          or_right (has_id m.id page.messages) (on_previous s metadata.latest_page m.id)
            (subst (λ j. on_previous s j m.id ≡ true) (sym before) has)
    ] in
    rw (known, seen) refl

near_by : (k n : ℕ) → k ≤ n → n ≤ suc k → (n ≡ k) ⊎ (n ≡ suc k)
near_by k n l h = elim (Bool-cases (n == k)) [
  | inl e ↦ inl (==→eq n k e)
  | inr e ↦ inr (ground arith)
]

written-IsNumbered :
    (own : ℕ) (r : Records) (m : Message) (user : Option ℕ) (now : ℕ) (ws : List Write)
    → IsNumbered r
    → append own r m user now ≡ some ws
    → IsNumbered (apply_all r ws)
written-IsNumbered own r m user now ws numbered h =
    let (_, e) = append_lem own r m user now ws h in
    subst (λ (w : List Write). IsNumbered (apply_all r w)) e
      (written-IsGrown own r (start_metadata own m user now (load_metadata own r)) m
        (is_none (load_metadata own r)) now numbered).numbered

-- If every page is stored under its number, a message that an append has written is a duplicate
-- from then on, whatever else it carries and whatever is appended meanwhile, as long as at most one
-- page has been begun since.
pub append-again :
    (own : ℕ) (r : Records) (m again : Message) (user user' : Option ℕ) (now later : ℕ)
    (ws : List Write) (ds : List Delivery) (before after : Metadata)
    → IsNumbered r
    → append own r m user now ≡ some ws
    → load_metadata own (apply_all r ws) ≡ some before
    → load_metadata own (appends own (apply_all r ws) ds) ≡ some after
    → after.latest_page ≤ suc before.latest_page
    → again.id ≡ m.id
    → append own (appends own (apply_all r ws) ds) again user' later ≡ none
append-again own r m again user user' now later ws ds before after numbered h e f close same =
    let (_, w) = append_lem own r m user now ws h in
    let (n, (known, has)) =
      subst (λ (w : List Write). IsOnNewest own m.id (apply_all r w)) w
        (written-IsOnNewest own r (start_metadata own m user now (load_metadata own r)) m
          (is_none (load_metadata own r)) now numbered) in
    let grown =
      appends-IsGrown own ds (apply_all r ws) n (written-IsNumbered own r m user now ws numbered h)
        known in
    let first : n.latest_page ≡ before.latest_page = latest_of n before (sym known ∙ e) in
    let last : grown.metadata.latest_page ≡ after.latest_page =
      latest_of grown.metadata after (sym grown.known ∙ f) in
    let l = grown.later in
    seen_again own (appends own (apply_all r ws) ds) again user' later n.latest_page grown.metadata
      grown.known
      (near_by n.latest_page grown.metadata.latest_page l (omega (arith, first, last, close)))
      (grown.covers again.id n.latest_page (omega arith) (
        subst (λ id. page_has id (load_page (apply_all r ws) n.latest_page) ≡ true) (sym same) has))
  where
    latest_of : (a b : Metadata) → Option.some a ≡ some b → a.latest_page ≡ b.latest_page
    latest_of a b e = cc
