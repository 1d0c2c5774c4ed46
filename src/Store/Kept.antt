-- ===== src/Store/Kept.antt =====
-- An append loses no message, wherever its writes stop (kernel/conversations/store.rs, `append`).
use citadel_agent.Prelude.{
  ℕ, zero, suc, ◌+◌, ◌≤◌, ◌≡◌, refl, sym, subst, ◌∙◌, inl, inr, Bool, true, false, Bool-cases,
  Option, none, some, Option-cases, unwrap_or, List, [], ◌∷◌, leb, ◌==◌, if_known, length, arith,
  ==→eq,
}
use citadel_agent.Assoc.{none≢some, both_ways}
use citadel_agent.Store.{
  Message, Page, Metadata, Records, load_metadata, load_page, empty_page, place, record_append,
  has_id, page_has, already_stored, Write, saves_page, saves_metadata, apply, start_metadata,
  is_none, behind_page, written, newest_page, append, found_from, finds, messages_per_page,
}
use citadel_agent.Store.Pages.{
  or_left, or_right, or_either, place-has_id, load-saved_same, load-saved_other,
}

-- It holds of the records before the writes, and after each of them.
abbrev pub Throughout {ℓ} : (Records → Type ℓ) → Records → List Write → Type ℓ
Throughout P r [] = P r
Throughout P r (w ∷ ws) = P r × Throughout P (apply r w) ws

always {ℓ} :
    (P : Records → Type ℓ) (r : Records) (ws : List Write)
    → ((s : Records) → P s)
    → Throughout P r ws
always P r [] h = h r
always P r (w ∷ ws) h = (h r, always P (apply r w) ws h)

-- Every page is stored under its number.
abbrev pub IsNumbered : Records → Type 0
IsNumbered r = (n : ℕ) (p : Page) → load_page r n ≡ some p → p.page_number ≡ n

-- Up to that page, nothing that was there is missing.
abbrev pub Covers : ℕ → Records → Records → Type 0
Covers last r s =
    (id n : ℕ) → n ≤ last → page_has id (load_page r n) ≡ true → page_has id (load_page s n) ≡ true

pub Covers-trans :
    (last : ℕ) (r s t : Records) → Covers last r s → Covers last s t → Covers last r t
Covers-trans last r s t f g id n h e = g id n h (f id n h e)

pub saved-Covers :
    (last : ℕ) (r : Records) (p : Page)
    → ((id : ℕ)
        → p.page_number ≤ last
        → page_has id (load_page r p.page_number) ≡ true
        → has_id id p.messages ≡ true)
    → Covers last r (apply r (saves_page p))
saved-Covers last r p f id n h e = elim (Bool-cases (n == p.page_number)) [
  | inl here ↦ subst At (sym (==→eq n p.page_number here)) placed h e
  | inr other ↦ rw (load-saved_other r p n other) e
]
  where
    At : ℕ → Type 0
    At k =
        k ≤ last
        → page_has id (load_page r k) ≡ true
        → page_has id (load_page (apply r (saves_page p)) k) ≡ true

    placed : At p.page_number
    placed l q = rw (load-saved_same r p) (f id l q)

found-Covers :
    (id last n : ℕ) (r s : Records)
    → n ≤ last
    → Covers last r s
    → found_from r id n ≡ true
    → found_from s id n ≡ true
found-Covers id last zero r s h c e = c id zero h e
found-Covers id last (suc n) r s h c e =
    or_either (page_has id (load_page r (suc n))) (found_from r id n) _
      (λ p. or_left _ _ (c id (suc n) h p))
      (λ p.
        or_right (page_has id (load_page s (suc n))) _
          (found-Covers id last n r s (omega arith) c p))
      e

found_higher :
    (id n more : ℕ) (r : Records) → found_from r id n ≡ true → found_from r id (more + n) ≡ true
found_higher id n zero r e =
    let same : n ≡ 0 + n = omega arith in subst (λ k. found_from r id k ≡ true) same e
found_higher id n (suc more) r e =
    let same : suc (more + n) ≡ suc more + n = omega arith in
    subst (λ k. found_from r id k ≡ true) same
      (or_right (page_has id (load_page r (suc (more + n)))) _ (found_higher id n more r e))

-- The newest page, as it is loaded or made.
pub page_kept :
    (r : Records) (metadata : Metadata) (m : Message)
    → IsNumbered r
    → (page : Option Page) → load_page r metadata.latest_page ≡ page
    → ((unwrap_or page (empty_page metadata.latest_page m.timestamp)).page_number
        ≡ metadata.latest_page)
      × ((id : ℕ)
          → page_has id page ≡ true
          → has_id id (unwrap_or page (empty_page metadata.latest_page m.timestamp)).messages
            ≡ true)
page_kept r metadata m numbered none e = (refl, λ id h. h)
page_kept r metadata m numbered (some p) e = (numbered metadata.latest_page p e, λ id h. h)

module _ (own : ℕ) (r : Records) (m₀ : Metadata) (known : load_metadata own r ≡ some m₀) where
  abbrev Keeps : Records → Type 0
  Keeps s = (id : ℕ) → finds own r id ≡ true → finds own s id ≡ true

  keeps_lem :
      (s : Records) (more : ℕ) (m : Metadata)
      → load_metadata own s ≡ some m
      → m.latest_page ≡ more + m₀.latest_page
      → Covers m₀.latest_page r s
      → Keeps s
  unfolding finds
  keeps_lem s more m e l c id h =
      let found : found_from r id m₀.latest_page ≡ true = rw known at h in
      rw e (
        subst (λ k. found_from s id k ≡ true) (sym l)
          (found_higher id m₀.latest_page more s
            (found-Covers id m₀.latest_page m₀.latest_page r s (omega arith) c found)))

  -- The page with the message, then the metadata that points to it.
  behind-Keeps :
      (s : Records) (more : ℕ) (metadata : Metadata) (page : Page) (m : Message) (is_new : Bool)
      (now : ℕ)
      → load_metadata own s ≡ some m₀
      → metadata.latest_page ≡ more + m₀.latest_page
      → Covers m₀.latest_page r s
      → ((id : ℕ)
          → page.page_number ≤ m₀.latest_page
          → page_has id (load_page s page.page_number) ≡ true
          → has_id id page.messages ≡ true)
      → Throughout Keeps s (behind_page own metadata page m is_new now)
  unfolding load_metadata load_page record_append place
  behind-Keeps s more metadata page m is_new now e l c f = (
    keeps_lem s 0 m₀ e (omega arith) c,
    (keeps_lem after 0 m₀ e (omega arith) covered, keeps_lem last more _ refl l covered),
  )
    where
      after : Records
      after = apply s (saves_page (place page m))

      last : Records
      last = apply after (saves_metadata (record_append metadata m is_new own now))

      covered : Covers m₀.latest_page r after
      covered = Covers-trans m₀.latest_page r s after c (
          saved-Covers m₀.latest_page s (place page m)
            (λ id h q. place-has_id id page m ∙ or_left _ (m.id == id) (f id h q)))

  written-Keeps :
      (metadata : Metadata) (m : Message) (is_new : Bool) (now : ℕ)
      → metadata.latest_page ≡ m₀.latest_page
      → IsNumbered r
      → Throughout Keeps r (written own metadata (newest_page r metadata m) m is_new now)
  unfolding load_metadata
  written-Keeps metadata m is_new now l numbered =
      if_known (Throughout Keeps r) (leb messages_per_page (length page.messages)) _ _
        (λ full. (
          λ id h. h,
          behind-Keeps rolled 1 (record metadata { latest_page = metadata.latest_page + 1 }) _ m
              is_new now known (omega (arith, l)) (saved-Covers m₀.latest_page r page kept)
              (λ id h. absurd (omega (arith, l))),
        ))
        (λ room.
          behind-Keeps r 0 metadata page m is_new now known (omega (arith, l)) (λ id n h e. e) kept)
    where
      page : Page
      page = newest_page r metadata m

      rolled : Records
      rolled = apply r (saves_page page)

      kept :
          (id : ℕ)
          → page.page_number ≤ m₀.latest_page
          → page_has id (load_page r page.page_number) ≡ true
          → has_id id page.messages ≡ true
      kept id h q =
          let (number, has) =
            page_kept r metadata m numbered (load_page r metadata.latest_page) refl in
          has id (subst (λ n. page_has id (load_page r n) ≡ true) number q)

some-injective : (s t : List Write) → Option.some s ≡ some t → s ≡ t
some-injective s t h = cc

-- What an append writes, if the message is no duplicate.
pub append_lem :
    (own : ℕ) (r : Records) (m : Message) (user : Option ℕ) (now : ℕ) (ws : List Write)
    → append own r m user now ≡ some ws
    → let metadata = start_metadata own m user now (load_metadata own r) in
      (already_stored r metadata (newest_page r metadata m) m.id ≡ false)
      × (written own metadata (newest_page r metadata m) m (is_none (load_metadata own r)) now ≡ ws)
unfolding append
append_lem own r m user now ws h =
    let metadata = start_metadata own m user now (load_metadata own r) in
    elim (Bool-cases (already_stored r metadata (newest_page r metadata m) m.id)) [
      | inl e ↦ absurd (none≢some ws (rw e at h))
      | inr e ↦ (e, some-injective _ ws (rw e at h))
    ]

nothing_found :
    (own : ℕ) (r : Records) (id : ℕ) → load_metadata own r ≡ none → finds own r id ≡ false
unfolding finds
nothing_found own r id h = rw h refl

-- Wherever the writes of an append stop, before the first, between two or after the last, every
-- message that was found before is found still, if every page is stored under its number.
pub append-Keeps :
    (own : ℕ) (r : Records) (m : Message) (user : Option ℕ) (now : ℕ) (ws : List Write)
    → IsNumbered r
    → append own r m user now ≡ some ws
    → Throughout (λ s. (id : ℕ) → finds own r id ≡ true → finds own s id ≡ true) r ws
append-Keeps own r m user now ws numbered h =
    let (_, e) = append_lem own r m user now ws h in
    elim (Option-cases (load_metadata own r)) [
      | inl none_yet ↦
          always (λ s. (id : ℕ) → finds own r id ≡ true → finds own s id ≡ true) r ws
            (λ s id f. absurd (both_ways (finds own r id) f (nothing_found own r id none_yet)))
      | inr (m₀, known) ↦ subst (Throughout (Keeps own r m₀ known) r) e (
          written-Keeps own r m₀ known (start_metadata own m user now (load_metadata own r)) m
            (is_none (load_metadata own r)) now (rw known refl) numbered)
    ]
