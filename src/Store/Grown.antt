-- ===== src/Store/Grown.antt =====
-- What appends leave of the pages there were (kernel/conversations/store.rs, `append`).
use citadel_agent.Prelude.{
  ℕ, ◌+◌, ◌≤◌, ◌≡◌, refl, sym, subst, ◌∙◌, inl, inr, Bool, true, Bool-cases, Option, some,
  Option-cases, List, [], ◌∷◌, leb, ◌==◌, if_known, length, arith, ==→eq,
}
use citadel_agent.Store.{
  Message, Page, Metadata, Records, load_metadata, load_page, empty_page, place, record_append,
  has_id, page_has, Write, saves_page, apply, apply_all, start_metadata, is_none, behind_page,
  written, newest_page, append, messages_per_page, Delivery, after_append, appends,
}
use citadel_agent.Store.Kept.{append_lem, IsNumbered, Covers, Covers-trans, saved-Covers, page_kept}
use citadel_agent.Store.Pages.{or_left, place-has_id, load-saved_same, load-saved_other}

-- The records that grew out of others: up to that page nothing is missing, the metadata points to
-- it or beyond, and every page is stored under its number.
pub record IsGrown (own last : ℕ) (r s : Records) : Type 0 where
  pub metadata : Metadata
  pub known : load_metadata own s ≡ some metadata
  pub later : last ≤ metadata.latest_page
  pub covers : Covers last r s
  pub numbered : IsNumbered s

saved-IsNumbered : (s : Records) (p : Page) → IsNumbered s → IsNumbered (apply s (saves_page p))
saved-IsNumbered s p h n q e = elim (Bool-cases (n == p.page_number)) [
  | inl here ↦
      let same = ==→eq n p.page_number here in
      let loaded = subst (λ k. load_page (apply s (saves_page p)) k ≡ some q) same e in
      let read = sym (load-saved_same s p) ∙ loaded in
      subst (λ (x : Page). x.page_number ≡ n) (some-inj p q read) (sym same)
  | inr other ↦ h n q (sym (load-saved_other s p n other) ∙ e)
]
  where
    some-inj : (a b : Page) → Option.some a ≡ some b → a ≡ b
    some-inj a b e = cc

behind-IsGrown :
    (own last : ℕ) (r s : Records) (metadata : Metadata) (page : Page) (m : Message) (is_new : Bool)
    (now : ℕ)
    → last ≤ metadata.latest_page
    → Covers last r s
    → IsNumbered s
    → ((id : ℕ)
        → page.page_number ≤ last
        → page_has id (load_page s page.page_number) ≡ true
        → has_id id page.messages ≡ true)
    → IsGrown own last r (apply_all s (behind_page own metadata page m is_new now))
unfolding load_metadata load_page record_append place
behind-IsGrown own last r s metadata page m is_new now l c numbered f = record {
  metadata = record_append metadata m is_new own now;
  known = refl;
  later = l;
  covers = Covers-trans last r s (apply s (saves_page (place page m))) c (
      saved-Covers last s (place page m)
        (λ id h q. place-has_id id page m ∙ or_left _ (m.id == id) (f id h q)));
  numbered = saved-IsNumbered s (place page m) numbered;
}

pub written-IsGrown :
    (own : ℕ) (r : Records) (metadata : Metadata) (m : Message) (is_new : Bool) (now : ℕ)
    → IsNumbered r
    → IsGrown own metadata.latest_page r
        (apply_all r (written own metadata (newest_page r metadata m) m is_new now))
written-IsGrown own r metadata m is_new now numbered =
    if_known (λ (ws : List Write). IsGrown own last r (apply_all r ws))
      (leb messages_per_page (length page.messages)) _ _
      (λ full.
        behind-IsGrown own last r (apply r (saves_page page))
          (record metadata { latest_page = last + 1 }) (empty_page (last + 1) m.timestamp) m is_new
          now (omega arith) (saved-Covers last r page kept) (saved-IsNumbered r page numbered)
          (λ id h. absurd (omega arith)))
      (λ room.
        behind-IsGrown own last r r metadata page m is_new now (omega arith) (λ id n h e. e)
          numbered kept)
  where
    last : ℕ
    last = metadata.latest_page

    page : Page
    page = newest_page r metadata m

    kept :
        (id : ℕ)
        → page.page_number ≤ last
        → page_has id (load_page r page.page_number) ≡ true
        → has_id id page.messages ≡ true
    kept id h q =
        let (number, has) = page_kept r metadata m numbered (load_page r last) refl in
        has id (subst (λ n. page_has id (load_page r n) ≡ true) number q)

pub append-IsGrown :
    (own : ℕ) (r : Records) (d : Delivery) (m₀ : Metadata)
    → IsNumbered r
    → load_metadata own r ≡ some m₀
    → IsGrown own m₀.latest_page r (after_append r (append own r d.message d.peer_username d.at))
append-IsGrown own r d m₀ numbered known =
    elim (Option-cases (append own r d.message d.peer_username d.at)) [
      | inl none_new ↦ rw none_new (record {
        metadata = m₀;
        known = known;
        later = omega arith;
        covers = λ id n h e. e;
        numbered = numbered;
      })
      | inr (ws, e) ↦
          let (_, same) = append_lem own r d.message d.peer_username d.at ws e in
          let grown =
            written-IsGrown own r
              (start_metadata own d.message d.peer_username d.at (load_metadata own r)) d.message
              (is_none (load_metadata own r)) d.at numbered in
          let latest : (start_metadata own d.message d.peer_username d.at
                (load_metadata own r)).latest_page
              ≡ m₀.latest_page =
            rw known refl in
          rw e (
            subst (λ n. IsGrown own n r (apply_all r ws)) latest
              (subst
                (λ (w : List Write).
                  IsGrown own
                    (start_metadata own d.message d.peer_username d.at
                      (load_metadata own r)).latest_page
                    r (apply_all r w))
                same grown))
    ]

IsGrown-trans :
    (own last : ℕ) (r s t : Records) (g : IsGrown own last r s)
    → IsGrown own g.metadata.latest_page s t
    → IsGrown own last r t
IsGrown-trans own last r s t g h = record {
  metadata = h.metadata;
  known = h.known;
  later = let l = g.later in let k = h.later in omega (arith, l, k);
  covers = λ id n l e. let k = g.later in h.covers id n (omega (arith, l, k)) (g.covers id n l e);
  numbered = h.numbered;
}

-- Whatever is appended.
pub appends-IsGrown :
    (own : ℕ) (ds : List Delivery) (r : Records) (m₀ : Metadata)
    → IsNumbered r
    → load_metadata own r ≡ some m₀
    → IsGrown own m₀.latest_page r (appends own r ds)
unfolding appends
appends-IsGrown own [] r m₀ numbered known = record {
  metadata = m₀;
  known = known;
  later = omega arith;
  covers = λ id n h e. e;
  numbered = numbered;
}
appends-IsGrown own (d ∷ ds) r m₀ numbered known =
    let s = after_append r (append own r d.message d.peer_username d.at) in
    let g = append-IsGrown own r d m₀ numbered known in
    IsGrown-trans own m₀.latest_page r s (appends own s ds) g
      (appends-IsGrown own ds s g.metadata g.numbered g.known)
