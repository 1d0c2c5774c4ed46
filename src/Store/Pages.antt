-- ===== src/Store/Pages.antt =====
-- Who is on a page, once a message is placed and the page saved (kernel/conversations/store.rs,
-- store_rules.rs).
use citadel_agent.Prelude.{
  ℕ, ◌≡◌, refl, ap, ◌∙◌, inl, inr, Bool, true, false, Bool-cases, ◌||◌, some, List, [], ◌∷◌, ◌++◌,
  leb, ◌==◌, ==→eq, ==_refl,
}
use citadel_agent.Assoc.{get-set_same, get-set_other}
use citadel_agent.Store.{
  Message, Page, Records, load_page, insert_sorted, sort, place, has_id, saves_page, apply,
}

pub or_left : (a b : Bool) → a ≡ true → (a || b) ≡ true
or_left a b h = rw h refl

pub or_right : (a b : Bool) → b ≡ true → (a || b) ≡ true
or_right true b h = refl
or_right false b h = h

pub or_either :
    (a b c : Bool) → (a ≡ true → c ≡ true) → (b ≡ true → c ≡ true) → (a || b) ≡ true → c ≡ true
or_either true b c f g h = f refl
or_either false b c f g h = g h

insert-has_id :
    (id : ℕ) (m : Message) (ns : List Message)
    → has_id id (insert_sorted m ns) ≡ ((m.id == id) || has_id id ns)
insert-has_id id m [] = refl
insert-has_id id m (n ∷ ns) = elim (Bool-cases (leb m.timestamp n.timestamp)) [
  | inl e ↦ rw e refl
  | inr e ↦ rw (e, insert-has_id id m ns) (swapped (n.id == id) (m.id == id) (has_id id ns))
]
  where
    swapped : (a b c : Bool) → (a || (b || c)) ≡ (b || (a || c))
    swapped true true c = refl
    swapped true false c = refl
    swapped false b c = refl

-- Sorting keeps who is there.
pub sort-has_id : (id : ℕ) (ms : List Message) → has_id id (sort ms) ≡ has_id id ms
sort-has_id id [] = refl
sort-has_id id (m ∷ ms) =
    insert-has_id id m (sort ms) ∙ ap (λ b. (m.id == id) || b) (sort-has_id id ms)

append-has_id :
    (id : ℕ) (ms : List Message) (m : Message)
    → has_id id (ms ++ m ∷ []) ≡ (has_id id ms || (m.id == id))
append-has_id id [] m = or_none (m.id == id)
  where
    or_none : (b : Bool) → (b || false) ≡ b
    or_none true = refl
    or_none false = refl
append-has_id id (n ∷ ns) m =
    rw (append-has_id id ns m) (or_assoc (n.id == id) (has_id id ns) (m.id == id))
  where
    or_assoc : (a b c : Bool) → (a || (b || c)) ≡ ((a || b) || c)
    or_assoc true b c = refl
    or_assoc false b c = refl

pub place-has_id :
    (id : ℕ) (page : Page) (m : Message)
    → has_id id (place page m).messages ≡ (has_id id page.messages || (m.id == id))
unfolding place
place-has_id id page m = sort-has_id id (page.messages ++ m ∷ []) ∙ append-has_id id page.messages m

pub load-saved_same :
    (r : Records) (p : Page) → load_page (apply r (saves_page p)) p.page_number ≡ some p
unfolding load_page
load-saved_same r p = rw (get-set_same ◌==◌ ==→eq ==_refl p.page_number p r.pages) refl

pub load-saved_other :
    (r : Records) (p : Page) (n : ℕ)
    → (n == p.page_number) ≡ false
    → load_page (apply r (saves_page p)) n ≡ load_page r n
unfolding load_page
load-saved_other r p n h = rw (get-set_other ◌==◌ ==→eq ==_refl n p.page_number p r.pages h) refl
