-- ===== src/Store/Tests.antt =====
-- A conversation of one page, and the theorems at it.
use citadel_agent.Prelude.{
  ℕ, ◌≡◌, refl, sym, ap, ◌∙◌, inl, inr, true, false, Bool-cases, Option, none, some, List, [], ◌∷◌,
  ◌==◌, ==→eq, arith,
}
use citadel_agent.Assoc.{none≢some}
use citadel_agent.Store.{
  Message, delivered, failed, Page, Metadata, Records, load_metadata, load_page, place,
  already_stored, record_append, Delivery, appends, Write, apply_all, written, append, finds,
  status_advances,
}
use citadel_agent.Store.Kept.{Throughout, IsNumbered, append-Keeps}
use citadel_agent.Store.Redelivery.{append-again}

abbrev first : Message
first = record {
  id = 1;
  content = 0;
  sender_cid = 9;
  timestamp = 100;
  index = 0;
  status = delivered;
}

abbrev second : Message
second = record {
  id = 2;
  content = 0;
  sender_cid = 9;
  timestamp = 50;
  index = 1;
  status = delivered;
}

abbrev page : Page
page = record { page_number = 0; messages = first ∷ []; min_timestamp = 100; max_timestamp = 100 }

abbrev metadata : Metadata
metadata = record {
  owner_cid = some 7;
  peer_username = none;
  total_message_count = 1;
  oldest_message_timestamp = 100;
  newest_message_timestamp = 100;
  latest_page = 0;
  messages_per_page = 50;
  unread_count = 1;
  last_message_index = 0;
  last_updated = 100;
}

abbrev records : Records
records = record {
  metadata = some metadata;
  pages = (0, page) ∷ [];
  legacy_metadata = none;
  legacy_pages = [];
}

records-IsNumbered : IsNumbered records
unfolding load_page
records-IsNumbered n p h = elim (Bool-cases (n == 0)) [
  | inl e ↦ ap (λ (q : Page). q.page_number) (sym (same page p (rw e at h))) ∙ sym (==→eq n 0 e)
  | inr e ↦ absurd (none≢some p (rw e at h))
]
  where
    same : (a b : Page) → Option.some a ≡ some b → a ≡ b
    same a b e = cc

abbrev writes : List Write
writes = written 7 metadata page second false 200

an_older_message_goes_first : (place page second).messages ≡ second ∷ first ∷ []
unfolding place
an_older_message_goes_first = refl

a_failure_does_not_undo_a_delivery : status_advances delivered failed ≡ false
unfolding status_advances
a_failure_does_not_undo_a_delivery = refl

new_message : append 7 records second none 200 ≡ some writes
unfolding append load_metadata load_page already_stored
new_message = refl

append-Keeps_example :
    Throughout (λ s. (id : ℕ) → finds 7 records id ≡ true → finds 7 s id ≡ true) records writes
append-Keeps_example = append-Keeps 7 records second none 200 writes records-IsNumbered new_message

-- Another message, and the second once more.
abbrev meanwhile : List Delivery
meanwhile =
    record { message = record second { id = 3 }; peer_username = none; at = 250 }
    ∷ record { message = second; peer_username = none; at = 260 }
    ∷ []

append-again_example :
    append 7
      (appends 7 (apply_all records writes) meanwhile)
      (record second { timestamp = 300 })
      none
      400
    ≡ none
unfolding appends append load_metadata load_page already_stored place record_append
append-again_example =
    append-again 7 records second (record second { timestamp = 300 }) none none 200 400 writes
      meanwhile _ _ records-IsNumbered new_message refl refl (omega arith) refl
