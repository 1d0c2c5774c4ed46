-- ===== src/Store.antt =====
-- The stored messages of one conversation: kernel/conversations/store.rs and store_rules.rs, for the
-- records of one account and one peer. The conversions of stored.rs are left out: a record is what
-- its bytes stand for. Timestamps, indices and counts are numbers; a text that is only compared is a
-- number that names it.
pub mod Redelivery
pub mod Pages
pub mod Kept
pub mod Grown
mod Tests
use citadel_agent.Prelude.{
  ℕ, zero, suc, ◌+◌, max, Bool, true, false, not, ◌&&◌, ◌||◌, Option, none, some, unwrap_or, List,
  [], ◌∷◌, ◌++◌, ltb, leb, ◌==◌, if◌then◌else◌, length, any,
}
use citadel_agent.Assoc.{get, set}

pub data MessageStatus : Type 0 where
  pending sent delivered read failed : MessageStatus

-- `content` stands for the fields that the store only keeps.
pub record Message : Type 0 where
  pub id : ℕ
  pub content : ℕ
  pub sender_cid : ℕ
  pub timestamp : ℕ
  pub index : ℕ
  pub status : MessageStatus

pub record Page : Type 0 where
  pub page_number : ℕ
  pub messages : List Message
  pub min_timestamp : ℕ
  pub max_timestamp : ℕ

pub record Metadata : Type 0 where
  pub owner_cid : Option ℕ
  pub peer_username : Option ℕ
  pub total_message_count : ℕ
  pub oldest_message_timestamp : ℕ
  pub newest_message_timestamp : ℕ
  pub latest_page : ℕ
  pub messages_per_page : ℕ
  pub unread_count : ℕ
  pub last_message_index : ℕ
  pub last_updated : ℕ

-- The records under the keys of the account and the peer, and under those of the peer alone.
pub record Records : Type 0 where
  pub metadata : Option Metadata
  pub pages : List (ℕ × Page)
  pub legacy_metadata : Option Metadata
  pub legacy_pages : List (ℕ × Page)

abbrev pub messages_per_page : ℕ
messages_per_page = 50

abbrev pub or_else {ℓ} : {A : Type ℓ} → Option A → Option A → Option A
or_else none later = later
or_else (some a) later = some a

-- An unstamped record, or one stamped for this account.
abbrev pub owned : ℕ → Option ℕ → Bool
owned own none = true
owned own (some owner) = owner == own

abbrev pub own_legacy : ℕ → Option Metadata → Option Metadata
own_legacy own none = none
own_legacy own (some m) = if owned own m.owner_cid then some m else none

unfoldable pub load_metadata : ℕ → Records → Option Metadata
load_metadata own r = or_else r.metadata (own_legacy own r.legacy_metadata)

unfoldable pub load_page : Records → ℕ → Option Page
load_page r n = or_else (get ◌==◌ n r.pages) (get ◌==◌ n r.legacy_pages)

abbrev pub empty_page : ℕ → ℕ → Page
empty_page number at = record {
  page_number = number;
  messages = [];
  min_timestamp = at;
  max_timestamp = at;
}

-- `sort_by` is stable.
abbrev pub insert_sorted : Message → List Message → List Message
insert_sorted m [] = m ∷ []
insert_sorted m (n ∷ ns) =
    let later = insert_sorted m ns in if leb m.timestamp n.timestamp then m ∷ n ∷ ns else n ∷ later

abbrev pub sort : List Message → List Message
sort [] = []
sort (m ∷ ms) = insert_sorted m (sort ms)

abbrev pub first_stamp : List Message → ℕ → ℕ
first_stamp [] at = at
first_stamp (m ∷ ms) at = m.timestamp

abbrev pub last_stamp : List Message → ℕ → ℕ
last_stamp [] at = at
last_stamp (m ∷ ms) at = last_stamp ms m.timestamp

unfoldable pub place : Page → Message → Page
place page m =
    let sorted = sort (page.messages ++ m ∷ []) in
    record {
      page_number = page.page_number;
      messages = sorted;
      min_timestamp = first_stamp sorted 0;
      max_timestamp = last_stamp sorted 0;
    }

abbrev pub is_delivered : MessageStatus → Bool
is_delivered delivered = true
is_delivered _ = false

unfoldable pub record_append : Metadata → Message → Bool → ℕ → ℕ → Metadata
record_append metadata m is_new own now =
    let total = metadata.total_message_count + 1 in
    let oldest = metadata.oldest_message_timestamp in
    let unread = not (m.sender_cid == own) && is_delivered m.status in
    record metadata {
      total_message_count = total;
      newest_message_timestamp = m.timestamp;
      oldest_message_timestamp =
          if is_new || total == 1 || ltb m.timestamp oldest then m.timestamp else oldest;
      last_message_index = max metadata.last_message_index m.index;
      last_updated = now;
      unread_count = if unread then metadata.unread_count + 1 else metadata.unread_count;
    }

abbrev pub new_metadata : ℕ → Message → Option ℕ → ℕ → Metadata
new_metadata own m peer_username now = record {
  owner_cid = some own;
  peer_username = peer_username;
  total_message_count = 0;
  oldest_message_timestamp = m.timestamp;
  newest_message_timestamp = m.timestamp;
  latest_page = 0;
  messages_per_page = messages_per_page;
  unread_count = 0;
  last_message_index = 0;
  last_updated = now;
}

abbrev pub has_id : ℕ → List Message → Bool
has_id id ms = any (λ m. m.id == id) ms

abbrev pub page_has : ℕ → Option Page → Bool
page_has id none = false
page_has id (some page) = has_id id page.messages

-- On the newest page, or the one before it.
abbrev pub on_previous : Records → ℕ → ℕ → Bool
on_previous r zero id = false
on_previous r (suc n) id = page_has id (load_page r n)

unfoldable pub already_stored : Records → Metadata → Page → ℕ → Bool
unfolding load_page
already_stored r metadata page id = has_id id page.messages || on_previous r metadata.latest_page id

pub data Write : Type 0 where
  saves_page : Page → Write
  saves_metadata : Metadata → Write

abbrev pub apply : Records → Write → Records
apply r (saves_page p) = record r { pages = set ◌==◌ p.page_number p r.pages }
apply r (saves_metadata m) = record r { metadata = some m }

abbrev pub apply_all : Records → List Write → Records
apply_all r [] = r
apply_all r (w ∷ ws) = apply_all (apply r w) ws

abbrev pub stamp : ℕ → Metadata → Metadata
stamp own m = record m { owner_cid = some (unwrap_or m.owner_cid own) }

abbrev pub start_metadata : ℕ → Message → Option ℕ → ℕ → Option Metadata → Metadata
start_metadata own m peer_username now existing =
    stamp own (unwrap_or existing (new_metadata own m peer_username now))

abbrev pub is_none {ℓ} : {A : Type ℓ} → Option A → Bool
is_none none = true
is_none (some a) = false

-- What is written behind the page, as it stands or rolled over to an empty one.
abbrev pub behind_page : ℕ → Metadata → Page → Message → Bool → ℕ → List Write
behind_page own metadata page m is_new now =
    saves_page (place page m) ∷ saves_metadata (record_append metadata m is_new own now) ∷ []

abbrev pub written : ℕ → Metadata → Page → Message → Bool → ℕ → List Write
written own metadata page m is_new now =
    let next = record metadata { latest_page = metadata.latest_page + 1 } in
    if leb messages_per_page (length page.messages)
    then saves_page page
      ∷ behind_page own next (empty_page next.latest_page m.timestamp) m is_new now
    else behind_page own metadata page m is_new now

abbrev pub newest_page : Records → Metadata → Message → Page
newest_page r metadata m =
    unwrap_or (load_page r metadata.latest_page) (empty_page metadata.latest_page m.timestamp)

-- The writes of an append in their order; none for a duplicate.
unfoldable pub append : ℕ → Records → Message → Option ℕ → ℕ → Option (List Write)
unfolding load_metadata load_page already_stored place record_append
append own r m peer_username now =
    let existing = load_metadata own r in
    let metadata = start_metadata own m peer_username now existing in
    let page = newest_page r metadata m in
    if already_stored r metadata page m.id
    then none
    else some (written own metadata page m (is_none existing) now)

-- The records after an append, a duplicate's included.
abbrev pub after_append : Records → Option (List Write) → Records
after_append r none = r
after_append r (some ws) = apply_all r ws

pub record Delivery : Type 0 where
  pub message : Message
  pub peer_username : Option ℕ
  pub at : ℕ

unfoldable pub appends : ℕ → Records → List Delivery → Records
appends own r [] = r
appends own r (d ∷ ds) =
    appends own (after_append r (append own r d.message d.peer_username d.at)) ds

-- `find`: whether the message is on a page from `n` down.
abbrev pub found_from : Records → ℕ → ℕ → Bool
found_from r id zero = page_has id (load_page r zero)
found_from r id (suc n) = page_has id (load_page r (suc n)) || found_from r id n

abbrev pub found_by : Records → ℕ → Option Metadata → Bool
found_by r id none = false
found_by r id (some m) = found_from r id m.latest_page

unfoldable pub finds : ℕ → Records → ℕ → Bool
unfolding load_metadata load_page
finds own r id = found_by r id (load_metadata own r)

-- The delivery ladder, the two ranks below 0 as 0.
abbrev pub rank : MessageStatus → ℕ
rank sent = 1
rank delivered = 2
rank read = 3
rank _ = 0

abbrev pub same_status : MessageStatus → MessageStatus → Bool
same_status pending pending = true
same_status sent sent = true
same_status delivered delivered = true
same_status read read = true
same_status failed failed = true
same_status _ _ = false

unfoldable pub status_advances : MessageStatus → MessageStatus → Bool
status_advances current failed =
    not (same_status current failed)
    && (not (same_status current delivered) && not (same_status current read))
status_advances failed next = not (same_status failed next)
status_advances current next = not (same_status current next) && ltb (rank current) (rank next)
