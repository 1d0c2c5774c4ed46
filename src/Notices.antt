-- ===== src/Notices.antt =====
-- kernel/notices/decide.rs: what to tell the user, from what happened and how they set the account.
-- A text is a list of characters.
pub mod Private
mod Tests
use citadel_agent.Prelude.{
  ℕ, zero, suc, ◌+◌, Bool, true, false, not, ◌&&◌, ◌||◌, Option, none, some, List, [], ◌∷◌, ◌++◌,
  ◌==◌, if◌then◌else◌, any, length,
}
use citadel_agent.Text.{Text, bytes}
use citadel_agent.AppId.{show}

abbrev pub preview_chars : ℕ
preview_chars = 100

pub data NoticeKind : Type 0 where
  message peer_request group_invite file_offer incoming_call : NoticeKind

pub data NotificationPreview : Type 0 where
  text sender_only : NotificationPreview

-- The peer, its name if it is known, and what it wrote or offers.
pub data NoticeSource : Type 0 where
  a_message : ℕ → Option Text → Text → NoticeSource
  a_peer_request a_group_invite : ℕ → Option Text → NoticeSource
  a_file_offer : ℕ → Option Text → Text → NoticeSource
  an_incoming_call : ℕ → Option Text → NoticeSource

pub record NoticeContext : Type 0 where
  pub cid : ℕ
  pub account : Text
  pub server_host : Option Text
  pub preview : NotificationPreview
  pub muted : Bool
  pub focused : List (Option ℕ)

pub record NoticeTarget : Type 0 where
  pub account : Text
  pub server_host : Option Text
  pub opens : Text

pub record NativeNotice : Type 0 where
  pub cid : ℕ
  pub kind : NoticeKind
  pub title : Text
  pub body : Text
  pub target : NoticeTarget
  pub request_id : Option ℕ

abbrev pub kind_and_peer : NoticeSource → NoticeKind × ℕ
kind_and_peer (a_message peer name t) = (message, peer)
kind_and_peer (a_peer_request peer name) = (peer_request, peer)
kind_and_peer (a_group_invite peer name) = (group_invite, peer)
kind_and_peer (a_file_offer peer name f) = (file_offer, peer)
kind_and_peer (an_incoming_call peer name) = (incoming_call, peer)

abbrev pub who : Option Text → Text
who none = bytes "Someone"
who (some name) = name

abbrev pub is_call : NoticeKind → Bool
is_call incoming_call = true
is_call _ = false

abbrev pub shows : ℕ → Option ℕ → Bool
shows peer none = false
shows peer (some p) = p == peer

abbrev pub is_any : List (Option ℕ) → Bool
is_any [] = false
is_any (f ∷ fs) = true

-- Whether a window in front of the user shows it already.
abbrev pub shown : NoticeSource → List (Option ℕ) → Bool
shown (a_message peer name t) focused = any (shows peer) focused
shown (a_file_offer peer name f) focused = any (shows peer) focused
shown _ focused = is_any focused

abbrev pub previews : NotificationPreview → Bool
previews text = true
previews sender_only = false

abbrev pub take_chars : ℕ → Text → Text
take_chars zero t = []
take_chars (suc n) [] = []
take_chars (suc n) (c ∷ cs) = c ∷ take_chars n cs

-- A `u64` in decimal has at most twenty digits.
abbrev pub peer_text : Text → ℕ → Text
peer_text prefix peer = prefix ++ show 20 peer

-- The title, the body and what a click opens.
abbrev pub wording : NotificationPreview → NoticeSource → Text × (Text × Text)
wording p (a_message peer name t) = (
  who name,
  (
    if previews p then take_chars preview_chars t else bytes "New message",
    peer_text (bytes "conversation:") peer,
  ),
)
wording p (a_file_offer peer name f) = (
  who name,
  (
    if previews p then bytes "Sent you " ++ f else bytes "Sent you a file",
    peer_text (bytes "conversation:") peer,
  ),
)
wording p (a_peer_request peer name) = (
  who name ++ bytes " wants to connect",
  (bytes "Open Citadel to accept or decline.", bytes "requests"),
)
wording p (a_group_invite peer name) =
    (bytes "Group invitation", (who name ++ bytes " invited you to a group.", bytes "requests"))
wording p (an_incoming_call peer name) =
    (who name ++ bytes " is calling", (bytes "Incoming call", peer_text (bytes "call:") peer))

abbrev pub notice_of : NoticeContext → NoticeKind → Text × (Text × Text) → NativeNotice
notice_of ctx kind (title, (body, opens)) = record {
  cid = ctx.cid;
  kind = kind;
  title = title;
  body = body;
  target = record { account = ctx.account; server_host = ctx.server_host; opens = opens };
  request_id = none;
}

unfoldable pub decide : NoticeSource → NoticeContext → Option NativeNotice
decide source ctx =
    let (kind, peer) = kind_and_peer source in
    if ctx.muted && not (is_call kind)
    then none
    else if shown source ctx.focused
    then none
    else some (notice_of ctx kind (wording ctx.preview source))
