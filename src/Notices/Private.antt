-- ===== src/Notices/Private.antt =====
-- A notice says no more of a message than the account allows (kernel/notices/decide.rs).
use mathlib.Core.Option.{map}
use citadel_agent.Prelude.{
  ℕ, ◌≡◌, refl, sym, subst, ◌∙◌, Bool, true, false, ◌&&◌, Option, none, some, [], if◌then◌else◌,
  any,
}
use citadel_agent.Text.{Text}
use citadel_agent.Notices.{
  NoticeKind, message, file_offer, NotificationPreview, text, sender_only, NoticeSource, a_message,
  a_peer_request, a_group_invite, a_file_offer, an_incoming_call, NoticeContext, NoticeTarget,
  NativeNotice, shows, wording, notice_of, decide,
}

-- What a source says without the text of a message or the name of a file.
abbrev pub without_content : NoticeSource → NoticeSource
without_content (a_message peer name t) = a_message peer name []
without_content (a_file_offer peer name f) = a_file_offer peer name []
without_content other = other

-- What a click on the notice uses, and of what kind it is.
abbrev pub kind_and_target : NativeNotice → NoticeKind × NoticeTarget
kind_and_target n = (n.kind, n.target)

-- The two tell the user the same: all of it, if the account shows the sender only; whether there is
-- a notice, of which kind and where a click leads, in any case.
abbrev pub IsAlike : NotificationPreview → Option NativeNotice → Option NativeNotice → Type 0
IsAlike sender_only n o = n ≡ o
IsAlike text n o = map kind_and_target n ≡ map kind_and_target o

told_same : (p : NotificationPreview) (n : Option NativeNotice) → IsAlike p n n
told_same sender_only n = refl
told_same text n = refl

-- Behind one test.
behind_test :
    (p : NotificationPreview) (t : Bool) (n o : Option NativeNotice)
    → IsAlike p n o
    → IsAlike p (if t then none else n) (if t then none else o)
behind_test p true n o h = told_same p none
behind_test p false n o h = h

joined :
    (p : NotificationPreview) (n o q : Option NativeNotice)
    → IsAlike p n o
    → IsAlike p q o
    → IsAlike p n q
joined sender_only n o q h k = h ∙ sym k
joined text n o q h k = h ∙ sym k

message-IsAlike :
    (p : NotificationPreview) (ctx : NoticeContext) (peer : ℕ) (name : Option Text) (t : Text)
    → ctx.preview ≡ p
    → IsAlike p
        (some (notice_of ctx message (wording ctx.preview (a_message peer name t))))
        (some (notice_of ctx message (wording ctx.preview (a_message peer name []))))
message-IsAlike sender_only ctx peer name t e = simp e
message-IsAlike text ctx peer name t e = refl

file-IsAlike :
    (p : NotificationPreview) (ctx : NoticeContext) (peer : ℕ) (name : Option Text) (f : Text)
    → ctx.preview ≡ p
    → IsAlike p
        (some (notice_of ctx file_offer (wording ctx.preview (a_file_offer peer name f))))
        (some (notice_of ctx file_offer (wording ctx.preview (a_file_offer peer name []))))
file-IsAlike sender_only ctx peer name f e = simp e
file-IsAlike text ctx peer name f e = refl

contentless :
    (source : NoticeSource) (ctx : NoticeContext) (p : NotificationPreview)
    → ctx.preview ≡ p
    → IsAlike p (decide source ctx) (decide (without_content source) ctx)
unfolding decide
contentless (a_message peer name t) ctx p e =
    behind_test p (ctx.muted && true) _ _
      (behind_test p (any (shows peer) ctx.focused) _ _ (message-IsAlike p ctx peer name t e))
contentless (a_file_offer peer name f) ctx p e =
    behind_test p (ctx.muted && true) _ _
      (behind_test p (any (shows peer) ctx.focused) _ _ (file-IsAlike p ctx peer name f e))
contentless (a_peer_request peer name) ctx p e = told_same p _
contentless (a_group_invite peer name) ctx p e = told_same p _
contentless (an_incoming_call peer name) ctx p e = told_same p _

-- Of two events that differ only in the text of a message or the name of a file, an account that
-- shows the sender only gets the same notice, so that none of the content is in it; and in any case
-- the kind of the notice and what a click opens are the same, and whether there is one.
pub decide-IsAlike :
    (a b : NoticeSource) (ctx : NoticeContext)
    → without_content a ≡ without_content b
    → IsAlike ctx.preview (decide a ctx) (decide b ctx)
decide-IsAlike a b ctx h =
    joined ctx.preview (decide a ctx) (decide (without_content a) ctx) (decide b ctx)
      (contentless a ctx ctx.preview refl)
      (subst (λ c. IsAlike ctx.preview (decide b ctx) (decide c ctx)) (sym h)
        (contentless b ctx ctx.preview refl))
