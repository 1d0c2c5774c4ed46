-- ===== src/NetPolicy/Ranges/Blocks.antt =====
-- A masked comparison is membership of the CIDR block (citadel-app-net-policy/src/ranges.rs,
-- `in_v4`).
use citadel_agent.Bits.{bit_and-eq_iff, pow-pos}
use citadel_agent.Prelude.{
  ℕ, zero, suc, ◌-◌, ◌*◌, ◌/◌, ◌^◌, ◌≤◌, ◌<◌, ◌≡◌, ◌↔◌, refl, Bool, true, arith, ◌==◌, ◌&&◌, ==→eq,
  leb, leb→le, &&→both, Bool-cases, inl, inr, subst, sym, ==_iff,
}
use citadel_agent.NetPolicy.Ranges.{Ipv4Addr, to_u32, mask, in_net, in_v4}

pub record IsOctets (ip : Ipv4Addr) : Type 0 where
  pub a : ip.a < 256
  pub b : ip.b < 256
  pub c : ip.c < 256
  pub d : ip.d < 256

-- Every prefix length, checked by evaluation.
abbrev good_mask : ℕ → Bool
good_mask p =
    mask 32 p == (2 ^ p - 1) * 2 ^ (32 - p)
    && (2 ^ p * 2 ^ (32 - p) == 2 ^ 32 && leb 1 (2 ^ (32 - p)))

abbrev all_upto : ℕ → (ℕ → Bool) → Bool
all_upto zero f = f zero
all_upto (suc n) f = f (suc n) && all_upto n f

all_upto_sound : (n : ℕ) (f : ℕ → Bool) (p : ℕ) → all_upto n f ≡ true → p ≤ n → f p ≡ true
all_upto_sound zero f zero h l = h
all_upto_sound zero f (suc p) h l = absurd (omega arith)
all_upto_sound (suc n) f p h l =
    let both = &&→both (f (suc n)) (all_upto n f) h in
    elim (Bool-cases (p == suc n)) [
      | inl last ↦ subst (λ m. f m ≡ true) (sym (==→eq p (suc n) last)) both.0
      | inr below ↦ all_upto_sound n f p both.1 (ground arith)
    ]

good_masks : all_upto 32 good_mask ≡ true
unfolding mask
good_masks = refl

-- What a mask of `prefix` ones is.
mask_ones :
    (p : ℕ)
    → p ≤ 32
    → (mask 32 p ≡ (2 ^ p - 1) * 2 ^ (32 - p))
      × (2 ^ p * 2 ^ (32 - p) ≡ 2 ^ 32)
      × (0 < 2 ^ (32 - p))
mask_ones p l =
    let parts = &&→both _ _ (all_upto_sound 32 good_mask p good_masks l) in
    let rest = &&→both _ _ parts.1 in (==→eq _ _ parts.0, ==→eq _ _ rest.0, leb→le _ _ rest.1)

-- Membership is agreement of the leading `prefix` bits.
pub in_v4_iff :
    (ip net : Ipv4Addr) (prefix : ℕ)
    → IsOctets ip
    → IsOctets net
    → prefix ≤ 32
    → (in_v4 ip net prefix ≡ true)
      ↔ (to_u32 ip / 2 ^ (32 - prefix) ≡ to_u32 net / 2 ^ (32 - prefix))
unfolding in_v4 in_net
in_v4_iff ip net prefix vi vn l =
    let (ones, whole, pos) = mask_ones prefix l in
    let agree =
      bit_and-eq_iff prefix (32 - prefix) (2 ^ prefix - 1) (to_u32 ip) (to_u32 net)
        (omega (arith, pow-pos prefix)) (rw whole (omega arith)) (rw whole (omega arith)) pos in
    (λ h. agree.0 (rw ones at (==→eq _ _ h)), λ h. rw ones ((==_iff _ _).1 (agree.1 h)))
