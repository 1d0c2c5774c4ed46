-- ===== src/NetPolicy/Ranges/Classes.antt =====
-- Which IPv4 addresses are public (citadel-app-net-policy/src/ranges.rs, `classify_v4`).
use citadel_agent.Prelude.{
  ℕ, ◌-◌, ◌/◌, ◌^◌, ◌≤◌, ◌<◌, ◌≡◌, ◌≢◌, ◌↔◌, refl, false, inl, inr, List, [], ◌∷◌, arith, All,
  Bool-cases,
}
use citadel_agent.NetPolicy.Ranges.{Ipv4Addr, to_u32, in_v4, ipv4}
use citadel_agent.NetPolicy.Ranges.Tables.{AddressClass, is_public, v4_table, find_v4, classify_v4}
use citadel_agent.NetPolicy.Ranges.Blocks.{IsOctets, in_v4_iff}

-- The special blocks, octet by octet.
pub data IsSpecial (ip : Ipv4Addr) : Type 0 where
  this_network : ip.a ≡ 0 → IsSpecial ip
  private_ten : ip.a ≡ 10 → IsSpecial ip
  shared : ip.a ≡ 100 → 64 ≤ ip.b → ip.b < 128 → IsSpecial ip
  loopback : ip.a ≡ 127 → IsSpecial ip
  link_local : ip.a ≡ 169 → ip.b ≡ 254 → IsSpecial ip
  private_twelve : ip.a ≡ 172 → 16 ≤ ip.b → ip.b < 32 → IsSpecial ip
  protocols : ip.a ≡ 192 → ip.b ≡ 0 → ip.c ≡ 0 → IsSpecial ip
  documentation_one : ip.a ≡ 192 → ip.b ≡ 0 → ip.c ≡ 2 → IsSpecial ip
  relay_anycast : ip.a ≡ 192 → ip.b ≡ 88 → ip.c ≡ 99 → IsSpecial ip
  private_sixteen : ip.a ≡ 192 → ip.b ≡ 168 → IsSpecial ip
  benchmarks : ip.a ≡ 198 → 18 ≤ ip.b → ip.b < 20 → IsSpecial ip
  documentation_two : ip.a ≡ 198 → ip.b ≡ 51 → ip.c ≡ 100 → IsSpecial ip
  documentation_three : ip.a ≡ 203 → ip.b ≡ 0 → ip.c ≡ 113 → IsSpecial ip
  multicast : 224 ≤ ip.a → ip.a < 240 → IsSpecial ip
  future : 240 ≤ ip.a → ip.a < 256 → IsSpecial ip
  broadcast : ip.a ≡ 255 → ip.b ≡ 255 → ip.c ≡ 255 → ip.d ≡ 255 → IsSpecial ip

abbrev Entry : Type 0
Entry = Ipv4Addr × ℕ × AddressClass

-- A search is public exactly when it fails, as no entry is.
find_v4-public :
    (ip : Ipv4Addr) (table : List Entry)
    → All (λ e. e.2 ≢ is_public) table
    → find_v4 ip table ≡ is_public
    → All (λ e. in_v4 ip e.0 e.1 ≡ false) table
unfolding find_v4
find_v4-public ip [] a h = tt
find_v4-public ip ((net, prefix, class) ∷ rest) a h = elim (Bool-cases (in_v4 ip net prefix)) [
  | inl e ↦ absurd (a.0 (rw e at h))
  | inr e ↦ (e, find_v4-public ip rest a.1 (rw e at h))
]

find_v4_fails :
    (ip : Ipv4Addr) (table : List Entry)
    → All (λ e. in_v4 ip e.0 e.1 ≡ false) table
    → find_v4 ip table ≡ is_public
unfolding find_v4
find_v4_fails ip [] a = refl
find_v4_fails ip ((net, prefix, class) ∷ rest) a = rw a.0 (find_v4_fails ip rest a.1)

module _ (ip net : Ipv4Addr) (prefix : ℕ) (vi : IsOctets ip) (vn : IsOctets net)
    (l : prefix ≤ 32) where
  outside :
      in_v4 ip net prefix ≡ false → to_u32 ip / 2 ^ (32 - prefix) ≢ to_u32 net / 2 ^ (32 - prefix)
  outside h e = cc ((in_v4_iff ip net prefix vi vn l).1 e)

  outside_of :
      to_u32 ip / 2 ^ (32 - prefix) ≢ to_u32 net / 2 ^ (32 - prefix) → in_v4 ip net prefix ≡ false
  outside_of h = elim (Bool-cases (in_v4 ip net prefix)) [
    | inl e ↦ absurd (h ((in_v4_iff ip net prefix vi vn l).0 e))
    | inr e ↦ e
  ]

not_public_entries : All (λ e. e.2 ≢ is_public) v4_table
not_public_entries = (
  λ e. cc,
  (
    λ e. cc,
    (
      λ e. cc,
      (
        λ e. cc,
        (
          λ e. cc,
          (
            λ e. cc,
            (
              λ e. cc,
              (
                λ e. cc,
                (
                  λ e. cc,
                  (λ e. cc, (λ e. cc, (λ e. cc, (λ e. cc, (λ e. cc, (λ e. cc, (λ e. cc, tt))))))),
                ),
              ),
            ),
          ),
        ),
      ),
    ),
  ),
)

module _ (ip : Ipv4Addr) (v : IsOctets ip) where
  listed_not_free : classify_v4 ip ≡ is_public → ¬ IsSpecial ip
  unfolding classify_v4
  listed_not_free h (this_network e0) =
      let out =
        outside ip (ipv4 0 0 0 0) 8 v (omega arith) (omega arith)
          (find_v4-public ip v4_table not_public_entries h).0 in
      absurd (out (omega arith))
  listed_not_free h (private_ten e0) =
      let out =
        outside ip (ipv4 10 0 0 0) 8 v (omega arith) (omega arith)
          (find_v4-public ip v4_table not_public_entries h).1.0 in
      absurd (out (omega arith))
  listed_not_free h (shared e0 e1 e2) =
      let out =
        outside ip (ipv4 100 64 0 0) 10 v (omega arith) (omega arith)
          (find_v4-public ip v4_table not_public_entries h).1.1.0 in
      absurd (out (omega arith))
  listed_not_free h (loopback e0) =
      let out =
        outside ip (ipv4 127 0 0 0) 8 v (omega arith) (omega arith)
          (find_v4-public ip v4_table not_public_entries h).1.1.1.0 in
      absurd (out (omega arith))
  listed_not_free h (link_local e0 e1) =
      let out =
        outside ip (ipv4 169 254 0 0) 16 v (omega arith) (omega arith)
          (find_v4-public ip v4_table not_public_entries h).1.1.1.1.0 in
      absurd (out (omega arith))
  listed_not_free h (private_twelve e0 e1 e2) =
      let out =
        outside ip (ipv4 172 16 0 0) 12 v (omega arith) (omega arith)
          (find_v4-public ip v4_table not_public_entries h).1.1.1.1.1.0 in
      absurd (out (omega arith))
  listed_not_free h (protocols e0 e1 e2) =
      let out =
        outside ip (ipv4 192 0 0 0) 24 v (omega arith) (omega arith)
          (find_v4-public ip v4_table not_public_entries h).1.1.1.1.1.1.0 in
      absurd (out (omega arith))
  listed_not_free h (documentation_one e0 e1 e2) =
      let out =
        outside ip (ipv4 192 0 2 0) 24 v (omega arith) (omega arith)
          (find_v4-public ip v4_table not_public_entries h).1.1.1.1.1.1.1.0 in
      absurd (out (omega arith))
  listed_not_free h (relay_anycast e0 e1 e2) =
      let out =
        outside ip (ipv4 192 88 99 0) 24 v (omega arith) (omega arith)
          (find_v4-public ip v4_table not_public_entries h).1.1.1.1.1.1.1.1.0 in
      absurd (out (omega arith))
  listed_not_free h (private_sixteen e0 e1) =
      let out =
        outside ip (ipv4 192 168 0 0) 16 v (omega arith) (omega arith)
          (find_v4-public ip v4_table not_public_entries h).1.1.1.1.1.1.1.1.1.0 in
      absurd (out (omega arith))
  listed_not_free h (benchmarks e0 e1 e2) =
      let out =
        outside ip (ipv4 198 18 0 0) 15 v (omega arith) (omega arith)
          (find_v4-public ip v4_table not_public_entries h).1.1.1.1.1.1.1.1.1.1.0 in
      absurd (out (omega arith))
  listed_not_free h (documentation_two e0 e1 e2) =
      let out =
        outside ip (ipv4 198 51 100 0) 24 v (omega arith) (omega arith)
          (find_v4-public ip v4_table not_public_entries h).1.1.1.1.1.1.1.1.1.1.1.0 in
      absurd (out (omega arith))
  listed_not_free h (documentation_three e0 e1 e2) =
      let out =
        outside ip (ipv4 203 0 113 0) 24 v (omega arith) (omega arith)
          (find_v4-public ip v4_table not_public_entries h).1.1.1.1.1.1.1.1.1.1.1.1.0 in
      absurd (out (omega arith))
  listed_not_free h (multicast e0 e1) =
      let out =
        outside ip (ipv4 224 0 0 0) 4 v (omega arith) (omega arith)
          (find_v4-public ip v4_table not_public_entries h).1.1.1.1.1.1.1.1.1.1.1.1.1.0 in
      absurd (out (omega arith))
  listed_not_free h (future e0 e1) =
      let out =
        outside ip (ipv4 240 0 0 0) 4 v (omega arith) (omega arith)
          (find_v4-public ip v4_table not_public_entries h).1.1.1.1.1.1.1.1.1.1.1.1.1.1.0 in
      absurd (out (omega arith))
  listed_not_free h (broadcast e0 e1 e2 e3) =
      let out =
        outside ip (ipv4 255 255 255 255) 32 v (omega arith) (omega arith)
          (find_v4-public ip v4_table not_public_entries h).1.1.1.1.1.1.1.1.1.1.1.1.1.1.1.0 in
      absurd (out (omega arith))

  others_public : ¬ IsSpecial ip → classify_v4 ip ≡ is_public
  unfolding classify_v4
  others_public h = find_v4_fails ip v4_table (
    outside_of ip (ipv4 0 0 0 0) 8 v (omega arith) (omega arith)
        (λ e. h (this_network (omega arith))),
    (
      outside_of ip (ipv4 10 0 0 0) 8 v (omega arith) (omega arith)
          (λ e. h (private_ten (omega arith))),
      (
        outside_of ip (ipv4 100 64 0 0) 10 v (omega arith) (omega arith)
            (λ e. h (shared (omega arith) (omega arith) (omega arith))),
        (
          outside_of ip (ipv4 127 0 0 0) 8 v (omega arith) (omega arith)
              (λ e. h (loopback (omega arith))),
          (
            outside_of ip (ipv4 169 254 0 0) 16 v (omega arith) (omega arith)
                (λ e. h (link_local (omega arith) (omega arith))),
            (
              outside_of ip (ipv4 172 16 0 0) 12 v (omega arith) (omega arith)
                  (λ e. h (private_twelve (omega arith) (omega arith) (omega arith))),
              (
                outside_of ip (ipv4 192 0 0 0) 24 v (omega arith) (omega arith)
                    (λ e. h (protocols (omega arith) (omega arith) (omega arith))),
                (
                  outside_of ip (ipv4 192 0 2 0) 24 v (omega arith) (omega arith)
                      (λ e. h (documentation_one (omega arith) (omega arith) (omega arith))),
                  (
                    outside_of ip (ipv4 192 88 99 0) 24 v (omega arith) (omega arith)
                        (λ e. h (relay_anycast (omega arith) (omega arith) (omega arith))),
                    (
                      outside_of ip (ipv4 192 168 0 0) 16 v (omega arith) (omega arith)
                          (λ e. h (private_sixteen (omega arith) (omega arith))),
                      (
                        outside_of ip (ipv4 198 18 0 0) 15 v (omega arith) (omega arith)
                            (λ e. h (benchmarks (omega arith) (omega arith) (omega arith))),
                        (
                          outside_of ip (ipv4 198 51 100 0) 24 v (omega arith) (omega arith) (λ e.
                              h (documentation_two (omega arith) (omega arith) (omega arith))),
                          (
                            outside_of ip (ipv4 203 0 113 0) 24 v (omega arith) (omega arith) (λ e.
                                h (documentation_three (omega arith) (omega arith) (omega arith))),
                            (
                              outside_of ip (ipv4 224 0 0 0) 4 v (omega arith) (omega arith)
                                  (λ e. h (multicast (omega arith) (omega arith))),
                              (
                                outside_of ip (ipv4 240 0 0 0) 4 v (omega arith) (omega arith)
                                    (λ e. h (future (omega arith) (omega arith))),
                                (
                                  outside_of ip (ipv4 255 255 255 255) 32 v (omega arith)
                                      (omega arith)
                                      (λ e. h (
                                        broadcast (omega arith) (omega arith) (omega arith)
                                          (omega arith))),
                                  tt,
                                ),
                              ),
                            ),
                          ),
                        ),
                      ),
                    ),
                  ),
                ),
              ),
            ),
          ),
        ),
      ),
    ),
  )

-- An IPv4 address is public exactly when it lies in none of the special blocks.
pub classify_v4-public_iff :
    (ip : Ipv4Addr) → IsOctets ip → (classify_v4 ip ≡ is_public) ↔ (¬ IsSpecial ip)
classify_v4-public_iff ip v = (listed_not_free ip v, others_public ip v)
