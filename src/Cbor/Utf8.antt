-- ===== src/Cbor/Utf8.antt =====
-- `std::str::from_utf8`: whether bytes are well-formed UTF-8, by the table of the Unicode standard.
use citadel_agent.Prelude.{
  ℕ, zero, suc, Bool, true, false, ◌&&◌, List, [], ◌∷◌, leb, ◌==◌, if◌then◌else◌,
}

-- How many continuation bytes are awaited, and the bounds of the next one.
abbrev pub Awaited : Type 0
Awaited = ℕ × (ℕ × ℕ)

abbrev pub within : ℕ → ℕ → ℕ → Bool
within low high b = leb low b && leb b high

abbrev pub lead : ℕ → Awaited
lead b =
    if within 0xc2 0xdf b
    then (1, (0x80, 0xbf))
    else if b == 0xe0
    then (2, (0xa0, 0xbf))
    else if b == 0xed
    then (2, (0x80, 0x9f))
    else if within 0xe1 0xef b
    then (2, (0x80, 0xbf))
    else if b == 0xf0
    then (3, (0x90, 0xbf))
    else if within 0xf1 0xf3 b
    then (3, (0x80, 0xbf))
    else (3, (0x80, 0x8f))

abbrev pub is_utf8_from : Awaited → List ℕ → Bool
is_utf8_from (zero, bounds) [] = true
is_utf8_from (suc n, bounds) [] = false
is_utf8_from (zero, bounds) (b ∷ bs) =
    let next = is_utf8_from (zero, bounds) bs in
    let tail = is_utf8_from (lead b) bs in if leb b 0x7f then next else within 0xc2 0xf4 b && tail
is_utf8_from (suc n, (low, high)) (b ∷ bs) = within low high b && is_utf8_from (n, (0x80, 0xbf)) bs

unfoldable pub is_utf8 : List ℕ → Bool
is_utf8 bs = is_utf8_from (0, (0, 0)) bs
