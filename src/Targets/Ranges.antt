-- ===== src/Targets/Ranges.antt =====
-- The test on the four parts of an address against the ranges of numbers it keeps out.
use vibecoding_dofe_ai.Base.{
  ℕ, ◌+◌, ◌*◌, ◌<◌, ◌≡◌, Bool, true, false, ◌&&◌, leb, ltb, arith, nat_eq, List, [], ◌∷◌, All,
}
use vibecoding_dofe_ai.Targets.{is_public_octets}

-- The 32 bits of an address as a number.
abbrev pub address_number : (first second third fourth : ℕ) → ℕ
address_number first second third fourth = first * 16777216 + second * 65536 + third * 256 + fourth

-- Whether a number lies in the block of 2 ^ k addresses that starts at another.
abbrev pub in_block : (start size n : ℕ) → Bool
in_block start size n = leb start n && ltb n (start + size)

-- An IPv4 address of four parts below 256 that passes for public lies, as a number of 32 bits,
-- outside 10/8, 172.16/12, 192.168/16, 127/8, 169.254/16 and 100.64/10, and below 224.0.0.0.
pub is_public_octets-in_block :
    (first second third fourth : ℕ)
    → first < 256
    → second < 256
    → third < 256
    → fourth < 256
    → is_public_octets first second third fourth ≡ true
    → (in_block 167772160 16777216 (address_number first second third fourth) ≡ false)
      × (in_block 2886729728 1048576 (address_number first second third fourth) ≡ false)
      × (in_block 3232235520 65536 (address_number first second third fourth) ≡ false)
      × (in_block 2130706432 16777216 (address_number first second third fourth) ≡ false)
      × (in_block 2851995648 65536 (address_number first second third fourth) ≡ false)
      × (in_block 1681915904 4194304 (address_number first second third fourth) ≡ false)
      × (address_number first second third fourth < 3758096384)
unfolding is_public_octets
is_public_octets-in_block a b c d ha hb hc hd e = (
  ground arith,
  ground arith,
  ground arith,
  ground arith,
  ground arith,
  ground arith,
  ground arith,
)

-- The blocks of IPv4 that IANA keeps for special purposes, each with its first address and size.
abbrev pub special_blocks : List (ℕ × ℕ)
special_blocks =
    (0, 16777216)
    ∷ (167772160, 16777216)
    ∷ (1681915904, 4194304)
    ∷ (2130706432, 16777216)
    ∷ (2851995648, 65536)
    ∷ (2886729728, 1048576)
    ∷ (3221225472, 256)
    ∷ (3221225984, 256)
    ∷ (3232235520, 65536)
    ∷ (3323068416, 131072)
    ∷ (3325256704, 256)
    ∷ (3405803776, 256)
    ∷ (3758096384, 536870912)
    ∷ []

abbrev pub IsOutside : ℕ → Type 0
IsOutside n = All (λ (block : ℕ × ℕ). in_block block.0 block.1 n ≡ false) special_blocks

pub is_public_octets-IsOutside :
    (first second third fourth : ℕ)
    → first < 256
    → second < 256
    → third < 256
    → fourth < 256
    → is_public_octets first second third fourth ≡ true
    → IsOutside (address_number first second third fourth)
unfolding is_public_octets
is_public_octets-IsOutside a b c d ha hb hc hd e = ground arith
