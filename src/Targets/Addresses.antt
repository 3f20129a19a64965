-- ===== src/Targets/Addresses.antt =====
-- What an address that passes for public is as a number: of 32 bits for IPv4, and by its first group
-- of 16 bits for IPv6.
use mathlib.Core.Path.{subst}
use text.Mathlib.Text.{starts_with}
use vibecoding_dofe_ai.Base.{
  ℕ, ◌+◌, ◌*◌, ◌<◌, ◌≤◌, ◌≡◌, ◌⊎◌, refl, true, false, String, List, [], ◌∷◌, Option, none, some,
  All, length, arith, ◌==◌, nat_eq, Bool-cases, inl, inr,
}
use vibecoding_dofe_ai.Targets.{
  NetTools, is_public_parts, is_public_ipv4, is_public_plain_ipv6, is_public_address,
}
use vibecoding_dofe_ai.Targets.Ranges.{
  address_number, in_block, IsOutside, is_public_octets-IsOutside,
}

-- The number that hexadecimal digits stand for.
abbrev pub hex_number : (read : ℕ) → List ℕ → ℕ
hex_number read [] = read
hex_number read (d ∷ ds) = hex_number (read * 16 + d) ds

-- What `isIP` of Node and RFC 4291 say of the text of an address; `digits` are the values of the
-- hexadecimal digits in front of the first colon.
pub record IsAddressing (tools : NetTools) (digits : String → List ℕ) : Type 0 where
  pub octets_small :
      (address : String) (a b c d : ℕ)
      → tools.is_ip address ≡ 4
      → tools.octets address ≡ some a ∷ some b ∷ some c ∷ some d ∷ []
      → (a < 256) × (b < 256) × (c < 256) × (d < 256)
  pub embedded :
      (address mapped : String)
      → tools.is_ip address ≡ 6
      → tools.mapped_ipv4 (tools.to_lower_case address) ≡ some mapped
      → tools.is_ip mapped ≡ 4
  pub group_short :
      (address : String)
      → tools.is_ip address ≡ 6
      → (length (digits (tools.to_lower_case address)) ≤ 4)
        × All (λ d. d < 16) (digits (tools.to_lower_case address))
  pub starts_2 :
      (address : String)
      → tools.is_ip address ≡ 6
      → starts_with (tools.to_lower_case address) "2" ≡ true
      → (rest : List ℕ) × (digits (tools.to_lower_case address) ≡ 2 ∷ rest)
  pub starts_3 :
      (address : String)
      → tools.is_ip address ≡ 6
      → starts_with (tools.to_lower_case address) "3" ≡ true
      → (rest : List ℕ) × (digits (tools.to_lower_case address) ≡ 3 ∷ rest)

-- An address by its first group: not unspecified, not the loopback and not an embedded one (0), and
-- outside fc00::/7, fe80::/10 and ff00::/8.
abbrev pub IsOutsideIpv6 : ℕ → Type 0
IsOutsideIpv6 group =
    (0 < group)
    × (in_block 64512 512 group ≡ false)
    × (in_block 65152 64 group ≡ false)
    × (in_block 65280 256 group ≡ false)

-- A first group of at most four digits that starts with 2 or 3 lies from 2000 to 3fff, or below 1000
-- if it has fewer digits.
group_bounds :
    (d : ℕ) (rest : List ℕ)
    → 0 < d
    → d < 4
    → length (d ∷ rest) ≤ 4
    → All (λ x. x < 16) (d ∷ rest)
    → IsOutsideIpv6 (hex_number 0 (d ∷ rest))
group_bounds d [] p q l a = ground arith
group_bounds d (x ∷ []) p q l (_, (hx, _)) = ground arith
group_bounds d (x ∷ y ∷ []) p q l (_, (hx, (hy, _))) = ground arith
group_bounds d (x ∷ y ∷ z ∷ []) p q l (_, (hx, (hy, (hz, _)))) = ground arith
group_bounds d (x ∷ y ∷ z ∷ w ∷ rest) p q l a = absurd (omega (arith, l))

module _ (tools : NetTools) (digits : String → List ℕ) where
  -- Four parts below 256 whose number is outside the special blocks.
  pub IsOutsideIpv4 : String → Type 0
  IsOutsideIpv4 address =
      (a : ℕ) × (b : ℕ) × (c : ℕ) × (d : ℕ) × (tools.octets address
        ≡ some a ∷ some b ∷ some c ∷ some d ∷ [])
      × IsOutside (address_number a b c d)

  -- An address of IPv4, one that is embedded in IPv6, or another of IPv6, outside the blocks.
  pub IsRemote : String → Type 0
  IsRemote address =
      ((tools.is_ip address ≡ 4) × IsOutsideIpv4 address)
      ⊎ ((tools.is_ip address ≡ 6)
          × (((mapped : String) × (tools.mapped_ipv4 (tools.to_lower_case address) ≡ some mapped)
                × IsOutsideIpv4 mapped)
              ⊎ IsOutsideIpv6 (hex_number 0 (digits (tools.to_lower_case address)))))

  module _ (laws : IsAddressing tools digits) where
    open laws use {octets_small, embedded, group_short, starts_2, starts_3}

    parts-IsOutsideIpv4 :
        (address : String) (parts : List (Option ℕ))
        → tools.is_ip address ≡ 4
        → tools.octets address ≡ parts
        → is_public_parts parts ≡ true
        → IsOutsideIpv4 address
    unfolding IsOutsideIpv4
    parts-IsOutsideIpv4 address (some a ∷ some b ∷ some c ∷ some d ∷ []) four e p =
        let h = octets_small address a b c d four e in
        (a, b, c, d, e, is_public_octets-IsOutside a b c d h.0 h.1 h.2 h.3 p)
    parts-IsOutsideIpv4 address _ four e p = absurd cc

    mapped-IsOutsideIpv4 :
        (address mapped : String)
        → tools.is_ip address ≡ 6
        → tools.mapped_ipv4 (tools.to_lower_case address) ≡ some mapped
        → is_public_ipv4 tools mapped ≡ true
        → IsOutsideIpv4 mapped
    mapped-IsOutsideIpv4 address mapped six e p =
        parts-IsOutsideIpv4 mapped (tools.octets mapped) (embedded address mapped six e) refl p

    first-IsOutsideIpv6 :
        (address : String) (d : ℕ) (rest : List ℕ)
        → tools.is_ip address ≡ 6
        → digits (tools.to_lower_case address) ≡ d ∷ rest
        → 0 < d
        → d < 4
        → IsOutsideIpv6 (hex_number 0 (digits (tools.to_lower_case address)))
    first-IsOutsideIpv6 address d rest six e p q =
        let h : (length (d ∷ rest) ≤ 4) × All (λ x. x < 16) (d ∷ rest) =
          subst (λ ds. (length ds ≤ 4) × All (λ x. x < 16) ds) e (group_short address six) in
        rw e (group_bounds d rest p q h.0 h.1)

    plain-IsOutsideIpv6 :
        (address : String)
        → tools.is_ip address ≡ 6
        → is_public_plain_ipv6 tools (tools.to_lower_case address) none ≡ true
        → IsOutsideIpv6 (hex_number 0 (digits (tools.to_lower_case address)))
    plain-IsOutsideIpv6 address six p =
        elim (Bool-cases (starts_with (tools.to_lower_case address) "2")) [
          | inl e ↦
              let (rest, h) = starts_2 address six e in
              first-IsOutsideIpv6 address 2 rest six h (omega arith) (omega arith)
          | inr e ↦
              let (rest, h) = starts_3 address six (ground (arith, e, p)) in
              first-IsOutsideIpv6 address 3 rest six h (omega arith) (omega arith)
        ]

    ipv6-IsRemote :
        (address : String) (o : Option String)
        → tools.is_ip address ≡ 6
        → tools.mapped_ipv4 (tools.to_lower_case address) ≡ o
        → is_public_plain_ipv6 tools (tools.to_lower_case address) o ≡ true
        → IsRemote address
    unfolding IsRemote
    ipv6-IsRemote address none six e p = inr (six, inr (plain-IsOutsideIpv6 address six p))
    ipv6-IsRemote address (some mapped) six e p =
        inr (six, inl (mapped, e, mapped-IsOutsideIpv4 address mapped six e p))

    pub is_public_address-IsRemote :
        (address : String) → is_public_address tools address ≡ true → IsRemote address
    unfolding IsRemote
    is_public_address-IsRemote address p = elim (Bool-cases (tools.is_ip address == 4)) [
      | inl e ↦
          let four : tools.is_ip address ≡ 4 = ground (arith, e) in
          inl (
            four,
            parts-IsOutsideIpv4 address (tools.octets address) four refl (ground (arith, e, p)),
          )
      | inr e ↦
          let six : tools.is_ip address ≡ 6 = ground (arith, e, p) in
          ipv6-IsRemote address _ six refl (ground (arith, e, six, p))
    ]
