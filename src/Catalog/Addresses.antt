-- ===== src/Catalog/Addresses.antt =====
-- `catalogIPAllowed` of internal/server/opds_proxy.go: the addresses that the server connects to for a
-- catalog. An address of 4 or 16 bytes is a number; one that maps an IPv4 address counts as that.
use native.Mathlib.Nat.{mul-le-mul_right}
use quire_server.Base.{
  ℕ, zero, suc, ◌∙◌, ◌++◌, refl, ◌≤◌, ◌<◌, ◌+◌, ◌%◌, subst, Bool-cases, inl, inr, ltb, ◌*◌, ◌-◌,
  ◌/◌, ◌^◌, ◌≡◌, Bool, true, false, not, ◌&&◌, ◌||◌, leb, List, [], ◌∷◌, any, all, ◌==◌, nat_eq,
  if◌then◌else◌, arith,
}

pub data Ip : Type 0 where
  ipv4 ipv6 : ℕ → Ip

-- A block of addresses: its first address, and the length of its prefix.
pub data Block : Type 0 where
  block4 block6 : (start prefix : ℕ) → Block

-- a.b.c.d
abbrev pub quad : (a b c d : ℕ) → ℕ
quad a b c d = ((a * 256 + b) * 256 + c) * 256 + d

-- The first two groups of 16 bits of an IPv6 address, and the last.
abbrev pub groups : (a b z : ℕ) → ℕ
groups a b z = (a * 65536 + b) * 2 ^ 96 + z

-- `IPNet.Contains`
unfoldable pub in_block : Block → Ip → Bool
in_block (block4 start prefix) (ipv4 n) = n / 2 ^ (32 - prefix) == start / 2 ^ (32 - prefix)
in_block (block6 start prefix) (ipv6 n) = n / 2 ^ (128 - prefix) == start / 2 ^ (128 - prefix)
in_block (block4 start prefix) (ipv6 n) = false
in_block (block6 start prefix) (ipv4 n) = false

-- The methods of net.IP, by the blocks that they look for.
abbrev pub loopback : List Block
loopback = block4 (quad 127 0 0 0) 8 ∷ block6 1 128 ∷ []

abbrev pub unspecified : List Block
unspecified = block4 0 32 ∷ block6 0 128 ∷ []

abbrev pub multicast : List Block
multicast = block4 (quad 224 0 0 0) 4 ∷ block6 (groups 0xff00 0 0) 8 ∷ []

abbrev pub link_local_unicast : List Block
link_local_unicast = block4 (quad 169 254 0 0) 16 ∷ block6 (groups 0xfe80 0 0) 10 ∷ []

abbrev pub broadcast : List Block
broadcast = block4 (quad 255 255 255 255) 32 ∷ []

abbrev pub private : List Block
private =
    block4 (quad 10 0 0 0) 8
    ∷ block4 (quad 172 16 0 0) 12
    ∷ block4 (quad 192 168 0 0) 16
    ∷ block6 (groups 0xfc00 0 0) 7
    ∷ []

abbrev pub within : List Block → Ip → Bool
within bs ip = any (λ b. in_block b ip) bs

abbrev pub is_global_unicast : Ip → Bool
is_global_unicast ip = not (
    within broadcast ip
    || within unspecified ip
    || within loopback ip
    || within multicast ip
    || within link_local_unicast ip)

-- The blocks that no permission opens. 64:ff9b:1::/48 is written by its first 48 bits.
abbrev pub reserved : List Block
reserved =
    block4 0 8
    ∷ block4 (quad 100 64 0 0) 10
    ∷ block4 (quad 168 63 129 16) 32
    ∷ block4 (quad 192 0 0 0) 24
    ∷ block4 (quad 192 0 2 0) 24
    ∷ block4 (quad 198 18 0 0) 15
    ∷ block4 (quad 198 51 100 0) 24
    ∷ block4 (quad 203 0 113 0) 24
    ∷ block4 (quad 240 0 0 0) 4
    ∷ block6 (groups 0xfd00 0xec2 0x254) 128
    ∷ block6 (groups 0x64 0xff9b 0) 96
    ∷ block6 (groups 0x64 0xff9b (2 ^ 80)) 48
    ∷ block6 (groups 0x2001 0xdb8 0) 32
    ∷ block6 (groups 0x2001 0 0) 32
    ∷ block6 (groups 0x2002 0 0) 16
    ∷ []

-- `catalogIPAllowed`, for an address that is not nil; `lan` is the permission of its origin. Link-local
-- multicast addresses are multicast ones, which no global unicast address is.
unfoldable pub catalog_ip_allowed : Ip → Bool → Bool
catalog_ip_allowed ip lan =
    if within loopback ip
    then lan
    else if not (is_global_unicast ip) || within link_local_unicast ip || within unspecified ip
    then false
    else if within reserved ip
    then false
    else if within private ip || within loopback ip
    then lan
    else true

-- The check of `DialContext` on the addresses of a host.
unfoldable pub dial_allowed : Bool → List Ip → Bool
dial_allowed lan [] = false
dial_allowed lan (ip ∷ ips) = all (λ i. catalog_ip_allowed i lan) (ip ∷ ips)

-- The order of the tests, by the kinds of an address.
catalog_ip_allowed-within :
    (ip : Ip)
    → let closed =
        within link_local_unicast ip
        || (within multicast ip
            || (within unspecified ip || (within broadcast ip || within reserved ip))) in
      (catalog_ip_allowed ip false ≡ not (within loopback ip || within private ip || closed))
      × (catalog_ip_allowed ip true ≡ (within loopback ip || not closed))
unfolding catalog_ip_allowed
catalog_ip_allowed-within ip =
    go (within loopback ip) (within private ip) (within link_local_unicast ip) (within multicast ip)
      (within unspecified ip) (within broadcast ip) (within reserved ip)
  where
    go :
        (l p k m u b r : Bool)
        → ((if l
              then false
              else if not (not (b || u || l || m || k)) || k || u
              then false
              else if r
              then false
              else if p || l
              then false
              else true)
            ≡ not (l || p || (k || (m || (u || (b || r))))))
          × ((if l
                then true
                else if not (not (b || u || l || m || k)) || k || u
                then false
                else if r
                then false
                else if p || l
                then true
                else true)
              ≡ (l || not (k || (m || (u || (b || r))))))
    go l p k m u b r = (ground arith, ground arith)

-- Whether a number stands in one of the runs from a first to a last number.
abbrev pub covers : ℕ → List (ℕ × ℕ) → Bool
covers n spans = any (λ s. leb s.0 n && leb n s.1) spans

div-span : (n d q : ℕ) → 0 < d → (n / d == q) ≡ (leb (q * d) n && leb n (q * d + (d - 1)))
div-span n d q pos_d =
    let whole : n / d * d + n % d ≡ n = omega (arith, pos_d) in
    let rest : n % d < d = omega (arith, pos_d) in
    elim (Bool-cases (n / d == q)) [
      | inl same ↦
          let q_eq : n / d ≡ q = ground (arith, same) in
          let there : q * d + n % d ≡ n = subst (λ x. x * d + n % d ≡ n) q_eq whole in
          ground (arith, there, rest, same)
      | inr other ↦ elim (Bool-cases (ltb (n / d) q)) [
        | inl less ↦
            let le : suc (n / d) ≤ q = ground (arith, less) in
            let scaled : suc (n / d) * d ≤ q * d = mul-le-mul_right d le in
            let wide : suc (n / d) * d ≡ n / d * d + d = omega arith in
            ground (arith, other, scaled, wide, whole, rest)
        | inr more ↦
            let le : suc q ≤ n / d = ground (arith, more, other) in
            let scaled : suc q * d ≤ n / d * d = mul-le-mul_right d le in
            let wide : suc q * d ≡ q * d + d = omega arith in
            ground (arith, other, scaled, wide, whole, rest)
      ]
    ]

pow_positive : (w : ℕ) → 0 < 2 ^ w
pow_positive zero = omega arith
pow_positive (suc w) = omega (arith, pow_positive w)

abbrev block_span : (start size : ℕ) → ℕ × ℕ
block_span start size = (start / size * size, start / size * size + (size - 1))

-- The blocks of either width by the numbers that they run from and to.
abbrev spans4 : List Block → List (ℕ × ℕ)
spans4 [] = []
spans4 (block4 start prefix ∷ bs) = block_span start (2 ^ (32 - prefix)) ∷ spans4 bs
spans4 (block6 start prefix ∷ bs) = spans4 bs

abbrev spans6 : List Block → List (ℕ × ℕ)
spans6 [] = []
spans6 (block4 start prefix ∷ bs) = spans6 bs
spans6 (block6 start prefix ∷ bs) = block_span start (2 ^ (128 - prefix)) ∷ spans6 bs

within-spans4 : (n : ℕ) (bs : List Block) → within bs (ipv4 n) ≡ covers n (spans4 bs)
unfolding in_block
within-spans4 n [] = refl
within-spans4 n (block4 start prefix ∷ bs) =
    let size = 2 ^ (32 - prefix) in
    λ i. div-span n size (start / size) (pow_positive (32 - prefix)) i || within-spans4 n bs i
within-spans4 n (block6 start prefix ∷ bs) = within-spans4 n bs

within-spans6 : (n : ℕ) (bs : List Block) → within bs (ipv6 n) ≡ covers n (spans6 bs)
unfolding in_block
within-spans6 n [] = refl
within-spans6 n (block4 start prefix ∷ bs) = within-spans6 n bs
within-spans6 n (block6 start prefix ∷ bs) =
    let size = 2 ^ (128 - prefix) in
    λ i. div-span n size (start / size) (pow_positive (128 - prefix)) i || within-spans6 n bs i

-- The IPv4 addresses of the local network, by the first and the last of each run.
abbrev pub loop4 : List (ℕ × ℕ)
loop4 = (quad 127 0 0 0, quad 127 255 255 255) ∷ []

abbrev pub home4 : List (ℕ × ℕ)
home4 =
    (quad 10 0 0 0, quad 10 255 255 255)
    ∷ (quad 172 16 0 0, quad 172 31 255 255)
    ∷ (quad 192 168 0 0, quad 192 168 255 255)
    ∷ []

-- Those that no permission opens: link-local, multicast, the unspecified and the broadcast address, and
-- the reserved runs.
abbrev pub closed4 : List (ℕ × ℕ)
closed4 =
    (quad 169 254 0 0, quad 169 254 255 255)
    ∷ (quad 224 0 0 0, quad 239 255 255 255)
    ∷ (quad 0 0 0 0, quad 0 0 0 0)
    ∷ (quad 255 255 255 255, quad 255 255 255 255)
    ∷ (quad 0 0 0 0, quad 0 255 255 255)
    ∷ (quad 100 64 0 0, quad 100 127 255 255)
    ∷ (quad 168 63 129 16, quad 168 63 129 16)
    ∷ (quad 192 0 0 0, quad 192 0 0 255)
    ∷ (quad 192 0 2 0, quad 192 0 2 255)
    ∷ (quad 198 18 0 0, quad 198 19 255 255)
    ∷ (quad 198 51 100 0, quad 198 51 100 255)
    ∷ (quad 203 0 113 0, quad 203 0 113 255)
    ∷ (quad 240 0 0 0, quad 255 255 255 255)
    ∷ []

-- The same of IPv6 addresses.
abbrev pub loop6 : List (ℕ × ℕ)
loop6 = (1, 1) ∷ []

abbrev pub home6 : List (ℕ × ℕ)
home6 = (0xfc000000000000000000000000000000, 0xfdffffffffffffffffffffffffffffff) ∷ []

abbrev pub closed6 : List (ℕ × ℕ)
closed6 =
    (0xfe800000000000000000000000000000, 0xfebfffffffffffffffffffffffffffff)
    ∷ (0xff000000000000000000000000000000, 0xffffffffffffffffffffffffffffffff)
    ∷ (0, 0)
    ∷ (0xfd000ec2000000000000000000000254, 0xfd000ec2000000000000000000000254)
    ∷ (0x0064ff9b000000000000000000000000, 0x0064ff9b0000000000000000ffffffff)
    ∷ (0x0064ff9b000100000000000000000000, 0x0064ff9b0001ffffffffffffffffffff)
    ∷ (0x20010db8000000000000000000000000, 0x20010db8ffffffffffffffffffffffff)
    ∷ (0x20010000000000000000000000000000, 0x20010000ffffffffffffffffffffffff)
    ∷ (0x20020000000000000000000000000000, 0x2002ffffffffffffffffffffffffffff)
    ∷ []

-- The blocks that are closed to any permission, in the order of the spans.
abbrev closed_blocks : List Block
closed_blocks = link_local_unicast ++ multicast ++ unspecified ++ broadcast ++ reserved

within-append :
    (xs ys : List Block) (ip : Ip) → within (xs ++ ys) ip ≡ (within xs ip || within ys ip)
within-append [] ys ip = refl
within-append (x ∷ xs) ys ip = ground (arith, within-append xs ys ip)

catalog_ip_allowed-closed :
    (ip : Ip)
    → (catalog_ip_allowed ip false
        ≡ not (within loopback ip || within private ip || within closed_blocks ip))
      × (catalog_ip_allowed ip true ≡ (within loopback ip || not (within closed_blocks ip)))
catalog_ip_allowed-closed ip =
    let e = catalog_ip_allowed-within ip in
    let a =
      within-append link_local_unicast (multicast ++ unspecified ++ broadcast ++ reserved) ip in
    let b = within-append multicast (unspecified ++ broadcast ++ reserved) ip in
    let d = within-append unspecified (broadcast ++ reserved) ip in
    let f = within-append broadcast reserved ip in rw (a, b, d, f) e

-- Which addresses a catalog is fetched from, run by run: without the permission all but those of
-- loopback, of the local network and of the closed runs; with it those of loopback too, and those of the
-- local network outside the closed runs.
pub catalog_ip_allowed_lem :
    (n : ℕ)
    → (catalog_ip_allowed (ipv4 n) false
        ≡ not (covers n loop4 || covers n home4 || covers n closed4))
      × (catalog_ip_allowed (ipv4 n) true ≡ (covers n loop4 || not (covers n closed4)))
      × (catalog_ip_allowed (ipv6 n) false
          ≡ not (covers n loop6 || covers n home6 || covers n closed6))
      × (catalog_ip_allowed (ipv6 n) true ≡ (covers n loop6 || not (covers n closed6)))
catalog_ip_allowed_lem n =
    let (a, b) = catalog_ip_allowed-closed (ipv4 n) in
    let (d, e) = catalog_ip_allowed-closed (ipv6 n) in
    let l4 : within loopback (ipv4 n) ≡ covers n loop4 = within-spans4 n loopback in
    let h4 : within private (ipv4 n) ≡ covers n home4 = within-spans4 n private in
    let c4 : within closed_blocks (ipv4 n) ≡ covers n closed4 = within-spans4 n closed_blocks in
    let l6 : within loopback (ipv6 n) ≡ covers n loop6 = within-spans6 n loopback in
    let h6 : within private (ipv6 n) ≡ covers n home6 = within-spans6 n private in
    let c6 : within closed_blocks (ipv6 n) ≡ covers n closed6 = within-spans6 n closed_blocks in
    (
      a ∙ (λ i. not (l4 i || h4 i || c4 i)),
      b ∙ (λ i. l4 i || not (c4 i)),
      d ∙ (λ i. not (l6 i || h6 i || c6 i)),
      e ∙ (λ i. l6 i || not (c6 i)),
    )
