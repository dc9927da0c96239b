-- ===== src/Inet/Classful.antt =====
-- The classful helpers and the forwarding test of sb_inet.c, against the address classes as ranges.
use lwip_amiga.Base.{
  ℕ, ◌+◌, ◌*◌, ◌/◌, ◌%◌, ◌^◌, ◌≤◌, ◌<◌, ◌≡◌, ◌≢◌, ◌↔◌, if◌then◌else◌, ltb, ◌⊎◌, bit_and, arith,
  u32_mod,
}
use lwip_amiga.Base.Bits.{bit_and_low, bit_and_high, bit_or_disjoint}
use lwip_amiga.Inet.{lna_of, net_of, make_addr, can_forward}

-- the masks of the class tests, as ranges of the address
class_bit : (a : ℕ) → a < u32_mod → bit_and a 0x8000_0000 ≡ a / 2 ^ 31 * 2 ^ 31
class_bit a h = omega (arith, bit_and_high 31 1 a, bit_and_low 1 (a / 2 ^ 31))

class_bits : (a : ℕ) → a < u32_mod → bit_and a 0xC000_0000 ≡ a / 2 ^ 30 * 2 ^ 30
class_bits a h = omega (arith, bit_and_high 30 3 a, bit_and_low 2 (a / 2 ^ 30))

class_nibble : (a : ℕ) → a < u32_mod → bit_and a 0xF000_0000 ≡ a / 2 ^ 28 * 2 ^ 28
class_nibble a h = omega (arith, bit_and_high 28 15 a, bit_and_low 4 (a / 2 ^ 28))

class_byte : (a : ℕ) → a < u32_mod → bit_and a 0xFF00_0000 ≡ a / 2 ^ 24 * 2 ^ 24
class_byte a h = omega (arith, bit_and_high 24 255 a, bit_and_low 8 (a / 2 ^ 24))

lna_of_ranges :
    (a : ℕ)
    → a < u32_mod
    → lna_of a ≡ (
        if ltb a (2 ^ 31) then a % 2 ^ 24 else if ltb a (3 * 2 ^ 30) then a % 2 ^ 16 else a % 2 ^ 8)
unfolding lna_of
lna_of_ranges a h =
    ground
      (arith, class_bit a h, class_bits a h, bit_and_low 24 a, bit_and_low 16 a, bit_and_low 8 a)

net_of_ranges :
    (a : ℕ)
    → a < u32_mod
    → net_of a ≡ (
        if ltb a (2 ^ 31) then a / 2 ^ 24 else if ltb a (3 * 2 ^ 30) then a / 2 ^ 16 else a / 2 ^ 8)
unfolding net_of
net_of_ranges a h = ground (
  arith,
  class_bit a h,
  class_bits a h,
  bit_and_low 8 (a / 2 ^ 24),
  bit_and_low 16 (a / 2 ^ 16),
  bit_and_low 24 (a / 2 ^ 8),
)

-- A network number that fits the class it falls in.
abbrev pub FitsClass : ℕ → Type 0
FitsClass net =
    (net < 128) ⊎ ((0x8000 ≤ net) × (net < 0xC000)) ⊎ ((0xC0_0000 ≤ net) × (net < 0x100_0000))

make_addr_ranges :
    (net host : ℕ)
    → net < 2 ^ 24
    → make_addr net host ≡ (
        if ltb net 128
        then net * 2 ^ 24 + host % 2 ^ 24
        else if ltb net 65536
        then net * 2 ^ 16 + host % 2 ^ 16
        else net * 2 ^ 8 + host % 2 ^ 8)
unfolding make_addr
make_addr_ranges net host h = ground (
  arith,
  bit_and_low 24 host,
  bit_and_low 16 host,
  bit_and_low 8 host,
  bit_or_disjoint 24 net (host % 2 ^ 24),
  bit_or_disjoint 16 net (host % 2 ^ 16),
  bit_or_disjoint 8 net (host % 2 ^ 8),
)

-- Joining the classful network and host parts of any 32-bit address gives the address back.
make_addr-net_of-lna_of : (a : ℕ) → a < u32_mod → make_addr (net_of a) (lna_of a) ≡ a
make_addr-net_of-lna_of a h =
    ground (arith, net_of_ranges a h, lna_of_ranges a h, make_addr_ranges (net_of a) (lna_of a))

-- For a network number of a class and a host part that fits beside it, the address made of them
-- has that network part and that host part.
net_of-make_addr :
    (net host : ℕ)
    → FitsClass net
    → host < (if ltb net 128 then 2 ^ 24 else if ltb net 65536 then 2 ^ 16 else 2 ^ 8)
    → (net_of (make_addr net host) ≡ net) × (lna_of (make_addr net host) ≡ host)
net_of-make_addr net host c h = ground (
  arith,
  make_addr_ranges net host,
  net_of_ranges (make_addr net host),
  lna_of_ranges (make_addr net host),
)

-- `In_CanForward` refuses exactly the addresses of class D and E (first byte 224 and up), of network
-- 0 and of network 127, and accepts every other address.
can_forward_iff :
    (a : ℕ)
    → a < u32_mod
    → (can_forward a ≡ 1) ↔ ((a / 2 ^ 24 < 224) × (a / 2 ^ 24 ≢ 0) × (a / 2 ^ 24 ≢ 127))
unfolding can_forward
can_forward_iff a h = ground (arith, class_nibble a h, class_bit a h, class_byte a h)
