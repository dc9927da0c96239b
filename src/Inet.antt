-- ===== src/Inet.antt =====
-- src/bsdsocket/sb_inet.c: the inet_* address conversions and the address classification. A
-- `ULONG` is a number below 2 ^ 32, network order is native order, and a C string is the list of its
-- bytes without the closing NUL. lwIP's `ip4addr_aton` and `ip4addr_ntoa_r` are parameters.
pub mod Classful
pub mod Network
mod Tests
use lwip_amiga.Base.{
  ℕ, zero, suc, ◌+◌, ◌-◌, ◌*◌, ◌/◌, ◌%◌, ◌^◌, bit_and, bit_or, Bool, true, false, ◌&&◌, ◌||◌, not,
  Option, none, some, List, [], ◌∷◌, ◌++◌, ltb, leb, ◌==◌, if◌then◌else◌, u32_mod, shl, shr,
}

abbrev pub inaddr_none : ℕ
inaddr_none = 0xFFFF_FFFF

-- Classful parts of an address.
unfoldable pub lna_of : ℕ → ℕ
lna_of a =
    if bit_and a 0x8000_0000 == 0
    then bit_and a 0x00FF_FFFF
    else if bit_and a 0xC000_0000 == 0x8000_0000
    then bit_and a 0x0000_FFFF
    else bit_and a 0x0000_00FF

unfoldable pub net_of : ℕ → ℕ
net_of a =
    if bit_and a 0x8000_0000 == 0
    then bit_and (shr a 24) 0xFF
    else if bit_and a 0xC000_0000 == 0x8000_0000
    then bit_and (shr a 16) 0xFFFF
    else bit_and (shr a 8) 0xFF_FFFF

unfoldable pub make_addr : ℕ → ℕ → ℕ
make_addr net host =
    if ltb net 128
    then bit_or (shl net 24) (bit_and host 0x00FF_FFFF)
    else if ltb net 65536
    then bit_or (shl net 16) (bit_and host 0x0000_FFFF)
    else bit_or (shl net 8) (bit_and host 0x0000_00FF)

unfoldable pub can_forward : ℕ → ℕ
can_forward address =
    if bit_and address 0xF000_0000 == 0xE000_0000 || bit_and address 0xF000_0000 == 0xF000_0000
    then 0
    else if bit_and address 0x8000_0000 == 0
    then (let net = bit_and address 0xFF00_0000 in if net == 0 || net == shl 127 24 then 0 else 1)
    else 1

-- A netif as `In_LocalAddr` reads it.
pub record NetIf : Type 0 where
  pub addr : ℕ
  pub netmask : ℕ

-- The walk of NETIF_FOREACH, up to the first match.
unfoldable pub local_addr : ℕ → List NetIf → ℕ
local_addr address [] = 0
local_addr address (nif ∷ rest) =
    if not (nif.addr == 0) && bit_and address nif.netmask == bit_and nif.addr nif.netmask
    then 1
    else local_addr address rest

-- The value of a digit character in a radix; none where the inner loop of `inet_network` breaks.
unfoldable pub digit_of : ℕ → ℕ → Option ℕ
digit_of radix c =
    let digit : Option ℕ =
      if leb b'0' c && leb c b'9'
      then some (c - b'0')
      else if radix == 16 && leb b'a' c && leb c b'f'
      then some (c - b'a' + 10)
      else if radix == 16 && leb b'A' c && leb c b'F'
      then some (c - b'A' + 10)
      else none in
    elim digit [ none ↦ none | some d ↦ if leb radix d then none else some d ]

-- The inner loop: the value so far, whether a digit was seen, and the text left.
unfoldable pub scan_digits : ℕ → ℕ → Bool → List ℕ → ℕ × Bool × List ℕ
scan_digits radix val any [] = (val, any, [])
scan_digits radix val any (c ∷ s) = elim (digit_of radix c) [
  | none ↦ (val, any, c ∷ s)
  | some d ↦ scan_digits radix ((val * radix + d) % u32_mod) true s
]

-- The C prefix of a part: its radix, and the text behind it.
unfoldable pub scan_radix : List ℕ → ℕ × List ℕ
scan_radix [] = (10, [])
scan_radix (c ∷ []) = if c == b'0' then (8, []) else (10, c ∷ [])
scan_radix (c ∷ x ∷ s) =
    if c == b'0' then (if x == b'x' || x == b'X' then (16, s) else (8, x ∷ s)) else (10, c ∷ x ∷ s)

-- One part: none where the loop finds no digit.
unfoldable pub scan_part : List ℕ → Option (ℕ × List ℕ)
scan_part s =
    let (radix, s1) = scan_radix s in
    let (val, any, s2) = scan_digits radix 0 (not (radix == 10)) s1 in
    if any then some (val, s2) else none

-- The loop over parts, with room for that many more; at no room it fails whatever it reads
-- (`nparts >= 4`). The parts come back in order, with the text left.
unfoldable pub scan_parts : ℕ → List ℕ → Option (List ℕ × List ℕ)
scan_parts zero s = none
scan_parts (suc room) s = elim (scan_part s) [
  | none ↦ none
  | some (val, []) ↦ some (val ∷ [], [])
  | some (val, c ∷ s2) ↦
      let rest = scan_parts room s2 in
      if c == b'.'
      then (elim rest [ none ↦ none | some (vals, s3) ↦ some (val ∷ vals, s3) ])
      else some (val ∷ [], c ∷ s2)
]

unfoldable pub skip_blanks : List ℕ → List ℕ
skip_blanks [] = []
skip_blanks (c ∷ s) = let rest = skip_blanks s in if c == b' ' || c == b'\t' then rest else c ∷ s

-- The packing loop.
unfoldable pub pack_parts : ℕ → List ℕ → ℕ
pack_parts result [] = result
pack_parts result (p ∷ ps) = pack_parts (bit_or (shl result 8) (bit_and p 0xFF)) ps

-- `none` is the NULL pointer.
unfoldable pub inet_network : Option (List ℕ) → ℕ
inet_network none = inaddr_none
inet_network (some s) = elim (scan_parts 4 s) [
  | none ↦ inaddr_none
  | some (parts, rest) ↦ elim (skip_blanks rest) [ [] ↦ pack_parts 0 parts | _ ↦ inaddr_none ]
]
