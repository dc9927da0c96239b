-- ===== src/Inet/Tests.antt =====
-- Runs of the sb_inet.c model on concrete addresses and texts, and the theorems at such inputs.
use lwip_amiga.Base.{◌≡◌, inl, refl, true, false, some, [], ◌∷◌, arith}
use lwip_amiga.Inet.{
  inet_network, digit_of, scan_digits, scan_radix, scan_part, scan_parts, skip_blanks, pack_parts,
}
use lwip_amiga.Inet.Network.{dec, oct, hex, parts_text, inet_network-text}

network_prefix : inet_network (some (b'1' ∷ b'9' ∷ b'2' ∷ b'.' ∷ b'1' ∷ b'6' ∷ b'8' ∷ [])) ≡ 0xC0A8
unfolding inet_network digit_of scan_digits scan_radix scan_part scan_parts skip_blanks pack_parts
network_prefix = refl

network_bad : inet_network (some (b'1' ∷ b'x' ∷ [])) ≡ 0xFFFF_FFFF
unfolding inet_network digit_of scan_digits scan_radix scan_part scan_parts skip_blanks pack_parts
network_bad = refl

-- "192.0X1F.010 "
inet_network-text_example :
    inet_network (
      some (
        parts_text
          (dec 1 (9 ∷ 2 ∷ []))
          (hex true ((false, 1) ∷ (true, 15) ∷ []) ∷ oct (1 ∷ 0 ∷ []) ∷ [])
          (b' ' ∷ [])))
    ≡ 0xC01F08
inet_network-text_example =
    inet_network-text (dec 1 (9 ∷ 2 ∷ []))
      (hex true ((false, 1) ∷ (true, 15) ∷ []) ∷ oct (1 ∷ 0 ∷ []) ∷ []) (b' ' ∷ []) (omega arith)
      (omega arith) (inl refl, tt) (omega arith)
