-- ===== src/Inet/Network.antt =====
-- The texts that `inet_network` of sb_inet.c is meant for: one to four parts in C notation, joined by
-- dots, with blanks behind them.
use lwip_amiga.Base.{
  ℕ, zero, suc, ◌+◌, ◌*◌, ◌%◌, ◌^◌, ◌≤◌, ◌<◌, ◌≡◌, ◌⊎◌, inr, refl, ap, Bool, true, false, ◌||◌,
  none, some, List, [], length, ◌∷◌, ◌++◌, map, ltb, if◌then◌else◌, arith, u32_mod, shl, bit_and,
  bit_or,
}
use lwip_amiga.Base.Bits.{bit_and_low, bit_or_disjoint}
use lwip_amiga.Inet.{
  digit_of, scan_digits, scan_radix, scan_part, scan_parts, skip_blanks, pack_parts, inet_network,
}

-- A part in C notation, by its digits: decimal (the first digit not zero), octal behind `0`, or
-- hexadecimal behind `0x` or `0X`, where each digit says whether its letter is a capital one.
pub data Part : Type 0 where
  dec : ℕ → List ℕ → Part
  oct : List ℕ → Part
  hex : Bool → List (Bool × ℕ) → Part

abbrev pub digit_char : ℕ → ℕ
digit_char d = 48 + d

abbrev pub hex_char : Bool × ℕ → ℕ
hex_char (capital, d) = if ltb d 10 then 48 + d else if capital then 55 + d else 87 + d

abbrev pub digit_values : List (Bool × ℕ) → List ℕ
digit_values [] = []
digit_values (d ∷ ds) = d.1 ∷ digit_values ds

abbrev pub AllBelow : ℕ → List ℕ → Type 0
AllBelow n [] = Unit {0}
AllBelow n (d ∷ ds) = (d < n) × AllBelow n ds

abbrev pub IsPart : Part → Type 0
IsPart (dec d ds) = (0 < d) × (d < 10) × AllBelow 10 ds
IsPart (oct ds) = AllBelow 8 ds
IsPart (hex x ds) = AllBelow 16 (digit_values ds)

abbrev pub part_text : Part → List ℕ
part_text (dec d ds) = digit_char d ∷ map digit_char ds
part_text (oct ds) = b'0' ∷ map digit_char ds
part_text (hex x ds) = b'0' ∷ (if x then b'X' else b'x') ∷ map hex_char ds

-- The number that digits denote, as a `ULONG`.
abbrev pub number : ℕ → ℕ → List ℕ → ℕ
number radix v [] = v
number radix v (d ∷ ds) = number radix ((v * radix + d) % u32_mod) ds

abbrev pub part_value : Part → ℕ
part_value (dec d ds) = number 10 0 (d ∷ ds)
part_value (oct ds) = number 8 0 ds
part_value (hex x ds) = number 16 0 (digit_values ds)

abbrev pub AllParts : List Part → Type 0
AllParts [] = Unit {0}
AllParts (p ∷ ps) = IsPart p × AllParts ps

abbrev pub AllBlank : List ℕ → Type 0
AllBlank [] = Unit {0}
AllBlank (c ∷ s) = ((c ≡ b' ') ⊎ (c ≡ b'\t')) × AllBlank s

-- The parts joined by dots, with the text behind them.
abbrev pub parts_text : Part → List Part → List ℕ → List ℕ
parts_text p [] blanks = part_text p ++ blanks
parts_text p (q ∷ ps) blanks = part_text p ++ b'.' ∷ parts_text q ps blanks

abbrev Radix : ℕ → Type 0
Radix r = (r ≡ 8) ⊎ (r ≡ 10) ⊎ (r ≡ 16)

-- The loop stops in front of a text that begins with a dot or a blank, and at the end.
abbrev Stops : List ℕ → Type 0
Stops [] = Unit {0}
Stops (c ∷ s) = (c ≡ b'.') ⊎ (c ≡ b' ') ⊎ (c ≡ b'\t')

digit_of-char : (r d : ℕ) → Radix r → d < r → d < 10 → digit_of r (digit_char d) ≡ some d
unfolding digit_of
digit_of-char r d k h l = ground arith

digit_of-hex : (d : Bool × ℕ) → d.1 < 16 → digit_of 16 (hex_char d) ≡ some d.1
unfolding digit_of
digit_of-hex (false, d) h = ground arith
digit_of-hex (true, d) h = ground arith

digit_of-stop : (r c : ℕ) → Radix r → (c ≡ b'.') ⊎ (c ≡ b' ') ⊎ (c ≡ b'\t') → digit_of r c ≡ none
unfolding digit_of
digit_of-stop r c k h = ground arith

abbrev nonempty : List ℕ → Bool
nonempty [] = false
nonempty (d ∷ ds) = true

scan_digits-text :
    (r v : ℕ) (any : Bool) (ds rest : List ℕ)
    → Radix r
    → r ≤ 10
    → AllBelow r ds
    → Stops rest
    → scan_digits r v any (map digit_char ds ++ rest) ≡ (number r v ds, any || nonempty ds, rest)
unfolding scan_digits
scan_digits-text r v any [] [] k l h s = ground arith
scan_digits-text r v any [] (c ∷ rest) k l h s = ground (arith, digit_of-stop r c k s)
scan_digits-text r v any (d ∷ ds) rest k l h s = ground (
  arith,
  digit_of-char r d k h.0 (omega (arith, l, h.0)),
  scan_digits-text r ((v * r + d) % u32_mod) true ds rest k l h.1 s,
)

scan_digits-hex :
    (v : ℕ) (ds : List (Bool × ℕ)) (rest : List ℕ)
    → AllBelow 16 (digit_values ds)
    → Stops rest
    → scan_digits 16 v true (map hex_char ds ++ rest) ≡ (number 16 v (digit_values ds), true, rest)
unfolding scan_digits
scan_digits-hex v [] [] h s = ground arith
scan_digits-hex v [] (c ∷ rest) h s = ground (arith, digit_of-stop 16 c (inr (inr refl)) s)
scan_digits-hex v (d ∷ ds) rest h s =
    ground (arith, digit_of-hex d h.0, scan_digits-hex ((v * 16 + d.1) % u32_mod) ds rest h.1 s)

scan_part-text :
    (p : Part) (rest : List ℕ)
    → IsPart p
    → Stops rest
    → scan_part (part_text p ++ rest) ≡ some (part_value p, rest)
unfolding scan_part scan_radix
scan_part-text (dec d []) [] h s = ground (arith, scan_digits-text 10 0 false (d ∷ []) [])
scan_part-text (dec d []) (c ∷ rest) h s =
    ground (arith, scan_digits-text 10 0 false (d ∷ []) (c ∷ rest))
scan_part-text (dec d (e ∷ ds)) rest h s =
    ground (arith, scan_digits-text 10 0 false (d ∷ e ∷ ds) rest)
scan_part-text (oct []) [] h s = ground (arith, scan_digits-text 8 0 true [] [])
scan_part-text (oct []) (c ∷ rest) h s = ground (arith, scan_digits-text 8 0 true [] (c ∷ rest))
scan_part-text (oct (d ∷ ds)) rest h s = ground (arith, scan_digits-text 8 0 true (d ∷ ds) rest)
scan_part-text (hex true ds) rest h s = ground (arith, scan_digits-hex 0 ds rest)
scan_part-text (hex false ds) rest h s = ground (arith, scan_digits-hex 0 ds rest)

-- The text after the last part.
Stops-blank : (s : List ℕ) → AllBlank s → Stops s
Stops-blank [] h = tt
Stops-blank (c ∷ s) h = inr h.0

scan_parts-text :
    (room : ℕ) (p : Part) (ps : List Part) (blanks : List ℕ)
    → IsPart p
    → AllParts ps
    → AllBlank blanks
    → length ps ≤ room
    → scan_parts (suc room) (parts_text p ps blanks) ≡ some (map part_value (p ∷ ps), blanks)
unfolding scan_parts
scan_parts-text room p [] [] hp hps hb h = ground (arith, scan_part-text p [] hp)
scan_parts-text room p [] (c ∷ blanks) hp hps hb h =
    ground (arith, scan_part-text p (c ∷ blanks) hp (inr hb.0))
scan_parts-text zero p (q ∷ ps) blanks hp hps hb h = absurd (omega arith)
scan_parts-text (suc room) p (q ∷ ps) blanks hp hps hb h = ground (
  arith,
  scan_part-text p (b'.' ∷ parts_text q ps blanks) hp,
  scan_parts-text room q ps blanks hps.0 hps.1 hb (omega arith),
)

skip_blanks-all : (s : List ℕ) → AllBlank s → skip_blanks s ≡ []
unfolding skip_blanks
skip_blanks-all [] h = refl
skip_blanks-all (c ∷ s) h = ground (arith, skip_blanks-all s h.1)

-- The bytes of the parts as the digits of a number, the most significant first.
abbrev pub bytes_number : ℕ → List ℕ → ℕ
bytes_number n [] = n
bytes_number n (v ∷ vs) = bytes_number (n * 256 + v % 256) vs

push_byte : (n p : ℕ) → n < 2 ^ 24 → bit_or (shl n 8) (bit_and p 0xFF) ≡ n * 256 + p % 256
push_byte n p h = ground (arith, bit_and_low 8 p, bit_or_disjoint 8 n (p % 256))

pack_parts-bytes : (vs : List ℕ) → length vs ≤ 4 → pack_parts 0 vs ≡ bytes_number 0 vs
unfolding pack_parts
pack_parts-bytes [] h = refl
pack_parts-bytes (a ∷ []) h = rw (push_byte 0 a (omega arith))
pack_parts-bytes (a ∷ b ∷ []) h =
    rw (push_byte 0 a (omega arith), push_byte (0 * 256 + a % 256) b (omega arith))
pack_parts-bytes (a ∷ b ∷ c ∷ []) h = rw (
  push_byte 0 a (omega arith),
  push_byte (0 * 256 + a % 256) b (omega arith),
  push_byte ((0 * 256 + a % 256) * 256 + b % 256) c (omega arith),
)
pack_parts-bytes (a ∷ b ∷ c ∷ d ∷ []) h = rw (
  push_byte 0 a (omega arith),
  push_byte (0 * 256 + a % 256) b (omega arith),
  push_byte ((0 * 256 + a % 256) * 256 + b % 256) c (omega arith),
  push_byte (((0 * 256 + a % 256) * 256 + b % 256) * 256 + c % 256) d (omega arith),
)
pack_parts-bytes (a ∷ b ∷ c ∷ d ∷ e ∷ vs) h = absurd (omega arith)

length_parts : (ps : List Part) → length (map part_value ps) ≡ length ps
length_parts [] = refl
length_parts (p ∷ ps) = ap suc (length_parts ps)

-- A text of one to four parts in C notation, joined by dots and followed by blanks, is read as the
-- number whose bytes are the low bytes of the parts, the first part most significant. A part is
-- decimal, octal behind `0`, or hexadecimal behind `0x` or `0X` with digits of either case.
pub inet_network-text :
    (p : Part) (ps : List Part) (blanks : List ℕ)
    → IsPart p
    → AllParts ps
    → AllBlank blanks
    → length ps ≤ 3
    → inet_network (some (parts_text p ps blanks)) ≡ bytes_number 0 (map part_value (p ∷ ps))
unfolding inet_network
inet_network-text p ps blanks hp hps hb h =
    rw (scan_parts-text 3 p ps blanks hp hps hb h, inet_network, skip_blanks-all blanks hb)
      (pack_parts-bytes (map part_value (p ∷ ps)) (omega (arith, length_parts ps)))
