-- ===== src/Rdns.antt =====
-- The reverse lookup of src/bsdsocket/sb_rdns.c: the query for an address, and the parser of the
-- reply. A packet is the list of its bytes, and a read outside of it, or of more turns than the
-- packet has bytes, is `outside`. A buffer that is filled is the list of the bytes written to it in
-- order, with no room for more than the code checks for; -1 is `failed`.
pub mod Encode
pub mod Reads
pub mod Names
pub mod Query
pub mod Reply
mod Tests
use lwip_amiga.Base.{
  ℕ, zero, suc, ◌+◌, ◌-◌, ◌*◌, ◌/◌, ◌%◌, ◌^◌, Bool, true, false, ◌&&◌, ◌||◌, Option, none, some,
  List, [], ◌∷◌, ◌++◌, ◌==◌, ◌!=◌, ltb, leb, if◌then◌else◌, length, get_elem?, bit_and, bit_or,
}

pub data Get {ℓ} (A : Type ℓ) : Type ℓ where
  got : A → Get A
  failed outside : Get A

infixl 5 ◌>>=◌ ◌>>◌
abbrev pub ◌>>=◌ {ℓ κ} : {A : Type ℓ} {B : Type κ} → Get A → (A → Get B) → Get B
got a >>= f = f a
failed >>= f = failed
outside >>= f = outside

abbrev pub ◌>>◌ {ℓ} : {B : Type ℓ} → Get (Unit {0}) → Get B → Get B
m >> k = m >>= λ _. k

-- `if (!b) return -1;`
abbrev pub require : Bool → Get (Unit {0})
require true = got tt
require false = failed

abbrev pub byte_at : List ℕ → ℕ → Get ℕ
byte_at pkt i = elim (get_elem? pkt i) [ none ↦ outside | some b ↦ got b ]

-- `(pkt[i] << 8) | pkt[i + 1]`
unfoldable pub word_at : List ℕ → ℕ → Get ℕ
word_at pkt i = do a ← byte_at pkt i; b ← byte_at pkt (i + 1); got (bit_or (a * 2 ^ 8) b)

-- The digits that the loop puts in `tmp`, the last one first; an octet has at most three.
unfoldable pub octet_digits : ℕ → ℕ → List ℕ
octet_digits zero o = []
octet_digits (suc fuel) o = (48 + o % 10) ∷ (if o / 10 == 0 then [] else octet_digits fuel (o / 10))

unfoldable pub backwards : List ℕ → List ℕ → List ℕ
backwards [] out = out
backwards (x ∷ xs) out = backwards xs (x ∷ out)

-- A label behind the bytes that the buffer has; `none` is -1.
unfoldable pub put_label : ℕ → List ℕ → List ℕ → Option (List ℕ)
put_label max label buf =
    if ltb max (length buf + 1 + length label) then none else some (buf ++ (length label ∷ label))

unfoldable pub put_octet : ℕ → ℕ → List ℕ → Option (List ℕ)
unfolding octet_digits backwards put_label
put_octet max octet buf = put_label max (backwards (octet_digits 3 octet) []) buf

abbrev pub then_put : Option (List ℕ) → (List ℕ → Option (List ℕ)) → Option (List ℕ)
then_put none f = none
then_put (some buf) f = f buf

abbrev pub header : ℕ → List ℕ
header id = (id / 2 ^ 8) % 2 ^ 8 ∷ id % 2 ^ 8 ∷ 1 ∷ 0 ∷ 0 ∷ 1 ∷ 0 ∷ 0 ∷ 0 ∷ 0 ∷ 0 ∷ 0 ∷ []

-- The root label, the type PTR and the class IN.
abbrev pub question_end : List ℕ
question_end = 0 ∷ 0 ∷ 12 ∷ 0 ∷ 1 ∷ []

abbrev pub octet_of : ℕ → ℕ → ℕ
octet_of addr k = bit_and (addr / 2 ^ k) 0xFF

unfoldable pub rdns_build : ℕ → ℕ → ℕ → Option (List ℕ)
unfolding put_octet put_label
rdns_build max addr id =
    if ltb max 12
    then none
    else then_put named
        (λ buf. if ltb max (length buf + 5) then none else some (buf ++ question_end))
  where
    named : Option (List ℕ)
    named =
        then_put
          (then_put
            (then_put
              (then_put
                (then_put (put_octet max (octet_of addr 0) (header id))
                  (put_octet max (octet_of addr 8)))
                (put_octet max (octet_of addr 16)))
              (put_octet max (octet_of addr 24)))
            (put_label max (b'i' ∷ b'n' ∷ b'-' ∷ b'a' ∷ b'd' ∷ b'd' ∷ b'r' ∷ [])))
          (put_label max (b'a' ∷ b'r' ∷ b'p' ∷ b'a' ∷ []))

-- `(b & 0xC0) == 0xC0`
abbrev pub is_pointer : ℕ → Bool
is_pointer b = bit_and b 0xC0 == 0xC0

-- A turn of the loop of `sb_dns_skip_name`.
pub data Step : Type 0 where
  stop go : ℕ → Step

unfoldable pub skip_turn : List ℕ → ℕ → Get Step
skip_turn pkt pos = do
  require (ltb pos (length pkt))
  b ← byte_at pkt pos
  if is_pointer b
      then (if leb (pos + 2) (length pkt) then got (stop (pos + 2)) else failed)
      else if b == 0
      then got (stop (pos + 1))
      else got (go (pos + 1 + b))

abbrev pub after_step : Step → (ℕ → Get ℕ) → Get ℕ
after_step (stop pos) rest = got pos
after_step (go pos) rest = rest pos

-- Each turn goes forward.
unfoldable pub skip_loop : ℕ → List ℕ → ℕ → Get ℕ
unfolding skip_turn
skip_loop zero pkt pos = if ltb pos (length pkt) then outside else failed
skip_loop (suc fuel) pkt pos = do t ← skip_turn pkt pos; after_step t (skip_loop fuel pkt)

unfoldable pub skip_name : List ℕ → ℕ → Get ℕ
unfolding skip_loop
skip_name pkt pos = skip_loop (length pkt) pkt pos

-- `room` is `outmax - 1`.
unfoldable pub copy_byte : ℕ → List ℕ → ℕ → List ℕ → Get (List ℕ)
copy_byte room pkt pos out =
    if ltb (length out) room then (byte_at pkt pos >>= λ x. got (out ++ (x ∷ []))) else got out

unfoldable pub copy_label : ℕ → List ℕ → ℕ → ℕ → List ℕ → Get (List ℕ)
unfolding copy_byte
copy_label room pkt pos zero out = got out
copy_label room pkt pos (suc n) out = do
  out' ← copy_byte room pkt pos out
  copy_label room pkt (pos + 1) n out'

-- A turn of the loop of `sb_dns_name`: its end, or the next position and the output.
pub data NameTurn : Type 0 where
  ends : NameTurn
  next : ℕ → List ℕ → NameTurn

abbrev pub dotted : ℕ → List ℕ → List ℕ
dotted room out = if length out != 0 && ltb (length out) room then out ++ (b'.' ∷ []) else out

unfoldable pub follow : List ℕ → ℕ → ℕ → List ℕ → Get NameTurn
follow pkt pos b out = do
  require (ltb (pos + 1) (length pkt))
  low ← byte_at pkt (pos + 1)
  got (next (bit_or (bit_and b 0x3F * 2 ^ 8) low) out)

unfoldable pub take_label : ℕ → List ℕ → ℕ → ℕ → List ℕ → Get NameTurn
unfolding copy_label
take_label room pkt pos b out = do
  require (leb b 63 && leb (pos + 1 + b) (length pkt))
  out' ← copy_label room pkt (pos + 1) b (dotted room out)
  got (next (pos + 1 + b) out')

unfoldable pub name_turn : ℕ → List ℕ → ℕ → List ℕ → Get NameTurn
unfolding follow take_label
name_turn room pkt pos out =
    if ltb pos (length pkt)
    then (byte_at pkt pos >>= λ b.
        if is_pointer b
        then follow pkt pos b out
        else if b == 0
        then got ends
        else take_label room pkt pos b out)
    else got ends

abbrev pub after_turn : NameTurn → List ℕ → (ℕ → List ℕ → Get (List ℕ)) → Get (List ℕ)
after_turn ends out rest = got out
after_turn (next pos out') out rest = rest pos out'

-- `guard` lets 128 labels and pointers pass.
unfoldable pub name_loop : ℕ → ℕ → List ℕ → ℕ → List ℕ → Get (List ℕ)
unfolding name_turn
name_loop zero room pkt pos out = do
  t ← name_turn room pkt pos out
  after_turn t out (λ pos' out'. failed)
name_loop (suc left) room pkt pos out = do
  t ← name_turn room pkt pos out
  after_turn t out (name_loop left room pkt)

-- The text without its NUL.
unfoldable pub dns_name : List ℕ → ℕ → ℕ → Get (List ℕ)
unfolding name_loop
dns_name pkt pos outmax = do
  out ← name_loop 128 (outmax - 1) pkt pos []
  require (ltb 0 outmax && length out != 0)
  got out

unfoldable pub skip_questions : ℕ → List ℕ → ℕ → Get ℕ
unfolding skip_name
skip_questions zero pkt pos = got pos
skip_questions (suc n) pkt pos = do
  past ← skip_name pkt pos
  require (leb (past + 4) (length pkt))
  skip_questions n pkt (past + 4)

unfoldable pub find_ptr : ℕ → List ℕ → ℕ → ℕ → Get (List ℕ)
unfolding skip_name word_at dns_name
find_ptr zero pkt outmax pos = failed
find_ptr (suc n) pkt outmax pos = do
  past ← skip_name pkt pos
  require (leb (past + 10) (length pkt))
  type ← word_at pkt past
  rdlen ← word_at pkt (past + 8)
  require (leb (past + 10 + rdlen) (length pkt))
  if type == 12 then dns_name pkt (past + 10) outmax else find_ptr n pkt outmax (past + 10 + rdlen)

unfoldable pub parse_counts : List ℕ → ℕ → Get (List ℕ)
unfolding word_at skip_questions find_ptr
parse_counts pkt outmax = do
  qd ← word_at pkt 4
  an ← word_at pkt 6
  require (an != 0)
  pos ← skip_questions qd pkt 12
  find_ptr an pkt outmax pos

unfoldable pub rdns_parse : List ℕ → ℕ → ℕ → Get (List ℕ)
unfolding word_at parse_counts
rdns_parse pkt id outmax = do
  require (leb 12 (length pkt))
  reply_id ← word_at pkt 0
  require (reply_id == id)
  flags ← byte_at pkt 2
  require (bit_and flags 0x80 != 0)
  rcode ← byte_at pkt 3
  require (bit_and rcode 0x0F == 0)
  parse_counts pkt outmax
