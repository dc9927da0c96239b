-- ===== src/Tx/Headers.antt =====
-- The cache of link headers: `ndif_hh_prime` and `ndif_ip4_output`. A frame comes with what
-- `inetfrm_ip_offset` finds of it and the destination that stands there; what `etharp_output` hands to
-- the link output of the interface is a parameter of the slow path. An entry holds the bytes of its
-- header that are read.
use lwip_amiga.Base.{
  ℕ, zero, suc, ◌+◌, ◌-◌, ◌%◌, ◌^◌, ◌≤◌, ◌≡◌, ◌⊎◌, inl, inr, refl, Bool, ◌&&◌, Option, none, some,
  List, [], ◌∷◌, ◌==◌, ◌!=◌, if◌then◌else◌, get_or, set, take, bit_and, arith, Bool-cases,
}

-- A frame at the link output: its bytes, the offset of its IP header (0 for none), and its destination.
pub record Framed : Type 0 where
  pub bytes : List ℕ
  pub l3 : ℕ
  pub dest : ℕ

-- `struct NdHhEntry`
pub record HhEntry : Type 0 where
  pub dst_ip : ℕ
  pub left : ℕ
  pub hdr : List ℕ

pub record HeaderCache : Type 0 where
  pub entries : List HhEntry
  pub prime_dst : ℕ

abbrev pub no_entry : HhEntry
no_entry = record { dst_ip = 0; left = 0; hdr = [] }

-- `NDIF_HH_REVALIDATE`
abbrev pub hh_revalidate : ℕ
hh_revalidate = 64

unfoldable pub hh_prime : HeaderCache → Framed → HeaderCache
hh_prime c f = if f.l3 == 0 then c else if f.dest != c.prime_dst then c else record {
  entries =
      set c.entries (bit_and f.dest 3)
        (record { dst_ip = f.dest; left = hh_revalidate; hdr = take f.l3 f.bytes });
  prime_dst = 0;
}

-- The start of `ndif_linkoutput`.
unfoldable pub snoop : HeaderCache → Framed → HeaderCache
unfolding hh_prime
snoop c f = if c.prime_dst != 0 then hh_prime c f else c

unfoldable pub snoop_all : HeaderCache → List Framed → HeaderCache
unfolding snoop
snoop_all c [] = c
snoop_all c (f ∷ fs) = snoop_all (snoop c f) fs

-- The header that a packet is sent with from the cache, where its entry is good and the pbuf has room.
unfoldable pub cached : HeaderCache → ℕ → Bool → Option (List ℕ)
cached c dst room =
    let e = get_or c.entries (bit_and dst 3) no_entry in
    if e.dst_ip == dst && e.left != 0 && room then some e.hdr else none

abbrev pub used : HhEntry → HhEntry
used e = record e { left = (e.left + 2 ^ 16 - 1) % 2 ^ 16 }

-- `slow` are the frames that `etharp_output` hands to the link output.
unfoldable pub slow_path : HeaderCache → ℕ → List Framed → HeaderCache
unfolding snoop_all
slow_path c dst slow = record (snoop_all (record c { prime_dst = dst }) slow) { prime_dst = 0 }

unfoldable pub fast_path : HeaderCache → ℕ → HeaderCache
fast_path c dst =
    let i = bit_and dst 3 in
    record c { entries = set c.entries i (used (get_or c.entries i no_entry)) }

abbrev pub by_path : Option (List ℕ) → HeaderCache → HeaderCache → HeaderCache
by_path none slow fast = slow
by_path (some hdr) slow fast = fast

-- `ndif_ip4_output`, with no header to be snooped before it.
unfoldable pub ip4_output : HeaderCache → ℕ → Bool → List Framed → HeaderCache × Option (List ℕ)
unfolding cached slow_path fast_path
ip4_output c dst room slow =
    let h = cached c dst room in (by_path h (slow_path c dst slow) (fast_path c dst), h)

-- A frame with that header went to that destination.
abbrev pub Seen : ℕ → List ℕ → List Framed → Type 0
Seen dst hdr [] = ⊥
Seen dst hdr (f ∷ fs) = ((f.dest ≡ dst) × (take f.l3 f.bytes ≡ hdr)) ⊎ Seen dst hdr fs

-- Each entry that is still good was seen, and is used at most 64 times more.
abbrev pub EntrySeen : List Framed → HhEntry → Type 0
EntrySeen past e = (e.left ≡ 0) ⊎ (Seen e.dst_ip e.hdr past × (e.left ≤ hh_revalidate))

abbrev pub AllSeen : List Framed → List HhEntry → Type 0
AllSeen past [] = Unit {0}
AllSeen past (e ∷ es) = EntrySeen past e × AllSeen past es

pub get-AllSeen :
    (past : List Framed) (es : List HhEntry) (i : ℕ)
    → AllSeen past es
    → EntrySeen past (get_or es i no_entry)
get-AllSeen past [] i h = inl refl
get-AllSeen past (e ∷ es) zero h = h.0
get-AllSeen past (e ∷ es) (suc i) h = get-AllSeen past es i h.1

pub set-AllSeen :
    (past : List Framed) (es : List HhEntry) (i : ℕ) (e : HhEntry)
    → AllSeen past es
    → EntrySeen past e
    → AllSeen past (set es i e)
set-AllSeen past [] i e h g = tt
set-AllSeen past (x ∷ es) zero e h g = (g, h.1)
set-AllSeen past (x ∷ es) (suc i) e h g = (h.0, set-AllSeen past es i e h.1 g)

Seen-more :
    (dst : ℕ) (hdr : List ℕ) (f : Framed) (past : List Framed)
    → Seen dst hdr past
    → Seen dst hdr (f ∷ past)
Seen-more dst hdr f past h = inr h

AllSeen-more :
    (f : Framed) (past : List Framed) (es : List HhEntry) → AllSeen past es → AllSeen (f ∷ past) es
AllSeen-more f past [] h = tt
AllSeen-more f past (e ∷ es) (inl z, r) = (inl z, AllSeen-more f past es r)
AllSeen-more f past (e ∷ es) (inr (s, b), r) = (inr (inr s, b), AllSeen-more f past es r)

snoop-AllSeen :
    (c : HeaderCache) (f : Framed) (past : List Framed)
    → AllSeen past c.entries
    → AllSeen (f ∷ past) (snoop c f).entries
unfolding snoop hh_prime
snoop-AllSeen c f past h =
    let more = AllSeen-more f past c.entries h in
    let new =
      set-AllSeen (f ∷ past) c.entries (bit_and f.dest 3)
        (record { dst_ip = f.dest; left = hh_revalidate; hdr = take f.l3 f.bytes }) more
        (inr (inl (refl, refl), omega arith)) in
    elim (Bool-cases (c.prime_dst != 0)) [
      | inr z ↦ rw z more
      | inl z ↦ elim (Bool-cases (f.l3 == 0)) [
        | inl y ↦ rw (z, y) more
        | inr y ↦ elim (Bool-cases (f.dest != c.prime_dst)) [
          | inl x ↦ rw (z, y, x) more
          | inr x ↦ rw (z, y, x) new
        ]
      ]
    ]

-- The frames of a slow path behind those of the past, the last one first.
abbrev pub behind : List Framed → List Framed → List Framed
behind past [] = past
behind past (f ∷ fs) = behind (f ∷ past) fs

pub snoop_all-AllSeen :
    (c : HeaderCache) (fs past : List Framed)
    → AllSeen past c.entries
    → AllSeen (behind past fs) (snoop_all c fs).entries
unfolding snoop_all
snoop_all-AllSeen c [] past h = h
snoop_all-AllSeen c (f ∷ fs) past h =
    snoop_all-AllSeen (snoop c f) fs (f ∷ past) (snoop-AllSeen c f past h)
