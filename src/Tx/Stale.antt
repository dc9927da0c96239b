-- ===== src/Tx/Stale.antt =====
-- Which headers the fast path sends with.
use lwip_amiga.Base.{
  ℕ, ◌+◌, ◌<◌, ◌≤◌, ◌≡◌, inl, inr, refl, sym, ap, ◌∙◌, Bool, Option, none, some, List, [], ◌∷◌,
  length, get_or, take, bit_and, arith, Option-cases, length-set, get_or-set_self,
}
use lwip_amiga.Base.Bits.{bit_and_low}
use lwip_amiga.Tx.Headers.{
  Framed, HhEntry, HeaderCache, no_entry, hh_revalidate, hh_prime, snoop, snoop_all, cached, used,
  slow_path, fast_path, ip4_output, Seen, EntrySeen, AllSeen, get-AllSeen, set-AllSeen, behind,
  snoop_all-AllSeen,
}

abbrev pub entry_of : HeaderCache → ℕ → HhEntry
entry_of c dst = get_or c.entries (bit_and dst 3) no_entry

-- Four entries, each of them good only where it was seen.
abbrev pub IsCache : List Framed → HeaderCache → Type 0
IsCache past c = (length c.entries ≡ 4) × AllSeen past c.entries

-- A cached header was the one of a frame to that destination; the entry has one use less, of 64 at most.
abbrev pub Fast : List Framed → ℕ → HeaderCache → HeaderCache → Option (List ℕ) → Type 0
Fast past dst c c' none = Unit {0}
Fast past dst c c' (some hdr) =
    Seen dst hdr past
    × ((entry_of c dst).left ≤ hh_revalidate)
    × ((entry_of c dst).left ≡ (entry_of c' dst).left + 1)

-- What was seen after an output: of the slow path its frames too.
abbrev pub seen_after : Option (List ℕ) → List Framed → List Framed → List Framed
seen_after none past slow = behind past slow
seen_after (some hdr) past slow = past

-- Outputs one after the other, each with its destination, the room in the pbuf, and the frames of a
-- slow path.
abbrev pub AllFast : List Framed → HeaderCache → List (ℕ × Bool × List Framed) → Type 0
AllFast past c [] = Unit {0}
AllFast past c (o ∷ os) =
    let (c', h) = ip4_output c o.0 o.1 o.2 in
    Fast past o.0 c c' h × AllFast (seen_after h past o.2) c' os

length-snoop : (c : HeaderCache) (f : Framed) → length (snoop c f).entries ≡ length c.entries
unfolding snoop hh_prime
length-snoop c f =
    let e : HhEntry = record { dst_ip = f.dest; left = hh_revalidate; hdr = take f.l3 f.bytes } in
    ground (arith, length-set c.entries (bit_and f.dest 3) e)

length-snoop_all :
    (c : HeaderCache) (fs : List Framed) → length (snoop_all c fs).entries ≡ length c.entries
unfolding snoop_all
length-snoop_all c [] = refl
length-snoop_all c (f ∷ fs) = length-snoop_all (snoop c f) fs ∙ length-snoop c f

slow-IsCache :
    (past : List Framed) (c : HeaderCache) (dst : ℕ) (slow : List Framed)
    → IsCache past c
    → IsCache (behind past slow) (slow_path c dst slow)
unfolding slow_path
slow-IsCache past c dst slow h =
    let c1 = record c { prime_dst = dst } in
    (length-snoop_all c1 slow ∙ h.0, snoop_all-AllSeen c1 slow past h.1)

used-EntrySeen :
    (past : List Framed) (e : HhEntry) → EntrySeen past e → 0 < e.left → EntrySeen past (used e)
used-EntrySeen past e (inl z) l = absurd (omega arith)
used-EntrySeen past e (inr (s, b)) l = inr (s, omega arith)

cached_good :
    (c : HeaderCache) (dst : ℕ) (room : Bool) (hdr : List ℕ)
    → cached c dst room ≡ some hdr
    → ((entry_of c dst).dst_ip ≡ dst) × (0 < (entry_of c dst).left) × ((entry_of c dst).hdr ≡ hdr)
unfolding cached
cached_good c dst room hdr e = ground (arith, e)

fast_path_entry :
    (past : List Framed) (e : HhEntry) (dst : ℕ) (hdr : List ℕ)
    → EntrySeen past e
    → e.dst_ip ≡ dst
    → 0 < e.left
    → e.hdr ≡ hdr
    → Seen dst hdr past × (e.left ≤ hh_revalidate)
fast_path_entry past e dst hdr (inl z) is low same = absurd (omega arith)
fast_path_entry past e dst hdr (inr (s, b)) is low same = (rw is at (rw same at s), b)

used_left : (e : HhEntry) → 0 < e.left → e.left ≤ hh_revalidate → e.left ≡ (used e).left + 1
used_left e l b = omega arith

fast_path-Fast :
    (past : List Framed) (c : HeaderCache) (dst : ℕ) (room : Bool) (hdr : List ℕ)
    → IsCache past c
    → cached c dst room ≡ some hdr
    → IsCache past (fast_path c dst) × Fast past dst c (fast_path c dst) (some hdr)
unfolding fast_path
fast_path-Fast past c dst room hdr h e =
    let i = bit_and dst 3 in
    let x = entry_of c dst in
    let (is, low, same) = cached_good c dst room hdr e in
    let good = get-AllSeen past c.entries i h.1 in
    let inside : i < length c.entries = omega (arith, h.0, bit_and_low 2 dst) in
    let now : entry_of (fast_path c dst) dst ≡ used x =
      get_or-set_self c.entries i (used x) no_entry inside in
    let (seen, bound) = fast_path_entry past x dst hdr good is low same in
    (
      (
        length-set c.entries i (used x) ∙ h.0,
        set-AllSeen past c.entries i (used x) h.1 (used-EntrySeen past x good low),
      ),
      (seen, bound, used_left x low bound ∙ ap (λ y. y.left + 1) (sym now)),
    )

-- From a cache whose good entries were seen: each packet that is sent with a cached header is sent with
-- the very bytes that stood before the IP header of an earlier frame to the same destination, and uses
-- up one of at most 64 uses of its entry.
pub ip4_output-AllFast :
    (past : List Framed) (c : HeaderCache) (os : List (ℕ × Bool × List Framed))
    → IsCache past c
    → AllFast past c os
unfolding ip4_output
ip4_output-AllFast past c [] h = tt
ip4_output-AllFast past c (o ∷ os) h = elim (Option-cases (cached c o.0 o.1)) [
  | inl n ↦ rw n (
    tt,
    ip4_output-AllFast (behind past o.2) (slow_path c o.0 o.2) os (slow-IsCache past c o.0 o.2 h),
  )
  | inr (hdr, e) ↦
      let (h', fast) = fast_path-Fast past c o.0 o.1 hdr h e in
      rw e (fast, ip4_output-AllFast past (fast_path c o.0) os h')
]
