-- ===== src/Tx/Admit.antt =====
-- The admission of whole datagrams: `netifbase_tx_frames`, `netifbase_tx_admit` and
-- `netifbase_tx_writable`. An MTU is at least 28, since the code divides by what a fragment holds.
use native.Mathlib.Nat.{le-div_iff_mul-le, div-mul-le_self}
use lwip_amiga.Base.{
  ℕ, ◌+◌, ◌-◌, ◌*◌, ◌/◌, ◌<◌, ◌≤◌, ◌≡◌, ◌⊎◌, suc, inl, inr, refl, sym, ap, ◌∙◌, Bool, true, false,
  not, ◌&&◌, ◌||◌, some, List, [], ◌∷◌, ◌++◌, ltb, leb, if◌then◌else◌, length, arith, Bool-cases,
  append_assoc, append-nil,
}
use lwip_amiga.Tx.{queue_idle, queue_filled, Netdev}
use lwip_amiga.Tx.Output.{OutErr, sent, no_memory, bad_shape, defer, output_frame, linkoutput}
use lwip_amiga.Tx.Rings.{half, pow_positive}
use lwip_amiga.Tx.Order.{sends, IsNetdev}
use lwip_amiga.Tx.Whole.{taken_by, linkoutput-Adds}

unfoldable pub tx_frames : ℕ → ℕ → ℕ
tx_frames l3len mtu =
    if leb (l3len + 20) mtu then 1 else (l3len + (mtu - 20) / 8 * 8 - 1) / ((mtu - 20) / 8 * 8)

-- `NIB_MAX_L3`
abbrev pub max_l3 : ℕ
max_l3 = 65515

-- `active` tells whether there is an interface and a destination that reaches it.
unfoldable pub tx_admit : Netdev → Bool → ℕ → ℕ → Bool
unfolding tx_frames
tx_admit d active l3len mtu = if not active then true else leb (tx_frames l3len mtu) d.tx_free

unfoldable pub tx_writable : Netdev → Bool → Bool
tx_writable d active = not active || leb d.tx_max d.tx_free

div_mono : (x y k : ℕ) → 0 < k → x ≤ y → x / k ≤ y / k
div_mono x y k p l =
    (le-div_iff_mul-le {x = x / k} {y = y} p).1 (omega (arith, div-mul-le_self x k))

ceil_mono : (a b per : ℕ) → 0 < per → a ≤ b → (a + per - 1) / per ≤ (b + per - 1) / per
ceil_mono a b per p l = div_mono (a + per - 1) (b + per - 1) per p (omega arith)

one_frame : (b per : ℕ) → 0 < per → 0 < b → 1 ≤ (b + per - 1) / per
one_frame b per p l = (le-div_iff_mul-le {x = 1} {y = b + per - 1} p).1 (omega arith)

-- No datagram takes more frames than a larger one.
tx_frames_le : (a b mtu : ℕ) → 28 ≤ mtu → a ≤ b → tx_frames a mtu ≤ tx_frames b mtu
unfolding tx_frames
tx_frames_le a b mtu m l =
    let per : ℕ = (mtu - 20) / 8 * 8 in
    let some_bytes : 0 < per = omega arith in
    elim (Bool-cases (leb (a + 20) mtu)) [
      | inl z ↦ elim (Bool-cases (leb (b + 20) mtu)) [
        | inl y ↦ rw (z, y) (omega arith)
        | inr y ↦ rw (z, y) (one_frame b per some_bytes (ground (arith, y)))
      ]
      | inr z ↦ elim (Bool-cases (leb (b + 20) mtu)) [
        | inl y ↦ absurd (ground (arith, z, y))
        | inr y ↦ rw (z, y) (ceil_mono a b per some_bytes l)
      ]
    ]

-- What select promises of an interface that is set up for its MTU: where it is writable, a datagram of
-- any size is admitted.
pub tx_writable-admits :
    (d : Netdev) (active : Bool) (l3len mtu : ℕ)
    → 28 ≤ mtu
    → l3len ≤ max_l3
    → d.tx_max ≡ tx_frames max_l3 mtu
    → tx_writable d active ≡ true
    → tx_admit d active l3len mtu ≡ true
unfolding tx_writable tx_admit
tx_writable-admits d active l3len mtu m l t w =
    ground (arith, w, t, tx_frames_le l3len max_l3 mtu m l)

-- Frames output one after the other, each with the driver's answer: the state, and whether all were sent.
abbrev pub is_sent : OutErr → Bool
is_sent sent = true
is_sent no_memory = false
is_sent bad_shape = false

unfoldable pub send_frames : Netdev → List (Bool × ℕ) → Netdev × Bool
unfolding linkoutput
send_frames d [] = (d, true)
send_frames d (f ∷ fs) =
    let (d', e) = linkoutput d true f.0 (some f.1) in
    let (d'', ok) = send_frames d' fs in (d'', is_sent e && ok)

abbrev pub names : List (Bool × ℕ) → List ℕ
names [] = []
names (f ∷ fs) = f.1 ∷ names fs

-- With capacity left a frame is sent, and takes at most one off the capacity.
linkoutput-sent :
    (k j : ℕ) (d : Netdev) (takes : Bool) (frame : ℕ)
    → IsNetdev k j d
    → 0 < d.tx_free
    → let (d', e) = linkoutput d true takes (some frame) in
      (e ≡ sent) × (d.tx_free ≤ d'.tx_free + 1) × (d'.dropped ≡ d.dropped)
unfolding linkoutput output_frame defer
linkoutput-sent k j d takes frame (p, f, c) low = elim (Bool-cases (queue_idle d.pend && takes)) [
  | inl z ↦ rw z (refl, omega arith, refl)
  | inr z ↦
      let fits : ltb d.pend.mask (queue_filled d.pend) ≡ false =
        ground (arith, p.1, c, pow_positive k) in
      let small = half k p.0 in rw (z, fits) (refl, omega arith, refl)
]

send_frames_sent :
    (k j : ℕ) (d : Netdev) (fs : List (Bool × ℕ))
    → IsNetdev k j d
    → length fs ≤ d.tx_free
    → let (d', ok) = send_frames d fs in
      (ok ≡ true) × (sends d' ≡ sends d ++ names fs) × (d'.dropped ≡ d.dropped)
unfolding send_frames
send_frames_sent k j d [] v l = (refl, sym (append-nil (sends d)), refl)
send_frames_sent k j d (f ∷ fs) v l =
    let (d', e) = linkoutput d true f.0 (some f.1) in
    let (is, left, same) = linkoutput-sent k j d f.0 f.1 v (omega arith) in
    let h = linkoutput-Adds k j d true f.0 (some f.1) v in
    let (ok, order, kept) = send_frames_sent k j d' fs h.0 (omega arith) in
    (
      ap (λ y. is_sent y && (send_frames d' fs).1) is ∙ ok,
      order
          ∙ ap (λ y. y ++ names fs) (h.1 ∙ ap (λ y. sends d ++ taken_by y (some f.1)) is)
          ∙ append_assoc (sends d) (f.1 ∷ []) (names fs),
      kept ∙ same,
    )

-- The sizes of a datagram's fragments under an MTU, as IP cuts it: all but the last carry the largest
-- multiple of eight bytes that fits behind a header, and the last carries what is left.
abbrev pub AreFragments : ℕ → ℕ → List ℕ → Type 0
AreFragments mtu n [] = ⊥
AreFragments mtu n (s ∷ []) = (s ≡ n) × (0 < s) × (s + 20 ≤ mtu)
AreFragments mtu n (s ∷ t ∷ rest) =
    (s ≡ (mtu - 20) / 8 * 8) × (s < n) × AreFragments mtu (n - s) (t ∷ rest)

-- What goes out of a datagram: itself, where it fits, and its fragments where it does not.
abbrev pub GoesAs : ℕ → ℕ → List ℕ → Type 0
GoesAs mtu n sizes =
    ((n + 20 ≤ mtu) × (sizes ≡ n ∷ [])) ⊎ ((mtu < n + 20) × AreFragments mtu n sizes)

fragments_carry :
    (mtu n s : ℕ) (rest : List ℕ)
    → AreFragments mtu n (s ∷ rest)
    → length rest * ((mtu - 20) / 8 * 8) < n
fragments_carry mtu n s [] (e, p, l) = omega (arith, e, p)
fragments_carry mtu n s (t ∷ rest) (e, p, l) =
    omega (arith, e, p, fragments_carry mtu (n - s) t rest l)

-- A datagram goes out in no more frames than the code counts for it.
GoesAs-tx_frames :
    (mtu n : ℕ) (sizes : List ℕ) → 28 ≤ mtu → GoesAs mtu n sizes → length sizes ≤ tx_frames n mtu
unfolding tx_frames
GoesAs-tx_frames mtu n sizes m (inl (l, e)) = ground (arith, l, ap length e)
GoesAs-tx_frames mtu n [] m (inr (l, h)) = absurd h
GoesAs-tx_frames mtu n (s ∷ rest) m (inr (l, h)) =
    let per : ℕ = (mtu - 20) / 8 * 8 in
    let some_bytes : 0 < per = omega arith in
    let cut : leb (n + 20) mtu ≡ false = ground (arith, l) in
    rw cut (
      (le-div_iff_mul-le {x = suc (length rest)} {y = n + per - 1} some_bytes).1
        (omega (arith, fragments_carry mtu n s rest h)))

-- An admitted datagram goes out whole. However IP cuts it under an MTU of at least 28 - not at all, or
-- into fragments of the largest multiple of eight bytes and a last one - its frames, output one after
-- the other, are all sent in their order and none is dropped, whatever the driver answers to each.
pub tx_admit-sends :
    (k j : ℕ) (d : Netdev) (l3len mtu : ℕ) (sizes : List ℕ) (fs : List (Bool × ℕ))
    → IsNetdev k j d
    → 28 ≤ mtu
    → tx_admit d true l3len mtu ≡ true
    → GoesAs mtu l3len sizes
    → length fs ≡ length sizes
    → let (d', ok) = send_frames d fs in
      (ok ≡ true) × (sends d' ≡ sends d ++ names fs) × (d'.dropped ≡ d.dropped)
unfolding tx_admit
tx_admit-sends k j d l3len mtu sizes fs v m h g l =
    send_frames_sent k j d fs v (ground (arith, h, l, GoesAs-tx_frames mtu l3len sizes m g))
