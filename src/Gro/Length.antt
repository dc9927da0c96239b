-- ===== src/Gro/Length.antt =====
-- The lengths of what one context delivers: of a merged run's IP packet and of each pbuf of its
-- chain.
use lwip_amiga.Base.{
  ℕ, ◌+◌, ◌-◌, ◌*◌, ◌^◌, ◌≤◌, ◌<◌, ◌≡◌, ◌≢◌, ◌⊎◌, inl, inr, refl, true, false, not, ◌&&◌, none,
  some, List, [], ◌∷◌, ◌++◌, ◌==◌, ltb, leb, arith, Bool-cases, Option-cases, length, length-append,
}
use lwip_amiga.Gro.{
  no, nomerge, merge, ack, Meta, Pbuf, Packet, Ctx, restore_tot_len, patch, flush, is_same_flow,
  seq_gt, max_frames, absorb, rx_ctx,
}
use lwip_amiga.Gro.Order.{verdict-cases}

-- The bytes of a chain.
abbrev pub total : List Pbuf → ℕ
total [] = 0
total (q ∷ qs) = length q.bytes + total qs

-- lwIP's rule for a chain: each `tot_len` counts the bytes from its pbuf on.
abbrev pub IsChain : List Pbuf → Type 0
IsChain [] = Unit {0}
IsChain (q ∷ qs) = (q.tot_len ≡ length q.bytes + total qs) × IsChain qs

-- A packet is a chain, and if it was merged then its IP length is that of the two headers and the
-- bytes behind them.
abbrev pub IsWhole : Packet → Type 0
IsWhole p =
    IsChain (p.first ∷ p.rest)
    × ((p.rest ≡ []) ⊎ (p.head.ip_len + p.head.size ≡ 40 + total (p.first ∷ p.rest)))

abbrev pub AreWhole : List Packet → Type 0
AreWhole [] = Unit {0}
AreWhole (p ∷ ps) = IsWhole p × AreWhole ps

pub AreWhole-append : (xs ys : List Packet) → AreWhole xs → AreWhole ys → AreWhole (xs ++ ys)
AreWhole-append [] ys a b = b
AreWhole-append (x ∷ xs) ys a b = (a.0, AreWhole-append xs ys a.1 b)

total-restore_tot_len : (n : ℕ) (qs : List Pbuf) → total (restore_tot_len n qs) ≡ total qs
unfolding restore_tot_len
total-restore_tot_len n [] = refl
total-restore_tot_len n (q ∷ qs) = omega (arith, total-restore_tot_len (n - length q.bytes) qs)

restore_tot_len-IsChain :
    (n : ℕ) (qs : List Pbuf) → n ≡ total qs → n < 2 ^ 16 → IsChain (restore_tot_len n qs)
unfolding restore_tot_len
restore_tot_len-IsChain n [] e h = ground arith
restore_tot_len-IsChain n (q ∷ qs) e h = ground (
  arith,
  restore_tot_len-IsChain (n - length q.bytes) qs (omega arith) (omega arith),
  total-restore_tot_len (n - length q.bytes) qs,
)

total-append : (xs ys : List Pbuf) → total (xs ++ ys) ≡ total xs + total ys
total-append [] ys = omega arith
total-append (x ∷ xs) ys = omega (arith, total-append xs ys)

-- The run that a context holds: so many frames, of at most 1460 bytes behind the head's.
abbrev pub IsRun : Ctx → Packet → Type 0
IsRun c h =
    (c.frames ≡ 1 + length h.rest)
    × (c.frames ≤ 44)
    × (h.first.tot_len ≡ length h.first.bytes)
    × (c.is_ack ≡ true → h.rest ≡ [])
    × (c.is_ack ≡ false → c.payload_add ≡ total h.rest)
    × (c.is_ack ≡ false → c.payload_add + 1460 ≤ c.frames * 1460)
    × (c.is_ack ≡ false → h.head.ip_len + h.head.size ≡ 40 + length h.first.bytes)
    × (c.is_ack ≡ false → h.head.ip_len ≤ 1500)
    × (c.is_ack ≡ false → h.head.size ≤ 58)

abbrev pub IsRunning : Ctx → Type 0
IsRunning c = elim c.held [ none ↦ Unit {0} | some h ↦ IsRun c h ]

IsRunning-some : (c : Ctx) (h : Packet) → IsRunning c → c.held ≡ some h → IsRun c h
IsRunning-some c h w e = ground (arith, w, e)

-- A run of several frames: the sums fit their halfwords.
merged-IsWhole :
    (c : Ctx) (h : Packet)
    → IsRun c h
    → c.is_ack ≡ false
    → leb c.frames 1 ≡ false
    → IsWhole (patch c h)
unfolding patch
merged-IsWhole c h (f, b, t, a, d, s, i, m, z) k l =
    let n = length h.first.bytes + c.payload_add in
    let sum : n ≡ length h.first.bytes + total h.rest = omega (arith, d k) in
    let fits : n < 2 ^ 16 = omega (arith, i k, m k, z k, s k, b) in
    ground (
      arith,
      l,
      k,
      d k,
      fits,
      i k,
      m k,
      s k,
      restore_tot_len-IsChain (n - length h.first.bytes) h.rest (omega arith) (omega arith),
      total-restore_tot_len (n - length h.first.bytes) h.rest,
    )

bare-IsWhole : (h : Packet) → h.first.tot_len ≡ length h.first.bytes → h.rest ≡ [] → IsWhole h
bare-IsWhole h t e = ground (arith, t, e)

pub flush-idle : (c : Ctx) → IsRunning (flush c).0
unfolding flush
flush-idle c = elim (Option-cases c.held) [
  | inl n ↦ ground (arith, n)
  | inr (h, e) ↦ ground (arith, e)
]

nil_of_length : {A : Type 0} (xs : List A) → length xs ≡ 0 → xs ≡ []
nil_of_length [] e = refl
nil_of_length (x ∷ xs) e = absurd (omega arith)

single-patch : (c : Ctx) (h : Packet) → leb c.frames 1 ≡ true → patch c h ≡ h
unfolding patch
single-patch c h l = ground (arith, l)

patch-IsWhole : (c : Ctx) (h : Packet) → IsRun c h → IsWhole (patch c h)
patch-IsWhole c h w = elim (Bool-cases (leb c.frames 1)) [
  | inl l ↦
      rw (single-patch c h l) (bare-IsWhole h w.2 (nil_of_length h.rest (ground (arith, w, l))))
  | inr l ↦ elim (Bool-cases c.is_ack) [
    | inl k ↦ absurd (ground (arith, w, l, k))
    | inr k ↦ merged-IsWhole c h w k l
  ]
]

pub flush-AreWhole : (c : Ctx) → IsRunning c → AreWhole (flush c).1
unfolding flush
flush-AreWhole c w = elim (Option-cases c.held) [
  | inl n ↦ ground arith
  | inr (h, e) ↦ ground (arith, patch-IsWhole c h (IsRunning-some c h w e))
]

module _ (rh : List ℕ → ℕ → List ℕ) where
  -- A received frame and its verdict: one pbuf, and for a segment to merge the lengths that the
  -- headers tell and what is left behind them, within the 1500 bytes of an IP packet.
  abbrev pub IsFrame : Packet → Meta → Type 0
  IsFrame p m =
      (p.rest ≡ [])
      × (p.first.tot_len ≡ length p.first.bytes)
      × (m.verdict ≡ merge → p.head.ip_len + p.head.size ≡ 40 + length p.first.bytes)
      × (m.verdict ≡ merge → p.head.ip_len ≡ 40 + m.pay_len)
      × (m.verdict ≡ merge → length (rh p.first.bytes m.pay_off) ≡ m.pay_len)
      × (m.verdict ≡ merge → p.head.ip_len ≤ 1500)
      × (m.verdict ≡ merge → p.head.size ≤ 58)

  nomerge-AreWhole :
      (c : Ctx) (p : Packet) (m : Meta)
      → IsRunning c
      → IsFrame p m
      → m.verdict ≡ nomerge
      → AreWhole (rx_ctx rh c p m).1 × IsRunning (rx_ctx rh c p m).0
  unfolding rx_ctx
  nomerge-AreWhole c p m w v e =
      let bare = bare-IsWhole p v.1 v.0 in
      elim (Bool-cases (is_same_flow c m)) [
        | inl s ↦ ground (
          arith,
          e,
          s,
          bare,
          AreWhole-append (flush c).1 (p ∷ []) (flush-AreWhole c w),
          flush-idle c,
        )
        | inr s ↦ ground (arith, e, s, bare, w)
      ]

  ack-AreWhole :
      (c : Ctx) (p : Packet) (m : Meta)
      → IsRunning c
      → IsFrame p m
      → m.verdict ≡ ack
      → AreWhole (rx_ctx rh c p m).1 × IsRunning (rx_ctx rh c p m).0
  unfolding rx_ctx
  ack-AreWhole c p m w v e =
      elim (Bool-cases (is_same_flow c m && c.is_ack && seq_gt m.number c.number)) [
        | inl s ↦ elim (Option-cases c.held) [
          | inl n ↦ ground (arith, s, n)
          | inr (h, f) ↦ ground (arith, e, s, f, v, nil_of_length h.rest, IsRunning-some c h w f)
        ]
        | inr s ↦ ground (arith, e, s, v, flush-AreWhole c w)
      ]

  merge-AreWhole :
      (c : Ctx) (p : Packet) (m : Meta)
      → IsRunning c
      → IsFrame p m
      → m.verdict ≡ merge
      → AreWhole (rx_ctx rh c p m).1 × IsRunning (rx_ctx rh c p m).0
  unfolding rx_ctx absorb
  merge-AreWhole c p m w v e = elim (Option-cases c.held) [
    | inl n ↦ ground (arith, n, e, v, flush-AreWhole c w)
    | inr (h, f) ↦
        let run = IsRunning-some c h w f in
        elim (Bool-cases
          (is_same_flow c m && not c.is_ack && m.number == c.number && ltb c.frames max_frames)) [
            | inl s ↦ ground (
              arith,
              e,
              s,
              f,
              v,
              run,
              total-append h.rest (
                  record {
                    bytes = rh p.first.bytes m.pay_off;
                    tot_len = length (rh p.first.bytes m.pay_off);
                  }
                  ∷ []),
              length-append h.rest (
                  record {
                    bytes = rh p.first.bytes m.pay_off;
                    tot_len = length (rh p.first.bytes m.pay_off);
                  }
                  ∷ []),
            )
            | inr s ↦ ground (arith, e, s, f, v, flush-AreWhole c w)
          ]
  ]

  pub rx_ctx-AreWhole :
      (c : Ctx) (p : Packet) (m : Meta)
      → IsRunning c
      → IsFrame p m
      → m.verdict ≢ no
      → AreWhole (rx_ctx rh c p m).1 × IsRunning (rx_ctx rh c p m).0
  rx_ctx-AreWhole c p m w v e = elim (verdict-cases m.verdict) [
    | inl f ↦ absurd (e f)
    | inr (inl f) ↦ nomerge-AreWhole c p m w v f
    | inr (inr (inl f)) ↦ merge-AreWhole c p m w v f
    | inr (inr (inr f)) ↦ ack-AreWhole c p m w v f
  ]
