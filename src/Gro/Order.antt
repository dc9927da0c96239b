-- ===== src/Gro/Order.antt =====
-- One merge context: the bytes of a flow in what it delivers and in what it holds.
use lwip_amiga.Base.{
  ℕ, ◌+◌, ◌-◌, ◌≡◌, ◌≢◌, ◌⊎◌, inl, inr, refl, sym, ◌∙◌, ap, Bool, true, not, ◌&&◌, none, some, List,
  [], ◌∷◌, ◌++◌, append-nil, append_assoc, ◌==◌, ltb, if◌then◌else◌, arith, Bool-cases,
  Option-cases, length,
}
use lwip_amiga.Gro.{
  Verdict, no, nomerge, merge, ack, Meta, Head, Pbuf, Packet, Ctx, restore_tot_len, patch, flush,
  slot, is_same_flow, absorb, rx_ctx, seq_gt, max_frames,
}

abbrev pub tails : List Pbuf → List ℕ
tails [] = []
tails (q ∷ qs) = q.bytes ++ tails qs

pub record Key : Type 0 where
  pub src : ℕ
  pub dst : ℕ
  pub ports : ℕ

abbrev pub is_of : Key → Head → Bool
is_of k h = k.src == h.src && k.dst == h.dst && k.ports == h.ports

tails-restore_tot_len : (n : ℕ) (qs : List Pbuf) → tails (restore_tot_len n qs) ≡ tails qs
unfolding restore_tot_len
tails-restore_tot_len n [] = refl
tails-restore_tot_len n (q ∷ qs) =
    ap (λ t. q.bytes ++ t) (tails-restore_tot_len (n - length q.bytes) qs)

tails-append : (xs ys : List Pbuf) → tails (xs ++ ys) ≡ tails xs ++ tails ys
tails-append [] ys = refl
tails-append (x ∷ xs) ys =
    ap (λ t. x.bytes ++ t) (tails-append xs ys) ∙ sym (append_assoc x.bytes (tails xs) (tails ys))

pub verdict-cases : (v : Verdict) → (v ≡ no) ⊎ (v ≡ nomerge) ⊎ (v ≡ merge) ⊎ (v ≡ ack)
verdict-cases no = inl refl
verdict-cases nomerge = inr (inl refl)
verdict-cases merge = inr (inr (inl refl))
verdict-cases ack = inr (inr (inr refl))

-- `dt` tells what lwIP takes from a frame's bytes behind headers of a size: the segment's payload,
-- without the padding of a short frame.
module _ (rh dt : List ℕ → ℕ → List ℕ) where
  -- The bytes that a packet carries behind its headers.
  abbrev pub payload : Packet → List ℕ
  payload p = dt p.first.bytes p.head.size ++ tails p.rest

  abbrev pub one : Key → Packet → List ℕ
  one k p = if is_of k p.head then payload p else []

  -- The bytes of a flow in a list of packets.
  abbrev pub flow_payload : Key → List Packet → List ℕ
  flow_payload k [] = []
  flow_payload k (p ∷ ps) = one k p ++ flow_payload k ps

  -- The verdict of a frame agrees with its headers.
  abbrev pub IsMeta : Packet → Meta → Type 0
  IsMeta p m =
      (p.head.src ≡ m.src)
      × (p.head.dst ≡ m.dst)
      × (p.head.ports ≡ m.ports)
      × (p.rest ≡ [])
      × (m.verdict ≡ ack → payload p ≡ [])
      × (m.verdict ≡ merge → dt p.first.bytes p.head.size ≡ rh p.first.bytes m.pay_off)

  abbrev pub IsHeld : ℕ → Ctx → Packet → Type 0
  IsHeld i c h =
      (h.head.src ≡ c.src)
      × (h.head.dst ≡ c.dst)
      × (h.head.ports ≡ c.ports)
      × (slot c.ports c.src ≡ i)
      × (c.is_ack ≡ true → payload h ≡ [])

  abbrev pub IsCtx : ℕ → Ctx → Type 0
  IsCtx i c = elim c.held [ none ↦ Unit {0} | some h ↦ IsHeld i c h ]

  IsCtx-some : (i : ℕ) (c : Ctx) (h : Packet) → IsCtx i c → c.held ≡ some h → IsHeld i c h
  IsCtx-some i c h w e = ground (arith, w, e)

  abbrev pub held_payload : Key → Ctx → List ℕ
  held_payload k c = elim c.held [ none ↦ [] | some h ↦ one k h ]

  one-patch : (k : Key) (c : Ctx) (p : Packet) → one k (patch c p) ≡ one k p
  unfolding patch
  one-patch k c p = ground (
    arith,
    tails-restore_tot_len (length p.first.bytes + c.payload_add - length p.first.bytes) p.rest,
  )

  pub flow_payload-append :
      (k : Key) (xs ys : List Packet)
      → flow_payload k (xs ++ ys) ≡ flow_payload k xs ++ flow_payload k ys
  flow_payload-append k [] ys = refl
  flow_payload-append k (x ∷ xs) ys =
      ap (λ t. one k x ++ t) (flow_payload-append k xs ys)
      ∙ sym (append_assoc (one k x) (flow_payload k xs) (flow_payload k ys))

  pub flush-payload : (k : Key) (c : Ctx) → flow_payload k (flush c).1 ≡ held_payload k c
  unfolding flush
  flush-payload k c = elim (Option-cases c.held) [
    | inl n ↦ ground arith
    | inr (h, e) ↦ ground (arith, append-nil (one k (patch c h)), one-patch k c h)
  ]

  absorb-payload :
      (k : Key) (c : Ctx) (h p : Packet) (m : Meta)
      → IsMeta p m
      → m.verdict ≡ merge
      → is_of k h.head ≡ is_of k p.head
      → held_payload k (absorb rh c h p m) ≡ one k h ++ one k p
  unfolding absorb
  absorb-payload k c h p m v g e = ground (
    arith,
    tails-append h.rest (
        record { bytes = rh p.first.bytes m.pay_off; tot_len = length (rh p.first.bytes m.pay_off) }
        ∷ []),
    append_assoc (dt h.first.bytes h.head.size) (tails h.rest) (rh p.first.bytes m.pay_off),
    append-nil (rh p.first.bytes m.pay_off),
    append-nil (dt p.first.bytes p.head.size),
  )

  -- A context that holds no packet of the flow, though the frame is of it.
  same_flow :
      (k : Key) (i : ℕ) (c : Ctx) (h p : Packet) (m : Meta)
      → c.held ≡ some h
      → IsHeld i c h
      → IsMeta p m
      → is_of k h.head ≡ true
      → is_of k p.head ≡ true
      → is_same_flow c m ≡ true
  same_flow k i c h p m e w v a b = ground arith

  same_flow_key :
      (k : Key) (i : ℕ) (c : Ctx) (h p : Packet) (m : Meta)
      → c.held ≡ some h
      → IsHeld i c h
      → IsMeta p m
      → is_same_flow c m ≡ true
      → is_of k h.head ≡ is_of k p.head
  same_flow_key k i c h p m e w v a = ground arith

  -- What a context delivers for a frame, and then holds, is what it held and the frame.
  abbrev pub Kept : Key → Ctx → Packet → Ctx × List Packet → Type 0
  Kept k c p r = flow_payload k r.1 ++ held_payload k r.0 ≡ held_payload k c ++ one k p

  nomerge-Kept :
      (k : Key) (i : ℕ) (c : Ctx) (p : Packet) (m : Meta)
      → IsCtx i c
      → IsMeta p m
      → m.verdict ≡ nomerge
      → Kept k c p (rx_ctx rh c p m)
  unfolding rx_ctx flush
  nomerge-Kept k i c p m w v e = elim (Option-cases c.held) [
    | inl n ↦ ground (arith, append-nil (one k p))
    | inr (h, f) ↦ elim (Bool-cases (is_same_flow c m)) [
      | inl s ↦ ground (
        arith,
        append-nil (one k p),
        append-nil (one k h),
        append_assoc (one k h) (one k p) [],
        one-patch k c h,
      )
      | inr s ↦ ground (
        arith,
        append-nil (one k p),
        append-nil (one k h),
        same_flow k i c h p m f (IsCtx-some i c h w f) v,
      )
    ]
  ]

  ack-Kept :
      (k : Key) (i : ℕ) (c : Ctx) (p : Packet) (m : Meta)
      → IsCtx i c
      → IsMeta p m
      → m.verdict ≡ ack
      → Kept k c p (rx_ctx rh c p m)
  unfolding rx_ctx flush
  ack-Kept k i c p m w v e = elim (Option-cases c.held) [
    | inl n ↦ ground (arith, append-nil (one k p))
    | inr (h, f) ↦ elim (Bool-cases (is_same_flow c m && c.is_ack && seq_gt m.number c.number)) [
      | inl s ↦ ground (arith, IsCtx-some i c h w f, v)
      | inr s ↦ ground (arith, append-nil (one k p), append-nil (one k h), one-patch k c h)
    ]
  ]

  merge-Kept :
      (k : Key) (i : ℕ) (c : Ctx) (p : Packet) (m : Meta)
      → IsCtx i c
      → IsMeta p m
      → m.verdict ≡ merge
      → Kept k c p (rx_ctx rh c p m)
  unfolding rx_ctx flush
  merge-Kept k i c p m w v e = elim (Option-cases c.held) [
    | inl n ↦ ground (arith, append-nil (one k p))
    | inr (h, f) ↦
        elim (Bool-cases
          (is_same_flow c m && not c.is_ack && m.number == c.number && ltb c.frames max_frames)) [
            | inl s ↦ ground (
              arith,
              absorb-payload k c h p m v e,
              same_flow_key k i c h p m f (IsCtx-some i c h w f) v,
            )
            | inr s ↦ ground (arith, append-nil (one k p), append-nil (one k h), one-patch k c h)
          ]
  ]

  pub rx_ctx-IsCtx :
      (i : ℕ) (c : Ctx) (p : Packet) (m : Meta)
      → IsCtx i c
      → IsMeta p m
      → m.verdict ≢ no
      → slot m.ports m.src ≡ i
      → IsCtx i (rx_ctx rh c p m).0
  unfolding rx_ctx flush absorb
  rx_ctx-IsCtx i c p m w v e s = elim (Option-cases c.held) [
    | inl n ↦ ground (arith, v)
    | inr (h, f) ↦ ground (arith, v, IsCtx-some i c h w f)
  ]

  pub rx_ctx-Kept :
      (k : Key) (i : ℕ) (c : Ctx) (p : Packet) (m : Meta)
      → IsCtx i c
      → IsMeta p m
      → m.verdict ≢ no
      → Kept k c p (rx_ctx rh c p m)
  rx_ctx-Kept k i c p m w v e = elim (verdict-cases m.verdict) [
    | inl f ↦ absurd (e f)
    | inr (inl f) ↦ nomerge-Kept k i c p m w v f
    | inr (inr (inl f)) ↦ merge-Kept k i c p m w v f
    | inr (inr (inr f)) ↦ ack-Kept k i c p m w v f
  ]
