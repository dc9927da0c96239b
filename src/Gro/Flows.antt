-- ===== src/Gro/Flows.antt =====
-- The engine on a batch of frames: the bytes of each flow, delivered and held.
use lwip_amiga.Base.{
  ℕ, zero, suc, ◌+◌, ◌<◌, ◌≡◌, ◌≢◌, inl, inr, refl, sym, ◌∙◌, ap, List, [], ◌∷◌, ◌++◌, append-nil,
  append_assoc, ◌==◌, arith, Bool-cases, Option-cases, length, get_or, set, bit_xor, length-set,
  get_or-set_self, get_or-set_ne, ==→eq,
}
use lwip_amiga.Base.Bits.{bit_and_low}
use lwip_amiga.Gro.{
  no, Meta, Packet, Ctx, Gro, flush, flush_each, flush_all, idle, slot, rx_ctx, rx, rx_all, init,
}
use lwip_amiga.Gro.Order.{
  Key, is_of, one, flow_payload, IsMeta, IsCtx, held_payload, flow_payload-append, flush-payload,
  rx_ctx-IsCtx, rx_ctx-Kept,
}

slot-lt : (ports src : ℕ) → slot ports src < 4
slot-lt ports src = omega (arith, bit_and_low 2 (bit_xor ports src))

nil_of_append : {A : Type 0} (xs ys : List A) → xs ++ ys ≡ [] → xs ≡ []
nil_of_append [] ys e = refl
nil_of_append (x ∷ xs) ys e = cc

module _ (rh dt : List ℕ → ℕ → List ℕ) where
  -- Each context stands in the slot of the flow that it holds.
  abbrev pub IsFlows : ℕ → List Ctx → Type 0
  IsFlows i [] = Unit {0}
  IsFlows i (c ∷ cs) = IsCtx rh dt i c × IsFlows (suc i) cs

  abbrev pub IsGro : Gro → Type 0
  IsGro g = (length g.flows ≡ 4) × IsFlows 0 g.flows

  abbrev held_all : Key → List Ctx → List ℕ
  held_all k [] = []
  held_all k (c ∷ cs) = held_payload rh dt k c ++ held_all k cs

  other_slot :
      (k : Key) (i : ℕ) (c : Ctx)
      → IsCtx rh dt i c
      → slot k.ports k.src ≢ i
      → held_payload rh dt k c ≡ []
  other_slot k i c w h = elim (Option-cases c.held) [
    | inl n ↦ ground arith
    | inr (x, f) ↦ ground (arith, w, h)
  ]

  held_all-above :
      (k : Key) (i : ℕ) (cs : List Ctx) → IsFlows i cs → slot k.ports k.src < i → held_all k cs ≡ []
  held_all-above k i [] w h = refl
  held_all-above k i (c ∷ cs) w h =
      ground (arith, other_slot k i c w.0 (λ e. omega arith), held_all-above k (suc i) cs w.1)

  held_all-sole :
      (k : Key) (i j : ℕ) (cs : List Ctx)
      → IsFlows i cs
      → slot k.ports k.src ≡ i + j
      → held_all k cs ≡ held_payload rh dt k (get_or cs j idle)
  held_all-sole k i j [] w h = refl
  held_all-sole k i zero (c ∷ cs) w h =
      ground (arith, append-nil (held_payload rh dt k c), held_all-above k (suc i) cs w.1)
  held_all-sole k i (suc j) (c ∷ cs) w h =
      ground (arith, other_slot k i c w.0 (λ e. omega arith), held_all-sole k (suc i) j cs w.1)

  IsCtx-at : (i n : ℕ) (c : Ctx) → n ≡ i → IsCtx rh dt n c → IsCtx rh dt i c
  IsCtx-at i n c e v = rw (← e) v

  IsFlows-set :
      (i j n : ℕ) (cs : List Ctx) (c : Ctx)
      → IsFlows i cs
      → n ≡ i + j
      → IsCtx rh dt n c
      → IsFlows i (set cs j c)
  IsFlows-set i j n [] c w e v = w
  IsFlows-set i zero n (x ∷ cs) c w e v = (IsCtx-at i n c (omega arith) v, w.1)
  IsFlows-set i (suc j) n (x ∷ cs) c w e v = (w.0, IsFlows-set (suc i) j n cs c w.1 (omega arith) v)

  IsFlows-get_or :
      (i j n : ℕ) (cs : List Ctx) → IsFlows i cs → n ≡ i + j → IsCtx rh dt n (get_or cs j idle)
  IsFlows-get_or i j n [] w e = ground arith
  IsFlows-get_or i zero n (x ∷ cs) w e = IsCtx-at n i x (omega arith) w.0
  IsFlows-get_or i (suc j) n (x ∷ cs) w e = IsFlows-get_or (suc i) j n cs w.1 (omega arith)

  flush_each-payload :
      (k : Key) (cs : List Ctx) → flow_payload rh dt k (flush_each cs).1 ≡ held_all k cs
  unfolding flush_each
  flush_each-payload k [] = refl
  flush_each-payload k (c ∷ cs) =
      flow_payload-append rh dt k (flush c).1 (flush_each cs).1
      ∙ ground (arith, flush-payload rh dt k c, flush_each-payload k cs)

  pub rx-IsGro :
      (g : Gro) (p : Packet) (m : Meta)
      → IsGro g
      → IsMeta rh dt p m
      → m.verdict ≢ no
      → IsGro (rx rh g p m)
  unfolding rx
  rx-IsGro g p m w v e =
      let i = slot m.ports m.src in
      let c = get_or g.flows i idle in
      (
        length-set g.flows i (rx_ctx rh c p m).0 ∙ w.0,
        IsFlows-set 0 i i g.flows (rx_ctx rh c p m).0 w.1 (omega arith)
            (rx_ctx-IsCtx rh dt i c p m (IsFlows-get_or 0 i i g.flows w.1 (omega arith)) v e refl),
      )

  one-slot :
      (k : Key) (p : Packet) (m : Meta)
      → IsMeta rh dt p m
      → slot k.ports k.src ≢ slot m.ports m.src
      → one rh dt k p ≡ []
  one-slot k p m v h = elim (Bool-cases (is_of k p.head)) [
    | inl z ↦ absurd (h (ground (arith, z, v, ==→eq k.src p.head.src, ==→eq k.ports p.head.ports)))
    | inr z ↦ ground (arith, z)
  ]

  rx_ctx-held_all :
      (k : Key) (flows : List Ctx) (p : Packet) (m : Meta)
      → (length flows ≡ 4) × IsFlows 0 flows
      → IsMeta rh dt p m
      → m.verdict ≢ no
      → let i = slot m.ports m.src in
        let r = rx_ctx rh (get_or flows i idle) p m in
        flow_payload rh dt k r.1 ++ held_all k (set flows i r.0) ≡ held_all k flows ++ one rh dt k p
  rx_ctx-held_all k flows p m w v e =
      let i = slot m.ports m.src in
      let s = slot k.ports k.src in
      let c = get_or flows i idle in
      let r = rx_ctx rh c p m in
      let v' = IsFlows-get_or 0 i i flows w.1 (omega arith) in
      let kept = rx_ctx-Kept rh dt k i c p m v' v e in
      let w' =
        IsFlows-set 0 i i flows r.0 w.1 (omega arith) (rx_ctx-IsCtx rh dt i c p m v' v e refl) in
      let old = held_all-sole k 0 s flows w.1 (omega arith) in
      let new = held_all-sole k 0 s (set flows i r.0) w' (omega arith) in
      elim (Bool-cases (s == i)) [
        | inl z ↦ ground (
          arith,
          ==→eq s i z,
          get_or-set_self flows i r.0 idle (ground (arith, w, slot-lt m.ports m.src)),
          kept,
          old,
          new,
        )
        | inr z ↦
            let ne : s ≢ i = λ h. ground (arith, h, z) in
            let a = other_slot k i c v' ne in
            let b = one-slot k p m v ne in
            let d =
              nil_of_append (flow_payload rh dt k r.1) (held_payload rh dt k r.0)
                (ground (arith, kept, a, b)) in
            ground (
              arith,
              a,
              b,
              d,
              old,
              new,
              get_or-set_ne flows r.0 idle (λ h. ne (sym h)),
              append-nil (held_all k flows),
            )
      ]

  -- What the engine delivers for a frame, and then holds, is what it held and the frame.
  rx-held_all :
      (k : Key) (g : Gro) (p : Packet) (m : Meta)
      → IsGro g
      → IsMeta rh dt p m
      → m.verdict ≢ no
      → flow_payload rh dt k (rx rh g p m).delivered ++ held_all k (rx rh g p m).flows
        ≡ (flow_payload rh dt k g.delivered ++ held_all k g.flows) ++ one rh dt k p
  unfolding rx
  rx-held_all k g p m w v e =
      let i = slot m.ports m.src in
      let r = rx_ctx rh (get_or g.flows i idle) p m in
      let d = flow_payload rh dt k g.delivered in
      ap (λ t. t ++ held_all k (set g.flows i r.0)) (flow_payload-append rh dt k g.delivered r.1)
      ∙ append_assoc d (flow_payload rh dt k r.1) (held_all k (set g.flows i r.0))
      ∙ ap (λ t. d ++ t) (rx_ctx-held_all k g.flows p m w v e)
      ∙ sym (append_assoc d (held_all k g.flows) (one rh dt k p))

  abbrev pub AreMeta : List (Packet × Meta) → Type 0
  AreMeta [] = Unit {0}
  AreMeta ((p, m) ∷ rest) = IsMeta rh dt p m × m.verdict ≢ no × AreMeta rest

  abbrev pub packets : List (Packet × Meta) → List Packet
  packets [] = []
  packets ((p, m) ∷ rest) = p ∷ packets rest

  rx_all-held_all :
      (k : Key) (g : Gro) (batch : List (Packet × Meta))
      → IsGro g
      → AreMeta batch
      → flow_payload rh dt k (flush_all (rx_all rh g batch)).delivered
        ≡ (flow_payload rh dt k g.delivered ++ held_all k g.flows)
          ++ flow_payload rh dt k (packets batch)
  unfolding flush_all
  rx_all-held_all k g [] w v =
      flow_payload-append rh dt k g.delivered (flush_each g.flows).1
      ∙ ap (λ t. flow_payload rh dt k g.delivered ++ t) (flush_each-payload k g.flows)
      ∙ sym (append-nil (flow_payload rh dt k g.delivered ++ held_all k g.flows))
  rx_all-held_all k g ((p, m) ∷ rest) w v =
      let d = flow_payload rh dt k g.delivered ++ held_all k g.flows in
      rx_all-held_all k (rx rh g p m) rest (rx-IsGro g p m w v.0 v.1) v.2
      ∙ ap (λ t. t ++ flow_payload rh dt k (packets rest)) (rx-held_all k g p m w v.0 v.1)
      ∙ append_assoc d (one rh dt k p) (flow_payload rh dt k (packets rest))

  init-IsFlows : (i : ℕ) (cs : List Ctx) → IsFlows i (init cs).flows
  unfolding init
  init-IsFlows i [] = ground arith
  init-IsFlows i (c ∷ cs) = ground (arith, init-IsFlows (suc i) cs)

  init-held_all : (k : Key) (cs : List Ctx) → held_all k (init cs).flows ≡ []
  unfolding init
  init-held_all k [] = refl
  init-held_all k (c ∷ cs) = init-held_all k cs

  init-length : (cs : List Ctx) → length (init cs).flows ≡ length cs
  unfolding init
  init-length [] = refl
  init-length (c ∷ cs) = ap suc (init-length cs)

  -- For any frames whose verdicts agree with their headers, fed to an engine just initialised and
  -- flushed: what is delivered of a flow carries the bytes of its frames, in their order, each once.
  pub flush_all-rx_all :
      (k : Key) (cs : List Ctx) (batch : List (Packet × Meta))
      → length cs ≡ 4
      → AreMeta batch
      → flow_payload rh dt k (flush_all (rx_all rh (init cs) batch)).delivered
        ≡ flow_payload rh dt k (packets batch)
  unfolding init
  flush_all-rx_all k cs batch l v =
      rx_all-held_all k (init cs) batch (init-length cs ∙ l, init-IsFlows 0 cs) v
      ∙ ap (λ t. t ++ flow_payload rh dt k (packets batch)) (init-held_all k cs)
