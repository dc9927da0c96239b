-- ===== src/Tx/Order.antt =====
-- The frames in the order they were given, through the pending queue, and the completed ones through
-- the ring that they are freed from.
use lwip_amiga.Base.{
  ℕ, ◌+◌, ◌%◌, ◌^◌, ◌≡◌, inl, inr, sym, ap, ◌∙◌, Bool, false, not, ◌&&◌, List, [], ◌∷◌, ◌++◌, ltb,
  leb, arith, Bool-cases, append_assoc, append-nil,
}
use lwip_amiga.Tx.{
  queue_idle, queue_filled, queue_first, queue_drop, Netdev, tx_freed, tx_submit, resubmitted,
  pend_drain,
}
use lwip_amiga.Tx.Rings.{contents, IsRing, half, queue_drop-contents}

-- The frames in the order of the wire: those with the driver, then those that wait.
abbrev pub sends : Netdev → List ℕ
sends d = d.given ++ contents d.pend

-- The completed frames: those freed, then those staged to be.
abbrev pub completes : Netdev → List ℕ
completes d = d.freed ++ contents d.free

-- Both queues are rings, and the capacity is what the pending queue has free.
abbrev pub IsNetdev : ℕ → ℕ → Netdev → Type 0
IsNetdev k j d = IsRing k d.pend × IsRing j d.free × (d.tx_free + queue_filled d.pend ≡ 2 ^ k)

-- A change that adds `xs` to the frames sent and `ys` to the completed ones.
abbrev pub Adds : ℕ → ℕ → Netdev → Netdev → List ℕ → List ℕ → Type 0
Adds k j d d' xs ys =
    IsNetdev k j d' × (sends d' ≡ sends d ++ xs) × (completes d' ≡ completes d ++ ys)

pub Adds-refl : (k j : ℕ) (d : Netdev) → IsNetdev k j d → Adds k j d d [] []
Adds-refl k j d v = (v, sym (append-nil (sends d)), sym (append-nil (completes d)))

append-move : (a b c d e : List ℕ) → b ≡ a ++ d → c ≡ b ++ e → c ≡ a ++ (d ++ e)
append-move a b c d e h g = g ∙ ap (λ y. y ++ e) h ∙ append_assoc a d e

pub Adds-trans :
    (k j : ℕ) (d d' d'' : Netdev) (xs ys us vs : List ℕ)
    → Adds k j d d' xs ys
    → Adds k j d' d'' us vs
    → Adds k j d d'' (xs ++ us) (ys ++ vs)
Adds-trans k j d d' d'' xs ys us vs h g = (
  g.0,
  append-move (sends d) (sends d') (sends d'') xs us h.1 g.1,
  append-move (completes d) (completes d') (completes d'') ys vs h.2 g.2,
)

-- What `netifbase_tx_freed` leaves.
pub tx_freed_rest :
    (d : Netdev)
    → ((tx_freed d).pend ≡ d.pend)
      × ((tx_freed d).free ≡ d.free)
      × ((tx_freed d).given ≡ d.given)
      × ((tx_freed d).freed ≡ d.freed)
      × ((tx_freed d).tx_free ≡ (d.tx_free + 1) % 2 ^ 32)
unfolding tx_freed
tx_freed_rest d =
    elim (Bool-cases (ltb d.tx_free d.tx_max && leb d.tx_max ((d.tx_free + 1) % 2 ^ 32))) [
      | inl z ↦ elim (Bool-cases d.want_space) [
        | inl y ↦ ground (arith, z, y)
        | inr y ↦ ground (arith, z, y)
      ]
      | inr z ↦ ground (arith, z)
    ]

snoc_first : (g : List ℕ) (x : ℕ) (c : List ℕ) → (g ++ (x ∷ [])) ++ c ≡ (g ++ (x ∷ c)) ++ []
snoc_first g x c = append_assoc g (x ∷ []) c ∙ sym (append-nil (g ++ (x ∷ c)))

resubmitted-Adds :
    (k j : ℕ) (d : Netdev)
    → IsNetdev k j d
    → queue_idle d.pend ≡ false
    → Adds k j d (resubmitted d) [] []
unfolding resubmitted
resubmitted-Adds k j d (p, f, c) e =
    let (p', split, less) = queue_drop-contents k d.pend p e in
    let d1 = record (tx_submit d (queue_first d.pend)) { pend = queue_drop d.pend } in
    let (r0, r1, r2, r3, r4) = tx_freed_rest d1 in
    let big = half k p.0 in
    (
      (rw r0 p', rw r1 f, rw (r0, r4) (omega (arith, c, less, big, p.5))),
      rw (r0, r2)
          (snoc_first d.given (queue_first d.pend) (contents (queue_drop d.pend))
            ∙ ap (λ y. (d.given ++ y) ++ []) (sym split)),
      rw (r1, r3) (sym (append-nil (completes d))),
    )

pub pend_drain-Adds :
    (k j : ℕ) (room : List Bool) (d : Netdev)
    → IsNetdev k j d
    → Adds k j d (pend_drain room d) [] []
unfolding pend_drain
pend_drain-Adds k j [] d v = Adds-refl k j d v
pend_drain-Adds k j (ok ∷ room) d v = elim (Bool-cases (not (queue_idle d.pend) && ok)) [
  | inl z ↦
      let h = resubmitted-Adds k j d v (ground (arith, z)) in
      rw z (
        Adds-trans k j d (resubmitted d) (pend_drain room (resubmitted d)) [] [] [] [] h
          (pend_drain-Adds k j room (resubmitted d) h.0))
  | inr z ↦ rw z (Adds-refl k j d v)
]
