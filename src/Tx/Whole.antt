-- ===== src/Tx/Whole.antt =====
-- The operations of the transmit path, and any sequence of them.
use lwip_amiga.Base.{
  ℕ, zero, suc, ◌+◌, ◌^◌, ◌<◌, ◌≤◌, ◌≡◌, inl, inr, sym, ap, ◌∙◌, Bool, true, false, ◌&&◌, Option,
  none, some, List, [], ◌∷◌, ◌++◌, ltb, length, arith, Bool-cases, append_assoc, append-nil,
}
use lwip_amiga.Tx.{queue_idle, queue_filled, queue_first, queue_drop, Netdev, pend_drain}
use lwip_amiga.Tx.Output.{
  OutErr, sent, no_memory, bad_shape, defer, output_frame, linkoutput, reclaim_loop, tx_reclaim,
  tx_kick, stage, lock_cycle,
}
use lwip_amiga.Tx.Rings.{
  contents, half, pow_positive, unfilled-contents, stage-contents, queue_put-contents,
  queue_drop-contents, idle-contents,
}
use lwip_amiga.Tx.Order.{sends, completes, IsNetdev, Adds, Adds-refl, Adds-trans, pend_drain-Adds}

-- The frame of a call, where the call took it.
abbrev pub taken_by : OutErr → Option ℕ → List ℕ
taken_by sent (some frame) = frame ∷ []
taken_by sent none = []
taken_by no_memory frame = []
taken_by bad_shape frame = []

defer-Adds :
    (k j : ℕ) (d : Netdev) (frame : ℕ)
    → IsNetdev k j d
    → let (d', e) = defer d frame in Adds k j d d' (taken_by e (some frame)) []
unfolding defer
defer-Adds k j d frame (p, f, c) = elim (Bool-cases (ltb d.pend.mask (queue_filled d.pend))) [
  | inl z ↦ rw z (Adds-refl k j d (p, f, c))
  | inr z ↦
      let fits : queue_filled d.pend < 2 ^ k = ground (arith, z, p.1, pow_positive k) in
      let (p', more, count) = queue_put-contents k d.pend frame p fits in
      let small = half k p.0 in
      rw z (
        (p', f, omega (arith, c, count, small)),
        ap (◌++◌ d.given) more ∙ sym (append_assoc d.given (contents d.pend) (frame ∷ [])),
        sym (append-nil (completes d)),
      )
]

output_frame-Adds :
    (k j : ℕ) (d : Netdev) (takes : Bool) (frame : Option ℕ)
    → IsNetdev k j d
    → let (d', e) = output_frame d takes frame in Adds k j d d' (taken_by e frame) []
unfolding output_frame
output_frame-Adds k j d takes none v = Adds-refl k j d v
output_frame-Adds k j d takes (some frame) v = elim (Bool-cases (queue_idle d.pend && takes)) [
  | inl z ↦
      let (empty, zero_filled) = idle-contents d.pend (ground (arith, z)) in
      rw z (
        v,
        ap (◌++◌ (d.given ++ (frame ∷ []))) empty
            ∙ append-nil (d.given ++ (frame ∷ []))
            ∙ ap (λ y. y ++ (frame ∷ []))
                (sym (append-nil d.given) ∙ ap (◌++◌ d.given) (sym empty)),
        sym (append-nil (completes d)),
      )
  | inr z ↦ rw z (defer-Adds k j d frame v)
]

pub linkoutput-Adds :
    (k j : ℕ) (d : Netdev) (fits takes : Bool) (frame : Option ℕ)
    → IsNetdev k j d
    → let (d', e) = linkoutput d fits takes frame in Adds k j d d' (taken_by e frame) []
unfolding linkoutput
linkoutput-Adds k j d true takes frame v = output_frame-Adds k j d takes frame v
linkoutput-Adds k j d false takes frame v = Adds-refl k j d v

pub reclaim_loop-Adds :
    (k j fuel : ℕ) (d : Netdev)
    → IsNetdev k j d
    → queue_filled d.free ≤ fuel
    → Adds k j d (reclaim_loop fuel d) [] []
      × (contents (reclaim_loop fuel d).free ≡ [])
      × (queue_filled (reclaim_loop fuel d).free ≡ 0)
unfolding reclaim_loop
reclaim_loop-Adds k j zero d v b =
    let none_in : queue_filled d.free ≡ 0 = omega arith in
    (Adds-refl k j d v, unfilled-contents d.free none_in, none_in)
reclaim_loop-Adds k j (suc fuel) d (p, f, c) b = elim (Bool-cases (queue_idle d.free)) [
  | inl z ↦ rw z (Adds-refl k j d (p, f, c), (idle-contents d.free z).0, (idle-contents d.free z).1)
  | inr z ↦
      let (f', split, less) = queue_drop-contents j d.free f z in
      let d1 = record d {
        free = queue_drop d.free;
        freed = d.freed ++ (queue_first d.free ∷ []);
      } in
      let step : Adds k j d d1 [] [] = (
        (p, f', c),
        sym (append-nil (sends d)),
        append_assoc d.freed (queue_first d.free ∷ []) (contents (queue_drop d.free))
            ∙ ap (◌++◌ d.freed) (sym split)
            ∙ sym (append-nil (completes d)),
      ) in
      let (rest, empty, none_in) = reclaim_loop-Adds k j fuel d1 step.0 (omega (arith, less)) in
      rw z (Adds-trans k j d d1 (reclaim_loop fuel d1) [] [] [] [] step rest, empty, none_in)
]

pub tx_reclaim-Adds :
    (k j : ℕ) (room : List Bool) (d : Netdev)
    → IsNetdev k j d
    → Adds k j d (tx_reclaim room d) [] []
unfolding tx_reclaim
tx_reclaim-Adds k j room d v =
    let (h, empty, none_in) = reclaim_loop-Adds k j (queue_filled d.free) d v (omega arith) in
    let d1 = reclaim_loop (queue_filled d.free) d in
    Adds-trans k j d d1 (pend_drain room d1) [] [] [] [] h (pend_drain-Adds k j room d1 h.0)

pub tx_kick-Adds :
    (k j : ℕ) (d d' : Netdev) (xs ys : List ℕ) → Adds k j d d' xs ys → Adds k j d (tx_kick d') xs ys
unfolding tx_kick
tx_kick-Adds k j d d' xs ys h = elim (Bool-cases d'.kick_pending) [
  | inl z ↦ rw z h
  | inr z ↦ rw z h
]

pub lock_cycle-Adds :
    (k j : ℕ) (room : List Bool) (d : Netdev)
    → IsNetdev k j d
    → Adds k j d (lock_cycle room d) [] []
lock_cycle-Adds k j room d v =
    tx_kick-Adds k j d (tx_reclaim room d) [] [] (tx_reclaim-Adds k j room d v)

pub staged-Adds :
    (k j : ℕ) (d : Netdev) (cookies : List ℕ)
    → IsNetdev k j d
    → queue_filled d.free + length cookies ≤ 2 ^ j
    → Adds k j d (record d { free = stage d.free cookies }) [] cookies
staged-Adds k j d cookies (p, f, c) l =
    let (f', more) = stage-contents j d.free cookies f l in
    (
      (p, f', c),
      sym (append-nil (sends d)),
      ap (◌++◌ d.freed) more ∙ sym (append_assoc d.freed (contents d.free) cookies),
    )
