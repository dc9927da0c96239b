-- ===== src/Tx/Run.antt =====
-- Sends, completions and locks in any order.
use lwip_amiga.Base.{
  ℕ, ◌+◌, ◌^◌, ◌≤◌, ◌≡◌, inl, inr, refl, sym, ap, ◌∙◌, Bool, not, ◌&&◌, Option, List, [], ◌∷◌, ◌++◌,
  ltb, length, arith, Bool-cases, append-nil,
}
use lwip_amiga.Tx.{
  queue_idle, queue_filled, queue_first, queue_drop, Netdev, tx_submit, resubmitted, pend_drain,
}
use lwip_amiga.Tx.Output.{linkoutput, reclaim_loop, tx_reclaim, tx_kick, stage, lock_cycle, tx_done}
use lwip_amiga.Tx.Rings.{contents, pow_positive, unfilled-contents}
use lwip_amiga.Tx.Order.{sends, completes, IsNetdev, Adds, Adds-refl, Adds-trans, tx_freed_rest}
use lwip_amiga.Tx.Whole.{
  taken_by, linkoutput-Adds, reclaim_loop-Adds, tx_reclaim-Adds, tx_kick-Adds, lock_cycle-Adds,
  staged-Adds,
}

resubmitted-free : (d : Netdev) → (resubmitted d).free ≡ d.free
unfolding resubmitted
resubmitted-free d =
    (tx_freed_rest (record (tx_submit d (queue_first d.pend)) { pend = queue_drop d.pend })).1

pend_drain-free : (room : List Bool) (d : Netdev) → (pend_drain room d).free ≡ d.free
unfolding pend_drain
pend_drain-free [] d = refl
pend_drain-free (ok ∷ room) d = elim (Bool-cases (not (queue_idle d.pend) && ok)) [
  | inl z ↦ rw z (pend_drain-free room (resubmitted d) ∙ resubmitted-free d)
  | inr z ↦ rw z refl
]

-- Under a lock every completed frame is freed: the loop ends with its ring empty, and what was staged is
-- freed in order behind what was freed before.
pub tx_reclaim-completes :
    (k j : ℕ) (room : List Bool) (d : Netdev)
    → IsNetdev k j d
    → ((tx_reclaim room d).freed ≡ completes d) × (queue_filled (tx_reclaim room d).free ≡ 0)
unfolding tx_reclaim
tx_reclaim-completes k j room d v =
    let d1 = reclaim_loop (queue_filled d.free) d in
    let (h, empty, none_in) = reclaim_loop-Adds k j (queue_filled d.free) d v (omega arith) in
    let all = tx_reclaim-Adds k j room d v in
    let same = pend_drain-free room d1 in
    let none_left : contents (pend_drain room d1).free ≡ [] = ap contents same ∙ empty in
    (
      sym (append-nil (pend_drain room d1).freed)
          ∙ ap (◌++◌ (pend_drain room d1).freed) (sym none_left)
          ∙ all.2
          ∙ append-nil (completes d),
      ap queue_filled same ∙ none_in,
    )

overflow-Adds :
    (k j : ℕ) (room : List Bool) (d : Netdev) (cookies : List ℕ)
    → IsNetdev k j d
    → let d' = tx_reclaim room d in
      Adds k j d (record d' { freed = d'.freed ++ cookies }) [] cookies
overflow-Adds k j room d cookies v =
    let d' = tx_reclaim room d in
    let h = tx_reclaim-Adds k j room d v in
    let (all, none_left) = tx_reclaim-completes k j room d v in
    (
      h.0,
      h.1,
      ap (◌++◌ (d'.freed ++ cookies)) (unfilled-contents d'.free none_left)
          ∙ append-nil (d'.freed ++ cookies)
          ∙ ap (λ y. y ++ cookies) all,
    )

tx_done-Adds :
    (k j : ℕ) (room : List Bool) (d : Netdev) (cookies : List ℕ)
    → IsNetdev k j d
    → Adds k j d (tx_done room d cookies) [] cookies
unfolding tx_done
tx_done-Adds k j room d cookies v =
    elim (Bool-cases (ltb (d.free.mask + 1) (queue_filled d.free + length cookies))) [
      | inl z ↦
          let d' = tx_reclaim room d in
          rw z (
            tx_kick-Adds k j d (record d' { freed = d'.freed ++ cookies }) [] cookies
              (overflow-Adds k j room d cookies v))
      | inr z ↦
          let d1 = record d { free = stage d.free cookies } in
          let fits : queue_filled d.free + length cookies ≤ 2 ^ j =
            ground (arith, z, v.1.1, pow_positive j) in
          let h = staged-Adds k j d cookies v fits in
          elim (Bool-cases (d.want_space && not (queue_idle d.pend))) [
            | inl y ↦
                rw (z, y)
                  (rw (append-nil cookies) at (
                    Adds-trans k j d d1 (lock_cycle room d1) [] cookies [] [] h
                      (lock_cycle-Adds k j room d1 h.0)))
            | inr y ↦ rw (z, y) h
          ]
    ]

-- What happens to an interface: a frame to send, completed frames, a lock taken and released.
pub data Event : Type 0 where
  outputs : Bool → Bool → Option ℕ → Event
  completed : List Bool → List ℕ → Event
  locks : List Bool → Event

unfoldable pub happens : Netdev → Event → Netdev × List ℕ × List ℕ
unfolding linkoutput tx_done tx_reclaim tx_kick
happens d (outputs fits takes frame) =
    let (d', e) = linkoutput d fits takes frame in (d', taken_by e frame, [])
happens d (completed room cookies) = (tx_done room d cookies, [], cookies)
happens d (locks room) = (lock_cycle room d, [], [])

-- The state after events, the frames that calls took, and the frames that completed.
unfoldable pub happen : Netdev → List Event → Netdev × List ℕ × List ℕ
unfolding happens
happen d [] = (d, [], [])
happen d (ev ∷ evs) =
    let (d', xs, ys) = happens d ev in
    let (d'', us, vs) = happen d' evs in (d'', xs ++ us, ys ++ vs)

happens-Adds :
    (k j : ℕ) (d : Netdev) (ev : Event)
    → IsNetdev k j d
    → let (d', xs, ys) = happens d ev in Adds k j d d' xs ys
unfolding happens
happens-Adds k j d (outputs fits takes frame) v = linkoutput-Adds k j d fits takes frame v
happens-Adds k j d (completed room cookies) v = tx_done-Adds k j room d cookies v
happens-Adds k j d (locks room) v = lock_cycle-Adds k j room d v

-- Over any sends, completions and locks, whatever the driver says of room: the frames with the driver
-- followed by those that wait are the frames that calls took, in their order, behind those from before;
-- the frames freed followed by those staged are the completed ones, in their order; and the capacity
-- reported is what the pending queue has free.
pub happen-Adds :
    (k j : ℕ) (d : Netdev) (evs : List Event)
    → IsNetdev k j d
    → let (d', xs, ys) = happen d evs in
      IsNetdev k j d' × (sends d' ≡ sends d ++ xs) × (completes d' ≡ completes d ++ ys)
unfolding happen
happen-Adds k j d [] v = Adds-refl k j d v
happen-Adds k j d (ev ∷ evs) v =
    let (d', xs, ys) = happens d ev in
    let h = happens-Adds k j d ev v in
    let (d'', us, vs) = happen d' evs in
    Adds-trans k j d d' d'' xs ys us vs h (happen-Adds k j d' evs h.0)
