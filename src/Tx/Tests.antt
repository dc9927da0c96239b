-- ===== src/Tx/Tests.antt =====
-- An interface with a pending queue of two frames whose indices are about to wrap.
use lwip_amiga.Base.{
  inr, ℕ, ◌-◌, ◌^◌, ◌≡◌, refl, inl, Bool, true, false, some, List, [], ◌∷◌, ◌++◌, arith,
}
use lwip_amiga.Tx.{
  Ring, queue_put, queue_first, queue_drop, queue_filled, Netdev, resubmitted, tx_freed, pend_drain,
}
use lwip_amiga.Tx.Output.{
  linkoutput, output_frame, defer, reclaim_loop, tx_reclaim, tx_kick, stage, tx_done,
}
use lwip_amiga.Tx.Order.{sends, completes, IsNetdev}
use lwip_amiga.Tx.Admit.{
  tx_frames, max_l3, tx_admit, tx_writable, send_frames, GoesAs, tx_admit-sends, tx_writable-admits,
}
use lwip_amiga.Tx.Headers.{
  Framed, HeaderCache, no_entry, hh_prime, snoop, snoop_all, cached, slow_path, fast_path,
  ip4_output,
}
use lwip_amiga.Tx.Stale.{AllFast, ip4_output-AllFast}
use lwip_amiga.Tx.Run.{
  Event, outputs, completed, locks, happens, happen, tx_reclaim-completes, happen-Adds,
}

abbrev wrapping : Ring
wrapping = record { slots = 0 ∷ 0 ∷ []; mask = 1; head = 2 ^ 32 - 1; tail = 2 ^ 32 - 1 }

abbrev dev : Netdev
dev = record {
  pend = wrapping;
  free = wrapping;
  tx_free = 2;
  tx_max = 2;
  want_space = true;
  kick_pending = false;
  given = [];
  freed = [];
  dropped = [];
  wakes = 0;
  kicks = 0;
}

dev-IsNetdev : IsNetdev 1 1 dev
dev-IsNetdev = (
  (omega arith, refl, refl, omega arith, omega arith, omega arith),
  (omega arith, refl, refl, omega arith, omega arith, omega arith),
  refl,
)

-- A frame that goes to the driver, three that it refuses, the last of them one too many, and room again.
abbrev story : List Event
story =
    outputs true true (some 10)
    ∷ outputs true false (some 11)
    ∷ outputs true false (some 12)
    ∷ outputs true true (some 13)
    ∷ completed (true ∷ []) (10 ∷ [])
    ∷ locks (true ∷ true ∷ [])
    ∷ []

story_run :
    let (d, xs, ys) = happen dev story in
    (d.given ≡ 10 ∷ 11 ∷ 12 ∷ []) × (d.freed ≡ 10 ∷ []) × (d.dropped ≡ 13 ∷ []) × (d.wakes ≡ 1)
unfolding happen happens linkoutput output_frame defer queue_put queue_first queue_drop reclaim_loop
    tx_reclaim tx_kick stage tx_done resubmitted tx_freed pend_drain
story_run = (refl, refl, refl, refl)

happen-Adds_example :
    let (d, xs, ys) = happen dev story in
    IsNetdev 1 1 d × (sends d ≡ sends dev ++ xs) × (completes d ≡ completes dev ++ ys)
happen-Adds_example = happen-Adds 1 1 dev story dev-IsNetdev

tx_reclaim-completes_example :
    ((tx_reclaim (true ∷ []) dev).freed ≡ completes dev)
    × (queue_filled (tx_reclaim (true ∷ []) dev).free ≡ 0)
tx_reclaim-completes_example = tx_reclaim-completes 1 1 (true ∷ []) dev dev-IsNetdev

two_fit : tx_admit dev true 2000 1500 ≡ true
unfolding tx_admit tx_frames
two_fit = refl

-- 2000 bytes under an MTU of 1500 go out as 1480 and 520.
two_fragments : GoesAs 1500 2000 (1480 ∷ 520 ∷ [])
two_fragments = inr (omega arith, (omega arith, omega arith, (refl, omega arith, omega arith)))

abbrev wide : Netdev
wide = record dev { tx_free = 64; tx_max = 45 }

wide_max : wide.tx_max ≡ tx_frames max_l3 1500
unfolding tx_frames
wide_max = refl

wide_writable : tx_writable wide true ≡ true
unfolding tx_writable
wide_writable = refl

tx_admit-sends_example :
    let (d, ok) = send_frames dev ((false, 10) ∷ (true, 11) ∷ []) in
    (ok ≡ true) × (sends d ≡ 10 ∷ 11 ∷ []) × (d.dropped ≡ [])
tx_admit-sends_example =
    tx_admit-sends 1 1 dev 2000 1500 (1480 ∷ 520 ∷ []) ((false, 10) ∷ (true, 11) ∷ []) dev-IsNetdev
      (omega arith) two_fit two_fragments refl

tx_writable-admits_example : tx_admit wide true 9000 1500 ≡ true
tx_writable-admits_example =
    tx_writable-admits wide true 9000 1500 (omega arith) (omega arith) wide_max wide_writable

abbrev cold : HeaderCache
cold = record { entries = no_entry ∷ no_entry ∷ no_entry ∷ no_entry ∷ []; prime_dst = 0 }

abbrev framed : Framed
framed = record { bytes = 1 ∷ 2 ∷ 69 ∷ []; l3 = 2; dest = 5 }

abbrev to_five : List (ℕ × Bool × List Framed)
to_five = (5, true, framed ∷ []) ∷ (5, true, []) ∷ []

-- The first packet primes the cache, and the second is sent with its header.
primed_run : (ip4_output (ip4_output cold 5 true (framed ∷ [])).0 5 true []).1 ≡ some (1 ∷ 2 ∷ [])
unfolding ip4_output cached slow_path fast_path snoop_all snoop hh_prime
primed_run = refl

ip4_output-AllFast_example : AllFast [] cold to_five
ip4_output-AllFast_example =
    ip4_output-AllFast [] cold to_five (refl, (inl refl, (inl refl, (inl refl, (inl refl, tt)))))
