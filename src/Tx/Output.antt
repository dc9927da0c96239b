-- ===== src/Tx/Output.antt =====
-- `ndif_linkoutput`, `netdevif_tx_reclaim`, `ndif_tx_done`, `netdevif_tx_kick` and
-- `netdevif_tx_pend_free`. What lwIP's pbufs answer is a parameter: whether the frame has few enough
-- segments once coalesced, and the frame to send, its own or, where it is held elsewhere too, a clone
-- (`none` for no memory).
use lwip_amiga.Base.{
  ℕ, zero, suc, ◌+◌, Bool, false, not, ◌&&◌, Option, none, some, List, [], ◌∷◌, ◌++◌, ltb,
  if◌then◌else◌, length,
}
use lwip_amiga.Tx.{
  Ring, queue_idle, queue_filled, queue_put, queue_first, queue_drop, Netdev, tx_taken, tx_submit,
  pend_drain,
}

-- `err_t`, as far as the output gives it.
pub data OutErr : Type 0 where
  sent no_memory bad_shape : OutErr

-- The frame goes to the end of the queue, or is freed where the queue is full.
unfoldable pub defer : Netdev → ℕ → Netdev × OutErr
unfolding queue_put
defer d frame =
    if ltb d.pend.mask (queue_filled d.pend)
    then (record d { dropped = d.dropped ++ (frame ∷ []) }, no_memory)
    else (tx_taken (record d { pend = queue_put d.pend frame }), sent)

-- `takes` is what the driver answers where it is asked.
unfoldable pub output_frame : Netdev → Bool → Option ℕ → Netdev × OutErr
unfolding defer
output_frame d takes none = (d, no_memory)
output_frame d takes (some frame) =
    if queue_idle d.pend && takes then (tx_submit d frame, sent) else defer d frame

unfoldable pub linkoutput : Netdev → Bool → Bool → Option ℕ → Netdev × OutErr
unfolding output_frame
linkoutput d fits takes frame = if fits then output_frame d takes frame else (d, bad_shape)

-- The loop of `netdevif_tx_reclaim` up to the snapshot of the producer's index.
unfoldable pub reclaim_loop : ℕ → Netdev → Netdev
unfolding queue_first queue_drop
reclaim_loop zero d = d
reclaim_loop (suc fuel) d =
    let rest =
      reclaim_loop fuel
        (record d { free = queue_drop d.free; freed = d.freed ++ (queue_first d.free ∷ []) }) in
    if queue_idle d.free then d else rest

unfoldable pub tx_reclaim : List Bool → Netdev → Netdev
unfolding reclaim_loop pend_drain
tx_reclaim room d = pend_drain room (reclaim_loop (queue_filled d.free) d)

-- `netdevif_tx_kick`, at the outermost unlock.
unfoldable pub tx_kick : Netdev → Netdev
tx_kick d = if d.kick_pending then record d { kicks = d.kicks + 1; kick_pending = false } else d

unfoldable pub stage : Ring → List ℕ → Ring
unfolding queue_put
stage r [] = r
stage r (c ∷ cs) = stage (queue_put r c) cs

-- A lock and its release, which reclaim and ring the doorbell.
abbrev pub lock_cycle : List Bool → Netdev → Netdev
lock_cycle room d = tx_kick (tx_reclaim room d)

-- Completed frames, from the driver's task.
unfoldable pub tx_done : List Bool → Netdev → List ℕ → Netdev
unfolding tx_reclaim tx_kick stage
tx_done room d cookies =
    if ltb (d.free.mask + 1) (queue_filled d.free + length cookies)
    then overflow (tx_reclaim room d)
    else if d.want_space && not (queue_idle d.pend)
    then lock_cycle room staged
    else staged
  where
    overflow : Netdev → Netdev
    overflow d' = tx_kick (record d' { freed = d'.freed ++ cookies })

    staged : Netdev
    staged = record d { free = stage d.free cookies }

-- `netdevif_tx_pend_free`
unfoldable pub pend_free : ℕ → Netdev → Netdev
unfolding queue_first queue_drop
pend_free zero d = d
pend_free (suc fuel) d =
    let rest =
      pend_free fuel
        (record d { pend = queue_drop d.pend; dropped = d.dropped ++ (queue_first d.pend ∷ []) }) in
    if queue_idle d.pend then d else rest
