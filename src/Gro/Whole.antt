-- ===== src/Gro/Whole.antt =====
-- The engine: the lengths of all that is delivered.
use lwip_amiga.Base.{ℕ, zero, suc, ◌≢◌, List, [], ◌∷◌, arith, get_or, set}
use lwip_amiga.Gro.{
  no, Meta, Packet, Ctx, Gro, flush, flush_each, flush_all, idle, slot, rx_ctx, rx, rx_all, init,
}
use lwip_amiga.Gro.Length.{
  AreWhole, AreWhole-append, IsRunning, flush-AreWhole, IsFrame, rx_ctx-AreWhole,
}

abbrev AreRunning : List Ctx → Type 0
AreRunning [] = Unit {0}
AreRunning (c ∷ cs) = IsRunning c × AreRunning cs

AreRunning-get_or : (cs : List Ctx) (i : ℕ) → AreRunning cs → IsRunning (get_or cs i idle)
AreRunning-get_or [] i w = ground arith
AreRunning-get_or (c ∷ cs) zero w = w.0
AreRunning-get_or (c ∷ cs) (suc i) w = AreRunning-get_or cs i w.1

AreRunning-set :
    (cs : List Ctx) (i : ℕ) (c : Ctx) → AreRunning cs → IsRunning c → AreRunning (set cs i c)
AreRunning-set [] i c w v = w
AreRunning-set (x ∷ cs) zero c w v = (v, w.1)
AreRunning-set (x ∷ cs) (suc i) c w v = (w.0, AreRunning-set cs i c w.1 v)

flush_each-AreWhole : (cs : List Ctx) → AreRunning cs → AreWhole (flush_each cs).1
unfolding flush_each
flush_each-AreWhole [] w = w
flush_each-AreWhole (c ∷ cs) w =
    AreWhole-append (flush c).1 (flush_each cs).1 (flush-AreWhole c w.0)
      (flush_each-AreWhole cs w.1)

init-AreRunning : (cs : List Ctx) → AreRunning (init cs).flows
unfolding init
init-AreRunning [] = ground arith
init-AreRunning (c ∷ cs) = ground (arith, init-AreRunning cs)

module _ (rh : List ℕ → ℕ → List ℕ) where
  abbrev pub AreFrames : List (Packet × Meta) → Type 0
  AreFrames [] = Unit {0}
  AreFrames ((p, m) ∷ rest) = IsFrame rh p m × m.verdict ≢ no × AreFrames rest

  rx_all-AreWhole :
      (g : Gro) (batch : List (Packet × Meta))
      → AreRunning g.flows
      → AreWhole g.delivered
      → AreFrames batch
      → AreWhole (flush_all (rx_all rh g batch)).delivered
  unfolding flush_all rx
  rx_all-AreWhole g [] w d v =
      AreWhole-append g.delivered (flush_each g.flows).1 d (flush_each-AreWhole g.flows w)
  rx_all-AreWhole g ((p, m) ∷ rest) w d v =
      let i = slot m.ports m.src in
      let c = get_or g.flows i idle in
      let (out, run) = rx_ctx-AreWhole rh c p m (AreRunning-get_or g.flows i w) v.0 v.1 in
      rx_all-AreWhole (rx rh g p m) rest (AreRunning-set g.flows i (rx_ctx rh c p m).0 w run)
        (AreWhole-append g.delivered (rx_ctx rh c p m).1 d out) v.2

  -- For frames of at most 1500 bytes of IP packet whose lengths agree with their headers, fed to an
  -- engine just initialised and flushed: in each packet delivered every pbuf's `tot_len` counts the
  -- bytes of the chain from it on, and in each one that was merged the IP length is that of the two
  -- headers and all the bytes behind them.
  pub flush_all-AreWhole :
      (cs : List Ctx) (batch : List (Packet × Meta))
      → AreFrames batch
      → AreWhole (flush_all (rx_all rh (init cs) batch)).delivered
  unfolding init
  flush_all-AreWhole cs batch v =
      rx_all-AreWhole (init cs) batch (init-AreRunning cs) (ground arith) v
