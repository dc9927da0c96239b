-- ===== src/Gro/Tests.antt =====
-- A batch of five frames of two flows in one slot, and the theorems on it. A header is two bytes.
use lwip_amiga.Base.{ℕ, ◌+◌, ◌≡◌, refl, true, false, List, [], ◌∷◌, drop, length, map, arith}
use lwip_amiga.Gro.{
  Verdict, no, merge, ack, Meta, Packet, Ctx, Gro, idle, init, rx, rx_ctx, rx_all, absorb, flush,
  flush_all, flush_each, patch, restore_tot_len,
}
use lwip_amiga.Gro.Order.{Key, flow_payload}
use lwip_amiga.Gro.Flows.{packets, flush_all-rx_all}
use lwip_amiga.Gro.Length.{AreWhole}
use lwip_amiga.Gro.Whole.{flush_all-AreWhole}
use lwip_amiga.Gro.Classify.{Fields}

abbrev remove : List ℕ → ℕ → List ℕ
remove bytes n = drop n bytes

abbrev frame : ℕ → ℕ → List ℕ → ℕ → Verdict → Packet × Meta
frame src number text ackno v = (
  record {
    head = record {
      src = src;
      dst = 9;
      ports = 80;
      size = 2;
      ip_len = 40 + length text;
      chksum = 0x1234;
      ackno = ackno;
      wnd = 1000;
      psh = false;
    };
    first = record { bytes = 0 ∷ 0 ∷ text; tot_len = 2 + length text };
    rest = [];
  },
  record {
    src = src;
    dst = 9;
    ports = 80;
    number = number;
    pay_off = 2;
    pay_len = length text;
    verdict = v;
    psh = true;
  },
)

abbrev batch : List (Packet × Meta)
batch =
    frame 4 100 (1 ∷ 2 ∷ []) 7 merge
    ∷ frame 4 102 (3 ∷ []) 8 merge
    ∷ frame 8 500 (21 ∷ []) 3 merge
    ∷ frame 4 103 [] 9 ack
    ∷ frame 4 104 [] 10 ack
    ∷ []

abbrev contexts : List Ctx
contexts = idle ∷ idle ∷ idle ∷ idle ∷ []

abbrev flow_4 : Key
flow_4 = record { src = 4; dst = 9; ports = 80 }

abbrev run : Gro
run = flush_all (rx_all remove (init contexts) batch)

-- The two segments leave as one, and of the two acknowledgements the newer.
acks_run : map (λ p. p.head.ackno) run.delivered ≡ 8 ∷ 3 ∷ 10 ∷ []
unfolding rx rx_ctx absorb flush flush_all flush_each patch restore_tot_len init
acks_run = refl

lengths_run : map (λ p. p.head.ip_len) run.delivered ≡ 43 ∷ 41 ∷ 40 ∷ []
unfolding rx rx_ctx absorb flush flush_all flush_each patch restore_tot_len init
lengths_run = refl

tot_len_run : map (λ p. p.first.tot_len) run.delivered ≡ 5 ∷ 3 ∷ 2 ∷ []
unfolding rx rx_ctx absorb flush flush_all flush_each patch restore_tot_len init
tot_len_run = refl

flush_all-rx_all_example :
    flow_payload remove remove flow_4 run.delivered
    ≡ flow_payload remove remove flow_4 (packets remove remove batch)
flush_all-rx_all_example = flush_all-rx_all remove remove flow_4 contexts batch refl (ground arith)

flush_all-AreWhole_example : AreWhole run.delivered
flush_all-AreWhole_example = flush_all-AreWhole remove contexts batch (ground arith)

abbrev segment : Fields
segment = record {
  eth_type = 0x8100;
  vlan_type = 0x0800;
  ip_proto = λ n. 6;
  ip_hl = λ n. 5;
  ip_len = λ n. 45;
  ip_offset = λ n. 0x4000;
  ip_src = λ n. 1;
  ip_dst = λ n. 2;
  tcp_src = λ n. 80;
  tcp_dst = λ n. 99;
  tcp_seqno = λ n. 700;
  tcp_ackno = λ n. 10;
  tcp_hdrlen = λ n. 20;
  tcp_flags = λ n. 0x18;
}

abbrev bare : Fields
bare = record segment { ip_len = λ n. 40; tcp_flags = λ n. 0x10 }

abbrev unread : Meta
unread = (frame 0 0 [] 0 no).1
