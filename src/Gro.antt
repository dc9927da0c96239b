-- ===== src/Gro.antt =====
-- The receive coalescing of port/amiga/rx_gro.c and port/amiga/include/rx_gro.h: the merge contexts
-- of one engine and the dispatch of a classified frame. What the engine hands to lwIP is the list
-- `delivered`, oldest first. `remove_header`, lwIP's, is what is left of a pbuf's bytes.
pub mod Order
pub mod Flows
pub mod Length
pub mod Whole
pub mod Checksum
pub mod Classify
mod Tests
use lwip_amiga.Base.{
  ℕ, zero, suc, ◌+◌, ◌-◌, ◌*◌, ◌/◌, ◌%◌, ◌^◌, Bool, true, false, not, ◌&&◌, ◌||◌, Option, none,
  some, List, [], ◌∷◌, ◌++◌, map, ◌==◌, ltb, leb, if◌then◌else◌, length, get_or, set, bit_and,
  bit_or, bit_xor, u32_mod,
}

-- `RXGRO_NO`, `RXGRO_NOMERGE`, `RXGRO_MERGE`, `RXGRO_ACK`.
pub data Verdict : Type 0 where
  no nomerge merge ack : Verdict

-- `struct RxGroMeta`; `number` is the union of the data sequence and the acknowledgement number.
pub record Meta : Type 0 where
  pub src : ℕ
  pub dst : ℕ
  pub ports : ℕ
  pub number : ℕ
  pub pay_off : ℕ
  pub pay_len : ℕ
  pub verdict : Verdict
  pub psh : Bool

-- The fields of a frame's IP and TCP headers that the engine reads or patches, with the length of
-- all its headers. Network order is the order of the processor.
pub record Head : Type 0 where
  pub src : ℕ
  pub dst : ℕ
  pub ports : ℕ
  pub size : ℕ
  pub ip_len : ℕ
  pub chksum : ℕ
  pub ackno : ℕ
  pub wnd : ℕ
  pub psh : Bool

pub record Pbuf : Type 0 where
  pub bytes : List ℕ
  pub tot_len : ℕ

-- A pbuf with its headers intact, and the pbufs linked behind it.
pub record Packet : Type 0 where
  pub head : Head
  pub first : Pbuf
  pub rest : List Pbuf

-- `struct RxGroCtx`; `number` is the union of the next sequence number and the held acknowledgement.
pub record Ctx : Type 0 where
  pub held : Option Packet
  pub src : ℕ
  pub dst : ℕ
  pub ports : ℕ
  pub number : ℕ
  pub payload_add : ℕ
  pub frames : ℕ
  pub is_ack : Bool

pub record Gro : Type 0 where
  pub flows : List Ctx
  pub delivered : List Packet

abbrev pub flow_slots : ℕ
flow_slots = 4

abbrev pub max_frames : ℕ
max_frames = 44

abbrev pub seq_gt : ℕ → ℕ → Bool
seq_gt a b = leb (2 ^ 31) ((b + u32_mod - a) % u32_mod)

-- One more carry folded for each unit of fuel: a sum of three halfwords wants two.
abbrev pub fold : ℕ → ℕ → ℕ
fold zero sum = sum
fold (suc fuel) sum = if sum / 2 ^ 16 == 0 then sum else fold fuel (sum % 2 ^ 16 + sum / 2 ^ 16)

-- The one's complement of a halfword.
abbrev pub not16 : ℕ → ℕ
not16 x = 2 ^ 16 - 1 - x

-- The `tot_len` of each pbuf of a chain, with the bytes that remain.
unfoldable pub restore_tot_len : ℕ → List Pbuf → List Pbuf
restore_tot_len remaining [] = []
restore_tot_len remaining (q ∷ rest) =
    record q { tot_len = remaining % 2 ^ 16 } ∷ restore_tot_len (remaining - length q.bytes) rest

unfoldable pub patch : Ctx → Packet → Packet
patch c p = if leb c.frames 1 then p else record p {
  head = record p.head { ip_len = new_len; chksum = not16 sum };
  first = record p.first { tot_len = total % 2 ^ 16 };
  rest = restore_tot_len (total - length p.first.bytes) p.rest;
}
  where
    total : ℕ
    total = length p.first.bytes + c.payload_add

    new_len : ℕ
    new_len = (p.head.ip_len + c.payload_add) % 2 ^ 16

    sum : ℕ
    sum = fold 2 (not16 p.head.chksum + not16 p.head.ip_len + new_len)

-- The context emptied, and what it delivers.
unfoldable pub flush : Ctx → Ctx × List Packet
flush c = elim c.held [ none ↦ (c, []) | some p ↦ (record c { held = none }, patch c p ∷ []) ]

-- The loop of `rxgro_flush_all`.
unfoldable pub flush_each : List Ctx → List Ctx × List Packet
flush_each [] = ([], [])
flush_each (c ∷ cs) =
    let (c', out) = flush c in let (cs', later) = flush_each cs in (c' ∷ cs', out ++ later)

unfoldable pub flush_all : Gro → Gro
flush_all g =
    let (cs, out) = flush_each g.flows in record { flows = cs; delivered = g.delivered ++ out }

abbrev pub idle : Ctx
idle = record {
  held = none;
  src = 0;
  dst = 0;
  ports = 0;
  number = 0;
  payload_add = 0;
  frames = 0;
  is_ack = false;
}

abbrev pub slot : ℕ → ℕ → ℕ
slot ports src = bit_and (bit_xor ports src) (flow_slots - 1)

abbrev pub is_held : Ctx → Bool
is_held c = elim c.held [ none ↦ false | some p ↦ true ]

abbrev pub is_same_flow : Ctx → Meta → Bool
is_same_flow c m = is_held c && c.src == m.src && c.dst == m.dst && c.ports == m.ports

-- The context that holds an acknowledgement alone; the count of payload bytes stays.
abbrev pub hold_ack : Ctx → Packet → Meta → Ctx
hold_ack c p m = record c {
  held = some p;
  src = m.src;
  dst = m.dst;
  ports = m.ports;
  number = m.number;
  frames = 1;
  is_ack = true;
}

abbrev pub hold_data : Ctx → Packet → Meta → Ctx
hold_data c p m = record c {
  held = some p;
  src = m.src;
  dst = m.dst;
  ports = m.ports;
  number = (m.number + m.pay_len) % u32_mod;
  payload_add = 0;
  frames = 1;
  is_ack = false;
}

module _ (remove_header : List ℕ → ℕ → List ℕ) where
  -- The headers of `p` go, it is linked at the tail, and the head takes the newest acknowledgement
  -- number and window.
  unfoldable pub absorb : Ctx → Packet → Packet → Meta → Ctx
  absorb c h p m = record c {
    held = some (record h {
      head = record h.head { ackno = p.head.ackno; wnd = p.head.wnd; psh = h.head.psh || m.psh };
      rest =
          h.rest
          ++ (record {
            bytes = remove_header p.first.bytes m.pay_off;
            tot_len = length (remove_header p.first.bytes m.pay_off);
          }
              ∷ []);
    });
    number = (c.number + m.pay_len) % u32_mod;
    payload_add = c.payload_add + m.pay_len;
    frames = c.frames + 1;
  }

  -- The context after a frame, with what it delivers.
  unfoldable pub rx_ctx : Ctx → Packet → Meta → Ctx × List Packet
  rx_ctx c p m = by_verdict m.verdict
    where
      after : (Ctx → Ctx) → Ctx × List Packet
      after k = let (c', out) = flush c in (k c', out)

      through : Ctx × List Packet
      through =
          if is_same_flow c m
          then (let (c', out) = flush c in (c', out ++ (p ∷ [])))
          else (c, p ∷ [])

      acked : Ctx × List Packet
      acked =
          if is_same_flow c m && c.is_ack && seq_gt m.number c.number
          then (record c { held = some p; number = m.number }, [])
          else after (λ c'. hold_ack c' p m)

      merged : Option Packet → Ctx × List Packet
      merged none = after (λ c'. hold_data c' p m)
      merged (some h) =
          if is_same_flow c m && not c.is_ack && m.number == c.number && ltb c.frames max_frames
          then (absorb c h p m, [])
          else after (λ c'. hold_data c' p m)

      by_verdict : Verdict → Ctx × List Packet
      by_verdict no = merged c.held
      by_verdict nomerge = through
      by_verdict ack = acked
      by_verdict merge = merged c.held

  unfoldable pub rx : Gro → Packet → Meta → Gro
  rx g p m =
      let i = slot m.ports m.src in
      let (c, out) = rx_ctx (get_or g.flows i idle) p m in
      record { flows = set g.flows i c; delivered = g.delivered ++ out }

  -- The frames of a batch, one after another.
  abbrev pub rx_all : Gro → List (Packet × Meta) → Gro
  rx_all g [] = g
  rx_all g ((p, m) ∷ rest) = rx_all (rx g p m) rest

  -- `rxgro_input`: `gro` is the gate of the interface.
  unfoldable pub input : Bool → Gro → Packet → Meta → Gro
  input gro g p m =
      let straight : Gro = record g { delivered = g.delivered ++ (p ∷ []) } in
      if gro then (elim m.verdict [ no ↦ straight | _ ↦ rx g p m ]) else straight

abbrev empty_ctx : Ctx → Ctx
empty_ctx c = record c { held = none }

-- `rxgro_init`: whatever the contexts held, they hold nothing now.
unfoldable pub init : List Ctx → Gro
init cs = record { flows = map empty_ctx cs; delivered = [] }
