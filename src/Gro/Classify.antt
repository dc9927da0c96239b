-- ===== src/Gro/Classify.antt =====
-- `rxgro_classify` of port/amiga/rx_gro.c and `inetfrm_ip_offset` of port/amiga/include/inet_frame.h.
-- What lwIP's header macros read is a parameter; 20 bytes are an IP and a TCP header without options,
-- 14 an Ethernet header and 4 a VLAN tag.
use lwip_amiga.Base.{
  ℕ, ◌+◌, ◌-◌, ◌*◌, ◌%◌, ◌^◌, ◌≤◌, ◌<◌, ◌≡◌, Bool, not, ◌&&◌, Option, none, some, ◌==◌, ◌!=◌, ltb,
  leb, if◌then◌else◌, bit_and, bit_or, arith, inl, inr, Option-cases,
}
use lwip_amiga.Gro.{no, nomerge, merge, ack, Meta}

-- The header fields of a frame, in host order, by the offset of their header in the frame; `flags` is
-- the flag byte of the TCP header.
pub record Fields : Type 0 where
  pub eth_type : ℕ
  pub vlan_type : ℕ
  pub ip_proto : ℕ → ℕ
  pub ip_hl : ℕ → ℕ
  pub ip_len : ℕ → ℕ
  pub ip_offset : ℕ → ℕ
  pub ip_src : ℕ → ℕ
  pub ip_dst : ℕ → ℕ
  pub tcp_src : ℕ → ℕ
  pub tcp_dst : ℕ → ℕ
  pub tcp_seqno : ℕ → ℕ
  pub tcp_ackno : ℕ → ℕ
  pub tcp_hdrlen : ℕ → ℕ
  pub tcp_flags : ℕ → ℕ

-- `none` is 0: the frame is not IPv4, or too short.
unfoldable pub ip_offset : Fields → ℕ → Option ℕ
ip_offset f len =
    if ltb len (14 + 20)
    then none
    else if f.eth_type == 0x0800
    then some 14
    else if f.eth_type == 0x8100
    then (if ltb len (14 + 4 + 20)
        then none
        else if f.vlan_type == 0x0800
        then some (14 + 4)
        else none)
    else none

-- `TCP_ACK` and `TCP_PSH`
abbrev tcp_ack : ℕ
tcp_ack = 0x10

abbrev tcp_psh : ℕ
tcp_psh = 0x08

-- No IP options, not a fragment, no TCP options, the flags ACK and perhaps PSH. The mask of a flag
-- byte's other bits is the complement on eight bits.
unfoldable pub is_plain : Fields → ℕ → ℕ → Bool
is_plain f l3 th =
    f.ip_hl l3 * 4 == 20
    && bit_and (f.ip_offset l3) (0x1FFF + 0x2000) == 0
    && f.tcp_hdrlen th == 20
    && bit_and (f.tcp_flags th) (255 - tcp_ack - tcp_psh) == 0
    && bit_and (f.tcp_flags th) tcp_ack != 0

-- `m` is the verdict's storage: what the code does not write stays.
unfoldable pub classify : Fields → ℕ → Meta → Meta
classify f len m = elim (ip_offset f len) [ none ↦ record m { verdict = no } | some l3 ↦ at l3 ]
  where
    ip : ℕ → ℕ → Meta
    ip l3 th =
        let keyed : Meta = record m {
          src = f.ip_src l3;
          dst = f.ip_dst l3;
          ports = bit_or (f.tcp_src th * 2 ^ 16) (f.tcp_dst th);
          verdict = nomerge;
        } in
        let iplen = f.ip_len l3 in
        if not (is_plain f l3 th)
        then keyed
        else if leb iplen 40
        then (if iplen == 40 && f.tcp_flags th == tcp_ack
            then record keyed { number = f.tcp_ackno th; verdict = ack }
            else keyed)
        else if iplen != len - l3
        then keyed
        else record keyed {
          number = f.tcp_seqno th;
          pay_off = (l3 + 40) % 2 ^ 16;
          pay_len = (iplen - 40) % 2 ^ 16;
          psh = bit_and (f.tcp_flags th) tcp_psh != 0;
          verdict = merge;
        }

    at : ℕ → Meta
    at l3 = if f.ip_proto l3 == 6 then ip l3 (l3 + f.ip_hl l3 * 4) else record m { verdict = no }

-- With IP lengths of 16 bits, a frame classified as mergeable has a payload that lies in the frame behind 54 or 58 bytes of
-- headers and reaches exactly to its end: no padding is spliced into a stream.
classify-InFrame :
    (f : Fields) (len : ℕ) (m : Meta)
    → ((l3 : ℕ) → f.ip_len l3 < 2 ^ 16)
    → (classify f len m).verdict ≡ merge
    → let r = classify f len m in
      (r.pay_off + r.pay_len ≡ len) × (0 < r.pay_len) × (54 ≤ r.pay_off) × (r.pay_off ≤ 58)
unfolding classify ip_offset
classify-InFrame f len m b e = ground (arith, b 14, b 18)

-- A frame classified as an acknowledgement to coalesce carries no segment bytes: its IP length is
-- that of the two headers, and its flags are ACK alone.
classify-IsBare :
    (f : Fields) (len : ℕ) (m : Meta)
    → (classify f len m).verdict ≡ ack
    → (l3 : ℕ) × (ip_offset f len ≡ some l3)
      × (f.ip_len l3 ≡ 40)
      × (f.tcp_flags (l3 + f.ip_hl l3 * 4) ≡ tcp_ack)
unfolding classify
classify-IsBare f len m e = elim (Option-cases (ip_offset f len)) [
  | inl n ↦ absurd (ground (arith, e))
  | inr (l3, g) ↦ (l3, g, ground (arith, e), ground (arith, e))
]
