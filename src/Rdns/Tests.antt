-- ===== src/Rdns/Tests.antt =====
-- Packets built and read, one of them cut off.
use lwip_amiga.Base.{ℕ, ◌≡◌, refl, List, [], ◌∷◌, ◌++◌, arith, take, some, ◌*◌, ◌+◌}
use lwip_amiga.Rdns.{
  got, put_label, put_octet, octet_digits, backwards, rdns_build, copy_byte, copy_label, take_label,
  name_turn, name_loop, dns_name, rdns_parse, question_end, header,
}
use lwip_amiga.Rdns.Encode.{encode}
use lwip_amiga.Rdns.Query.{IsDecimal, rdns_build_lem, labels_of}
use lwip_amiga.Rdns.Reply.{rdns_parse-rdns_build, reply_to}
use lwip_amiga.Rdns.Reads.{rdns_parse-FitsBuffer, Gives, FitsBuffer}

-- amiga.lan
abbrev host : List (List ℕ)
host = (b'a' ∷ b'm' ∷ b'i' ∷ b'g' ∷ b'a' ∷ []) ∷ (b'l' ∷ b'a' ∷ b'n' ∷ []) ∷ []

-- 10.0.0.7
abbrev addr_of_host : ℕ
addr_of_host = 10 * 16777216 + 7

abbrev query : List ℕ
query = header 0x1234 ++ encode (labels_of addr_of_host) ++ question_end

built : rdns_build 512 addr_of_host 0x1234 ≡ some query
unfolding rdns_build put_octet put_label octet_digits backwards
built = refl

rdns_build_lem_example :
    (a b c d : List ℕ) × IsDecimal 10 a
    × IsDecimal 0 b
    × IsDecimal 0 c
    × IsDecimal 7 d
    × (rdns_build 512 addr_of_host 0x1234
        ≡ some (
            ((0x12 ∷ 0x34 ∷ 1 ∷ 0 ∷ 0 ∷ 1 ∷ 0 ∷ 0 ∷ 0 ∷ 0 ∷ 0 ∷ 0 ∷ [])
              ++ encode (
                  d
                  ∷ c
                  ∷ b
                  ∷ a
                  ∷ (b'i' ∷ b'n' ∷ b'-' ∷ b'a' ∷ b'd' ∷ b'd' ∷ b'r' ∷ [])
                  ∷ (b'a' ∷ b'r' ∷ b'p' ∷ b'a' ∷ [])
                  ∷ []))
            ++ (0 ∷ 0 ∷ 12 ∷ 0 ∷ 1 ∷ [])))
rdns_build_lem_example = rdns_build_lem 512 addr_of_host 0x1234 (omega arith)

abbrev ttl : List ℕ
ttl = 0 ∷ 0 ∷ 14 ∷ 16 ∷ []

-- Into a buffer of four bytes the name is cut, and it is returned as a name all the same.
cut_run :
    rdns_parse (reply_to query 0x1234 0x81 0x80 ttl host) 0x1234 4 ≡ got (b'a' ∷ b'm' ∷ b'i' ∷ [])
cut_run =
    rdns_parse-rdns_build 512 addr_of_host 0x1234 0x81 0x80 4 query ttl
      (b'a' ∷ b'm' ∷ b'i' ∷ b'g' ∷ b'a' ∷ []) ((b'l' ∷ b'a' ∷ b'n' ∷ []) ∷ []) (omega arith) built
      (omega arith) (λ e. omega arith) refl refl
      (omega arith, omega arith, (omega arith, omega arith, tt)) (omega arith) (omega arith)

-- A reply whose name ends with the packet and not with a zero.
abbrev cut_off : List ℕ
cut_off = take 41 (reply_to (header 1 ++ question_end) 1 0x81 0x80 ttl host)

rdns_parse-FitsBuffer_example : Gives (FitsBuffer 64) (rdns_parse cut_off 1 64)
rdns_parse-FitsBuffer_example = rdns_parse-FitsBuffer cut_off 1 64

-- The bytes 2, 'h' and 'i' with no zero behind them are the name "hi".
no_end_run : dns_name (2 ∷ b'h' ∷ b'i' ∷ []) 0 64 ≡ got (b'h' ∷ b'i' ∷ [])
unfolding dns_name name_loop name_turn take_label copy_label copy_byte
no_end_run = refl
