-- ===== src/Io/Sending.antt =====
-- What `sb_tcp_send` hands to lwIP, and what it tells its caller.
use lwip_amiga.Base.{
  ℕ, zero, suc, ◌≤◌, ◌≡◌, refl, ap, sym, ◌∙◌, Bool, true, false, ◌&&◌, not, List, [], ◌∷◌, ◌++◌,
  ◌==◌, length, take, drop, length-append, append-nil, append_assoc, arith,
}
use lwip_amiga.Sock.State.{Opener}
use lwip_amiga.Io.Send.{Turn, Chunk, Sending, chunk_size, chunk, with_chunk, wrote_chunk, is_done}
use lwip_amiga.Io.Conserves.{take-drop}
use lwip_amiga.Io.Sound.{length-take}

-- The bytes of the chunks.
abbrev pub all_bytes : List Chunk → List ℕ
all_bytes [] = []
all_bytes (c ∷ cs) = c.bytes ++ all_bytes cs

-- Chunks with bytes to follow: none is urgent.
abbrev pub AreMore : List Chunk → Type 0
AreMore [] = Unit {0}
AreMore (c ∷ cs) = (c.more ≡ true) × (c.urg ≡ false) × (length c.bytes ≤ 16384) × AreMore cs

-- The chunks of a whole buffer: the last alone ends it, and bears the urgent mark if there is one.
abbrev pub AreWhole : Bool → List Chunk → Type 0
AreWhole oob [] = Unit {0}
AreWhole oob (c ∷ []) = (c.more ≡ false) × (c.urg ≡ oob) × (length c.bytes ≤ 16384)
AreWhole oob (c ∷ cs) =
    (c.more ≡ true) × (c.urg ≡ false) × (length c.bytes ≤ 16384) × AreWhole oob cs

-- What holds at the head of the loop.
pub record InOrder (oob : Bool) (buf : List ℕ) (d : Sending) : Type 0 where
  pub bytes : all_bytes d.wrote ++ d.left ≡ buf
  pub count : d.sent ≡ length (all_bytes d.wrote)
  pub some_left : is_done d.left ≡ false → AreMore d.wrote
  pub none_left : is_done d.left ≡ true → AreWhole oob d.wrote

pub all_bytes-append : (cs ds : List Chunk) → all_bytes (cs ++ ds) ≡ all_bytes cs ++ all_bytes ds
all_bytes-append [] ds = refl
all_bytes-append (c ∷ cs) ds =
    ap (◌++◌ c.bytes) (all_bytes-append cs ds)
    ∙ sym (append_assoc c.bytes (all_bytes cs) (all_bytes ds))

AreMore-append :
    (cs : List Chunk) (c : Chunk)
    → AreMore cs
    → c.more ≡ true
    → c.urg ≡ false
    → length c.bytes ≤ 16384
    → AreMore (cs ++ (c ∷ []))
AreMore-append [] c h m u b = (m, u, b, tt)
AreMore-append (x ∷ cs) c h m u b = (h.0, h.1, h.2, AreMore-append cs c h.3 m u b)

AreWhole-append :
    (oob : Bool) (cs : List Chunk) (c : Chunk)
    → AreMore cs
    → c.more ≡ false
    → c.urg ≡ oob
    → length c.bytes ≤ 16384
    → AreWhole oob (cs ++ (c ∷ []))
AreWhole-append oob [] c h m u b = (m, u, b)
AreWhole-append oob (x ∷ []) c h m u b = (h.0, h.1, h.2, (m, u, b))
AreWhole-append oob (x ∷ y ∷ cs) c h m u b =
    (h.0, h.1, h.2, AreWhole-append oob (y ∷ cs) c h.3 m u b)

length-chunk : (oob : Bool) (t : Turn) (d : Sending) → length (chunk oob t d).bytes ≡ chunk_size t d
length-chunk oob t d = length-take (chunk_size t d) d.left (omega arith)

done_drop : (n : ℕ) (xs : List ℕ) → n ≤ length xs → (n == length xs) ≡ is_done (drop n xs)
done_drop zero [] h = refl
done_drop zero (x ∷ xs) h = ground arith
done_drop (suc n) [] h = absurd (omega arith)
done_drop (suc n) (x ∷ xs) h = ground (arith, done_drop n xs)

module _ (oob : Bool) (buf : List ℕ) where
  with_chunk-InOrder :
      (t : Turn) (d : Sending)
      → is_done d.left ≡ false
      → InOrder oob buf d
      → InOrder oob buf (with_chunk oob t d)
  with_chunk-InOrder t d e s = record {
    bytes =
        ap (λ x. x ++ drop n d.left) (all_bytes-append d.wrote (c ∷ []))
        ∙ append_assoc (all_bytes d.wrote) (take n d.left ++ []) (drop n d.left)
        ∙ ap (λ x. all_bytes d.wrote ++ (x ++ drop n d.left)) (append-nil (take n d.left))
        ∙ ap (◌++◌ (all_bytes d.wrote)) (take-drop n d.left)
        ∙ s.bytes;
    count = omega (
      arith,
      s.count,
      ap length (all_bytes-append d.wrote (c ∷ [])),
      length-append (all_bytes d.wrote) (take n d.left ++ []),
      length-append (take n d.left) [],
      long,
    );
    some_left = λ y.
        AreMore-append d.wrote c (s.some_left e) (ap not (last ∙ y)) (ap (λ x. x && oob) (last ∙ y))
          (omega (arith, long));
    none_left = λ y.
        AreWhole-append oob d.wrote c (s.some_left e) (ap not (last ∙ y))
          (ap (λ x. x && oob) (last ∙ y)) (omega (arith, long));
  }
    where
      n : ℕ
      n = chunk_size t d

      c : Chunk
      c = chunk oob t d

      long : length (take n d.left) ≡ n
      long = length-chunk oob t d

      last : (n == length d.left) ≡ is_done (drop n d.left)
      last = done_drop n d.left (omega arith)

  pub same-InOrder :
      (d e : Sending)
      → e.wrote ≡ d.wrote
      → e.left ≡ d.left
      → e.sent ≡ d.sent
      → InOrder oob buf d
      → InOrder oob buf e
  same-InOrder d e w l n s = record {
    bytes = cc (s.bytes, ap all_bytes w, l);
    count = omega (arith, n, s.count, ap (λ x. length (all_bytes x)) w);
    some_left = rw (w, l) s.some_left;
    none_left = rw (w, l) s.none_left;
  }

  pub wrote_chunk-InOrder :
      (openers : List Opener) (t : Turn) (d : Sending)
      → is_done d.left ≡ false
      → InOrder oob buf d
      → InOrder oob buf (wrote_chunk openers oob t d)
  unfolding wrote_chunk
  wrote_chunk-InOrder openers t d e s =
      same-InOrder (with_chunk oob t d) (wrote_chunk openers oob t d) (ground arith) (ground arith)
        (ground arith) (with_chunk-InOrder t d e s)
