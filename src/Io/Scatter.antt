-- ===== src/Io/Scatter.antt =====
-- What `sb_dgram_recvmsg` gives of the datagram at the head.
use lwip_amiga.Base.{
  ℕ, zero, suc, ◌+◌, ◌^◌, ◌<◌, ◌≤◌, ◌≡◌, ◌⊎◌, leb, ==→eq, inl, inr, refl, ap, sym, ◌∙◌, Bool, List,
  [], ◌∷◌, ◌++◌, ◌==◌, ◌!=◌, ltb, if◌then◌else◌, length, take, drop, min, bit_and, arith,
  Bool-cases,
}
use lwip_amiga.Sock.State.{Dgram, Socket, Opener}
use lwip_amiga.Sock.Recv.{chain_len}
use lwip_amiga.Sock.Recv.Stream.{bytes, length-bytes}
use lwip_amiga.Io.{Pause}
use lwip_amiga.Io.Dgram.{
  ready, dgram_wait, rest_of, head_of, dgram_drop, message, dontwait_of, consumed, scatter, total,
  size_of, scattered, dgram_recvmsg,
}

take-nil : (n : ℕ) → take {A = ℕ} n [] ≡ []
take-nil zero = refl
take-nil (suc n) = refl

take_at : (xs : List ℕ) {m n : ℕ} → m ≡ n → take m xs ≡ take n xs
take_at xs e = ap (λ k. take k xs) e

take-split : (m n : ℕ) (xs : List ℕ) → take m xs ++ take n (drop m xs) ≡ take (m + n) xs
take-split zero n xs = take_at xs (omega arith)
take-split (suc m) n [] = take-nil n ∙ sym (take-nil (suc m + n))
take-split (suc m) n (x ∷ xs) =
    let next : suc (m + n) ≡ suc m + n = omega arith in
    ap (◌∷◌ x) (take-split m n xs) ∙ take_at (x ∷ xs) next

scatter-take : (iovs xs : List ℕ) → bytes (scatter iovs xs) ≡ take (total iovs) xs
unfolding scatter
scatter-take [] xs = refl
scatter-take (l ∷ ls) [] = sym (take-nil (l + total ls))
scatter-take (l ∷ ls) (x ∷ xs) = elim (Bool-cases (l == 0)) [
  | inl y ↦
      let same : total ls ≡ l + total ls = ground (arith, y) in
      rw y (scatter-take ls (x ∷ xs) ∙ take_at (x ∷ xs) same)
  | inr y ↦ rw y (
      ap (◌++◌ (take l (x ∷ xs))) (scatter-take ls (drop l (x ∷ xs)))
      ∙ take-split l (total ls) (x ∷ xs))
]

length-take : (n : ℕ) (xs : List ℕ) → length (take n xs) ≡ min n (length xs)
length-take zero xs = omega arith
length-take (suc n) [] = omega arith
length-take (suc n) (x ∷ xs) = omega (arith, length-take n xs)

-- Pieces over buffers of the lengths given: an empty buffer gets none, and each other one is filled
-- before the next; the last piece may fall short of its buffer, and no piece is empty.
abbrev pub AreFilled : List ℕ → List (List ℕ) → Type 0
AreFilled ls [] = Unit {0}
AreFilled [] (p ∷ ps) = ⊥
AreFilled (l ∷ ls) (p ∷ ps) =
    ((l ≡ 0) × AreFilled ls (p ∷ ps))
    ⊎ ((0 < length p) × (length p ≡ l) × AreFilled ls ps)
    ⊎ ((0 < length p) × (length p < l) × (ps ≡ []))

scatter-nil : (ls : List ℕ) → scatter ls [] ≡ []
unfolding scatter
scatter-nil [] = refl
scatter-nil (l ∷ ls) = refl

drop-all : (n : ℕ) (xs : List ℕ) → length xs ≤ n → drop n xs ≡ []
drop-all zero [] h = refl
drop-all (suc n) [] h = refl
drop-all zero (x ∷ xs) h = absurd (omega arith)
drop-all (suc n) (x ∷ xs) h = drop-all n xs (omega arith)

skipped :
    (l : ℕ) (ls : List ℕ) (ps : List (List ℕ)) → l ≡ 0 → AreFilled ls ps → AreFilled (l ∷ ls) ps
skipped l ls [] e h = tt
skipped l ls (p ∷ ps) e h = inl (e, h)

scatter-AreFilled : (ls xs : List ℕ) → AreFilled ls (scatter ls xs)
unfolding scatter
scatter-AreFilled [] xs = tt
scatter-AreFilled (l ∷ ls) [] = tt
scatter-AreFilled (l ∷ ls) (x ∷ xs) = elim (Bool-cases (l == 0)) [
  | inl z ↦ rw z (skipped l ls (scatter ls (x ∷ xs)) (==→eq l 0 z) (scatter-AreFilled ls (x ∷ xs)))
  | inr z ↦ rw z (elim (Bool-cases (leb l (length (x ∷ xs)))) [
    | inl y ↦ inr (
        inl (
          ground (arith, z, y, length-take l (x ∷ xs)),
          ground (arith, z, y, length-take l (x ∷ xs)),
          scatter-AreFilled ls (drop l (x ∷ xs)),
        ))
    | inr y ↦ inr (
        inr (
          ground (arith, z, y, length-take l (x ∷ xs)),
          ground (arith, z, y, length-take l (x ∷ xs)),
          ap (scatter ls) (drop-all l (x ∷ xs) (ground (arith, y))) ∙ scatter-nil ls,
        ))
  ])
]

-- The flag for more is what the room tells.
truncated :
    (iovs : List ℕ) (d : Dgram)
    → ltb (size_of (scatter iovs (bytes d.payload))) (chain_len d.payload)
      ≡ ltb (total iovs) (chain_len d.payload)
truncated iovs d = ground (
  arith,
  length-bytes (scatter iovs (bytes d.payload)),
  ap length (scatter-take iovs (bytes d.payload)),
  length-take (total iovs) (bytes d.payload),
  length-bytes d.payload,
)

waits_for_none :
    (openers : List Opener) (dontwait : Bool) (ws : List Pause) (s : Socket) (n : ℕ)
    → s.ndgrams ≡ suc n
    → dgram_wait openers dontwait ws s ≡ (s, ready)
unfolding dgram_wait
waits_for_none openers dontwait [] s n e = ground (arith, e)
waits_for_none openers dontwait (w ∷ ws) s n e = ground (arith, e)

consumed_queue :
    (s : Socket) (flags : ℕ) (d : Dgram) (ds : List Dgram)
    → s.dgrams ≡ d ∷ ds
    → s.ndgrams ≡ suc (length ds)
    → length ds < 2 ^ 31
    → ((consumed flags s).dgrams ≡ (if bit_and flags 0x02 != 0 then d ∷ ds else ds))
      × ((consumed flags s).ndgrams ≡ length (consumed flags s).dgrams)
unfolding dgram_drop
consumed_queue s flags d ds e n b =
    let rest : rest_of s.dgrams ≡ ds = ap rest_of e in
    ground (arith, e, n, b, rest, ap length rest, ap length e)

-- With a datagram at the head and the count in step, `recvmsg` on a datagram socket returns at once. Its
-- buffers, one filled after the other, hold the payload's first bytes, as many as there is room for,
-- and it tells the sender; it sets MSG_TRUNC where the room is less than the payload; and it takes the
-- datagram off the queue, unless it peeks.
pub dgram_recvmsg_lem :
    (openers : List Opener) (s : Socket) (d : Dgram) (ds : List Dgram) (iovs : List ℕ) (flags : ℕ)
    (ws : List Pause)
    → s.dgrams ≡ d ∷ ds
    → s.ndgrams ≡ suc (length ds)
    → length ds < 2 ^ 31
    → let r = dgram_recvmsg openers s iovs flags ws in
      (pieces : List (List ℕ)) × (r.1
        ≡ message pieces d.addr d.port (ltb (total iovs) (length (bytes d.payload))))
      × AreFilled iovs pieces
      × (bytes pieces ≡ take (total iovs) (bytes d.payload))
      × (r.0.dgrams ≡ (if bit_and flags 0x02 != 0 then d ∷ ds else ds))
      × (r.0.ndgrams ≡ length r.0.dgrams)
unfolding dgram_recvmsg
dgram_recvmsg_lem openers s d ds iovs flags ws e n b =
    rw (waits_for_none openers (dontwait_of s flags) ws s (length ds) n) (
      scatter iovs (bytes d.payload),
      ap (λ q. scattered iovs (head_of q)) e
          ∙ ap (message (scatter iovs (bytes d.payload)) d.addr d.port)
              (truncated iovs d ∙ ap (ltb (total iovs)) (sym (length-bytes d.payload))),
      scatter-AreFilled iovs (bytes d.payload),
      scatter-take iovs (bytes d.payload),
      queue.0,
      queue.1,
    )
  where
    queue :
        ((consumed flags s).dgrams ≡ (if bit_and flags 0x02 != 0 then d ∷ ds else ds))
        × ((consumed flags s).ndgrams ≡ length (consumed flags s).dgrams)
    queue = consumed_queue s flags d ds e n b
