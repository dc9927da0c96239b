-- ===== src/Slab/Free.antt =====
-- What the heap keeps when a block is given back.
use lwip_amiga.Base.{
  ℕ, ◌+◌, ◌-◌, ◌%◌, ◌<◌, ◌≡◌, ◌⊎◌, inl, inr, refl, Bool, true, false, List, [], ◌∷◌, ◌==◌,
  if◌then◌else◌, arith, ==→eq, ==_refl, u32_mod,
}
use lwip_amiga.Slab.{
  Origin, slab, slab_exec, dma, exec, free, other, Header, Mem, update, slot_size, push_slot,
  free_block, free_pointer,
}
use lwip_amiga.Slab.Lists.{
  Absent, IsTag, IsTagged, AreLive, IsHeap, IsList-update, AreLive-update, bytes_of,
  bytes_of-update, Absent-tagged, lists_update,
}

abbrev pub In : ℕ → List ℕ → Type 0
In b [] = ⊥
In b (x ∷ xs) = (b ≡ x) ⊎ In b xs

abbrev pub remove : ℕ → List ℕ → List ℕ
remove b [] = []
remove b (x ∷ xs) = if b == x then xs else x ∷ remove b xs

Absent-remove : (a b : ℕ) (xs : List ℕ) → Absent a xs → Absent a (remove b xs)
Absent-remove a b [] h = h
Absent-remove a b (x ∷ xs) h = ground (arith, Absent-remove a b xs h.1)

module _ (kind : ℕ → ℕ) where
  AreLive-remove :
      (header : ℕ → Header) (b : ℕ) (live : List ℕ)
      → AreLive kind header live
      → AreLive kind header (remove b live) × Absent b (remove b live)
  AreLive-remove header b [] u = (tt, tt)
  AreLive-remove header b (x ∷ xs) u =
      ground (arith, AreLive-remove header b xs u.3, Absent-remove x b xs u.2, ==→eq b x)

  AreLive-In :
      (header : ℕ → Header) (b : ℕ) (live : List ℕ)
      → AreLive kind header live
      → In b live
      → IsTagged kind (header b) b
        × (0 < b)
        × (bytes_of kind header live ≡ (header b).size + bytes_of kind header (remove b live))
  AreLive-In header b [] u n = absurd n
  AreLive-In header b (x ∷ xs) u (inl e) =
      let same : (b == x) ≡ true = ground arith in rw (same, e) (u.0, u.1, refl)
  AreLive-In header b (x ∷ xs) u (inr n) =
      let (t, p, s) = AreLive-In header b xs u.3 n in (t, p, ground (arith, ==→eq b x, s))

  -- The heap without a block: its account, and its slot on a list or not.
  abbrev Given : (ℕ → List ℕ) → List ℕ → ℕ → Mem → Type 0
  Given lists live b m = IsHeap kind lists (remove b live) m

  push_slot-IsHeap :
      (m : Mem) (lists : ℕ → List ℕ) (live : List ℕ) (b k size : ℕ)
      → IsHeap kind lists live m
      → In b live
      → kind b ≡ k
      → (m.header b).size ≡ size
      → size < u32_mod
      → Given (update lists k (b ∷ lists k)) live b (push_slot m k b size)
  push_slot-IsHeap m lists live b k size w n d s l =
      let v : Header = record { size = m.heads k; origin = free } in
      let (t, p, c) = AreLive-In m.header b live w.used n in
      let (u, a) = AreLive-remove m.header b live w.used in
      let gone = λ (j : ℕ). Absent-tagged kind m.header b j (m.heads j) (lists j) t (w.listed j) in
      record {
        listed =
            lists_update kind (update m.header b v) m.heads lists k b (b ∷ lists k)
              (λ j e. IsList-update kind m.header b v j (m.heads j) (lists j) (gone j) (w.listed j))
              (
                refl,
                p,
                rw (==_refl b) refl,
                d,
                gone k,
                rw (==_refl b)
                    (IsList-update kind m.header b v k (m.heads k) (lists k) (gone k) (w.listed k)),
              );
        used = AreLive-update kind m.header b v (remove b live) a u;
        counted =
            omega (arith, w.counted, c, s, l, bytes_of-update kind m.header b v (remove b live) a);
      }

  account-IsHeap :
      (m : Mem) (lists : ℕ → List ℕ) (live : List ℕ) (b size : ℕ)
      → IsHeap kind lists live m
      → In b live
      → (m.header b).size ≡ size
      → size < u32_mod
      → Given lists live b (record m { in_use = (m.in_use + u32_mod - size) % u32_mod })
  account-IsHeap m lists live b size w n s l =
      let (t, p, c) = AreLive-In m.header b live w.used n in
      record {
        listed = w.listed;
        used = (AreLive-remove m.header b live w.used).0;
        counted = omega (arith, w.counted, c, s, l);
      }

  slot_size-lt : (cls : ℕ) → slot_size cls < u32_mod
  slot_size-lt cls = ground arith

  -- The lists after a block goes back: a slot of a netdev that is there, and a slot of Exec's memory, to
  -- the front of its list, and no other.
  abbrev pub given_back : Origin → Bool → (ℕ → List ℕ) → ℕ → ℕ → List ℕ
  given_back (slab c) true lists b = update lists c (b ∷ lists c)
  given_back (slab_exec c) attached lists b = update lists (c + 3) (b ∷ lists (c + 3))
  given_back o attached lists b = lists

  -- A slot whose netdev is gone is not written to, and neither is a list.
  abbrev pub Untouched : Origin → Bool → Mem → Mem → Type 0
  Untouched (slab c) false m m' = (m'.header ≡ m.header) × (m'.heads ≡ m.heads)
  Untouched o attached m m' = Unit {0}

  free_slab :
      (m : Mem) (lists : ℕ → List ℕ) (live : List ℕ) (b c : ℕ) (a : Bool)
      → IsHeap kind lists live m
      → In b live
      → (m.header b).origin ≡ slab c
      → IsTag kind (slab c) (m.header b).size b
      → m.attached ≡ a
      → Given (given_back (slab c) a lists b) live b (free_block m b)
        × Untouched (slab c) a m (free_block m b)
  unfolding free_block
  free_slab m lists live b c true w n e t z =
      let same : free_block m b ≡ push_slot m c b (slot_size c) = ground (arith, e, z) in
      (rw same (push_slot-IsHeap m lists live b c (slot_size c) w n t.0 t.2 (slot_size-lt c)), tt)
  free_slab m lists live b c false w n e t z =
      let same : free_block m b
          ≡ record m { in_use = (m.in_use + u32_mod - slot_size c) % u32_mod } =
        ground (arith, e, z) in
      (
        rw same (account-IsHeap m lists live b (slot_size c) w n t.2 (slot_size-lt c)),
        (rw same refl, rw same refl),
      )

  free_stamped :
      (m : Mem) (lists : ℕ → List ℕ) (live : List ℕ) (b : ℕ) (o : Origin)
      → IsHeap kind lists live m
      → In b live
      → (m.header b).size < u32_mod
      → (m.header b).origin ≡ o
      → IsTag kind o (m.header b).size b
      → Given (given_back o m.attached lists b) live b (free_block m b)
        × Untouched o m.attached m (free_block m b)
  unfolding free_block
  free_stamped m lists live b (slab c) w n l e t =
      free_slab m lists live b c m.attached w n e t refl
  free_stamped m lists live b (slab_exec c) w n l e t = (
    rw e (push_slot-IsHeap m lists live b (c + 3) (slot_size c) w n t.0 t.2 (slot_size-lt c)),
    tt,
  )
  free_stamped m lists live b dma w n l e t =
      (rw e (account-IsHeap m lists live b (m.header b).size w n refl l), tt)
  free_stamped m lists live b exec w n l e t =
      (rw e (account-IsHeap m lists live b (m.header b).size w n refl l), tt)
  free_stamped m lists live b free w n l e t = absurd t
  free_stamped m lists live b (other v) w n l e t = absurd t

  -- A block in use, given back, leaves a well-formed heap with the other blocks in use: a slot of a netdev
  -- that is there, or of Exec's memory, stands at the front of its list and no other list changes; a slot
  -- whose netdev is gone is only taken off the account, its header and the lists not written to; and a
  -- block of its own is taken off the account.
  pub free_pointer-IsHeap :
      (m : Mem) (lists : ℕ → List ℕ) (live : List ℕ) (b : ℕ)
      → IsHeap kind lists live m
      → In b live
      → (m.header b).size < u32_mod
      → IsHeap kind
          (given_back (m.header b).origin m.attached lists b)
          (remove b live)
          (free_pointer m (b + 8))
        × Untouched (m.header b).origin m.attached m (free_pointer m (b + 8))
  unfolding free_pointer
  free_pointer-IsHeap m lists live b w n l =
      let (t, p, c) = AreLive-In m.header b live w.used n in
      let there : b + 8 - 8 ≡ b = omega arith in
      let some_block : (b + 8 == 0) ≡ false = ground arith in
      rw (some_block, there) (free_stamped m lists live b (m.header b).origin w n l refl t)

-- A slot of a netdev that is there, or of Exec's memory, is given back once: the second call with its
-- pointer changes nothing.
pub free_pointer_twice :
    (m : Mem) (b cls : ℕ)
    → ((m.header b).origin ≡ slab cls × m.attached ≡ true) ⊎ ((m.header b).origin ≡ slab_exec cls)
    → free_pointer (free_pointer m (b + 8)) (b + 8) ≡ free_pointer m (b + 8)
unfolding free_pointer free_block
free_pointer_twice m b cls (inl (e, a)) =
    let there : b + 8 - 8 ≡ b = omega arith in
    let some_block : (b + 8 == 0) ≡ false = ground arith in
    ground (arith, there, some_block, e, a, ==_refl b)
free_pointer_twice m b cls (inr e) =
    let there : b + 8 - 8 ≡ b = omega arith in
    let some_block : (b + 8 == 0) ≡ false = ground arith in
    ground (arith, there, some_block, e, ==_refl b)
