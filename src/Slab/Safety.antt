-- ===== src/Slab/Safety.antt =====
-- Blocks are handed out to one owner at a time.
use lwip_amiga.Base.{
  ℕ, zero, suc, ◌+◌, ◌<◌, ◌≡◌, ◌⊎◌, inl, inr, refl, true, false, Option, none, some, List, [], ◌∷◌,
  ◌!=◌, if◌then◌else◌, leb, arith, Bool-cases, ==_refl,
}
use lwip_amiga.Slab.{
  Mem, update, slot_size, arena_slots, key, grow, pop, one_off, take_slot, class_of, total_of,
  malloc,
}
use lwip_amiga.Slab.Lists.{IsList, IsHeap}
use lwip_amiga.Slab.Grow.{linked, IsFreshArena, grown_lists, grow-IsHeap}
use lwip_amiga.Slab.Malloc.{pop-IsHeap, IsFreshBlock, Handed, one_off-Handed}

List-cases : (xs : List ℕ) → (xs ≡ []) ⊎ ((x : ℕ) × (rest : List ℕ) × (xs ≡ x ∷ rest))
List-cases [] = inl refl
List-cases (x ∷ rest) = inr (x, rest, refl)

linked_cons :
    (n s size x : ℕ) (xs : List ℕ) → (y : ℕ) × (ys : List ℕ) × (linked n s size (x ∷ xs) ≡ y ∷ ys)
linked_cons zero s size x xs = (x, xs, refl)
linked_cons (suc n) s size x xs = linked_cons n (s + size) size s (x ∷ xs)

linked_some :
    (n s size : ℕ) (xs : List ℕ) → 0 < n → (y : ℕ) × (ys : List ℕ) × (linked n s size xs ≡ y ∷ ys)
linked_some zero s size xs h = absurd (omega arith)
linked_some (suc n) s size xs h = linked_cons n (s + size) size s xs

grow-none : (m : Mem) (cls : ℕ) → grow m cls none ≡ (m, false)
unfolding grow
grow-none m cls = refl

grow-some :
    (m : Mem) (cls a : ℕ)
    → ((grow m cls (some a)).1 ≡ true) × ((grow m cls (some a)).0.attached ≡ m.attached)
unfolding grow
grow-some m cls a = (refl, refl)

pop_pointer : (m : Mem) (cls s : ℕ) → (pop m cls s).1 ≡ s + 8
unfolding pop
pop_pointer m cls s = refl

module _ (kind : ℕ → ℕ) where
  -- The slot that the slab has ready, or none and nothing changed.
  abbrev Ready : Mem → List ℕ → ℕ → Mem × ℕ → Type 0
  Ready m live cls r =
      ((r.1 ≡ 0) × (r.0 ≡ m))
      ⊎ ((lists : ℕ → List ℕ) × (rest : List ℕ) × (lists (key m.attached cls) ≡ r.1 ∷ rest)
          × (0 < r.1)
          × IsHeap kind lists live r.0
          × (r.0.attached ≡ m.attached))

  stocked_Ready :
      (m : Mem) (lists : ℕ → List ℕ) (live : List ℕ) (cls : ℕ) (arena : Option ℕ) (s : ℕ)
      (rest : List ℕ)
      → IsHeap kind lists live m
      → lists (key m.attached cls) ≡ s ∷ rest
      → Ready m live cls (take_slot m cls arena)
  unfolding take_slot
  stocked_Ready m lists live cls arena s rest w e =
      let k = key m.attached cls in
      let here : IsList kind m.header k (m.heads k) (s ∷ rest) = rw e at (w.listed k) in
      let is_slot : take_slot m cls arena ≡ (m, s) = ground (arith, here.0, here.1, here.2) in
      rw is_slot (inr (lists, rest, e, here.1, w, refl))

  empty_Ready :
      (m : Mem) (lists : ℕ → List ℕ) (live : List ℕ) (cls : ℕ) (arena : Option ℕ)
      → IsHeap kind lists live m
      → IsFreshArena kind lists live m.attached cls arena
      → lists (key m.attached cls) ≡ []
      → Ready m live cls (take_slot m cls arena)
  unfolding take_slot
  empty_Ready m lists live cls none w f e =
      let k = key m.attached cls in
      let here : IsList kind m.header k (m.heads k) [] = rw e at (w.listed k) in
      let is_slot : take_slot m cls none ≡ (m, 0) = ground (arith, here, grow-none m cls) in
      rw is_slot (inl (refl, refl))
  empty_Ready m lists live cls (some a) w f e =
      let k = key m.attached cls in
      let here : IsList kind m.header k (m.heads k) [] = rw e at (w.listed k) in
      let w' = grow-IsHeap kind m lists live cls a w f in
      let g = grow m cls (some a) in
      let (done, same) = grow-some m cls a in
      let slots = grown_lists kind lists m.attached cls a in
      let (y, ys, l) =
        linked_some (arena_slots cls) (a + 64) (slot_size cls) (lists k) (ground arith) in
      let there : slots k ≡ y ∷ ys = rw (==_refl k) l in
      let head : IsList kind g.0.header k (g.0.heads k) (y ∷ ys) = rw there at (w'.listed k) in
      let is_slot : take_slot m cls (some a) ≡ (g.0, y) =
        ground (arith, here, done, head.0, head.1, head.2) in
      rw is_slot (inr (slots, ys, there, head.1, w', same))

  take_slot-Ready :
      (m : Mem) (lists : ℕ → List ℕ) (live : List ℕ) (cls : ℕ) (arena : Option ℕ)
      → IsHeap kind lists live m
      → IsFreshArena kind lists live m.attached cls arena
      → Ready m live cls (take_slot m cls arena)
  take_slot-Ready m lists live cls arena w f = elim (List-cases (lists (key m.attached cls))) [
    | inl e ↦ empty_Ready m lists live cls arena w f e
    | inr (s, rest, e) ↦ stocked_Ready m lists live cls arena s rest w e
  ]

  -- The slab's slot if there is one, else a block of its own.
  slab_Handed :
      (m : Mem) (lists : ℕ → List ℕ) (live : List ℕ) (cls total : ℕ) (block : Option ℕ)
      (r : Mem × ℕ)
      → cls < 3
      → IsHeap kind lists live m
      → IsFreshBlock kind lists live block
      → Ready m live cls r
      → (lists' : ℕ → List ℕ) × Handed kind lists' live
          (if r.1 != 0 then pop r.0 cls r.1 else one_off r.0 total block)
  slab_Handed m lists live cls total block (m', slot) c w g (inl (z, e)) =
      (lists, rw (z, e) (one_off-Handed kind m lists live total block w g))
  slab_Handed m lists live cls total block (m', slot) c w g (inr (lists', rest, l, p, w', a)) =
      let is_slot : (slot != 0) ≡ true = ground (arith, p) in
      let (h, n) = pop-IsHeap kind m' lists' live cls slot rest c w' (rw a l) in
      (
        update lists' (key m'.attached cls) rest,
        rw is_slot (inr (slot, pop_pointer m' cls slot, n, h)),
      )

  -- With the pools' promise that what they give is neither in use nor on a list: an allocation returns
  -- NULL, or a block that was not in use, and the heap stays well-formed with the block in use.
  pub malloc-Handed :
      (m : Mem) (lists : ℕ → List ℕ) (live : List ℕ) (size : ℕ) (arena block : Option ℕ)
      → IsHeap kind lists live m
      → IsFreshArena kind lists live m.attached (class_of (total_of size)) arena
      → IsFreshBlock kind lists live block
      → (lists' : ℕ → List ℕ) × Handed kind lists' live (malloc m size arena block)
  unfolding malloc
  malloc-Handed m lists live size arena block w f g =
      let total = total_of size in
      let cls = class_of total in
      let ready = take_slot-Ready m lists live cls arena w f in
      elim (Bool-cases (leb total 65600)) [
        | inl z ↦ rw z (
            slab_Handed m lists live cls total block (take_slot m cls arena) (ground arith) w g
              ready)
        | inr z ↦ rw z (lists, one_off-Handed kind m lists live total block w g)
      ]
