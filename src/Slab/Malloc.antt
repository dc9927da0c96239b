-- ===== src/Slab/Malloc.antt =====
-- What the heap keeps when it hands out a slot or a block of its own.
use lwip_amiga.Base.{
  ℕ, ◌+◌, ◌≤◌, ◌<◌, ◌≡◌, ◌⊎◌, inl, inr, refl, Bool, true, false, Option, none, some, List, ◌∷◌,
  if◌then◌else◌, arith, ==_refl,
}
use lwip_amiga.Slab.{dma, exec, Header, Mem, update, slot_size, origin_of, key, pop, one_off}
use lwip_amiga.Slab.Lists.{
  Absent, IsList, IsTagged, IsHeap, IsList-update, AreLive-update, bytes_of-update, Absent-kind,
  Absent-free, lists_update,
}

module _ (kind : ℕ → ℕ) where
  key-IsTagged :
      (attached : Bool) (cls s : ℕ)
      → cls < 3
      → kind s ≡ key attached cls
      → IsTagged kind (record { size = slot_size cls; origin = origin_of attached cls }) s
  key-IsTagged true cls s h e = (e, h, refl)
  key-IsTagged false cls s h e = (e, h, refl)

  -- The head of a list, handed out, is in use; it was not before.
  pub pop-IsHeap :
      (m : Mem) (lists : ℕ → List ℕ) (live : List ℕ) (cls s : ℕ) (rest : List ℕ)
      → cls < 3
      → IsHeap kind lists live m
      → lists (key m.attached cls) ≡ s ∷ rest
      → IsHeap kind (update lists (key m.attached cls) rest) (s ∷ live) (pop m cls s).0
        × Absent s live
  unfolding pop
  pop-IsHeap m lists live cls s rest c w e =
      let k = key m.attached cls in
      let here : IsList kind m.header k (m.heads k) (s ∷ rest) = rw e at (w.listed k) in
      let v : Header = record { size = slot_size cls; origin = origin_of m.attached cls } in
      let fresh = Absent-free kind m.header s live here.2 w.used in
      (
        record {
          listed =
              lists_update kind (update m.header s v) m.heads lists k (m.header s).size rest
                (λ j n.
                  IsList-update kind m.header s v j (m.heads j) (lists j)
                    (Absent-kind kind m.header s j (m.heads j) (lists j)
                      (λ d. n (ground (arith, d, here.3))) (w.listed j))
                    (w.listed j))
                (IsList-update kind m.header s v k (m.header s).size rest here.4 here.5);
          used = (
            rw (==_refl s) (key-IsTagged m.attached cls s c here.3),
            here.1,
            fresh,
            AreLive-update kind m.header s v live fresh w.used,
          );
          counted =
              rw (==_refl s)
                (omega (arith, w.counted, bytes_of-update kind m.header s v live fresh));
        },
        fresh,
      )

  -- A block of the pool that is neither in use nor on a list.
  abbrev pub IsFreshBlock : (ℕ → List ℕ) → List ℕ → Option ℕ → Type 0
  IsFreshBlock lists live none = Unit {0}
  IsFreshBlock lists live (some h) =
      (0 < h) × (6 ≤ kind h) × Absent h live × ((j : ℕ) → Absent h (lists j))

  -- What a pointer that is handed out means for the blocks in use.
  abbrev pub Handed : (ℕ → List ℕ) → List ℕ → Mem × ℕ → Type 0
  Handed lists live r =
      ((r.1 ≡ 0) × IsHeap kind lists live r.0)
      ⊎ ((h : ℕ) × (r.1 ≡ h + 8) × Absent h live × IsHeap kind lists (h ∷ live) r.0)

  pub one_off-Handed :
      (m : Mem) (lists : ℕ → List ℕ) (live : List ℕ) (total : ℕ) (block : Option ℕ)
      → IsHeap kind lists live m
      → IsFreshBlock lists live block
      → Handed lists live (one_off m total block)
  unfolding one_off
  one_off-Handed m lists live total none w f = inl (refl, w)
  one_off-Handed m lists live total (some h) w f =
      let v : Header = record { size = total; origin = if m.attached then dma else exec } in
      inr (
        h,
        refl,
        f.2,
        record {
          listed =
              λ j. IsList-update kind m.header h v j (m.heads j) (lists j) (f.3 j) (w.listed j);
          used = (
            rw (==_refl h) (tagged m.attached),
            f.0,
            f.2,
            AreLive-update kind m.header h v live f.2 w.used,
          );
          counted =
              rw (==_refl h) (omega (arith, w.counted, bytes_of-update kind m.header h v live f.2));
        },
      )
    where
      tagged :
          (attached : Bool)
          → IsTagged kind (record { size = total; origin = if attached then dma else exec }) h
      tagged true = f.1
      tagged false = f.1
