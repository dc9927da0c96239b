-- ===== src/Slab/Grow.antt =====
-- What the heap keeps when a class grows by an arena.
use lwip_amiga.Base.{
  ℕ, zero, suc, ◌+◌, ◌<◌, ◌≡◌, ◌≢◌, refl, Bool, Option, none, some, List, ◌∷◌, arith, ==_refl, ap,
  sym, ◌∙◌, ◌%◌, u32_mod,
}
use lwip_amiga.Slab.{free, Header, Mem, update, slot_size, arena_slots, key, link_slots, grow}
use lwip_amiga.Slab.Lists.{
  Absent, IsList, AreLive, IsHeap, IsList-update, AreLive-update, bytes_of, bytes_of-update,
  Absent-kind, lists_update,
}

-- The list after the slots of an arena have been linked before it.
abbrev pub linked : ℕ → ℕ → ℕ → List ℕ → List ℕ
linked zero s size slots = slots
linked (suc n) s size slots = linked n (s + size) size (s ∷ slots)

module _ (kind : ℕ → ℕ) where
  -- The slots of an arena are the list's, and neither on it nor in use.
  abbrev pub AreFresh : ℕ → List ℕ → List ℕ → ℕ → ℕ → ℕ → Type 0
  AreFresh k slots live zero s size = Unit {0}
  AreFresh k slots live (suc n) s size =
      (0 < s)
      × (kind s ≡ k)
      × Absent s slots
      × Absent s live
      × AreFresh k slots live n (s + size) size

  AreFresh-cons :
      (k : ℕ) (slots live : List ℕ) (n s size x : ℕ)
      → x < s
      → 0 < size
      → AreFresh k slots live n s size
      → AreFresh k (x ∷ slots) live n s size
  AreFresh-cons k slots live zero s size x l p f = tt
  AreFresh-cons k slots live (suc n) s size x l p f = (
    f.0,
    f.1,
    ((λ e. omega arith), f.2),
    f.3,
    AreFresh-cons k slots live n (s + size) size x (omega arith) p f.4,
  )

  -- The new list, with the other lists and the blocks in use as they were.
  link_slots-IsList :
      (header : ℕ → Header) (lists : ℕ → List ℕ) (heads : ℕ → ℕ) (k head : ℕ) (slots live : List ℕ)
      (n s size : ℕ)
      → 0 < size
      → IsList kind header k head slots
      → ((j : ℕ) → j ≢ k → IsList kind header j (heads j) (lists j))
      → AreLive kind header live
      → AreFresh k slots live n s size
      → let r = link_slots n s size header head in
        IsList kind r.0 k r.1 (linked n s size slots)
        × ((j : ℕ) → j ≢ k → IsList kind r.0 j (heads j) (lists j))
        × AreLive kind r.0 live
        × (bytes_of kind r.0 live ≡ bytes_of kind header live)
  unfolding link_slots
  link_slots-IsList header lists heads k head slots live zero s size p w o u f = (w, o, u, refl)
  link_slots-IsList header lists heads k head slots live (suc n) s size p w o u f =
      let v : Header = record { size = head; origin = free } in
      let (new, others, used, counted) =
        link_slots-IsList (update header s v) lists heads k s (s ∷ slots) live n (s + size) size p
          (
            refl,
            f.0,
            rw (==_refl s) refl,
            f.1,
            f.2,
            rw (==_refl s) (IsList-update kind header s v k head slots f.2 w),
          )
          (λ j d.
            IsList-update kind header s v j (heads j) (lists j)
              (Absent-kind kind header s j (heads j) (lists j) (λ e. d (ground (arith, e, f.1)))
                (o j d))
              (o j d))
          (AreLive-update kind header s v live f.3 u)
          (AreFresh-cons k slots live n (s + size) size s (omega arith) p f.4) in
      (new, others, used, counted ∙ bytes_of-update kind header s v live f.3)

  abbrev pub IsFreshArena : (ℕ → List ℕ) → List ℕ → Bool → ℕ → Option ℕ → Type 0
  IsFreshArena lists live attached cls none = Unit {0}
  IsFreshArena lists live attached cls (some a) =
      AreFresh (key attached cls) (lists (key attached cls)) live (arena_slots cls) (a + 64)
        (slot_size cls)

  abbrev pub grown_lists : (ℕ → List ℕ) → Bool → ℕ → ℕ → ℕ → List ℕ
  grown_lists lists attached cls a =
      update lists (key attached cls)
        (linked (arena_slots cls) (a + 64) (slot_size cls) (lists (key attached cls)))

  pub grow-IsHeap :
      (m : Mem) (lists : ℕ → List ℕ) (live : List ℕ) (cls a : ℕ)
      → IsHeap kind lists live m
      → IsFreshArena lists live m.attached cls (some a)
      → IsHeap kind (grown_lists lists m.attached cls a) live (grow m cls (some a)).0
  unfolding grow
  grow-IsHeap m lists live cls a w f =
      let k = key m.attached cls in
      let r =
        link_slots-IsList m.header lists m.heads k (m.heads k) (lists k) live (arena_slots cls)
          (a + 64) (slot_size cls) (ground arith) (w.listed k) (λ j d. w.listed j) w.used f in
      let done = link_slots (arena_slots cls) (a + 64) (slot_size cls) m.header (m.heads k) in
      record {
        listed =
            lists_update kind done.0 m.heads lists k done.1
              (linked (arena_slots cls) (a + 64) (slot_size cls) (lists k)) r.1 r.0;
        used = r.2;
        counted = w.counted ∙ ap (λ n. n % u32_mod) (sym r.3);
      }
