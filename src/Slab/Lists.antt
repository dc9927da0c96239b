-- ===== src/Slab/Lists.antt =====
-- The heap's free lists as lists of slots, and the blocks in use beside them.
use lwip_amiga.Base.{
  ℕ, ◌+◌, ◌≤◌, ◌<◌, ◌≡◌, ◌≢◌, inl, inr, refl, List, [], ◌∷◌, ◌==◌, arith, Bool-cases, ==→eq,
  u32_mod, ◌%◌,
}
use lwip_amiga.Slab.{
  Origin, slab, slab_exec, dma, exec, free, other, Header, Mem, update, slot_size,
}

abbrev pub Absent : ℕ → List ℕ → Type 0
Absent a [] = Unit {0}
Absent a (x ∷ xs) = (a ≢ x) × Absent a xs

module _ (kind : ℕ → ℕ) where
  -- From `head` the links lead through the slots, each of them of the list's key and stamped free.
  -- `kind` tells the key of the list that an address is a slot of.
  abbrev pub IsList : (ℕ → Header) → ℕ → ℕ → List ℕ → Type 0
  IsList header k head [] = head ≡ 0
  IsList header k head (s ∷ rest) =
      (head ≡ s)
      × (0 < s)
      × ((header s).origin ≡ free)
      × (kind s ≡ k)
      × Absent s rest
      × IsList header k (header s).size rest

  -- What a block in use is stamped with. The keys are below 6.
  abbrev pub IsTag : Origin → ℕ → ℕ → Type 0
  IsTag (slab c) size b = (kind b ≡ c) × (c < 3) × (size ≡ slot_size c)
  IsTag (slab_exec c) size b = (kind b ≡ c + 3) × (c < 3) × (size ≡ slot_size c)
  IsTag dma size b = 6 ≤ kind b
  IsTag exec size b = 6 ≤ kind b
  IsTag free size b = ⊥
  IsTag (other w) size b = ⊥

  abbrev pub IsTagged : Header → ℕ → Type 0
  IsTagged h b = IsTag h.origin h.size b

  abbrev pub AreLive : (ℕ → Header) → List ℕ → Type 0
  AreLive header [] = Unit {0}
  AreLive header (b ∷ bs) = IsTagged (header b) b × (0 < b) × Absent b bs × AreLive header bs

  -- The bytes in use.
  abbrev pub bytes_of : (ℕ → Header) → List ℕ → ℕ
  bytes_of header [] = 0
  bytes_of header (b ∷ bs) = (header b).size + bytes_of header bs

  -- The lists hold free slots of their key, each once; the blocks in use are stamped as such, and none
  -- stands there twice, and their bytes are accounted for.
  pub record IsHeap (lists : ℕ → List ℕ) (live : List ℕ) (m : Mem) : Type 0 where
    pub listed : (k : ℕ) → IsList m.header k (m.heads k) (lists k)
    pub used : AreLive m.header live
    pub counted : m.in_use ≡ bytes_of m.header live % u32_mod

  pub IsList-update :
      (header : ℕ → Header) (a : ℕ) (v : Header) (k head : ℕ) (slots : List ℕ)
      → Absent a slots
      → IsList header k head slots
      → IsList (update header a v) k head slots
  IsList-update header a v k head [] n h = h
  IsList-update header a v k head (s ∷ rest) n h =
      ground (arith, IsList-update header a v k (header s).size rest n.1 h.5)

  pub AreLive-update :
      (header : ℕ → Header) (a : ℕ) (v : Header) (live : List ℕ)
      → Absent a live
      → AreLive header live
      → AreLive (update header a v) live
  AreLive-update header a v [] n h = h
  AreLive-update header a v (b ∷ bs) n h = ground (arith, AreLive-update header a v bs n.1 h.3)

  pub bytes_of-update :
      (header : ℕ → Header) (a : ℕ) (v : Header) (live : List ℕ)
      → Absent a live
      → bytes_of (update header a v) live ≡ bytes_of header live
  bytes_of-update header a v [] n = refl
  bytes_of-update header a v (b ∷ bs) n = ground (arith, bytes_of-update header a v bs n.1)

  pub Absent-kind :
      (header : ℕ → Header) (a k head : ℕ) (slots : List ℕ)
      → kind a ≢ k
      → IsList header k head slots
      → Absent a slots
  Absent-kind header a k head [] n h = tt
  Absent-kind header a k head (s ∷ rest) n h =
      (λ e. ground (arith, e, h.3), Absent-kind header a k (header s).size rest n h.5)

  -- The stamp tells a block in use from a slot of a list.
  pub Absent-free :
      (header : ℕ → Header) (a : ℕ) (live : List ℕ)
      → (header a).origin ≡ free
      → AreLive header live
      → Absent a live
  Absent-free header a [] f h = tt
  Absent-free header a (b ∷ bs) f h =
      (λ e. ground (arith, f, e, h.0), Absent-free header a bs f h.3)

  pub Absent-tagged :
      (header : ℕ → Header) (a k head : ℕ) (slots : List ℕ)
      → IsTagged (header a) a
      → IsList header k head slots
      → Absent a slots
  Absent-tagged header a k head [] t h = tt
  Absent-tagged header a k head (s ∷ rest) t h =
      (λ e. ground (arith, e, t, h.2), Absent-tagged header a k (header s).size rest t h.5)

  -- The lists after one of them, and the headers, have changed.
  pub lists_update :
      (header : ℕ → Header) (heads : ℕ → ℕ) (lists : ℕ → List ℕ) (k h : ℕ) (slots : List ℕ)
      → ((j : ℕ) → j ≢ k → IsList header j (heads j) (lists j))
      → IsList header k h slots
      → (j : ℕ) → IsList header j (update heads k h j) (update lists k slots j)
  lists_update header heads lists k h slots rest here j = elim (Bool-cases (j == k)) [
    | inl z ↦ rw (z, ==→eq j k z) here
    | inr z ↦ rw z (rest j (λ e. ground (arith, e, z)))
  ]
