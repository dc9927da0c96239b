-- ===== src/Slab/Tests.antt =====
-- A heap with a netdev attached and an arena of two large slots, and the theorems there.
use lwip_amiga.Base.{
  ℕ, ◌≡◌, inl, refl, true, none, some, List, [], ◌∷◌, ◌==◌, ◌||◌, if◌then◌else◌, arith,
}
use lwip_amiga.Slab.{
  exec, other, Mem, update, link_slots, grow, pop, one_off, take_slot, malloc, calloc, free_block,
  free_pointer, detach, exec_release,
}
use lwip_amiga.Slab.Lists.{IsHeap}
use lwip_amiga.Slab.Malloc.{Handed}
use lwip_amiga.Slab.Free.{free_pointer-IsHeap, free_pointer_twice}
use lwip_amiga.Slab.Safety.{malloc-Handed}

abbrev empty : Mem
empty = record {
  header = λ a. record { size = 0; origin = other 0 };
  heads = λ k. 0;
  arenas = λ k. [];
  attached = true;
  in_use = 0;
}

abbrev first : Mem × ℕ
first = malloc empty 2000 (some 4096) none

abbrev second : Mem × ℕ
second = malloc first.0 3000 none none

-- The slots of the arena are handed out from the last one; then a pool has to give a block.
slots_run : (first.1 ≡ 69768) × (second.1 ≡ 4168) × ((malloc second.0 4000 none (some 12)).1 ≡ 20)
unfolding malloc take_slot grow link_slots pop one_off
slots_run = (refl, refl, refl)

account_run :
    (second.0.in_use ≡ 131200)
    × ((free_pointer second.0 4168).in_use ≡ 65600)
    × ((calloc (free_pointer second.0 4168) 10 300 none none).1 ≡ 4168)
    × ((detach second.0).heads 2 ≡ 0)
    × ((exec_release second.0).heads 2 ≡ 0)
unfolding malloc take_slot grow link_slots pop free_pointer free_block calloc detach exec_release
account_run = (refl, refl, refl, refl, refl)

abbrev slots_only : ℕ → ℕ
slots_only a = if a == 4160 || a == 69760 then 2 else 9

empty-IsHeap : IsHeap slots_only (λ k. []) [] empty
empty-IsHeap = record { listed = λ k. refl; used = tt; counted = refl }

malloc-Handed_example :
    (lists' : ℕ → List ℕ) × Handed slots_only lists' [] (malloc empty 2000 (some 4096) none)
malloc-Handed_example =
    malloc-Handed slots_only empty (λ k. []) [] 2000 (some 4096) none empty-IsHeap (ground arith) tt

abbrev one_block : Mem
one_block = record empty {
  header = update empty.header 100 (record { size = 40; origin = exec });
  in_use = 40;
}

one_block-IsHeap : IsHeap slots_only (λ k. []) (100 ∷ []) one_block
one_block-IsHeap = record { listed = λ k. refl; used = omega arith; counted = refl }

free_pointer-IsHeap_example : IsHeap slots_only (λ k. []) [] (free_pointer one_block 108) × Unit {0}
free_pointer-IsHeap_example =
    free_pointer-IsHeap slots_only one_block (λ k. []) (100 ∷ []) 100 one_block-IsHeap (inl refl)
      (omega arith)

free_pointer_twice_example :
    free_pointer (free_pointer first.0 69768) 69768 ≡ free_pointer first.0 69768
unfolding malloc take_slot grow link_slots pop
free_pointer_twice_example = free_pointer_twice first.0 69760 2 (inl (refl, refl))
