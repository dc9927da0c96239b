-- ===== src/Slab.antt =====
-- The heap of port/amiga/netstack_mem.c: the slab classes with their free lists, and the one-off
-- blocks. An address is a number, 0 is NULL. Of the memory only the headers are modelled: a header is
-- the two words at the start of a block, of which the first holds the size of a block in use and the
-- link of a free slot. The pools under it are parameters: `arena` and `block` are what they give.
pub mod Lists
pub mod Grow
pub mod Malloc
pub mod Free
pub mod Safety
pub mod Fits
mod Tests
use lwip_amiga.Base.{
  ℕ, zero, suc, ◌+◌, ◌-◌, ◌*◌, ◌/◌, ◌%◌, ◌^◌, Bool, true, false, not, ◌&&◌, Option, none, some,
  List, [], ◌∷◌, ◌==◌, ◌!=◌, ltb, leb, if◌then◌else◌, u32_mod,
}

-- `NSMEM_ORIGIN_*`: the class of a slab of a netdev's memory or of exec's, the one-off blocks, a slot
-- on a free list, or a word that is none of these.
pub data Origin : Type 0 where
  slab : ℕ → Origin
  slab_exec : ℕ → Origin
  dma exec free : Origin
  other : ℕ → Origin

-- `struct NsMemHeader`; `size` is the word at offset 0, over which a free slot is linked.
pub record Header : Type 0 where
  pub size : ℕ
  pub origin : Origin

-- The fields of `netstack` that the heap uses. `heads` gives the free list of a key, `arenas` the
-- arenas of it, newest first, with their sizes; a key is the class, or three more than that in exec's
-- memory. `attached` is `ns_ActiveNetdev != NULL`.
pub record Mem : Type 0 where
  pub header : ℕ → Header
  pub heads : ℕ → ℕ
  pub arenas : ℕ → List (ℕ × ℕ)
  pub attached : Bool
  pub in_use : ℕ

abbrev pub update {ℓ} : {A : Type ℓ} → (ℕ → A) → ℕ → A → ℕ → A
update f a v x = if x == a then v else f x

-- `nslab_slot`, `nslab_arena_slots` and the origin words of a class.
abbrev pub slot_size : ℕ → ℕ
slot_size cls = if cls == 0 then 128 else if cls == 1 then 1600 else 65600

abbrev pub arena_slots : ℕ → ℕ
arena_slots cls = if cls == 2 then 2 else 64

abbrev pub origin_of : Bool → ℕ → Origin
origin_of attached cls = if attached then slab cls else slab_exec cls

abbrev pub key : Bool → ℕ → ℕ
key attached cls = if attached then cls else cls + 3

-- The loop of `nslab_grow` over the `n` slots from `s` on: the headers and the head of the list.
unfoldable pub link_slots : ℕ → ℕ → ℕ → (ℕ → Header) → ℕ → (ℕ → Header) × ℕ
link_slots zero s size header head = (header, head)
link_slots (suc n) s size header head =
    link_slots n (s + size) size (update header s (record { size = head; origin = free })) s

-- `none` for the arena is the pool's NULL, and FALSE.
unfoldable pub grow : Mem → ℕ → Option ℕ → Mem × Bool
grow m cls none = (m, false)
grow m cls (some a) =
    let k = key m.attached cls in
    let (header, head) =
      link_slots (arena_slots cls) (a + 64) (slot_size cls) m.header (m.heads k) in
    (
      record m {
        header = header;
        heads = update m.heads k head;
        arenas = update m.arenas k ((a, 64 + arena_slots cls * slot_size cls) ∷ m.arenas k);
      },
      true,
    )

abbrev pub is_free : Origin → Bool
is_free free = true
is_free _ = false

-- The slot that stands at the head of a list, handed out.
unfoldable pub pop : Mem → ℕ → ℕ → Mem × ℕ
pop m cls s = (
  record m {
    header = update m.header s (record { size = slot_size cls; origin = origin_of m.attached cls });
    heads = update m.heads (key m.attached cls) (m.header s).size;
    in_use = (m.in_use + slot_size cls) % u32_mod;
  },
  s + 8,
)

-- A block of its own from the pool.
unfoldable pub one_off : Mem → ℕ → Option ℕ → Mem × ℕ
one_off m total none = (m, 0)
one_off m total (some h) = (
  record m {
    header = update m.header h (record { size = total; origin = if m.attached then dma else exec });
    in_use = (m.in_use + total) % u32_mod;
  },
  h + 8,
)

-- The slot that the slab has for a class, with the list dropped whose head is no free slot; 0 if it
-- has none.
unfoldable pub take_slot : Mem → ℕ → Option ℕ → Mem × ℕ
take_slot m cls arena =
    let k = key m.attached cls in
    let (grown, done) = grow m cls arena in
    let (m', slot) = if m.heads k == 0 && done then (grown, grown.heads k) else (m, m.heads k) in
    if slot != 0 && not (is_free (m'.header slot).origin)
    then dropped (record m' { heads = update m'.heads k 0 }) k
    else (m', slot)
  where
    dropped : Mem → ℕ → Mem × ℕ
    dropped m' k =
        let (grown, done) = grow m' cls arena in if done then (grown, grown.heads k) else (m', 0)

abbrev pub class_of : ℕ → ℕ
class_of total = if leb total 128 then 0 else if leb total 1600 then 1 else 2

-- The bytes that a request takes, with its header.
abbrev pub total_of : ℕ → ℕ
total_of size = ((size + 3) % u32_mod / 4 * 4 + 8) % u32_mod

-- The pointer behind the header, 0 for NULL.
unfoldable pub malloc : Mem → ℕ → Option ℕ → Option ℕ → Mem × ℕ
malloc m size arena block =
    if leb (total_of size) 65600 then from_slab else one_off m (total_of size) block
  where
    from_slab : Mem × ℕ
    from_slab =
        let (m', slot) = take_slot m (class_of (total_of size)) arena in
        if slot != 0
        then pop m' (class_of (total_of size)) slot
        else one_off m' (total_of size) block

-- `netstack_calloc`, but for the zeros that it writes into the block.
unfoldable pub calloc : Mem → ℕ → ℕ → Option ℕ → Option ℕ → Mem × ℕ
calloc m count size arena block = malloc m (count * size % u32_mod) arena block

abbrev push_slot : Mem → ℕ → ℕ → ℕ → Mem
push_slot m k h size = record m {
  header = update m.header h (record { size = m.heads k; origin = free });
  heads = update m.heads k h;
  in_use = (m.in_use + u32_mod - size) % u32_mod;
}

-- Of a block whose memory went with the netdev, or goes back to its pool, only the account changes.
unfoldable pub free_block : Mem → ℕ → Mem
free_block m h = by_origin (m.header h).origin
  where
    account : ℕ → Mem
    account size = record m { in_use = (m.in_use + u32_mod - size) % u32_mod }

    by_origin : Origin → Mem
    by_origin (slab cls) =
        if m.attached then push_slot m cls h (slot_size cls) else account (slot_size cls)
    by_origin (slab_exec cls) = push_slot m (cls + 3) h (slot_size cls)
    by_origin dma = account (m.header h).size
    by_origin exec = account (m.header h).size
    by_origin free = m
    by_origin (other w) = m

-- `netstack_free` of a pointer.
unfoldable pub free_pointer : Mem → ℕ → Mem
free_pointer m ptr = if ptr == 0 then m else free_block m (ptr - 8)

-- `netstack_slab_detach` and `netstack_slab_exec_release`: the lists and the arenas of one world go.
unfoldable pub detach : Mem → Mem
detach m = record m {
  heads = λ k. if ltb k 3 then 0 else m.heads k;
  arenas = λ k. if ltb k 3 then [] else m.arenas k;
}

unfoldable pub exec_release : Mem → Mem
exec_release m = record m {
  heads = λ k. if ltb k 3 then m.heads k else 0;
  arenas = λ k. if ltb k 3 then m.arenas k else [];
}
