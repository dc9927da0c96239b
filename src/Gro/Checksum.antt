-- ===== src/Gro/Checksum.antt =====
-- The fold of a checksum's carries in `rxgro_flush`.
use lwip_amiga.Base.{ℕ, zero, suc, ◌+◌, ◌-◌, ◌*◌, ◌/◌, ◌%◌, ◌^◌, ◌≤◌, ◌<◌, ◌≡◌, refl, arith}
use lwip_amiga.Gro.{fold}

fold_small : (n s : ℕ) → s < 2 ^ 16 → fold n s ≡ s
fold_small zero s h = refl
fold_small (suc n) s h = ground (arith, h)

-- Of a sum of three halfwords, two units of fuel fold the carries to a halfword, and more units
-- change nothing.
fold_lem :
    (n s : ℕ) → s ≤ 3 * (2 ^ 16 - 1) → (fold (suc (suc n)) s ≡ fold 2 s) × (fold 2 s < 2 ^ 16)
fold_lem n s h =
    ground (
      arith,
      fold_small n ((s % 2 ^ 16 + s / 2 ^ 16) % 2 ^ 16 + (s % 2 ^ 16 + s / 2 ^ 16) / 2 ^ 16),
    )
