-- ===== src/Sock/Tests.antt =====
-- The owner slots of a shared socket, and the theorems there.
use lwip_amiga.Base.{◌-◌, ◌≡◌, refl, none, some, [], ◌∷◌, ◌==◌, if◌then◌else◌, arith}
use lwip_amiga.Sock.Owners.{
  Slots, owner_incref, owner_decref, fdrefs_of, IsOwners, owner_incref-IsOwners,
  owner_decref-IsOwners,
}

-- Openers 4 and 9 hold descriptors, the second slot is free.
abbrev shared : Slots
shared =
    some (record { base = 4; fdrefs = 1 })
    ∷ none
    ∷ some (record { base = 9; fdrefs = 2 })
    ∷ none
    ∷ []

abbrev shared_more : Slots
shared_more =
    some (record { base = 4; fdrefs = 1 })
    ∷ none
    ∷ some (record { base = 9; fdrefs = 3 })
    ∷ none
    ∷ []

shared-IsOwners : IsOwners shared
shared-IsOwners = omega arith

owner_incref-IsOwners_example : IsOwners shared_more × (fdrefs_of shared_more 9 ≡ 3)
unfolding owner_incref
owner_incref-IsOwners_example =
    owner_incref-IsOwners shared 9 9 shared_more shared-IsOwners (omega arith) refl

owner_decref-IsOwners_example :
    IsOwners (owner_decref shared 4)
    × (fdrefs_of (owner_decref shared 4) 4 ≡ (if 4 == 4 then 1 - 1 else 1))
owner_decref-IsOwners_example = owner_decref-IsOwners shared 4 4 shared-IsOwners
