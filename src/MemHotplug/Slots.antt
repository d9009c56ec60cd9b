-- ===== src/MemHotplug/Slots.antt =====
-- Which DIMM slot internal/shim/memhotplug/controller.go chooses.
use qemubox.Base.{
  ℕ, zero, suc, ◌+◌, ◌<◌, ◌≡◌, inl, inr, refl, Bool, true, false, Option, none, some, List, All,
  subst, [], ◌∷◌, arith, Option-cases, Bool-cases,
}
use qemubox.MemHotplug.Controller.{
  Controller, find_free_slot, find_used_slot, free_from, used_below,
}

-- The `n` numbers from `lo` on, rising and falling.
abbrev rising : ℕ → ℕ → List ℕ
rising lo zero = []
rising lo (suc n) = lo ∷ rising (lo + 1) n

abbrev falling : ℕ → ℕ → List ℕ
falling lo zero = []
falling lo (suc n) = (lo + n) ∷ falling lo n

-- The lowest unused one of the `n` slots from `lo` on, or all of them are used.
abbrev pub LowestFree : (ℕ → Bool) → ℕ → ℕ → Option ℕ → Type 0
LowestFree used lo n none = All (λ slot. used slot ≡ true) (rising lo n)
LowestFree used lo n (some slot) =
    (below : ℕ) × (slot ≡ lo + below)
    × (below < n)
    × (used slot ≡ false)
    × All (λ other. used other ≡ true) (rising lo below)

-- The highest used slot below `n`, or none of them is used.
abbrev pub HighestUsed : (ℕ → Bool) → ℕ → Option ℕ → Type 0
HighestUsed used n none = All (λ slot. used slot ≡ false) (falling 0 n)
HighestUsed used n (some slot) =
    (above : ℕ) × (n ≡ suc slot + above)
    × (used slot ≡ true)
    × All (λ other. used other ≡ false) (falling (suc slot) above)

module _ (used : ℕ → Bool) where
  free_from-LowestFree :
      (rounds slot : ℕ) → LowestFree used slot rounds (free_from used rounds slot)
  unfolding free_from
  free_from-LowestFree zero slot = tt
  free_from-LowestFree (suc rounds) slot = elim (Bool-cases (used slot)) [
    | inr free ↦
        let v : LowestFree used slot (suc rounds) (some slot) =
          (0, omega arith, omega arith, free, tt) in
        subst (LowestFree used slot (suc rounds)) {x = (some slot)} (ground (arith, free)) v
    | inl taken ↦
        let rest = free_from-LowestFree rounds (slot + 1) in
        elim (Option-cases (free_from used rounds (slot + 1))) [
          | inl e ↦
              let v : LowestFree used slot (suc rounds) none =
                (taken, subst (LowestFree used (slot + 1) rounds) e rest) in
              subst (LowestFree used slot (suc rounds)) {x = none} (ground (arith, taken, e)) v
          | inr (s, e) ↦
              let (below, at, lt, free, all) = subst (LowestFree used (slot + 1) rounds) e rest in
              let v : LowestFree used slot (suc rounds) (some s) =
                (suc below, omega arith, omega arith, free, (taken, all)) in
              subst (LowestFree used slot (suc rounds)) {x = (some s)} (ground (arith, taken, e)) v
        ]
  ]

  used_below-HighestUsed : (slots : ℕ) → HighestUsed used slots (used_below used slots)
  unfolding used_below
  used_below-HighestUsed zero = tt
  used_below-HighestUsed (suc slot) = elim (Bool-cases (used slot)) [
    | inl taken ↦
        let v : HighestUsed used (suc slot) (some slot) = (0, omega arith, taken, tt) in
        subst (HighestUsed used (suc slot)) {x = (some slot)} (ground (arith, taken)) v
    | inr free ↦
        let rest = used_below-HighestUsed slot in
        elim (Option-cases (used_below used slot)) [
          | inl e ↦
              let v : HighestUsed used (suc slot) none = (
                subst (λ j. used j ≡ false) (omega arith) free,
                subst (HighestUsed used slot) e rest,
              ) in
              subst (HighestUsed used (suc slot)) {x = none} (ground (arith, free, e)) v
          | inr (s, e) ↦
              let (above, at, taken, all) = subst (HighestUsed used slot) e rest in
              let v : HighestUsed used (suc slot) (some s) = (
                suc above,
                omega arith,
                taken,
                (subst (λ j. used j ≡ false) (omega arith) free, all),
              ) in
              subst (HighestUsed used (suc slot)) {x = (some s)} (ground (arith, free, e)) v
        ]
  ]

pub free_from-same :
    (used used' : ℕ → Bool) (rounds slot : ℕ)
    → ((s : ℕ) → used s ≡ used' s)
    → free_from used rounds slot ≡ free_from used' rounds slot
unfolding free_from
free_from-same used used' zero slot same = refl
free_from-same used used' (suc rounds) slot same =
    ground (arith, same slot, free_from-same used used' rounds (slot + 1) same)

module _ {F : Type 0} (c : Controller F) where
  find_free_slot_lowest : LowestFree c.used_slots 0 c.config.max_slots (find_free_slot c)
  unfolding find_free_slot
  find_free_slot_lowest = free_from-LowestFree c.used_slots c.config.max_slots 0

  pub free_slot_unused : (slot : ℕ) → find_free_slot c ≡ some slot → c.used_slots slot ≡ false
  free_slot_unused slot e =
      (subst (LowestFree c.used_slots 0 c.config.max_slots) e find_free_slot_lowest).3

  find_used_slot_highest : HighestUsed c.used_slots c.config.max_slots (find_used_slot c)
  unfolding find_used_slot
  find_used_slot_highest = used_below-HighestUsed c.used_slots c.config.max_slots

  -- The slot that scaling up takes is the lowest that is not marked as used, and the slot that scaling
  -- down takes is the highest that is marked; there is none only if all the slots below the configured
  -- number are marked, or none is.
  slots_are_chosen :
      LowestFree c.used_slots 0 c.config.max_slots (find_free_slot c)
      × HighestUsed c.used_slots c.config.max_slots (find_used_slot c)
  slots_are_chosen = (find_free_slot_lowest, find_used_slot_highest)
