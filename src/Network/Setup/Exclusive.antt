-- ===== src/Network/Setup/Exclusive.antt =====
-- At most one caller sets up the network of a container at a time, and the others get its answer.
use qemubox.Base.{ℕ, ◌≡◌, ◌⊎◌, inl, inr, Bool, true, false, Option, none, some, arith, Option-cases}
use qemubox.Network.Setup.{
  Outcome, Phase, performing, waiting, storing, closing, removing, returned, World, lead, store,
  close, remove, forget, Step, hit, miss, join, led, set_up, refused, stored, closes, removes,
  wakes, gives_up, forgets, Reach, initially, then_step,
}

-- From the making of the tracker to its removal.
abbrev pub is_working : Phase → Bool
is_working performing = true
is_working (storing r) = true
is_working (closing o) = true
is_working (removing o) = true
is_working _ = false

abbrev pub is_closed : Option Outcome → Bool
is_closed none = false
is_closed (some out) = true

module _ (id_of : ℕ → ℕ) where
  record Inv (w : World) : Type 0 where
    owned : (c : ℕ) → is_working (w.phase c) ≡ true → w.in_flight (id_of c) ≡ some c
    tracked :
        (id o : ℕ) → w.in_flight id ≡ some o → (is_working (w.phase o) ≡ true) × (id_of o ≡ id)
    answered :
        (o : ℕ) (out : Outcome)
        → w.closed o ≡ some out
        → (w.phase o ≡ removing out) ⊎ (w.phase o ≡ returned out)
    awaited :
        (c o : ℕ)
        → w.phase c ≡ waiting o
        → (is_working (w.phase o) ≡ true) ⊎ (is_closed (w.closed o) ≡ true)
    said : (c : ℕ) (out : Outcome) → w.phase c ≡ removing out → w.closed c ≡ some out

  step-owned :
      (w w' : World)
      → Step id_of w w'
      → Inv w
      → (d : ℕ) → is_working (w'.phase d) ≡ true
      → w'.in_flight (id_of d) ≡ some d
  unfolding lead store close remove forget
  step-owned w _ (hit c r p e) h d k = ground (arith, h.owned d)
  step-owned w _ (miss c p e) h d k = ground (arith, h.owned d)
  step-owned w _ (join c o p e) h d k = ground (arith, h.owned d)
  step-owned w _ (led c p e) h d k = ground (arith, h.owned d)
  step-owned w _ (set_up c r p) h d k = ground (arith, h.owned d)
  step-owned w _ (refused c e p) h d k = ground (arith, h.owned d)
  step-owned w _ (stored c r p) h d k = ground (arith, h.owned d)
  step-owned w _ (closes c o p) h d k = ground (arith, h.owned d)
  step-owned w _ (removes c o p) h d k = ground (arith, h.owned d, h.owned c)
  step-owned w _ (wakes c o out p e) h d k = ground (arith, h.owned d)
  step-owned w _ (gives_up c o p) h d k = ground (arith, h.owned d)
  step-owned w _ (forgets id) h d k = h.owned d k

  step-tracked :
      (w w' : World)
      → Step id_of w w'
      → Inv w
      → (id d : ℕ) → w'.in_flight id ≡ some d
      → (is_working (w'.phase d) ≡ true) × (id_of d ≡ id)
  unfolding lead store close remove forget
  step-tracked w _ (hit c r p e) h key d k = ground (arith, h.tracked key d)
  step-tracked w _ (miss c p e) h key d k = ground (arith, h.tracked key d)
  step-tracked w _ (join c o p e) h key d k = ground (arith, h.tracked key d)
  step-tracked w _ (led c p e) h key d k = ground (arith, h.tracked key d)
  step-tracked w _ (set_up c r p) h key d k = ground (arith, h.tracked key d)
  step-tracked w _ (refused c e p) h key d k = ground (arith, h.tracked key d)
  step-tracked w _ (stored c r p) h key d k = ground (arith, h.tracked key d)
  step-tracked w _ (closes c o p) h key d k = ground (arith, h.tracked key d)
  step-tracked w _ (removes c o p) h key d k = ground (arith, h.tracked key d, h.owned d, h.owned c)
  step-tracked w _ (wakes c o out p e) h key d k = ground (arith, h.tracked key d)
  step-tracked w _ (gives_up c o p) h key d k = ground (arith, h.tracked key d)
  step-tracked w _ (forgets id) h key d k = h.tracked key d k

  step-answered :
      (w w' : World)
      → Step id_of w w'
      → Inv w
      → (d : ℕ) (out' : Outcome) → w'.closed d ≡ some out'
      → (w'.phase d ≡ removing out') ⊎ (w'.phase d ≡ returned out')
  unfolding lead store close remove forget
  step-answered w _ (hit c r p e) h d out' k = ground (arith, h.answered d out')
  step-answered w _ (miss c p e) h d out' k = ground (arith, h.answered d out')
  step-answered w _ (join c o p e) h d out' k = ground (arith, h.answered d out')
  step-answered w _ (led c p e) h d out' k = ground (arith, h.answered d out')
  step-answered w _ (set_up c r p) h d out' k = ground (arith, h.answered d out')
  step-answered w _ (refused c e p) h d out' k = ground (arith, h.answered d out')
  step-answered w _ (stored c r p) h d out' k = ground (arith, h.answered d out')
  step-answered w _ (closes c o p) h d out' k = ground (arith, h.answered d out')
  step-answered w _ (removes c o p) h d out' k = ground (arith, h.answered d out')
  step-answered w _ (wakes c o out p e) h d out' k = ground (arith, h.answered d out')
  step-answered w _ (gives_up c o p) h d out' k = ground (arith, h.answered d out')
  step-answered w _ (forgets id) h d out' k = h.answered d out' k

  step-said :
      (w w' : World)
      → Step id_of w w'
      → Inv w
      → (d : ℕ) (out' : Outcome) → w'.phase d ≡ removing out'
      → w'.closed d ≡ some out'
  unfolding lead store close remove forget
  step-said w _ (hit c r p e) h d out' k = ground (arith, h.said d out')
  step-said w _ (miss c p e) h d out' k = ground (arith, h.said d out')
  step-said w _ (join c o p e) h d out' k = ground (arith, h.said d out')
  step-said w _ (led c p e) h d out' k = ground (arith, h.said d out')
  step-said w _ (set_up c r p) h d out' k = ground (arith, h.said d out')
  step-said w _ (refused c e p) h d out' k = ground (arith, h.said d out')
  step-said w _ (stored c r p) h d out' k = ground (arith, h.said d out')
  step-said w _ (closes c o p) h d out' k = ground (arith, h.said d out')
  step-said w _ (removes c o p) h d out' k = ground (arith, h.said d out')
  step-said w _ (wakes c o out p e) h d out' k = ground (arith, h.said d out')
  step-said w _ (gives_up c o p) h d out' k = ground (arith, h.said d out')
  step-said w _ (forgets id) h d out' k = h.said d out' k

  step-awaited :
      (w w' : World)
      → Step id_of w w'
      → Inv w
      → (d o' : ℕ) → w'.phase d ≡ waiting o'
      → (is_working (w'.phase o') ≡ true) ⊎ (is_closed (w'.closed o') ≡ true)
  unfolding lead store close remove forget
  step-awaited w _ (hit c r p e) h d o' k = ground (arith, h.awaited d o')
  step-awaited w _ (miss c p e) h d o' k = ground (arith, h.awaited d o')
  step-awaited w _ (join c o p e) h d o' k = ground (arith, h.awaited d o', h.tracked (id_of c) o)
  step-awaited w _ (led c p e) h d o' k = ground (arith, h.awaited d o')
  step-awaited w _ (set_up c r p) h d o' k = ground (arith, h.awaited d o')
  step-awaited w _ (refused c e p) h d o' k = ground (arith, h.awaited d o')
  step-awaited w _ (stored c r p) h d o' k = ground (arith, h.awaited d o')
  step-awaited w _ (closes c o p) h d o' k = ground (arith, h.awaited d o')
  step-awaited w _ (removes c o p) h d o' k = ground (arith, h.awaited d o', h.said c o)
  step-awaited w _ (wakes c o out p e) h d o' k = ground (arith, h.awaited d o')
  step-awaited w _ (gives_up c o p) h d o' k = ground (arith, h.awaited d o')
  step-awaited w _ (forgets id) h d o' k = h.awaited d o' k

  step-Inv : (w w' : World) → Step id_of w w' → Inv w → Inv w'
  step-Inv w w' s h = record {
    owned = step-owned w w' s h;
    tracked = step-tracked w w' s h;
    answered = step-answered w w' s h;
    awaited = step-awaited w w' s h;
    said = step-said w w' s h;
  }

  reach-Inv : (w : World) → Reach id_of w → Inv w
  reach-Inv _ initially = record {
    owned = λ c k. ground arith;
    tracked = λ key o k. ground arith;
    answered = λ o out k. ground arith;
    awaited = λ c o k. ground arith;
    said = λ c out k. ground arith;
  }
  reach-Inv _ (then_step v w r s) = step-Inv v w s (reach-Inv v r)

  -- Callers take their steps in any order, and networks are released at any time. Two callers that
  -- are setting up the network of the same container are one.
  pub one_setup_at_a_time :
      (w : World) (c d : ℕ)
      → Reach id_of w
      → is_working (w.phase c) ≡ true
      → is_working (w.phase d) ≡ true
      → id_of c ≡ id_of d
      → c ≡ d
  one_setup_at_a_time w c d r k l e = let h = reach-Inv w r in ground (arith, h.owned c, h.owned d)

  -- Callers take their steps in any order, and networks are released at any time. Where a caller waits
  -- for the tracker of another, that one is still working, or its tracker is closed, with the
  -- answer that it returns or is about to return.
  pub waiter_gets_answer :
      (w : World) (c o : ℕ)
      → Reach id_of w
      → w.phase c ≡ waiting o
      → (is_working (w.phase o) ≡ true)
        ⊎ ((out : Outcome) × (w.closed o ≡ some out)
            × ((w.phase o ≡ removing out) ⊎ (w.phase o ≡ returned out)))
  waiter_gets_answer w c o r e =
      let h = reach-Inv w r in
      elim (h.awaited c o e) [
        | inl k ↦ inl k
        | inr k ↦ elim (Option-cases (w.closed o)) [
          | inl n ↦ inl (ground (arith, k, n))
          | inr (out, n) ↦ inr (out, n, h.answered o out n)
        ]
      ]
