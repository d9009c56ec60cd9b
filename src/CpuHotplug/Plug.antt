-- ===== src/CpuHotplug/Plug.antt =====
-- Which CPUs internal/shim/cpuhotplug/controller.go plugs and unplugs.
use qemubox.Base.{
  ℕ, zero, suc, ◌+◌, ◌-◌, ◌≤◌, ◌<◌, ◌≡◌, ◌⊎◌, leb, subst, All-reverse, All-append_left, refl, ap,
  Bool, false, none, some, List, [], ◌∷◌, ◌++◌, length, select, All, arith, if◌then◌else◌, ltb,
  Bool-cases, inl, inr,
}
use Prim.Native.Nat.{min}
use mathlib.Core.List.{reverse, reverse-cons, append_assoc}
use qemubox.CpuHotplug.Controller.{
  Trace, Env, Controller, query_cpus, hotplug_cpu, unplug_cpu, online_cpu, offline_cpu,
}
use qemubox.CpuHotplug.Scale.{
  add_cpus, remove_cpus, removable_cpus, scale_up, scale_down, Added, contains,
}

-- The CPU numbers of the hotplug calls and of the unplug calls, newest first.
abbrev pub hotplugged : Trace → List ℕ
hotplugged [] = []
hotplugged (hotplug_cpu id ∷ trace) = id ∷ hotplugged trace
hotplugged (_ ∷ trace) = hotplugged trace

abbrev pub unplugged : Trace → List ℕ
unplugged [] = []
unplugged (unplug_cpu id ∷ trace) = id ∷ unplugged trace
unplugged (_ ∷ trace) = unplugged trace

-- Rising numbers from `lo` to below `hi` that are not in the list.
abbrev pub FreshFrom : List ℕ → ℕ → ℕ → List ℕ → Type 0
FreshFrom existing lo hi [] = Unit {0}
FreshFrom existing lo hi (id ∷ ids) =
    (lo ≤ id) × (id < hi) × (contains existing id ≡ false) × FreshFrom existing (suc id) hi ids

-- How many of the `rounds` numbers from `lo` are not in the list.
abbrev free : ℕ → ℕ → List ℕ → ℕ
free zero lo existing = 0
free (suc rounds) lo existing =
    let rest = free rounds (lo + 1) existing in if contains existing lo then rest else suc rest

FreshFrom-widen :
    (lo lo' hi hi' : ℕ) (existing ids : List ℕ)
    → lo' ≤ lo
    → hi ≤ hi'
    → FreshFrom existing lo hi ids
    → FreshFrom existing lo' hi' ids
FreshFrom-widen lo lo' hi hi' existing [] h k v = tt
FreshFrom-widen lo lo' hi hi' existing (id ∷ ids) h k v = (
  omega arith,
  omega arith,
  v.2,
  FreshFrom-widen (suc id) (suc id) hi hi' existing ids (omega arith) k v.3,
)

FreshFrom-weaken :
    (x lo hi : ℕ) (existing ids : List ℕ)
    → FreshFrom (x ∷ existing) lo hi ids
    → FreshFrom existing lo hi ids
FreshFrom-weaken x lo hi existing [] v = tt
FreshFrom-weaken x lo hi existing (id ∷ ids) v =
    (v.0, v.1, ground arith, FreshFrom-weaken x (suc id) hi existing ids v.3)

reverse-cons-append : (x : ℕ) (xs ys : List ℕ) → reverse (x ∷ xs) ++ ys ≡ reverse xs ++ x ∷ ys
reverse-cons-append x xs ys = rw (reverse-cons x xs) (append_assoc (reverse xs) (x ∷ []) ys)

free-cons :
    (rounds lo x : ℕ) (existing : List ℕ)
    → x < lo
    → free rounds lo (x ∷ existing) ≡ free rounds lo existing
free-cons zero lo x existing h = refl
free-cons (suc rounds) lo x existing h = ground (arith, free-cons rounds (lo + 1) x existing)

module _ (env : Env) where
  -- What the loop plugs: the hotplug calls that it adds.
  abbrev Plugs : ℕ → ℕ → ℕ → List ℕ → Trace → Added → Type 0
  Plugs rounds lo room existing trace result =
      (ids : List ℕ) × (hotplugged result.trace ≡ reverse ids ++ hotplugged trace)
      × FreshFrom existing lo (lo + rounds) ids
      × (length ids ≤ room)

  add_cpus-Plugs :
      (on : Bool) (rounds next_id to_add added : ℕ) (existing : List ℕ) (trace : Trace)
      → Plugs rounds next_id
          (to_add - added)
          existing
          trace
          (add_cpus env on rounds next_id to_add added existing trace)
  unfolding add_cpus
  add_cpus-Plugs on zero next_id to_add added existing trace = ([], refl, tt, omega arith)
  add_cpus-Plugs on (suc rounds) next_id to_add added existing trace =
      elim (Bool-cases (ltb added to_add)) [
        | inr full ↦ ([], ground arith, tt, omega arith)
        | inl room ↦ elim (Bool-cases (contains existing next_id)) [
          | inl taken ↦
              let (ids, eq, fresh, few) =
                add_cpus-Plugs on rounds (next_id + 1) to_add added existing trace in
              (
                ids,
                ground arith,
                FreshFrom-widen (next_id + 1) next_id (next_id + 1 + rounds) (next_id + suc rounds)
                    existing ids (omega arith) (omega arith) fresh,
                few,
              )
          | inr spare ↦ elim (Bool-cases (env.hotplug_answer trace next_id)) [
            | inr failed ↦ (next_id ∷ [], ground arith, ground arith, ground arith)
            | inl plugged ↦
                let trace' =
                  if on
                  then online_cpu next_id ∷ hotplug_cpu next_id ∷ trace
                  else hotplug_cpu next_id ∷ trace in
                let (ids, eq, fresh, few) =
                  add_cpus-Plugs on rounds (next_id + 1) to_add (added + 1) (next_id ∷ existing)
                    trace' in
                (
                  next_id ∷ ids,
                  ground (arith, eq, reverse-cons-append next_id ids (hotplugged trace)),
                  (
                    omega arith,
                    omega arith,
                    spare,
                    FreshFrom-widen (next_id + 1) (suc next_id) (next_id + 1 + rounds)
                        (next_id + suc rounds) existing ids (omega arith) (omega arith)
                        (FreshFrom-weaken next_id (next_id + 1) (next_id + 1 + rounds) existing ids
                          fresh),
                  ),
                  ground arith,
                )
          ]
        ]
      ]

  -- Without a failure the loop adds as many as it should, or as many as are free.
  count-add_cpus :
      (on : Bool) (rounds next_id to_add added : ℕ) (existing : List ℕ) (trace : Trace)
      → added ≤ to_add
      → (add_cpus env on rounds next_id to_add added existing trace).failed_at ≡ none
      → (add_cpus env on rounds next_id to_add added existing trace).count
        ≡ min to_add (added + free rounds next_id existing)
  unfolding add_cpus
  count-add_cpus on zero next_id to_add added existing trace h done = omega arith
  count-add_cpus on (suc rounds) next_id to_add added existing trace h done =
      let trace' =
        if on
        then online_cpu next_id ∷ hotplug_cpu next_id ∷ trace
        else hotplug_cpu next_id ∷ trace in
      ground (
        arith,
        count-add_cpus on rounds (next_id + 1) to_add added existing trace h,
        count-add_cpus on rounds (next_id + 1) to_add (added + 1) (next_id ∷ existing) trace',
        free-cons rounds (next_id + 1) next_id existing,
      )

  -- What the removal loop tries: a part at the front of the list, in its order.
  abbrev Tries : ℕ → List ℕ → Trace → Trace × ℕ → Type 0
  Tries to_remove all trace result =
      (ids : List ℕ) × (rest : List ℕ) × (all ≡ ids ++ rest)
      × (unplugged result.0 ≡ reverse ids ++ unplugged trace)
      × ((rest ≡ []) ⊎ (result.1 ≡ to_remove))

  remove_cpus-Tries :
      (off : Bool) (all : List ℕ) (to_remove removed : ℕ) (trace : Trace)
      → removed ≤ to_remove
      → Tries to_remove all trace (remove_cpus env off all to_remove removed trace)
  unfolding remove_cpus
  remove_cpus-Tries off [] to_remove removed trace h = ([], [], refl, refl, inl refl)
  remove_cpus-Tries off (id ∷ all) to_remove removed trace h =
      elim (Bool-cases (leb to_remove removed)) [
        | inl enough ↦ ([], id ∷ all, refl, ground arith, inr (ground arith))
        | inr more ↦
            let before = if off then offline_cpu id ∷ trace else trace in
            let (ids, rest, eq, tried, end) =
              remove_cpus-Tries off all to_remove
                (if env.unplug_answer before id then removed + 1 else removed)
                (unplug_cpu id ∷ before) (ground arith) in
            (
              id ∷ ids,
              rest,
              ap (◌∷◌ id) eq,
              ground (arith, tried, reverse-cons-append id ids (unplugged trace)),
              ground (arith, end),
            )
      ]

positive-removable_cpus : (cpus : List ℕ) → All (λ id. 0 < id) (removable_cpus cpus)
unfolding removable_cpus
positive-removable_cpus cpus = All-reverse _ (select (λ id. ltb 0 id) cpus) (selected cpus)
  where
    selected : (cpus : List ℕ) → All (λ id. 0 < id) (select (λ id. ltb 0 id) cpus)
    selected [] = tt
    selected (id ∷ cpus) = ground (arith, selected cpus)

module _ {F : Type 0} (env : Env) (c : Controller F) (target : ℕ) (trace : Trace)
    (cpus : List ℕ) where
  -- Scaling up plugs only CPU numbers below the maximum that QEMU did not list, each at most once and
  -- in rising order, and tries no more than are missing to the target, even if a call fails.
  scale_up_plugs_fresh :
      env.query_cpus_answer trace ≡ some cpus
      → (ids : List ℕ) × (hotplugged (scale_up env c target trace).1
          ≡ reverse ids ++ hotplugged trace)
        × FreshFrom cpus 0 c.max_cpus ids
        × (length ids ≤ target - c.current_cpus)
  unfolding scale_up
  scale_up_plugs_fresh answer =
      let (ids, eq, fresh, few) =
        add_cpus-Plugs env c.has_onliner c.max_cpus 0 (target - c.current_cpus) 0 cpus
          (query_cpus ∷ trace) in
      (
        ids,
        ground (arith, answer, eq),
        FreshFrom-widen 0 0 (0 + c.max_cpus) c.max_cpus cpus ids (omega arith) (omega arith) fresh,
        ground (arith, few),
      )

  -- Scaling up that returns no error has added the CPUs missing to the target, or all the CPU numbers
  -- below the maximum that were free, whichever is less, and has reset the count of high readings.
  scale_up_reaches_target :
      env.query_cpus_answer trace ≡ some cpus
      → (scale_up env c target trace).2 ≡ none
      → let c' = (scale_up env c target trace).0 in
        (c'.current_cpus ≡ c.current_cpus + min (target - c.current_cpus) (free c.max_cpus 0 cpus))
        × (c'.consecutive_high_usage ≡ 0)
  unfolding scale_up
  scale_up_reaches_target answer done =
      let added =
        count-add_cpus env c.has_onliner c.max_cpus 0 (target - c.current_cpus) 0 cpus
          (query_cpus ∷ trace) (omega arith) in
      (ground (arith, answer, added), ground (arith, answer))

  -- Scaling down tries to unplug CPUs in the reverse of the order in which QEMU lists them, never
  -- CPU 0, and goes on after a failure; it stops when the target is reached or none is left.
  scale_down_tries_in_reverse :
      env.query_cpus_answer trace ≡ some cpus
      → target ≤ c.current_cpus
      → (ids : List ℕ) × (rest : List ℕ) × (removable_cpus cpus ≡ ids ++ rest)
        × (unplugged (scale_down env c target trace).1 ≡ reverse ids ++ unplugged trace)
        × All (λ id. 0 < id) ids
        × ((rest ≡ []) ⊎ ((scale_down env c target trace).0.current_cpus ≡ target))
  unfolding scale_down
  scale_down_tries_in_reverse answer h =
      let (ids, rest, eq, tried, end) =
        remove_cpus-Tries env c.has_offliner (removable_cpus cpus) (c.current_cpus - target) 0
          (query_cpus ∷ trace) (omega arith) in
      (
        ids,
        rest,
        eq,
        ground (arith, answer, tried),
        All-append_left _ ids rest (subst (All (λ id. 0 < id)) eq (positive-removable_cpus cpus)),
        ground (arith, answer, end),
      )
