-- ===== src/Shim/Connection/Clients.antt =====
-- Where the clients of a connection manager of internal/shim/task/connmanager.go end up.
use qemubox.Base.{
  ℕ, ◌+◌, ◌≡◌, Bool, true, false, ◌&&◌, Option, none, some, List, [], ◌∷◌, ◌++◌, ◌==◌,
  if◌then◌else◌, arith, refl,
}
use qemubox.Shim.Connection.{
  ConnectionManager, Effect, dialed, closed_client, handed_over, new_connection_manager,
  get_or_create_client, get_client, set_client, clear_client, invalidate, close, same_client,
}

-- The second part of `GetClient`, with what a dial would answer, and the other operations.
pub data Event : Type 0 where
  gets sets : Option ℕ → Event
  clears invalidates closes : Event

unfoldable step : ConnectionManager → Event → ConnectionManager × List Effect
unfolding get_or_create_client set_client clear_client invalidate close
step m (gets answer) = let (m', effects, reply) = get_or_create_client m answer in (m', effects)
step m (sets new) = set_client m new
step m clears = clear_client m
step m invalidates = invalidate m
step m closes = close m

unfoldable pub run : ConnectionManager → List Event → ConnectionManager × List Effect
unfolding step
run m [] = (m, [])
run m (event ∷ events) =
    let (m', effects) = step m event in let (m'', later) = run m' events in (m'', effects ++ later)

abbrev pub is : ℕ → Option ℕ → ℕ
is c none = 0
is c (some d) = if c == d then 1 else 0

-- How often a client was dialed, closed and handed over.
abbrev pub dials : ℕ → List Effect → ℕ
dials c [] = 0
dials c (dialed d ∷ effects) = is c (some d) + dials c effects
dials c (_ ∷ effects) = dials c effects

abbrev pub closings : ℕ → List Effect → ℕ
closings c [] = 0
closings c (closed_client d ∷ effects) = is c (some d) + closings c effects
closings c (_ ∷ effects) = closings c effects

abbrev pub handings : ℕ → List Effect → ℕ
handings c [] = 0
handings c (handed_over d ∷ effects) = is c (some d) + handings c effects
handings c (_ ∷ effects) = handings c effects

-- How often the history gives the client to the manager, but for a client that it has cached.
given : ConnectionManager → ℕ → Event → ℕ
given m c (sets new) = if same_client m.client new then 0 else is c new
given m c _ = 0

unfoldable pub givings : ConnectionManager → ℕ → List Event → ℕ
unfolding step given
givings m c [] = 0
givings m c (event ∷ events) = given m c event + givings (step m event).0 c events

abbrev pub holds : Option ℕ → Bool
holds none = false
holds (some c) = true

-- A closed manager has nothing cached.
abbrev Empty : ConnectionManager → Type 0
Empty m = (m.closed && holds m.client) ≡ false

step-Empty : (m : ConnectionManager) (event : Event) → Empty m → Empty (step m event).0
unfolding step
step-Empty m event v = ground arith

step-balance :
    (m : ConnectionManager) (c : ℕ) (event : Event)
    → Empty m
    → let (m', effects) = step m event in
      dials c effects + given m c event + is c m.client
      ≡ closings c effects + handings c effects + is c m'.client
unfolding step given
step-balance m c event v = ground arith

dials-append : (c : ℕ) (xs ys : List Effect) → dials c (xs ++ ys) ≡ dials c xs + dials c ys
dials-append c [] ys = omega arith
dials-append c (x ∷ xs) ys = ground (arith, dials-append c xs ys)

closings-append :
    (c : ℕ) (xs ys : List Effect) → closings c (xs ++ ys) ≡ closings c xs + closings c ys
closings-append c [] ys = omega arith
closings-append c (x ∷ xs) ys = ground (arith, closings-append c xs ys)

handings-append :
    (c : ℕ) (xs ys : List Effect) → handings c (xs ++ ys) ≡ handings c xs + handings c ys
handings-append c [] ys = omega arith
handings-append c (x ∷ xs) ys = ground (arith, handings-append c xs ys)

run-balance :
    (m : ConnectionManager) (c : ℕ) (events : List Event)
    → Empty m
    → let (m', effects) = run m events in
      (dials c effects + givings m c events + is c m.client
        ≡ closings c effects + handings c effects + is c m'.client)
      × Empty m'
unfolding run givings
run-balance m c [] v = (omega arith, v)
run-balance m c (event ∷ events) v =
    let (m', effects) = step m event in
    let later = (run m' events).1 in
    let rest = run-balance m' c events (step-Empty m event v) in
    (
      omega (
        arith,
        rest,
        step-balance m c event v,
        dials-append c effects later,
        closings-append c effects later,
        handings-append c effects later,
      ),
      rest.1,
    )

-- In every history of a new manager each client that was dialed or given to it, counted with
-- repetitions, has been closed, handed over by ClearClient, or is cached, and only one of these; and
-- a closed manager caches none. Giving a client that is cached already does not count.
pub clients_accounted_for :
    (events : List Event) (c : ℕ)
    → let (m, effects) = run new_connection_manager events in
      (dials c effects + givings new_connection_manager c events
        ≡ closings c effects + handings c effects + is c m.client)
      × ((m.closed && holds m.client) ≡ false)
unfolding new_connection_manager
clients_accounted_for events c =
    let balance = run-balance new_connection_manager c events refl in
    (omega (arith, balance.0), balance.1)

-- The read-locked part of GetClient is an optimisation: where no other operation comes between its
-- two parts, GetClient answers and leaves what the write-locked part alone would.
get_client-eq-get_or_create_client :
    (m : ConnectionManager) (answer : Option ℕ)
    → get_client m answer ≡ get_or_create_client m answer
unfolding get_client get_or_create_client
get_client-eq-get_or_create_client m answer = ground arith
