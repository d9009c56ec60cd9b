-- ===== src/Shim/Connection.antt =====
-- `ConnectionManager` of internal/shim/task/connmanager.go. A client is a number, and its `Close` is
-- outside code: an operation returns the manager and the effects that it has outside, in order.
pub mod Clients
use qemubox.Base.{
  ℕ, Bool, true, false, ◌&&◌, not, Option, none, some, List, [], ◌∷◌, ◌==◌, if◌then◌else◌,
}

pub record ConnectionManager : Type 0 where
  pub client : Option ℕ
  pub closed : Bool

pub data Effect : Type 0 where
  dialed closed_client handed_over : ℕ → Effect

-- What `GetClient` returns.
pub data Reply : Type 0 where
  canceled dial_failed : Reply
  connected : ℕ → Reply

unfoldable pub new_connection_manager : ConnectionManager
new_connection_manager = record { client = none; closed = false }

-- Dialing answers with a client, or fails.
dial : ConnectionManager → Option ℕ → ConnectionManager × List Effect × Reply
dial m none = (m, [], dial_failed)
dial m (some c) = (record m { client = some c }, dialed c ∷ [], connected c)

cached_or_dial : ConnectionManager → Option ℕ → Option ℕ → ConnectionManager × List Effect × Reply
unfolding dial
cached_or_dial m (some c) answer = (m, [], connected c)
cached_or_dial m none answer = dial m answer

-- Under the write lock, with what a dial would answer.
unfoldable pub get_or_create_client :
    ConnectionManager → Option ℕ → ConnectionManager × List Effect × Reply
unfolding cached_or_dial
get_or_create_client m answer =
    if m.closed then (m, [], canceled) else cached_or_dial m m.client answer

-- What the first part of `GetClient` finds under the read lock.
abbrev fast_path : Bool → Option ℕ → Option ℕ
fast_path closed none = none
fast_path closed (some c) = if closed then none else some c

-- `GetClient` where no other operation runs between its two parts.
unfoldable pub get_client : ConnectionManager → Option ℕ → ConnectionManager × List Effect × Reply
unfolding get_or_create_client
get_client m answer = elim (fast_path m.closed m.client) [
  | some c ↦ (m, [], connected c)
  | none ↦ get_or_create_client m answer
]

-- `Close` on a client that may be nil.
abbrev close_client : Option ℕ → List Effect
close_client none = []
close_client (some c) = closed_client c ∷ []

abbrev same_client : Option ℕ → Option ℕ → Bool
same_client none none = true
same_client (some c) (some d) = c == d
same_client _ _ = false

unfoldable set_client : ConnectionManager → Option ℕ → ConnectionManager × List Effect
set_client m new =
    if m.closed
    then (m, close_client new)
    else (record m { client = new }, if same_client m.client new then [] else close_client m.client)

abbrev hand_over : Option ℕ → List Effect
hand_over none = []
hand_over (some c) = handed_over c ∷ []

unfoldable clear_client : ConnectionManager → ConnectionManager × List Effect
clear_client m = (record m { client = none }, hand_over m.client)

unfoldable invalidate : ConnectionManager → ConnectionManager × List Effect
invalidate m = (record m { client = none }, close_client m.client)

unfoldable pub close : ConnectionManager → ConnectionManager × List Effect
close m =
    if m.closed then (m, []) else (record { client = none; closed = true }, close_client m.client)

unfoldable has_client : ConnectionManager → Bool
has_client m = elim m.client [ none ↦ false | some c ↦ not m.closed ]
