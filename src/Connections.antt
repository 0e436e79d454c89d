-- ===== src/Connections.antt =====
-- steady_queue/app_executor.py, and the connection pools of steady_queue/processes/base.py.
pub mod Closed
use steady_queue.Prelude.{
  ℕ, String, Bool, true, false, not, ◌||◌, Option, none, some, List, [], ◌∷◌, ◌++◌, map, ◌==◌,
  if◌then◌else◌, elem,
}
use steady_queue.Action.{Result, Error, ok, err}

-- The connection of a thread to the database of Steady Queue: is it open?
abbrev pub Connection : Type 0
Connection = Bool

-- `connection.close()`, also where it is closed.
abbrev close : Connection → Connection
close open_now = false

-- The `finally` of `wrap_in_app_executor`
abbrev at_end : (is_main_thread : Bool) → Connection → Connection
at_end is_main_thread connection = if is_main_thread then connection else close connection

module _ {A W : Type 0} (is_main_thread : Bool) where
  -- The `except`, which logs and raises again.
  abbrev failed : Error → W → Connection → (Result A × W) × Connection
  failed e w connection =
      ((err e, w), at_end is_main_thread (if connection then close connection else connection))

  abbrev settled : Result A × W → (Result A × W) × Connection
  settled (ok a, w) = ((ok a, w), at_end is_main_thread true)
  settled (err e, w) = failed e w true

  -- `wrap_in_app_executor` around `body`; `ensured` is what `ensure_connection` comes to.
  unfoldable pub wrap_in_app_executor :
      (ensured : Result (Unit {0}))
      → (body : W → Result A × W) → W
      → Connection
      → (Result A × W) × Connection
  wrap_in_app_executor (ok u) body w connection = settled (body w)
  wrap_in_app_executor (err e) body w connection = failed e w connection

-- A connection in `connections`: is its engine PostgreSQL's, and which dict, if any, is the
-- `_connection_pools` of its class?
pub record Alias : Type 0 where
  pub is_postgresql : Bool
  pub pool_map : Option ℕ

-- The pools of each dict, and the calls of `pool.close()`, which may raise, as the log has them.
pub record Pools : Type 0 where
  pub pools : ℕ → List String
  pub closed : List (ℕ × String)

-- The inner loop: every pool is closed and, closed or not, taken out of its dict.
unfoldable pub close_map : ℕ → Pools → Pools
close_map m p = record {
  pools = λ i. if i == m then [] else p.pools i;
  closed = p.closed ++ map (λ alias. (m, alias)) (p.pools m);
}

-- The dict of a connection, if it is PostgreSQL's and was not closed before.
abbrev pub to_close : (closed_pool_maps : List ℕ) → Alias → Option ℕ
to_close closed_pool_maps a = elim a.pool_map [
  | none ↦ none
  | some m ↦ if a.is_postgresql then (if elem m closed_pool_maps then none else some m) else none
]

unfoldable pub close_maps : List Alias → (closed_pool_maps : List ℕ) → Pools → Pools
close_maps [] closed_pool_maps p = p
close_maps (a ∷ others) closed_pool_maps p = elim (to_close closed_pool_maps a) [
  | none ↦ close_maps others closed_pool_maps p
  | some m ↦ close_maps others (m ∷ closed_pool_maps) (close_map m p)
]

-- `close_postgresql_connection_pools`
unfoldable pub close_postgresql_connection_pools : List Alias → Pools → Pools
unfolding close_maps
close_postgresql_connection_pools connections p = close_maps connections [] p
