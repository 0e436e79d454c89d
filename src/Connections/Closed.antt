-- ===== src/Connections/Closed.antt =====
-- app_executor.py and base.py: the body of an executor is run as it is, and which connections and
-- pools are closed after it.
use Prim.{absurd}
use steady_queue.Prelude.{
  ℕ, ◌≡◌, ap, Bool, true, false, ◌&&◌, ◌||◌, none, some, List, [], ◌∷◌, ◌==◌, elem, arith, any,
  Option-cases, inl, inr,
}
use steady_queue.Action.{Result, ok}
use steady_queue.Connections.{
  Connection, wrap_in_app_executor, Alias, Pools, close_map, to_close, close_maps,
  close_postgresql_connection_pools,
}

module _ {A W : Type 0} (body : W → Result A × W) (w : W) where
  -- The executor adds nothing to a body that has its connection.
  pub wrap_in_app_executor-body :
      (is_main_thread : Bool) (connection : Connection)
      → (wrap_in_app_executor is_main_thread (ok tt) body w connection).0 ≡ body w
  unfolding wrap_in_app_executor
  wrap_in_app_executor-body is_main_thread connection = ground arith

  -- A thread of the background leaves no connection open, whatever its body and the opening do.
  pub wrap_in_app_executor-closes :
      (ensured : Result (Unit {0})) (connection : Connection)
      → (wrap_in_app_executor false ensured body w connection).1 ≡ false
  unfolding wrap_in_app_executor
  wrap_in_app_executor-closes ensured connection = ground arith

abbrev has_map : ℕ → Alias → Bool
has_map m a = a.is_postgresql && elim a.pool_map [ none ↦ false | some k ↦ k == m ]

to_close-none :
    (m : ℕ) (done : List ℕ) (a : Alias)
    → to_close done a ≡ none
    → has_map m a ≡ true
    → elem m done ≡ true
to_close-none m done a skip here = elim (Option-cases a.pool_map) [
  | inl no_map ↦ absurd (ground (arith, no_map, here))
  | inr (k, map_of) ↦
      let same : k ≡ m = ground (arith, map_of, here) in
      ground (arith, map_of, here, skip, ap (λ i. elem i done) same)
]

to_close-some :
    (m k : ℕ) (done : List ℕ) (a : Alias) → to_close done a ≡ some k → has_map m a ≡ true → k ≡ m
to_close-some m k done a next here = ground (arith, next, here)

close_maps-empty :
    (m : ℕ) (others : List Alias) (done : List ℕ) (p : Pools)
    → (elem m done ≡ true → p.pools m ≡ [])
    → (any (has_map m) others || elem m done) ≡ true
    → (close_maps others done p).pools m ≡ []
unfolding close_maps close_map
close_maps-empty m [] done p emptied here = emptied (ground (arith, here))
close_maps-empty m (a ∷ others) done p emptied here = elim (Option-cases (to_close done a)) [
  | inl skip ↦
      rw (skip, close_maps)
        (close_maps-empty m others done p emptied
          (ground (arith, here, to_close-none m done a skip)))
  | inr (k, next) ↦
      rw (next, close_maps)
        (close_maps-empty m others (k ∷ done) (close_map k p)
          (λ listed. ground (arith, listed, emptied))
          (ground (arith, here, to_close-some m k done a next)))
]

-- Before a fork the dicts of all PostgreSQL connections are emptied.
pub close_postgresql_connection_pools-empty :
    (m : ℕ) (connections : List Alias) (p : Pools)
    → any (has_map m) connections ≡ true
    → (close_postgresql_connection_pools connections p).pools m ≡ []
unfolding close_postgresql_connection_pools
close_postgresql_connection_pools-empty m connections p here =
    close_maps-empty m connections [] p (λ listed. absurd (ground (arith, listed)))
      (ground (arith, here))
