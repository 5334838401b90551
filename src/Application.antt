-- ===== src/Application.antt =====
-- app/core/redis.py, app/dependencies.py and the lifespan of app/main.py: the one pool of
-- connections to Redis. `P` is the client library's pool, and `from_url n` the n-th one that it opens.
use voip_platform.Base.{ℕ, zero, suc, ◌≡◌, refl, Option, none, some, List, [], ◌∷◌, ◌++◌, arith}

-- `_pool`, and the pools that have been opened and closed.
record Process (P : Type 0) : Type 0 where
  pool : Option P
  opened : ℕ
  closed : List P

abbrev fresh : {P : Type 0} → Process P
fresh = record { pool = none; opened = 0; closed = [] }

module _ {P : Type 0} (from_url : ℕ → P) where
  unfoldable get_redis : Process P → P × Process P
  get_redis process = elim process.pool [
    | none ↦
        let pool = from_url process.opened in
        (pool, record process { pool = some pool; opened = suc process.opened })
    | some pool ↦ (pool, process)
  ]

  unfoldable close_redis : Process P → Process P
  close_redis process = elim process.pool [
    | none ↦ process
    | some pool ↦ record process { pool = none; closed = process.closed ++ (pool ∷ []) }
  ]

  -- Requests, each of which gets the pool: what they get, in order.
  unfoldable serve : ℕ → Process P → List P × Process P
  unfolding get_redis
  serve zero process = ([], process)
  serve (suc n) process =
      let (pool, process1) = get_redis process in
      let (rest, process2) = serve n process1 in (pool ∷ rest, process2)

  -- `lifespan`: the application serves, and closes the pool at its end.
  unfoldable lifespan : ℕ → Process P → List P × Process P
  unfolding serve close_redis
  lifespan n process = let (pools, process1) = serve n process in (pools, close_redis process1)

  abbrev copies : ℕ → P → List P
  copies zero pool = []
  copies (suc n) pool = pool ∷ copies n pool

  serve_opened :
      (n : ℕ) (process : Process P) {pool : P}
      → process.pool ≡ some pool
      → serve n process ≡ (copies n pool, process)
  unfolding serve get_redis
  serve_opened zero process held = refl
  serve_opened (suc n) process held = ground (arith, serve_opened n process held)

  -- The requests of a lifespan share one pool, which is the only one that is opened, and which is
  -- closed at the end.
  lifespan_lem :
      (n : ℕ)
      → lifespan (suc n) fresh ≡ (
        copies (suc n) (from_url 0),
        record { pool = none; opened = 1; closed = from_url 0 ∷ [] },
      )
  unfolding lifespan serve get_redis close_redis
  lifespan_lem n =
      let opened : Process P = record { pool = some (from_url 0); opened = 1; closed = [] } in
      ground (arith, serve_opened n opened refl)
