-- ===== src/Database/Connection/Pool.antt =====
-- connection.py: `DatabasePool`, and the pool that the module keeps. A pool of asyncpg is any value.
use pybmpmon.Base.{◌≡◌, refl, List, [], ◌∷◌, Option, none, some, All}

-- What asyncpg does: `create_pool` raises, or it makes a pool, whose first query fails or succeeds.
pub data Answer (Pool : Type 0) : Type 0 where
  refused : Answer Pool
  fails connects : Pool → Answer Pool

-- What a call does: it returns a value or raises.
pub data Attempt (A : Type 0) : Type 0 where
  returned : A → Attempt A
  raised : Attempt A

module _ {Pool : Type 0} where
  -- A `DatabasePool` is its field `pool`.
  unfoldable pub connect : Answer Pool → Option Pool → Attempt (Unit {0}) × Option Pool
  connect refused old = (raised, old)
  connect (fails pool) old = (raised, some pool)
  connect (connects pool) old = (returned tt, some pool)

  unfoldable pub close : Option Pool → Option Pool
  close old = none

  unfoldable pub get_pool : Option Pool → Attempt Pool
  get_pool none = raised
  get_pool (some pool) = returned pool

  -- `execute`, `fetch`, `fetchrow` and `fetchval`: the query on the pool, if there is one.
  unfoldable pub run_query : {A : Type 0} → (Pool → Attempt A) → Option Pool → Attempt A
  unfolding get_pool
  run_query query none = raised
  run_query query (some pool) = query pool

  abbrev pub after_connect :
      Attempt (Unit {0}) × Option Pool → Attempt (Option Pool) × Option (Option Pool)
  after_connect (returned u, database_pool) = (returned database_pool, some database_pool)
  after_connect (raised, database_pool) = (raised, some database_pool)

  -- The global variable holds the object before `connect` is called.
  unfoldable pub get_database_pool :
      Answer Pool → Option (Option Pool) → Attempt (Option Pool) × Option (Option Pool)
  unfolding connect
  get_database_pool answer none = after_connect (connect answer none)
  get_database_pool answer (some database_pool) = (returned database_pool, some database_pool)

  unfoldable pub close_database_pool : Option (Option Pool) → Option (Option Pool)
  close_database_pool db_pool = none

  -- Calls of `get_database_pool` one after the other: what each of them gets.
  unfoldable pub calls : List (Answer Pool) → Option (Option Pool) → List (Attempt (Option Pool))
  unfolding get_database_pool
  calls [] db_pool = []
  calls (answer ∷ answers) db_pool =
      let (got, db_pool') = get_database_pool answer db_pool in got ∷ calls answers db_pool'

  -- A pool that was given to the caller without a connection: `get_pool` of it raises.
  abbrev pub IsUnusable : Attempt (Option Pool) → Type 0
  IsUnusable raised = ⊥
  IsUnusable (returned database_pool) = get_pool database_pool ≡ raised

  stays-IsUnusable : (answers : List (Answer Pool)) → All IsUnusable (calls answers (some none))
  unfolding calls get_database_pool get_pool
  stays-IsUnusable [] = tt
  stays-IsUnusable (answer ∷ answers) = (refl, stays-IsUnusable answers)

  -- After a first call of `get_database_pool` that raises since no pool could be made, every
  -- further call, whatever the database answers then, returns a pool without a connection, whose
  -- `get_pool` raises.
  pub refused_then-IsUnusable :
      (answers : List (Answer Pool))
      → (got : List (Attempt (Option Pool))) × (calls (refused ∷ answers) none ≡ raised ∷ got)
        × All IsUnusable got
  unfolding calls get_database_pool connect
  refused_then-IsUnusable answers = (calls answers (some none), refl, stays-IsUnusable answers)
