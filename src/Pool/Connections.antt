-- ===== src/Pool/Connections.antt =====
-- The pool of src/pool.cc. Its connections are those that the pointers of its array point to, each
-- added once; the event loop and the callback are arguments.
use libattachsql.Prelude.{◌+◌, Bool, true, false, Option, none, some, List, [], ◌∷◌, ◌++◌, length}
use libattachsql.Net.Connect.{Connect}
use libattachsql.Connect.Errors.{
  Error, error_client_create, code_parameter, code_alloc, state_parameter, state_alloc,
  bad_parameter, alloc_pool, alloc_pool_loop, alloc_pool_connection,
}
use libattachsql.Connect.Poll.{
  Surroundings, Polled, returns, asserts, polls_without_fuel, connect_poll,
}

-- `attachsql_pool_t`; the length of the list is its `connection_count`.
pub record Pool : Type 0 where
  pub connections : List Connect
  pub has_callback_fn : Bool

-- `attachsql_pool_create`, by whether the pool and its event loop were allocated; `callback` says
-- whether the function is not NULL.
unfoldable pub pool_create : Bool → Bool → Bool → Bool → Option Error → Option Pool × Option Error
pool_create made false loop_made callback error =
    (none, error_client_create made code_alloc state_alloc alloc_pool error)
pool_create made true false callback error =
    (none, error_client_create made code_alloc state_alloc alloc_pool_loop error)
pool_create made true true callback error =
    (some (record { connections = []; has_callback_fn = callback }), error)

-- A connection as the pool keeps it, with its number. `has_pool` and `has_callback` stand for the
-- pointer `con->pool`: they say whether it is NULL, and whether the `callback_fn` that it leads to is,
-- which only `attachsql_pool_create` sets.
abbrev pub pooled : Pool → Connect → Connect
pooled p c = record c {
  has_pool = true;
  has_callback = p.has_callback_fn;
  connection_id = length p.connections + 1;
}

-- `attachsql_pool_add_connection`; `room` is what `realloc` answers.
unfoldable pub pool_add_connection :
    Bool → Bool → Option Error → Option Pool → Option Connect → Option Pool × Option Error
pool_add_connection made room error none con =
    (none, error_client_create made code_parameter state_parameter bad_parameter error)
pool_add_connection made room error (some p) none =
    (some p, error_client_create made code_parameter state_parameter bad_parameter error)
pool_add_connection made false error (some p) (some c) =
    (some p, error_client_create made code_alloc state_alloc alloc_pool_connection error)
pool_add_connection made true error (some p) (some c) =
    (some (record p { connections = p.connections ++ (pooled p c ∷ []) }), error)

-- The connection and the error after a poll, whose return code is not looked at; a poll that
-- asserts ends the program.
abbrev pub after_poll : Polled → Option (Connect × Option Error)
after_poll (returns r c error) = some (c, error)
after_poll (asserts c) = none
after_poll polls_without_fuel = none

abbrev pub and_polled :
    Option (Connect × Option Error) → (Option Error → Option (List Connect)) → Option (List Connect)
and_polled none rest = none
and_polled (some (c, error)) rest = elim (rest error) [ none ↦ none | some cs ↦ some (c ∷ cs) ]

-- The loop of `attachsql_pool_run`, which keeps the error from one poll to the next.
unfoldable pub poll_all : Surroundings → Option Error → List Connect → Option (List Connect)
poll_all s error [] = some []
poll_all s error (c ∷ cs) =
    let rest : Option Error → Option (List Connect) = λ e. poll_all s e cs in
    and_polled (after_poll (connect_poll s error c)) rest

-- `attachsql_pool_run`, for a pool that is not NULL; `run` is the event loop of the pool.
unfoldable pub pool_run : Surroundings → (List Connect → List Connect) → Pool → Option Pool
pool_run s run p = elim (poll_all s none (run p.connections)) [
  | none ↦ none
  | some cs ↦ some (record p { connections = cs })
]
