-- ===== src/Testutil/Released.antt =====
-- What a test binary has ended when it exits, and what it leaves running.
use concevoir_une_api_pagine.Prelude.{
  List, [], ◌∷◌, ◌++◌, false, Option, none, some, Bytes, ℤ, pos, ◌≡◌, refl, ◌⊎◌, inl, inr, ◌∙◌,
}
use concevoir_une_api_pagine.Errors.{Error}
use concevoir_une_api_pagine.Config.{dsn}
use concevoir_une_api_pagine.Postgres.Pool.{Pool, pool_opened, pool_closed, with_conns}
use concevoir_une_api_pagine.Testutil.Root.{read_shared_schema}
use concevoir_une_api_pagine.Testutil.Containers.{
  TestPostgres, RunResult, run_returned, run_failed, run_failed_started, TestBinary, TestEvent,
  container_started, container_terminated, tests_run, pool_event, printed, M, ◌>>=◌, ◌>>◌, call,
  check, container, opened, applied, container_settings, connect, start_container, with_started,
  run_with_postgres,
}

pub data InUse : Type 0 where
  a_container a_pool : InUse

-- What is in use after an event, the latest first, or `none` if the event ends what is not.
abbrev pub in_use_after : List InUse → TestEvent → Option (List InUse)
in_use_after s container_started = some (a_container ∷ s)
in_use_after s (pool_event pool_opened) = some (a_pool ∷ s)
in_use_after s tests_run = some s
in_use_after s (printed _) = some s
in_use_after (a_container ∷ s) container_terminated = some s
in_use_after (a_pool ∷ s) (pool_event pool_closed) = some s
in_use_after _ _ = none

abbrev pub in_use : List InUse → List TestEvent → Option (List InUse)
in_use s [] = some s
in_use s (e ∷ es) = elim (in_use_after s e) [ none ↦ none | some s' ↦ in_use s' es ]

-- From what is in use, some calls lead to what is in use then and to a result.
abbrev Leads : {A : Type 0} → List InUse → M A → (Error ⊎ A → List InUse → Type 0) → Type 0
Leads s m R = (s' : List InUse) × (in_use s m.0 ≡ some s') × R m.1 s'

module _ {A B : Type 0} (s : List InUse) (R : Error ⊎ B → List InUse → Type 0) where
  call-Leads :
      (r : Error ⊎ A) (f : A → M B)
      → ((e : Error) → R (inl e) s)
      → ((a : A) → r ≡ inr a → Leads s (f a) R)
      → Leads s (call r >>= f) R
  call-Leads (inl e) f h k = (s, refl, h e)
  call-Leads (inr a) f h k = k a refl

module _ {B : Type 0} (s : List InUse) (R : Error ⊎ B → List InUse → Type 0) where
  check-Leads :
      (o : Option Error) (k : M B)
      → ((e : Error) → R (inl e) s)
      → Leads s k R
      → Leads s (check o >> k) R
  check-Leads none k h g = g
  check-Leads (some e) k h g = (s, refl, h e)

  opened-Leads :
      (r : Error ⊎ Pool) (f : Pool → M B)
      → ((e : Error) → R (inl e) s)
      → ((p : Pool) → Leads (a_pool ∷ s) (f p) R)
      → Leads s (opened r >>= f) R
  opened-Leads (inl e) f h k = (s, refl, h e)
  opened-Leads (inr p) f h k = k p

-- With a container running: a pool besides, or an error with the container still running.
abbrev IsConnected : Error ⊎ TestPostgres → List InUse → Type 0
IsConnected (inl e) s = (s ≡ a_container ∷ []) ⊎ (s ≡ a_pool ∷ a_container ∷ [])
IsConnected (inr pg) s = s ≡ a_pool ∷ a_container ∷ []

connect-Leads :
    (b : TestBinary) (schema : Bytes) → Leads (a_container ∷ []) (connect b schema) IsConnected
unfolding connect
connect-Leads b schema =
    let one : List InUse = a_container ∷ [] in
    let two : List InUse = a_pool ∷ a_container ∷ [] in
    call-Leads one IsConnected b.docker.host _ (λ e. inl refl)
      (λ host _.
        call-Leads one IsConnected b.docker.mapped_port _ (λ e. inl refl)
          (λ port _.
            call-Leads one IsConnected (b.pgxpool.parse_config (dsn (container_settings host port)))
              _ (λ e. inl refl)
              (λ c _.
                opened-Leads one IsConnected
                  (b.pgxpool.new_with_config (with_conns (container_settings host port) c)) _
                  (λ e. inl refl)
                  (λ pool.
                    check-Leads two IsConnected pool.database.ping _ (λ e. inr refl)
                      (check-Leads two IsConnected (applied (b.exec schema)) _ (λ e. inr refl)
                        (two, refl, refl))))))

in_use-append :
    (s s' : List InUse) (es fs : List TestEvent)
    → in_use s es ≡ some s'
    → in_use s (es ++ fs) ≡ in_use s' fs
in_use-append s s' [] fs h = let same : s ≡ s' = cc in rw same refl
in_use-append s s' (e ∷ es) fs h = further (in_use_after s e) h (λ t g. in_use-append t s' es fs g)
  where
    further :
        (o : Option (List InUse))
        → elim o [ none ↦ none | some t ↦ in_use t es ] ≡ some s'
        → ((t : List InUse) → in_use t es ≡ some s' → in_use t (es ++ fs) ≡ in_use s' fs)
        → elim o [ none ↦ none | some t ↦ in_use t (es ++ fs) ] ≡ in_use s' fs
    further none h k = cc
    further (some t) h k = k t h

-- What is in use when `start` has failed: nothing before the container has started, and from then on
-- the container.
abbrev pub IsLeft : Error ⊎ Bytes → RunResult → List InUse → Type 0
IsLeft (inr schema) run_returned s = (s ≡ a_container ∷ []) ⊎ (s ≡ a_pool ∷ a_container ∷ [])
IsLeft (inr schema) (run_failed_started e) s = s ≡ a_container ∷ []
IsLeft (inr schema) (run_failed e) s = s ≡ []
IsLeft (inl e) _ s = s ≡ []

abbrev pub IsStarted : Error ⊎ Bytes → RunResult → Error ⊎ TestPostgres → List InUse → Type 0
IsStarted schema run (inl e) s = IsLeft schema run s
IsStarted schema run (inr pg) s = s ≡ a_pool ∷ a_container ∷ []

connected-IsStarted :
    (schema : Bytes) (r : Error ⊎ TestPostgres) (s : List InUse)
    → IsConnected r s
    → IsStarted (inr schema) run_returned r s
connected-IsStarted schema (inl e) s h = h
connected-IsStarted schema (inr pg) s h = h

start_container-IsStarted :
    (b : TestBinary)
    → Leads [] (start_container b) (IsStarted (read_shared_schema b.files) b.docker.run)
unfolding start_container
start_container-IsStarted b = by (read_shared_schema b.files) b.docker.run
  where
    by :
        (schema : Error ⊎ Bytes) (run : RunResult)
        → Leads [] (call schema >>= λ s. container run >> connect b s) (IsStarted schema run)
    by (inl e) run = ([], refl, refl)
    by (inr schema) (run_failed e) = ([], refl, refl)
    by (inr schema) (run_failed_started e) = (a_container ∷ [], refl, refl)
    by (inr schema) run_returned =
        let (s, used, h) = connect-Leads b schema in
        (s, used, connected-IsStarted schema (connect b schema).1 s h)

-- How a test binary that is not in short mode ends.
abbrev pub IsEnded : TestBinary → List TestEvent × ℤ → Error ⊎ TestPostgres → Type 0
IsEnded b done (inl e) =
    (done.1 ≡ pos 1)
    × ((s : List InUse) × (in_use [] done.0 ≡ some s)
        × IsLeft (read_shared_schema b.files) b.docker.run s)
IsEnded b done (inr pg) = (done.1 ≡ b.run_tests (some pg)) × (in_use [] done.0 ≡ some [])

-- Out of short mode, and if the container can be terminated, a test binary that `start` succeeds for
-- has the exit code of its tests and has ended the pool and the container. Where `start` fails the
-- code is 1, and nothing is in use only if the schema could not be read or no container has started:
-- where Run returns one with its error, and after any later failure, the container is still running,
-- and after a later failure the pool may be open.
pub run_with_postgres-IsEnded :
    (b : TestBinary)
    → b.short ≡ false
    → b.docker.terminate ≡ none
    → IsEnded b (run_with_postgres b) (start_container b).1
unfolding run_with_postgres
run_with_postgres-IsEnded b long ends =
    let (s, used, h) = start_container-IsStarted b in
    rw long (ended (start_container b).0 (start_container b).1 s used h)
  where
    ended :
        (es : List TestEvent) (r : Error ⊎ TestPostgres) (s : List InUse)
        → in_use [] es ≡ some s
        → IsStarted (read_shared_schema b.files) b.docker.run r s
        → IsEnded b (with_started b es r) r
    ended es (inl e) s used h = (refl, (s, in_use-append [] s es _ used, h))
    ended es (inr pg) s used h = (refl, in_use-append [] s es _ used ∙ rw (h, ends) refl)
