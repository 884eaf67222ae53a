-- ===== src/Startup.antt =====
-- The start and the end of the program: main of cmd/server/main.go.
use Prim.Native.String
use sap_orders_api.Prelude.{ℕ, ◌*◌, ◌≡◌, refl, subst, Bool, Option, none, some, String}
use sap_orders_api.Domain.Errors.{Error}
use sap_orders_api.Sap.{stub_client}
use sap_orders_api.Store.Pool.{Driver, Pool, made, opened, not_made, closed, new_pool}
use sap_orders_api.Service.Sync.{SyncService}
use sap_orders_api.Worker.{OutboxWorker, new_outbox_worker}
use sap_orders_api.Config.{
  Config, Environment, Loaded, loaded, rejected, load, AuthMiddleware, build_authenticator,
}
use sap_orders_api.Config.Safety.{IsSafe, load-IsSafe, Guarded, build_authenticator-Guarded}
use sap_orders_api.Server.Front.{tls_enabled}

-- What the program serves with.
pub record Serving : Type 0 where
  pub config : Config
  pub authenticator : AuthMiddleware
  pub worker : OutboxWorker
  pub address : String
  pub with_tls : Bool

-- `exits m`: the log line m and the exit status 1.
pub data Started : Type 0 where
  exits : String → Started
  serves : Serving → Started

abbrev pub second : ℕ
second = 1000000000

abbrev pub sync_service : Config → SyncService
sync_service c = record { sap_client = stub_client; rfc_function = c.sap_rfc_function }

abbrev pub serving : Config → AuthMiddleware → Serving
serving c a = record {
  config = c;
  authenticator = a;
  worker = new_outbox_worker (sync_service c) (5 * second) 10;
  address = String.◌++◌ ":" c.port;
  with_tls = tls_enabled c;
}

abbrev pub authenticated : Config → Option AuthMiddleware → Started
authenticated c none = exits "auth setup failed"
authenticated c (some a) = serves (serving c a)

abbrev pub connected : (String → Bool) → Config → Pool → Started
connected provider c opened = authenticated c (build_authenticator provider c)
connected provider c (not_made e) = exits "database connection failed"
connected provider c (closed e) = exits "database connection failed"

abbrev pub configured : (String → Bool) → Driver → Loaded → Started
configured provider driver (rejected what) = exits "load config failed"
configured provider driver (loaded c) = connected provider c (new_pool driver c.database_url)

-- `provider` tells whether the issuer of a tenant is found, as in Config.
unfoldable pub start : Environment → (String → Bool) → Driver → Started
unfolding load build_authenticator new_pool
start env provider driver = configured provider driver (load env)

-- The exit status: 1 if listening ends by an error other than ErrServerClosed, or, after a signal, if
-- the shutdown fails within its ten seconds.
unfoldable pub exit_status : Option Error → Option Error → ℕ
exit_status (some listen) shutdown = 1
exit_status none (some e) = 1
exit_status none none = 0

-- What the program serves with, in the environment env.
pub record StartedSafely (env : Environment) (driver : Driver) (s : Serving) : Type 0 where
  pub safe : IsSafe env s.config
  pub guarded : Guarded s.config s.authenticator
  pub reachable :
      (driver.new s.config.database_url ≡ none) × (driver.ping s.config.database_url ≡ none)
  pub tls : s.with_tls ≡ tls_enabled s.config

module _ (env : Environment) (provider : String → Bool) (driver : Driver) (s : Serving) where
  serves-inj : {t : Serving} → serves t ≡ serves s → t ≡ s
  serves-inj h = cc

  no_exit : {m : String} → exits m ≡ serves s → ⊥
  no_exit h = cc

  built :
      (c : Config) (o : Option AuthMiddleware)
      → authenticated c o ≡ serves s
      → (a : AuthMiddleware) × (o ≡ some a) × (serving c a ≡ s)
  built c none h = absurd (no_exit h)
  built c (some a) h = (a, refl, serves-inj h)

  opened_pool :
      (c : Config) (p : Pool)
      → connected provider c p ≡ serves s
      → (p ≡ opened) × (authenticated c (build_authenticator provider c) ≡ serves s)
  opened_pool c opened h = (refl, h)
  opened_pool c (not_made e) h = absurd (no_exit h)
  opened_pool c (closed e) h = absurd (no_exit h)

  loaded_config :
      (l : Loaded)
      → configured provider driver l ≡ serves s
      → (c : Config) × (l ≡ loaded c)
        × (connected provider c (new_pool driver c.database_url) ≡ serves s)
  loaded_config (rejected what) h = absurd (no_exit h)
  loaded_config (loaded c) h = (c, refl, h)

  pool-reachable :
      (url : String)
      → new_pool driver url ≡ opened
      → (driver.new url ≡ none) × (driver.ping url ≡ none)
  unfolding new_pool
  pool-reachable url h = answers (driver.new url) (driver.ping url) h
    where
      answers : (a b : Option Error) → made a b ≡ opened → (a ≡ none) × (b ≡ none)
      answers none none h = (refl, refl)
      answers none (some e) h = cc
      answers (some e) b h = cc

  -- The program serves only with a configuration that Load accepts and that is safe in its
  -- environment, an authenticator that is guarded (the one that lets everybody in only for
  -- ENV=development with the bypass, and the one of Entra only with the issuer, the keys and the
  -- audience of a tenant and an audience that are given), and a database that could be connected to
  -- and answered a ping.
  pub start-StartedSafely : start env provider driver ≡ serves s → StartedSafely env driver s
  unfolding start
  start-StartedSafely h =
      let (c, is, h1) = loaded_config (load env) h in
      let (pool, h2) = opened_pool c (new_pool driver c.database_url) h1 in
      let (a, auth, same) = built c (build_authenticator provider c) h2 in
      subst (StartedSafely env driver) same (record {
        safe = load-IsSafe env c is;
        guarded = build_authenticator-Guarded env c provider a is auth;
        reachable = pool-reachable c.database_url pool;
        tls = refl;
      })
