-- ===== src/Examples/Services.antt =====
-- The routes, the gateway, and the migrations, at concrete requests and files.
use yukbor_backend.Common.{
  ℕ, String, Option, none, some, true, false, List, [], ◌∷◌, ◌≡◌, ◌≢◌, refl, ◌==◌, string_Eq,
  String-discrete, natb, if◌then◌else◌,
}
use yukbor_backend.Common.Exec.{ok}
use yukbor_backend.Httpx.Mux.{Segment, Guard, Route}
use yukbor_backend.Routes.{Service, Endpoint, Request, route_of, pass}
use yukbor_backend.Routes.Access.{PermittedAt, route-PermittedAt}
use yukbor_backend.Gateway.{Reply, handle}
use yukbor_backend.Gateway.Inside.{gateway-hides}
use yukbor_backend.Database.{Fs, Env, Commit, Attempt, connect, migrate, migrate_all, sorted}
use yukbor_backend.Database.Connecting.{Decided, connect_in_time}
use yukbor_backend.Database.Migrations.{AppliedUpTo, fresh_db, applied_once}

-- Another service asks for a user, with the internal token.
abbrev asks_for_user : Request
asks_for_user = record {
  method = "GET";
  parts = "internal" ∷ "users" ∷ "u1" ∷ [];
  bearer = none;
  header = "token";
}

abbrev user_route : Route Endpoint
user_route = record {
  method = some "GET";
  pattern = Segment.lit "internal" ∷ Segment.lit "users" ∷ Segment.param ∷ [];
  guard = Guard.by_internal;
  to = Endpoint.internal_user;
}

user_found : route_of Service.auth asks_for_user ≡ some user_route
unfolding route_of String-discrete
user_found = refl

user_let_in :
    (pass {S = Unit {0}} asks_for_user "token" user_route tt).0 ≡ ok Endpoint.internal_user
unfolding pass String-discrete
user_let_in = refl

route-PermittedAt_example : PermittedAt "token" asks_for_user ("internal" ∷ "users" ∷ "u1" ∷ [])
route-PermittedAt_example =
    route-PermittedAt {S = Unit {0}} Service.auth "token" asks_for_user user_route tt
      Endpoint.internal_user user_found user_let_in

-- A client reads an order.
abbrev reads_order : Request
reads_order = record {
  method = "GET";
  parts = "orders" ∷ "o1" ∷ [];
  bearer = none;
  header = "token";
}

abbrev order_route : Route Endpoint
order_route = record {
  method = some "GET";
  pattern = Segment.lit "orders" ∷ Segment.param ∷ [];
  guard = Guard.by_token;
  to = Endpoint.get_order;
}

passed_on : handle "GET" reads_order.parts ≡ Reply.forwarded Service.orders reads_order.parts
unfolding handle String-discrete
passed_on = refl

order_found : route_of Service.orders reads_order ≡ some order_route
unfolding route_of String-discrete
order_found = refl

gateway-hides_example : order_route.guard ≢ Guard.by_internal
gateway-hides_example =
    gateway-hides reads_order Service.orders reads_order.parts order_route passed_on order_found

-- The database comes up at the second attempt.
abbrev slow_start : ℕ → Attempt
slow_start n = record { reached = natb n 2; cancelled = false }

connect_in_time_example : Decided slow_start 1 30 (connect true slow_start)
connect_in_time_example = connect_in_time slow_start

abbrev files : Fs
files = record {
  sql_files = "0002_orders.sql" ∷ "0001_auth.sql" ∷ [];
  contents = λ name. if name == "0001_auth.sql" then some "auth" else some "orders";
}

-- A database that keeps a log of what it runs.
abbrev logged : String → List String → Option (List String)
logged file log = some (file ∷ log)

abbrev sound_run : Env
sound_run = record {
  table_lost = false;
  glob_lost = false;
  versions_lost = false;
  begin_lost = λ _. false;
  record_lost = λ _. false;
  commit = λ _. Commit.done;
}

-- The answer to the first COMMIT is lost.
abbrev torn_run : Env
torn_run = record sound_run { commit = λ _. Commit.unanswered }

applied_once_example :
    let p =
      migrate logged sound_run files
        (migrate_all logged (torn_run ∷ []) files (fresh_db logged files [])) in
    AppliedUpTo logged files [] p.1 × (p.0 ≡ ok tt → p.1.versions ≡ sorted files.sql_files)
unfolding String-discrete
applied_once_example = applied_once logged files (torn_run ∷ []) sound_run [] (refl, (refl, tt))
