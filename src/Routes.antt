-- ===== src/Routes.antt =====
-- internal/*/handler.go, `Routes`: which guard stands before which handler of the five services.
pub mod Access
use yukbor_backend.Common.{String, Option, none, some, List, [], ◌∷◌}
use yukbor_backend.Common.Exec.{pure}
use yukbor_backend.Httpx.{Handler}
use yukbor_backend.Httpx.Guards.{Claims}
use yukbor_backend.Httpx.Mux.{Segment, Guard, Route, find, guarded}
use yukbor_backend.Httpx.Mux.Segment.{lit, param}

pub data Service : Type 0 where
  auth orders wallet notifications reviews : Service

-- The handlers, by the names of the methods.
pub data Endpoint : Type 0 where
  health : Endpoint
  otp_request otp_verify myid_verify register login admin_login refresh logout me update_me
        admin_users internal_user_stats internal_user internal_rating set_verification :
      Endpoint
  create_order list_by_client available backhaul estimate get_order accept update_status cancel
        confirm admin_orders internal_stats internal_order :
      Endpoint
  create_transaction release list_by_payee admin_stats admin_transactions refund list_by_order :
      Endpoint
  list_notifications mark_read websocket emit : Endpoint
  create_review rating list_reviews : Endpoint

abbrev route : String → List Segment → Guard → Endpoint → Route Endpoint
route method pattern guard to = record {
  method = some method;
  pattern = pattern;
  guard = guard;
  to = to;
}

abbrev by_admin : Guard
by_admin = Guard.by_role ("admin" ∷ [])

unfoldable pub auth_routes : List (Route Endpoint)
auth_routes =
    route "GET" (lit "health" ∷ []) Guard.unguarded Endpoint.health
    ∷ route "POST" (lit "auth" ∷ lit "otp" ∷ lit "request" ∷ []) Guard.unguarded
        Endpoint.otp_request
    ∷ route "POST" (lit "auth" ∷ lit "otp" ∷ lit "verify" ∷ []) Guard.unguarded Endpoint.otp_verify
    ∷ route "POST" (lit "auth" ∷ lit "myid" ∷ lit "verify" ∷ []) Guard.unguarded
        Endpoint.myid_verify
    ∷ route "POST" (lit "auth" ∷ lit "register" ∷ []) Guard.unguarded Endpoint.register
    ∷ route "POST" (lit "auth" ∷ lit "login" ∷ []) Guard.unguarded Endpoint.login
    ∷ route "POST" (lit "auth" ∷ lit "admin" ∷ lit "login" ∷ []) Guard.unguarded
        Endpoint.admin_login
    ∷ route "POST" (lit "auth" ∷ lit "refresh" ∷ []) Guard.unguarded Endpoint.refresh
    ∷ route "POST" (lit "auth" ∷ lit "logout" ∷ []) Guard.unguarded Endpoint.logout
    ∷ route "GET" (lit "users" ∷ lit "me" ∷ []) Guard.by_token Endpoint.me
    ∷ route "PATCH" (lit "users" ∷ lit "me" ∷ []) Guard.by_token Endpoint.update_me
    ∷ route "GET" (lit "admin" ∷ lit "users" ∷ []) by_admin Endpoint.admin_users
    ∷ route "GET" (lit "internal" ∷ lit "users" ∷ lit "stats" ∷ []) Guard.by_internal
        Endpoint.internal_user_stats
    ∷ route "GET" (lit "internal" ∷ lit "users" ∷ param ∷ []) Guard.by_internal
        Endpoint.internal_user
    ∷ route "POST" (lit "internal" ∷ lit "users" ∷ param ∷ lit "rating" ∷ []) Guard.by_internal
        Endpoint.internal_rating
    ∷ route "POST" (lit "internal" ∷ lit "admin" ∷ lit "users" ∷ param ∷ lit "verification" ∷ [])
        Guard.by_internal Endpoint.set_verification
    ∷ []

unfoldable pub orders_routes : List (Route Endpoint)
orders_routes =
    route "GET" (lit "health" ∷ []) Guard.unguarded Endpoint.health
    ∷ route "POST" (lit "orders" ∷ []) Guard.by_token Endpoint.create_order
    ∷ route "GET" (lit "orders" ∷ []) Guard.by_token Endpoint.list_by_client
    ∷ route "GET" (lit "orders" ∷ lit "available" ∷ []) Guard.by_token Endpoint.available
    ∷ route "GET" (lit "orders" ∷ lit "backhaul" ∷ []) Guard.by_token Endpoint.backhaul
    ∷ route "POST" (lit "orders" ∷ lit "estimate" ∷ []) Guard.by_token Endpoint.estimate
    ∷ route "GET" (lit "orders" ∷ param ∷ []) Guard.by_token Endpoint.get_order
    ∷ route "POST" (lit "orders" ∷ param ∷ lit "accept" ∷ []) Guard.by_token Endpoint.accept
    ∷ route "PATCH" (lit "orders" ∷ param ∷ lit "status" ∷ []) Guard.by_token Endpoint.update_status
    ∷ route "POST" (lit "orders" ∷ param ∷ lit "cancel" ∷ []) Guard.by_token Endpoint.cancel
    ∷ route "POST" (lit "orders" ∷ param ∷ lit "confirm-completion" ∷ []) Guard.by_token
        Endpoint.confirm
    ∷ route "GET" (lit "admin" ∷ lit "orders" ∷ []) by_admin Endpoint.admin_orders
    ∷ route "GET" (lit "internal" ∷ lit "orders" ∷ lit "stats" ∷ []) Guard.by_internal
        Endpoint.internal_stats
    ∷ route "GET" (lit "internal" ∷ lit "orders" ∷ param ∷ []) Guard.by_internal
        Endpoint.internal_order
    ∷ []

unfoldable pub wallet_routes : List (Route Endpoint)
wallet_routes =
    route "GET" (lit "health" ∷ []) Guard.unguarded Endpoint.health
    ∷ route "POST" (lit "wallet" ∷ lit "transactions" ∷ []) Guard.token_or_internal
        Endpoint.create_transaction
    ∷ route "POST" (lit "wallet" ∷ lit "transactions" ∷ lit "release" ∷ []) Guard.token_or_internal
        Endpoint.release
    ∷ route "GET" (lit "wallet" ∷ lit "transactions" ∷ []) Guard.by_token Endpoint.list_by_payee
    ∷ route "GET" (lit "admin" ∷ lit "stats" ∷ []) by_admin Endpoint.admin_stats
    ∷ route "GET" (lit "admin" ∷ lit "transactions" ∷ []) by_admin Endpoint.admin_transactions
    ∷ route "POST" (lit "internal" ∷ lit "transactions" ∷ lit "refund" ∷ []) Guard.by_internal
        Endpoint.refund
    ∷ route "GET" (lit "internal" ∷ lit "transactions" ∷ []) Guard.by_internal
        Endpoint.list_by_order
    ∷ []

unfoldable pub notifications_routes : List (Route Endpoint)
notifications_routes =
    route "GET" (lit "health" ∷ []) Guard.unguarded Endpoint.health
    ∷ route "GET" (lit "notifications" ∷ []) Guard.by_token Endpoint.list_notifications
    ∷ route "PATCH" (lit "notifications" ∷ param ∷ lit "read" ∷ []) Guard.by_token
        Endpoint.mark_read
    ∷ route "GET" (lit "ws" ∷ []) Guard.unguarded Endpoint.websocket
    ∷ route "POST" (lit "internal" ∷ lit "events" ∷ []) Guard.by_internal Endpoint.emit
    ∷ []

unfoldable pub reviews_routes : List (Route Endpoint)
reviews_routes =
    route "GET" (lit "health" ∷ []) Guard.unguarded Endpoint.health
    ∷ route "POST" (lit "reviews" ∷ []) Guard.by_token Endpoint.create_review
    ∷ route "GET" (lit "reviews" ∷ lit "rating" ∷ []) Guard.by_token Endpoint.rating
    ∷ route "GET" (lit "reviews" ∷ []) Guard.by_token Endpoint.list_reviews
    ∷ []

unfoldable pub routes : Service → List (Route Endpoint)
unfolding auth_routes orders_routes wallet_routes notifications_routes reviews_routes
routes Service.auth = auth_routes
routes Service.orders = orders_routes
routes Service.wallet = wallet_routes
routes Service.notifications = notifications_routes
routes Service.reviews = reviews_routes

-- A request as a service gets it: the path in its parts, without `.`, `..` and doubled slashes; what
-- `jwtx.FromRequest` makes of the header Authorization, `none` where it is an error; and the header
-- X-Internal-Token.
pub record Request : Type 0 where
  pub method : String
  pub parts : List String
  pub bearer : Option Claims
  pub header : String

-- The handler that a request gets to, with the claims that it is handed. `token` is the internal
-- token of the service.
unfoldable pub pass : {S : Type 0} → Request → String → Route Endpoint → Handler S Endpoint
unfolding guarded
pass req token r = guarded r.guard req.bearer token req.header λ _. pure r.to

unfoldable pub route_of : Service → Request → Option (Route Endpoint)
unfolding routes find
route_of service req = find req.method req.parts (routes service)
