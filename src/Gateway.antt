-- ===== src/Gateway.antt =====
-- internal/gateway/proxy.go: the one address of the services. A request is passed on with its path and
-- headers as they are.
pub mod Inside
use yukbor_backend.Common.{
  String, Option, none, some, List, [], ◌∷◌, ◌++◌, ◌==◌, string_Eq, if◌then◌else◌,
}
use yukbor_backend.Httpx.Mux.{Segment, Guard, Route, best, find}
use yukbor_backend.Httpx.Mux.Segment.{lit, rest}
use yukbor_backend.Routes.{Service}

-- The gateway itself, `healthOf` and `proxyTo`.
pub data Target : Type 0 where
  own : Target
  health_of to : Service → Target

abbrev mount : Option String → List Segment → Target → Route Target
mount method pattern target = record {
  method = method;
  pattern = pattern;
  guard = Guard.unguarded;
  to = target;
}

unfoldable pub gateway_routes : List (Route Target)
gateway_routes =
    mount (some "GET") (lit "health" ∷ []) Target.own
    ∷ mount (some "GET") (lit "health" ∷ lit "auth" ∷ []) (Target.health_of Service.auth)
    ∷ mount (some "GET") (lit "health" ∷ lit "orders" ∷ []) (Target.health_of Service.orders)
    ∷ mount (some "GET") (lit "health" ∷ lit "wallet" ∷ []) (Target.health_of Service.wallet)
    ∷ mount (some "GET") (lit "health" ∷ lit "notifications" ∷ [])
        (Target.health_of Service.notifications)
    ∷ mount (some "GET") (lit "health" ∷ lit "reviews" ∷ []) (Target.health_of Service.reviews)
    ∷ mount none (lit "auth" ∷ rest ∷ []) (Target.to Service.auth)
    ∷ mount none (lit "users" ∷ rest ∷ []) (Target.to Service.auth)
    ∷ mount none (lit "orders" ∷ []) (Target.to Service.orders)
    ∷ mount none (lit "orders" ∷ rest ∷ []) (Target.to Service.orders)
    ∷ mount none (lit "wallet" ∷ rest ∷ []) (Target.to Service.wallet)
    ∷ mount none (lit "notifications" ∷ []) (Target.to Service.notifications)
    ∷ mount none (lit "notifications" ∷ rest ∷ []) (Target.to Service.notifications)
    ∷ mount none (lit "ws" ∷ []) (Target.to Service.notifications)
    ∷ mount none (lit "reviews" ∷ []) (Target.to Service.reviews)
    ∷ mount none (lit "reviews" ∷ rest ∷ []) (Target.to Service.reviews)
    ∷ mount none (lit "admin" ∷ lit "users" ∷ []) (Target.to Service.auth)
    ∷ mount none (lit "admin" ∷ lit "orders" ∷ []) (Target.to Service.orders)
    ∷ mount none (lit "admin" ∷ lit "stats" ∷ []) (Target.to Service.wallet)
    ∷ mount none (lit "admin" ∷ lit "transactions" ∷ []) (Target.to Service.wallet)
    ∷ []

-- What the gateway makes of a request: an answer of its own, or the service with the path that it
-- gets.
pub data Reply : Type 0 where
  preflight own_health moved not_allowed missing : Reply
  forwarded : Service → List String → Reply

abbrev targeted : List String → Target → Reply
targeted parts Target.own = Reply.own_health
targeted parts (Target.health_of service) = Reply.forwarded service ("health" ∷ [])
targeted parts (Target.to service) = Reply.forwarded service parts

-- A path that lacks its final slash is redirected, and one that fits with another method is refused.
abbrev unrouted : Option (Route Target) → Option (Route Target) → Reply
unrouted (some _) any_method = Reply.moved
unrouted none (some _) = Reply.not_allowed
unrouted none none = Reply.missing

abbrev routed : List String → Option (Route Target) → Reply → Reply
routed parts (some r) otherwise = targeted parts r.to
routed parts none otherwise = otherwise

-- `Routes` with `cors` around it
unfoldable pub handle : String → List String → Reply
unfolding gateway_routes find best
handle method parts =
    if method == "OPTIONS"
    then Reply.preflight
    else routed parts (find method parts gateway_routes)
        (unrouted (find method (parts ++ "" ∷ []) gateway_routes) (best parts gateway_routes))
