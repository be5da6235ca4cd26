-- ===== src/Notifications/Feed.antt =====
-- internal/notifications/store.go and handler.go over the table notifications.notifications.
pub mod Stored
use yukbor_backend.Common.{
  ℕ, zero, suc, ◌+◌, ◌<◌, String, Option, none, some, Bool, true, false, ◌&&◌, not, List, [], ◌∷◌,
  ◌++◌, ◌==◌, string_Eq, if◌then◌else◌, leb,
}
use yukbor_backend.Common.Table.{select, query_row, update_where, order_by}
use yukbor_backend.Common.Exec.{
  Result, ok, err, pure, raise, gets, raise_if, modify, or_raise, ◌>>=◌, ◌>>◌,
}
use yukbor_backend.Httpx.{Code, failure, Handler}
use yukbor_backend.Jwtx
use yukbor_backend.Jwtx.{Claims, Codec, TokenError}
use yukbor_backend.Models.Enums.{Time}
use yukbor_backend.Models.Events.{
  AppNotification, NotifySpec, EmitEventRequest, EventName, Payload, notify_recipients,
}
use yukbor_backend.Notifications.Hub
use yukbor_backend.Notifications.Hub.{Hub, WsEvent}

pub data Point : Type 0 where
  list_rows mark_row : Point

-- What a request meets. `lost user` says that the INSERT for the user fails.
pub record Env : Type 0 where
  pub now : Time
  pub fresh_id : String → String
  pub lost : String → Bool
  pub fails : Point → Bool

-- The table, and the hub of the one replica.
pub record State : Type 0 where
  pub rows : List AppNotification
  pub hub : Hub

-- `Create`'s row
unfoldable pub note_for : Env → NotifySpec → String → AppNotification
note_for env spec user = record {
  id = env.fresh_id user;
  user_id = user;
  notification_type = spec.notification_type;
  title = spec.title;
  body = spec.body;
  related_order_id = spec.related_order_id;
  is_read = false;
  created_at = env.now;
}

abbrev newer : AppNotification → AppNotification → Bool
newer m n = leb n.created_at m.created_at

abbrev take : ℕ → List AppNotification → List AppNotification
take zero ns = []
take (suc k) [] = []
take (suc k) (n ∷ ns) = n ∷ take k ns

-- `ListByUser`
unfoldable pub list_by_user : String → List AppNotification → List AppNotification
list_by_user user rows =
    take 200 (order_by newer (select (λ (n : AppNotification). n.user_id == user) rows))

abbrev pub is_his : String → String → AppNotification → Bool
is_his id user n = n.id == id && n.user_id == user

abbrev pub read : AppNotification → AppNotification
read n = record n { is_read = true }

-- `MarkRead`; `none` is `db.ErrNotFound`.
unfoldable pub mark_read :
    String → String → List AppNotification → Option AppNotification × List AppNotification
mark_read id user rows = (query_row (is_his id user) rows, update_where (is_his id user) read rows)

-- `list`: `user` is the parameter of the query.
unfoldable pub list : Env → Claims → String → Handler State (List AppNotification)
unfolding list_by_user
list env claims user = do
  let asked = if user == "" then claims.sub else user
  raise_if (not (asked == claims.sub) && not (claims.role == "admin")) (failure 403 Code.forbidden)
  raise_if (env.fails Point.list_rows) (failure 500 Code.internal)
  gets (λ s. list_by_user asked s.rows)

unfoldable pub marked : Option AppNotification × List AppNotification → Handler State (Unit {0})
marked (none, rows) = raise (failure 404 Code.not_found)
marked (some _, rows) = modify (λ s. record s { rows = rows })

-- `markRead`
unfoldable pub mark : Env → Claims → String → Handler State (Unit {0})
unfolding mark_read marked
mark env claims id = do
  raise_if (env.fails Point.mark_row) (failure 500 Code.internal)
  found ← gets (λ s. mark_read id claims.sub s.rows)
  marked found

-- `wsClaims`: the token of the query, or else of the header.
unfoldable pub ws_claims : Codec → String → ℕ → String → String → Result TokenError Claims
unfolding Jwtx.verify Jwtx.from_request
ws_claims codec secret now token authorization =
    if not (token == "")
    then Jwtx.verify codec secret now token
    else Jwtx.from_request codec secret now authorization

-- The state with what a publication made of the hub; `none` is a panic.
unfoldable pub with_hub : List AppNotification → Option Hub → Option State
with_hub rows none = none
with_hub rows (some h) = some (record { rows = rows; hub = h })

-- `Create` for one recipient, and the event for his connections. A failure is logged.
unfoldable pub notify_one : Env → NotifySpec → String → State → Option State
unfolding with_hub Hub.publish note_for
notify_one env spec user s =
    if env.lost user
    then some s
    else with_hub (s.rows ++ note_for env spec user ∷ []) (
        Hub.publish (user ∷ [])
          (record {
            event = EventName.notification_created;
            payload = Payload.notification (note_for env spec user);
          })
          s.hub)

unfoldable pub notify_all : Env → NotifySpec → List String → State → Option State
unfolding notify_one
notify_all env spec [] s = some s
notify_all env spec (user ∷ users) s = elim (notify_one env spec user s) [
  | none ↦ none
  | some s' ↦ notify_all env spec users s'
]

unfoldable pub notify_spec : Env → Option NotifySpec → List String → State → Option State
unfolding notify_all
notify_spec env none users s = some s
notify_spec env (some spec) users s = notify_all env spec users s

unfoldable pub after_event : Env → EmitEventRequest → Option State → Option State
unfolding notify_spec notify_recipients
after_event env req none = none
after_event env req (some s) = notify_spec env req.notify (notify_recipients req) s

-- The event itself, where it has a name and data.
unfoldable pub fan_out : Option EventName → Option Payload → List String → State → Option State
unfolding with_hub Hub.publish
fan_out (some event) (some data_of) users s =
    with_hub s.rows (Hub.publish users (record { event = event; payload = data_of }) s.hub)
fan_out (some event) none users s = some s
fan_out none load users s = some s

unfoldable pub answered : ℕ → Option State → Option (ℕ × State)
answered status none = none
answered status (some s) = some (status, s)

-- `emit`: the status of the answer, and the state; `none` is a panic.
unfoldable pub emit : Env → Option EmitEventRequest → State → Option (ℕ × State)
unfolding fan_out after_event answered
emit env none s = some (400, s)
emit env (some req) s =
    answered 204 (after_event env req (fan_out req.event req.payload req.user_ids s))
