-- ===== src/Notifications/Feed/Stored.antt =====
-- internal/notifications: the feed keeps what the realtime channel may lose.
use yukbor_backend.Common.{
  ℕ, String, Option, none, some, true, false, not, List, [], ◌∷◌, ◌++◌, ◌==◌, string_Eq, map, ◌≡◌,
  refl, sym, ap, ◌∙◌, subst, arith, Bool-cases, inl, inr,
}
use yukbor_backend.Common.Table.{select, update_where}
use yukbor_backend.Common.Exec.{◌>>=◌}
use yukbor_backend.Jwtx.{Claims}
use yukbor_backend.Models.Events.{
  AppNotification, NotifySpec, EmitEventRequest, EventName, Payload, notify_recipients,
}
use yukbor_backend.Notifications.Hub
use yukbor_backend.Notifications.Hub.{Hub, WsEvent}
use yukbor_backend.Notifications.Hub.Safe.{Ends}
use yukbor_backend.Notifications.Hub.Calm.{Inv}
use yukbor_backend.Notifications.Hub.Runs.{publish-Inv}
use yukbor_backend.Notifications.Feed
use yukbor_backend.Notifications.Feed.{Env, State, note_for}

-- The rows of the recipients whose INSERT does not fail.
unfoldable pub notes_for : Env → NotifySpec → List String → List AppNotification
notes_for env spec users = map (note_for env spec) (select (λ user. not (env.lost user)) users)

unfoldable pub notes_of : Env → EmitEventRequest → Option NotifySpec → List AppNotification
notes_of env req none = []
notes_of env req (some spec) = notes_for env spec (notify_recipients req)

-- The table gained these rows, and the hub is in order.
pub record Gained (rows : List AppNotification) (notes : List AppNotification) (s : State)
    : Type 0 where
  pub table : s.rows ≡ rows ++ notes
  pub calm : Inv s.hub

append_assoc : (a b c : List AppNotification) → (a ++ b) ++ c ≡ a ++ (b ++ c)
append_assoc [] b c = refl
append_assoc (n ∷ a) b c = ap (λ l. n ∷ l) (append_assoc a b c)

append_nil : (a : List AppNotification) → a ++ [] ≡ a
append_nil [] = refl
append_nil (n ∷ a) = ap (λ l. n ∷ l) (append_nil a)

with_hub-Gained :
    (rows notes : List AppNotification) (o : Option Hub)
    → Ends Inv o
    → Ends (Gained rows notes) (Feed.with_hub (rows ++ notes) o)
unfolding Feed.with_hub
with_hub-Gained rows notes none e = e
with_hub-Gained rows notes (some h) e = record { table = refl; calm = e }

none_for :
    (env : Env) (spec : NotifySpec) (user : String) (rows : List AppNotification)
    → env.lost user ≡ true
    → rows ≡ rows ++ notes_for env spec (user ∷ [])
unfolding notes_for
none_for env spec user rows lost = rw lost (sym (append_nil rows))

one_for :
    (env : Env) (spec : NotifySpec) (user : String)
    → env.lost user ≡ false
    → notes_for env spec (user ∷ []) ≡ note_for env spec user ∷ []
unfolding notes_for
one_for env spec user there = rw there refl

abbrev event_for : Env → NotifySpec → String → WsEvent
event_for env spec user = record {
  event = EventName.notification_created;
  payload = Payload.notification (note_for env spec user);
}

notify_one-Gained :
    (env : Env) (spec : NotifySpec) (user : String) (s : State)
    → Inv s.hub
    → Ends (Gained s.rows (notes_for env spec (user ∷ []))) (Feed.notify_one env spec user s)
unfolding Feed.notify_one
notify_one-Gained env spec user s i = elim (Bool-cases (env.lost user)) [
  | inl lost ↦ rw (lost, Ends) (record { table = none_for env spec user s.rows lost; calm = i })
  | inr there ↦
      rw (there, Ends)
        (subst
          (λ l. Ends (Gained s.rows l) (
            Feed.with_hub (s.rows ++ note_for env spec user ∷ [])
              (Hub.publish (user ∷ []) (event_for env spec user) s.hub)))
          (sym (one_for env spec user there))
          (with_hub-Gained s.rows (note_for env spec user ∷ []) _
            (publish-Inv (user ∷ []) (event_for env spec user) s.hub i)))
]

abbrev then_all : Env → NotifySpec → List String → Option State → Option State
then_all env spec users none = none
then_all env spec users (some s) = Feed.notify_all env spec users s

notify_all-then_all :
    (env : Env) (spec : NotifySpec) (user : String) (users : List String) (s : State)
    → Feed.notify_all env spec (user ∷ users) s
      ≡ then_all env spec users (Feed.notify_one env spec user s)
unfolding Feed.notify_all
notify_all-then_all env spec user users s = ground arith

notes_for-cons :
    (env : Env) (spec : NotifySpec) (user : String) (users : List String)
    → notes_for env spec (user ∷ users) ≡ notes_for env spec (user ∷ []) ++ notes_for env spec users
unfolding notes_for
notes_for-cons env spec user users = ground arith

more-Gained :
    (rows a b : List AppNotification) (s' : State) (o : Option State)
    → s'.rows ≡ rows ++ a
    → Ends (Gained s'.rows b) o
    → Ends (Gained rows (a ++ b)) o
more-Gained rows a b s' none e g = g
more-Gained rows a b s' (some s) e g = record {
  table = g.table ∙ ap (λ l. l ++ b) e ∙ append_assoc rows a b;
  calm = g.calm;
}

then_all-Gained :
    (env : Env) (spec : NotifySpec) (users : List String) (rows a : List AppNotification)
    (o : Option State)
    → ((s : State)
        → Inv s.hub
        → Ends (Gained s.rows (notes_for env spec users)) (Feed.notify_all env spec users s))
    → Ends (Gained rows a) o
    → Ends (Gained rows (a ++ notes_for env spec users)) (then_all env spec users o)
then_all-Gained env spec users rows a none go g = g
then_all-Gained env spec users rows a (some s) go g =
    more-Gained rows a (notes_for env spec users) s _ g.table (go s g.calm)

notify_all-Gained :
    (env : Env) (spec : NotifySpec) (users : List String) (s : State)
    → Inv s.hub
    → Ends (Gained s.rows (notes_for env spec users)) (Feed.notify_all env spec users s)
unfolding Feed.notify_all notes_for
notify_all-Gained env spec [] s i = record { table = sym (append_nil s.rows); calm = i }
notify_all-Gained env spec (user ∷ users) s i =
    subst (λ l. Ends (Gained s.rows l) (Feed.notify_all env spec (user ∷ users) s))
      (sym (notes_for-cons env spec user users))
      (subst (Ends (Gained s.rows (notes_for env spec (user ∷ []) ++ notes_for env spec users)))
        (sym (notify_all-then_all env spec user users s))
        (then_all-Gained env spec users s.rows (notes_for env spec (user ∷ [])) _
          (notify_all-Gained env spec users) (notify_one-Gained env spec user s i)))

notify_spec-Gained :
    (env : Env) (req : EmitEventRequest) (spec : Option NotifySpec) (s : State)
    → Inv s.hub
    → Ends
        (Gained s.rows (notes_of env req spec))
        (Feed.notify_spec env spec (notify_recipients req) s)
unfolding Feed.notify_spec notes_of
notify_spec-Gained env req none s i = record { table = sym (append_nil s.rows); calm = i }
notify_spec-Gained env req (some spec) s i = notify_all-Gained env spec (notify_recipients req) s i

after_event-Gained :
    (env : Env) (req : EmitEventRequest) (rows : List AppNotification) (o : Option State)
    → Ends (Gained rows []) o
    → Ends (Gained rows (notes_of env req req.notify)) (Feed.after_event env req o)
unfolding Feed.after_event
after_event-Gained env req rows none g = g
after_event-Gained env req rows (some s) g =
    more-Gained rows [] (notes_of env req req.notify) s _ g.table
      (notify_spec-Gained env req req.notify s g.calm)

marked_others :
    (id user : String) (rows : List AppNotification)
    → select
        (λ (n : AppNotification). not (n.user_id == user))
        (update_where (Feed.is_his id user) Feed.read rows)
      ≡ select (λ (n : AppNotification). not (n.user_id == user)) rows
marked_others id user [] = refl
marked_others id user (n ∷ rows) = ground (arith, marked_others id user rows)

-- A status, and what is left.
abbrev pub Answers : ℕ → (State → Type 0) → ℕ × State → Type 0
Answers status P a = (a.0 ≡ status) × P a.1

answered-Ends :
    (status : ℕ) (P : State → Type 0) (o : Option State)
    → Ends P o
    → Ends (Answers status P) (Feed.answered status o)
unfolding Feed.answered
answered-Ends status P none e = e
answered-Ends status P (some s) e = (refl, e)

fan_out-Gained :
    (event : Option EventName) (load : Option Payload) (users : List String) (s : State)
    → Inv s.hub
    → Ends (Gained s.rows []) (Feed.fan_out event load users s)
unfolding Feed.fan_out
fan_out-Gained (some event) (some load) users s i =
    let told : WsEvent = record { event = event; payload = load } in
    subst (λ rows. Ends (Gained s.rows []) (Feed.with_hub rows (Hub.publish users told s.hub)))
      (append_nil s.rows) (with_hub-Gained s.rows [] _ (publish-Inv users told s.hub i))
fan_out-Gained (some event) none users s i = record { table = sym (append_nil s.rows); calm = i }
fan_out-Gained none load users s i = record { table = sym (append_nil s.rows); calm = i }

-- What a service tells of is not lost with a connection: an event with a notification leaves one
-- row for each recipient whose INSERT does not fail, in order, whoever is connected and however
-- full the connections are, and whether or not the event has a name and data of its own; the answer
-- is 204, and the hub does not panic and is in order after it, as before.
pub emit-Gained :
    (env : Env) (req : EmitEventRequest) (s : State)
    → Inv s.hub
    → Ends (Answers 204 (Gained s.rows (notes_of env req req.notify))) (Feed.emit env (some req) s)
unfolding Feed.emit
emit-Gained env req s i =
    answered-Ends 204 _ _
      (after_event-Gained env req s.rows _ (fan_out-Gained req.event req.payload req.user_ids s i))

-- Nobody marks another's notification: whatever id a request names, the rows of all users but the
-- caller are as before.
mark_others :
    (env : Env) (claims : Claims) (id : String) (s : State)
    → select
        (λ (n : AppNotification). not (n.user_id == claims.sub))
        (Feed.mark env claims id s).1.rows
      ≡ select (λ (n : AppNotification). not (n.user_id == claims.sub)) s.rows
unfolding Feed.mark Feed.marked Feed.mark_read ◌>>=◌
mark_others env claims id s = ground (arith, marked_others id claims.sub s.rows)
