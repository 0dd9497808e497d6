-- ===== src/Realtime.antt =====
-- app/core/events.py and the event side of app/modules/services/router.py: how an endpoint of the
-- staff ends, the endpoint that moves a service, with the inbox row and the events that follow, and
-- the WebSockets that listen. Redis carries the events; here are the channels that the code publishes
-- on and subscribes to.
pub mod Channels
pub mod Audience
pub mod Staff
pub mod Moves
pub mod Desk
pub mod Intakes
use ulov_backend.Prelude.{
  ℕ, ◌≡◌, ◌⊎◌, Bool, true, false, not, Option, none, some, List, [], ◌∷◌, ◌++◌,
}
use ulov_backend.Prelude.Tests.{◌==◌, if◌then◌else◌}
use ulov_backend.Prelude.Text.{Text, text_eq, codes, truthy?, text_or_empty}
use ulov_backend.Prelude.Lists.{find_row}
use ulov_backend.Errors.{ws_token_missing}
use ulov_backend.Exec.{Exec, Result, ok, err, pure, gets, modify, request, ◌>>=◌, ◌>>◌}
use ulov_backend.Rbac.{CurrentUser, get_current_staff}
use ulov_backend.Security.{Jwt, decode_access_token}
use ulov_backend.Bearer.{user_of}
use ulov_backend.Db.{Db, fresh_id}
use ulov_backend.Db.Rows.{
  Service, ServiceItem, Notification, moved_service, Status, waiting, in_progress, paused,
  completed, cancelled,
}
use ulov_backend.Cars.Repository as cars_repo
use ulov_backend.Centers
use ulov_backend.Services.Access.{get_for_user, list_items}
use ulov_backend.Services.Transition.{transition}

-- `build_channel` of the three templates; `uuid_text` is `str(UUID)`.
module _ (uuid_text : ℕ → Text) where
  abbrev pub service_channel : ℕ → Text
  service_channel service_id = codes "events:service:" ++ uuid_text service_id

  abbrev pub center_channel : ℕ → Text
  center_channel center_id = codes "events:services:" ++ uuid_text center_id

  abbrev pub user_channel : ℕ → Text
  user_channel user_id = codes "events:user:" ++ uuid_text user_id

-- `make_event` of `_publish_event`, without the time: `to_status` is there for a transition.
pub record Event : Type 0 where
  pub service_id : ℕ
  pub center_id : ℕ
  pub status : Status
  pub to_status : Option Status

abbrev pub event_of : Service → Option Status → Event
event_of s to_status = record {
  service_id = s.id;
  center_id = s.center_id;
  status = s.status;
  to_status = to_status;
}

-- The channels of `_publish_event`; `service.car` is the row of the car, if it is there.
unfoldable pub channels_of : (ℕ → Text) → Service → Db → List Text
channels_of uuid_text s d =
    service_channel uuid_text s.id
    ∷ center_channel uuid_text s.center_id
    ∷ elim (find_row (λ c. c.id == s.car_id) d.cars) [
      | none ↦ []
      | some c ↦ user_channel uuid_text c.owner_id ∷ []
    ]

-- The calls of `publish`, in order.
unfoldable pub publications : List Text → Event → List (Text × Event)
publications [] e = []
publications (c ∷ cs) e = (c, e) ∷ publications cs e

-- `notifs.create_notification` for a move of a service: the row of the inbox. The push never
-- raises, and the owner of a car is a row of `users`.
unfoldable pub add_note : ℕ → ℕ → Status → Exec Db (Unit {0})
add_note user_id service_id to_status = do
  i ← fresh_id
  let n : Notification = record {
    id = i;
    user_id = user_id;
    about = moved_service service_id to_status;
    read_at = none;
  }
  modify (λ d. record d { notifications = d.notifications ++ n ∷ [] })

-- `to_status in titles`
abbrev pub has_title : Status → Bool
has_title waiting = false
has_title _ = true

-- `_notify_customer_on_transition`
unfoldable pub notify_customer : Service → Status → Exec Db (Unit {0})
unfolding cars_repo.get_by_id add_note
notify_customer s to_status = do
  found ← cars_repo.get_by_id s.car_id
  elim found [
    | none ↦ pure tt
    | some car ↦ if has_title to_status then add_note car.owner_id s.id to_status else pure tt
  ]

-- The part of `transition_service` that works on the database.
unfoldable pub move_service :
    CurrentUser → ℕ → Status → Option Text → ℕ → Exec Db (Service × List ServiceItem)
unfolding transition notify_customer list_items
move_service u service_id to_status reason now = do
  moved ← transition service_id u to_status reason now
  notify_customer moved.0 to_status
  items ← list_items moved.0.id u
  pure (moved.0, items)

-- What a request has published, beside the database.
abbrev pub World : Type 0
World = Db × List (Text × Event)

-- The end of an endpoint: the events go out once the database has answered. `to_status` is there
-- for a transition.
abbrev pub answer :
    (ℕ → Text)
    → Option Status
    → World
    → Result (Service × List ServiceItem) × Db
    → Result (Service × List ServiceItem) × World
answer uuid_text to_status w (err e, d) = (err e, (d, w.1))
answer uuid_text to_status w (ok (s, items), d) =
    (ok (s, items), (d, w.1 ++ publications (channels_of uuid_text s d) (event_of s to_status)))

-- An endpoint of the staff that works on the database and then publishes.
unfoldable pub serve_staff :
    (ℕ → Text)
    → Result CurrentUser
    → Option Status
    → (CurrentUser → Exec Db (Service × List ServiceItem))
    → Exec World (Service × List ServiceItem)
unfolding get_current_staff request
serve_staff uuid_text caller to_status handler w = elim caller [
  | err e ↦ (err e, w)
  | ok u ↦ elim (get_current_staff u) [
    | err e ↦ (err e, w)
    | ok u' ↦ answer uuid_text to_status w (request (handler u') w.0)
  ]
]

-- `transition_service`
unfoldable pub transition_service :
    (ℕ → Text)
    → Result CurrentUser
    → ℕ
    → Status
    → Option Text
    → ℕ
    → Exec World (Service × List ServiceItem)
unfolding serve_staff move_service
transition_service uuid_text caller service_id to_status reason now =
    serve_staff uuid_text caller (some to_status)
      (λ u. move_service u service_id to_status reason now)

-- What a WebSocket comes to: closed with a code, or listening on channels.
pub data Socket : Type 0 where
  closed : ℕ → Socket
  listening : List Text → Socket

-- `_ws_user_from_token`
unfoldable pub ws_user_from_token : Jwt → ℕ → Option Text → Result CurrentUser
unfolding decode_access_token user_of
ws_user_from_token jwt now token =
    if not (truthy? token)
    then err ws_token_missing
    else elim (decode_access_token jwt now (text_or_empty token)) [
      | err e ↦ err e
      | ok claims ↦ user_of claims
    ]

-- Each handler closes with 4401 where there is no user, and with 4403 where a check fails.
abbrev pub admit : {A : Type 0} → Result A → List Text → Socket
admit (err e) channels = closed 4403
admit (ok _) channels = listening channels

module _ (uuid_text : ℕ → Text) where
  unfoldable pub ws_service : Result CurrentUser → ℕ → Db → Socket
  unfolding get_for_user
  ws_service (err e) service_id d = closed 4401
  ws_service (ok u) service_id d =
      admit (get_for_user service_id u d).0 (service_channel uuid_text service_id ∷ [])

  unfoldable pub ws_center : Result CurrentUser → ℕ → Db → Socket
  unfolding Centers.assert_ops_access
  ws_center (err e) center_id d = closed 4401
  ws_center (ok u) center_id d =
      admit (Centers.assert_ops_access center_id u d).0 (center_channel uuid_text center_id ∷ [])

  unfoldable pub ws_me : Result CurrentUser → Socket
  ws_me (err e) = closed 4401
  ws_me (ok u) = listening (user_channel uuid_text u.id ∷ [])

-- The three addresses.
pub data Door : Type 0 where
  service_door center_door : ℕ → Door
  me_door : Door

unfoldable pub open_socket : (ℕ → Text) → Door → Result CurrentUser → Db → Socket
unfolding ws_service ws_center ws_me
open_socket uuid_text (service_door i) caller d = ws_service uuid_text caller i d
open_socket uuid_text (center_door i) caller d = ws_center uuid_text caller i d
open_socket uuid_text me_door caller d = ws_me uuid_text caller

abbrev pub Among : Text → List Text → Type 0
Among c [] = ⊥
Among c (x ∷ xs) = (c ≡ x) ⊎ Among c xs

-- A socket that listens on a channel.
abbrev pub Hears : Socket → Text → Type 0
Hears (closed code) channel = ⊥
Hears (listening channels) channel = Among channel channels
