-- ===== src/Webhook.antt =====
-- internal/webhook/service.go and repository.go: endpoints, deliveries and their retries. The goroutines
-- that Dispatch and the retry worker start are the jobs of the state, which run in any order. The HTTP
-- exchange, the random secret, JSON and HMAC belong to the environment; the limits of the pages are in
-- Webhook/Pages.
pub mod Retries
pub mod Pages
use graaa_golang_auth_api.Common.{
  ℕ, suc, zero, ◌+◌, ◌*◌, ◌^◌, Bool, true, false, not, ◌&&◌, ◌||◌, Option, none, some, List, [],
  ◌∷◌, ◌++◌, Text, codes, text_eq, any, map, select, take, ltb, leb, if◌then◌else◌,
}
use graaa_golang_auth_api.Redis.Interface.{Reply, ok, nil, failed}
use graaa_golang_auth_api.Redis.Sessions.{second, hour}
use graaa_golang_auth_api.Database.{
  Fate, served, refused, lost, first_where, first, first_reply, query, update_where, written,
  write_reply,
}

pub record WebhookEndpoint : Type 0 where
  pub id : Text
  pub app_id : Text
  pub event_type : Text
  pub url : Text
  pub secret : Text
  pub is_active : Bool
  pub is_deleted : Bool

pub record WebhookDelivery : Type 0 where
  pub id : Text
  pub endpoint_id : Text
  pub app_id : Text
  pub event_type : Text
  pub payload : Text
  pub attempt : ℕ
  pub status_code : ℕ
  pub response_body : Text
  pub success : Bool
  pub next_retry_at : Option ℕ

pub record Job : Type 0 where
  pub endpoint : WebhookEndpoint
  pub delivery : WebhookDelivery

pub record Webhooks : Type 0 where
  pub endpoints : List WebhookEndpoint
  pub deliveries : List WebhookDelivery
  pub jobs : List Job

abbrev pub max_attempts : ℕ
max_attempts = 5

unfoldable pub is_valid_event_type : Text → Bool
is_valid_event_type event_type =
    any (λ v. text_eq v event_type)
      (codes "user.registered"
        ∷ codes "user.verified"
        ∷ codes "user.login"
        ∷ codes "user.password_changed"
        ∷ codes "2fa.enabled"
        ∷ codes "2fa.disabled"
        ∷ codes "social.linked"
        ∷ codes "social.unlinked"
        ∷ [])

-- The endpoint, and the secret that is shown once. The unique index is on app and event type.
unfoldable pub register_endpoint :
    Fate → Text → Text → Text → Text → Text → Webhooks → Option WebhookEndpoint × Webhooks
register_endpoint save id app event_type url secret_hex s =
    let ep : WebhookEndpoint = record {
      id = id;
      app_id = app;
      event_type = event_type;
      url = url;
      secret = codes "whsec_" ++ secret_hex;
      is_active = true;
      is_deleted = false;
    } in
    if not (is_valid_event_type event_type)
      || any (λ e. text_eq e.app_id app && text_eq e.event_type event_type) s.endpoints
    then (none, s)
    else elim save [
      | served ↦ (some ep, record s { endpoints = ep ∷ s.endpoints })
      | refused ↦ (none, s)
      | lost ↦ (none, record s { endpoints = ep ∷ s.endpoints })
    ]

abbrev pub endpoint_is : Text → WebhookEndpoint → Bool
endpoint_is id e = text_eq e.id id

unfoldable pub set_endpoint_active : Fate → Text → Bool → Webhooks → Reply (Unit {0}) × Webhooks
set_endpoint_active fate id active s = (
  write_reply fate,
  record s {
    endpoints =
        written fate s.endpoints
          (update_where (endpoint_is id) (λ e. record e { is_active = active }) s.endpoints);
  },
)

unfoldable pub delete_endpoint : Fate → Text → Webhooks → Reply (Unit {0}) × Webhooks
delete_endpoint fate id s = (
  write_reply fate,
  record s {
    endpoints =
        written fate s.endpoints
          (update_where (endpoint_is id) (λ e. record e { is_deleted = true }) s.endpoints);
  },
)

unfoldable pub get_endpoint_by_id : Fate → Text → Webhooks → Reply WebhookEndpoint
get_endpoint_by_id fate id s = first fate (λ e. endpoint_is id e && not e.is_deleted) s.endpoints

abbrev pub listens : Text → Text → WebhookEndpoint → Bool
listens app event_type e =
    text_eq e.app_id app && text_eq e.event_type event_type && e.is_active && not e.is_deleted

unfoldable pub get_active_endpoints_for_event :
    Fate → Text → Text → Webhooks → Reply (List WebhookEndpoint)
get_active_endpoints_for_event fate app event_type s =
    query fate (select (listens app event_type) s.endpoints)

-- A delivery before its request is made.
abbrev pub new_delivery : Text → Text → Text → Text → Text → ℕ → WebhookDelivery
new_delivery id endpoint app event_type payload attempt = record {
  id = id;
  endpoint_id = endpoint;
  app_id = app;
  event_type = event_type;
  payload = payload;
  attempt = attempt;
  status_code = 0;
  response_body = [];
  success = false;
  next_retry_at = none;
}

-- The goroutines of Dispatch. `fresh` is uuid.New for each of them.
unfoldable pub first_jobs : (Text → Text) → Text → Text → Text → List WebhookEndpoint → List Job
first_jobs fresh app event_type payload [] = []
first_jobs fresh app event_type payload (e ∷ es) =
    record { endpoint = e; delivery = new_delivery (fresh e.id) e.id app event_type payload 1 }
    ∷ first_jobs fresh app event_type payload es

abbrev dispatched :
    (Text → Text) → Text → Text → Option Text → Reply (List WebhookEndpoint) → List Job
dispatched fresh app event_type payload nil = []
dispatched fresh app event_type payload failed = []
dispatched fresh app event_type none (ok es) = []
dispatched fresh app event_type (some payload) (ok es) = first_jobs fresh app event_type payload es

-- `payload` is the JSON of the event, none where it cannot be encoded.
unfoldable pub dispatch : Fate → (Text → Text) → Text → Text → Option Text → Webhooks → Webhooks
dispatch load fresh app event_type payload s = record s {
  jobs =
      dispatched fresh app event_type payload (get_active_endpoints_for_event load app event_type s)
      ++ s.jobs;
}

-- What comes of a request: it cannot be built, there is no response, or a status and the first bytes of
-- the body.
pub data Outcome : Type 0 where
  unbuilt unreachable : Outcome
  answered : ℕ → Text → Outcome

-- 2 to the attempt in seconds, an hour at most. Attempts are below `max_attempts`, so the float and the
-- duration are exact.
unfoldable pub retry_at : ℕ → ℕ → ℕ
retry_at attempt now =
    now + (if ltb hour (2 ^ attempt * second) then hour else 2 ^ attempt * second)

abbrev pub scheduled : ℕ → WebhookDelivery → WebhookDelivery
scheduled now d =
    if ltb d.attempt max_attempts
    then record d { next_retry_at = some (retry_at d.attempt now) }
    else d

abbrev pub received : ℕ → Text → WebhookDelivery → WebhookDelivery
received status body d = record d {
  status_code = status;
  response_body = body;
  success = leb 200 status && ltb status 300;
}

-- The record that deliver and scheduleRetryOrSave persist.
unfoldable pub delivered : Outcome → ℕ → WebhookDelivery → WebhookDelivery
delivered unbuilt now d = scheduled now d
delivered unreachable now d = scheduled now d
delivered (answered status body) now d =
    if (received status body d).success
    then received status body d
    else scheduled now (received status body d)

abbrev pub remove_at : ℕ → List Job → List Job
remove_at i [] = []
remove_at zero (x ∷ xs) = xs
remove_at (suc i) (x ∷ xs) = x ∷ remove_at i xs

-- The job at an index runs.
unfoldable pub deliver : Outcome → ℕ → Fate → ℕ → Job → Webhooks → Webhooks
deliver outcome now save i job s = record s {
  deliveries = written save s.deliveries (delivered outcome now job.delivery ∷ s.deliveries);
  jobs = remove_at i s.jobs;
}

abbrev pub delivery_is : Text → WebhookDelivery → Bool
delivery_is id d = text_eq d.id id

abbrev pub unscheduled : WebhookDelivery → WebhookDelivery
unscheduled d = record d { next_retry_at = none }

unfoldable pub clear_retry_schedule : Fate → Text → Webhooks → Webhooks
clear_retry_schedule fate id s = record s {
  deliveries = written fate s.deliveries (update_where (delivery_is id) unscheduled s.deliveries);
}

abbrev pub next_job : Text → WebhookEndpoint → WebhookDelivery → Job
next_job id ep d = record {
  endpoint = ep;
  delivery = new_delivery id d.endpoint_id d.app_id d.event_type d.payload (d.attempt + 1);
}

abbrev pub retried : Reply WebhookEndpoint → Text → WebhookDelivery → List Job
retried nil id d = []
retried failed id d = []
retried (ok ep) id d = if ep.is_active then next_job id ep d ∷ [] else []

-- The body of the loop of processRetries: the old schedule is cleared, and a delivery is started where
-- the endpoint is there and active.
unfoldable pub retry_one : Fate → Fate → Text → WebhookDelivery → Webhooks → Webhooks
retry_one load clear id d s =
    let cleared = clear_retry_schedule clear d.id s in
    record cleared { jobs = retried (get_endpoint_by_id load d.endpoint_id s) id d ++ s.jobs }

abbrev due_at : ℕ → Option ℕ → Bool
due_at now none = false
due_at now (some at) = leb at now

abbrev pub is_due : ℕ → WebhookDelivery → Bool
is_due now d = not d.success && due_at now d.next_retry_at

abbrev no_later : Option ℕ → Option ℕ → Bool
no_later none b = true
no_later (some a) none = false
no_later (some a) (some b) = leb a b

-- ORDER BY next_retry_at
unfoldable pub insert_by_time : WebhookDelivery → List WebhookDelivery → List WebhookDelivery
insert_by_time d [] = d ∷ []
insert_by_time d (x ∷ xs) =
    let rest = insert_by_time d xs in
    if no_later d.next_retry_at x.next_retry_at then d ∷ x ∷ xs else x ∷ rest

unfoldable pub by_time : List WebhookDelivery → List WebhookDelivery
by_time [] = []
by_time (d ∷ ds) = insert_by_time d (by_time ds)

unfoldable pub get_pending_retries : ℕ → ℕ → Webhooks → List WebhookDelivery
get_pending_retries now limit s = take limit (by_time (select (is_due now) s.deliveries))

-- `load` and `clear` tell what the queries for each delivery meet.
unfoldable pub retry_all :
    (Text → Fate) → (Text → Fate) → (Text → Text) → List WebhookDelivery → Webhooks → Webhooks
retry_all load clear fresh [] s = s
retry_all load clear fresh (d ∷ ds) s =
    retry_all load clear fresh ds (retry_one (load d.id) (clear d.id) (fresh d.id) d s)

abbrev retry_reply :
    Reply (List WebhookDelivery)
    → (Text → Fate)
    → (Text → Fate)
    → (Text → Text)
    → Webhooks
    → Webhooks
retry_reply nil load clear fresh s = s
retry_reply failed load clear fresh s = s
retry_reply (ok pending) load clear fresh s = retry_all load clear fresh pending s

unfoldable pub process_retries :
    Fate → (Text → Fate) → (Text → Fate) → (Text → Text) → ℕ → Webhooks → Webhooks
process_retries read load clear fresh now s =
    retry_reply (query read (get_pending_retries now 100 s)) load clear fresh s
