-- ===== src/Webhook/Retries.antt =====
-- Deliveries and retries as steps of the worker: what every record keeps to, and how many requests an
-- event can cause.
use mathlib.Core.Path.{subst}
use graaa_golang_auth_api.Common.{
  ℕ, suc, zero, ◌+◌, ◌-◌, ◌*◌, ◌≤◌, ◌<◌, ◌≡◌, refl, ◌⊎◌, inl, inr, Bool, true, false, ◌&&◌, Option,
  none, some, List, [], ◌∷◌, ◌++◌, Text, text_eq, select, length, get_elem?, All, ltb, leb, arith,
  Bool-cases,
}
use graaa_golang_auth_api.Redis.Interface.{Reply, ok, nil, failed}
use graaa_golang_auth_api.Database.{Fate, served, refused, lost, first_where, update_where}
use graaa_golang_auth_api.Database.Laws.{All-update_where, written-All}
use graaa_golang_auth_api.Webhook.{
  WebhookEndpoint, WebhookDelivery, Job, Webhooks, max_attempts, listens, first_jobs, dispatch,
  get_active_endpoints_for_event, Outcome, unbuilt, unreachable, answered, delivered, scheduled,
  received, remove_at, deliver, delivery_is, unscheduled, clear_retry_schedule, next_job, retried,
  retry_one, get_endpoint_by_id,
}

-- A retry is due only of a delivery that failed before its last attempt.
pub record IsRecord (d : WebhookDelivery) : Type 0 where
  pub counted : 1 ≤ d.attempt
  pub bounded : d.attempt ≤ max_attempts
  pub retries : (d.next_retry_at ≡ none) ⊎ ((d.attempt < max_attempts) × (d.success ≡ false))

-- A delivery that waits for its request.
pub record IsNew (job : Job) : Type 0 where
  pub counted : 1 ≤ job.delivery.attempt
  pub bounded : job.delivery.attempt ≤ max_attempts
  pub unsent : job.delivery.success ≡ false
  pub unplanned : job.delivery.next_retry_at ≡ none

pub record IsConsistent (s : Webhooks) : Type 0 where
  pub records : All IsRecord s.deliveries
  pub started : All IsNew s.jobs

-- What the worker does: a job makes its request, or a delivery whose retry is planned is started again,
-- whatever becomes of the query that clears its schedule. `n` counts the requests.
pub data Work (clear : Fate) (n : ℕ) (s s' : Webhooks) : Type 0 where
  request :
      (outcome : Outcome) (now : ℕ) (save : Fate) (i : ℕ) (job : Job)
      → n ≡ 1
      → get_elem? s.jobs i ≡ some job
      → s' ≡ deliver outcome now save i job s
      → Work clear n s s'
  retry :
      (load : Fate) (id : Text) (d : WebhookDelivery) (at : ℕ)
      → n ≡ 0
      → first_where (delivery_is d.id) s.deliveries ≡ some d
      → d.next_retry_at ≡ some at
      → s' ≡ retry_one load clear id d s
      → Work clear n s s'

-- A run of the worker in which each query that clears a schedule is answered.
pub data Works (s : Webhooks) : ℕ → Webhooks → Type 0 where
  idle : Works s 0 s
  more : {m n : ℕ} {u v : Webhooks} → Works s m u → Work served n u v → Works s (m + n) v

scheduled-IsRecord :
    (now : ℕ) (d : WebhookDelivery)
    → 1 ≤ d.attempt
    → d.attempt ≤ max_attempts
    → d.success ≡ false
    → d.next_retry_at ≡ none
    → IsRecord (scheduled now d)
scheduled-IsRecord now d counted bounded unsent unplanned =
    elim (Bool-cases (ltb d.attempt max_attempts)) [
      | inl again ↦ rw again (record {
        counted = counted;
        bounded = bounded;
        retries = inr (ground (arith, again), unsent);
      })
      | inr last ↦
          rw last (record { counted = counted; bounded = bounded; retries = inl unplanned })
    ]

delivered-IsRecord :
    (outcome : Outcome) (now : ℕ) (job : Job)
    → IsNew job
    → IsRecord (delivered outcome now job.delivery)
unfolding delivered
delivered-IsRecord unbuilt now job new =
    scheduled-IsRecord now job.delivery new.counted new.bounded new.unsent new.unplanned
delivered-IsRecord unreachable now job new =
    scheduled-IsRecord now job.delivery new.counted new.bounded new.unsent new.unplanned
delivered-IsRecord (answered status body) now job new =
    elim (Bool-cases (leb 200 status && ltb status 300)) [
      | inl good ↦
          rw good
            (record { counted = new.counted; bounded = new.bounded; retries = inl new.unplanned })
      | inr bad ↦ rw bad (
          scheduled-IsRecord now (record (received status body job.delivery) { success = false })
            new.counted new.bounded refl new.unplanned)
    ]

All-remove_at : (P : Job → Type 0) (i : ℕ) (jobs : List Job) → All P jobs → All P (remove_at i jobs)
All-remove_at P i [] h = tt
All-remove_at P zero (x ∷ xs) (h, hs) = hs
All-remove_at P (suc i) (x ∷ xs) (h, hs) = (h, All-remove_at P i xs hs)

All-get :
    (P : Job → Type 0) (i : ℕ) (jobs : List Job) (job : Job)
    → All P jobs
    → get_elem? jobs i ≡ some job
    → P job
All-get P i [] job h e = cc
All-get P zero (x ∷ xs) job (h, hs) e = let same : x ≡ job = ground (arith, e) in subst P same h
All-get P (suc i) (x ∷ xs) job (h, hs) e = All-get P i xs job hs e

All-found :
    (P : WebhookDelivery → Type 0) (p : WebhookDelivery → Bool) (rows : List WebhookDelivery)
    (d : WebhookDelivery)
    → All P rows
    → first_where p rows ≡ some d
    → P d
All-found P p [] d h e = cc
All-found P p (x ∷ xs) d (h, hs) e = elim (Bool-cases (p x)) [
  | inl here ↦ let same : x ≡ d = ground (arith, e, here) in subst P same h
  | inr there ↦ All-found P p xs d hs (ground (arith, e, there))
]

next_job-IsNew :
    (id : Text) (ep : WebhookEndpoint) (d : WebhookDelivery) (at : ℕ)
    → IsRecord d
    → d.next_retry_at ≡ some at
    → IsNew (next_job id ep d)
next_job-IsNew id ep d at rec planned =
    let again : d.attempt < max_attempts = ground (arith, rec.retries, planned) in
    record {
      counted = omega (arith, rec.counted);
      bounded = omega (arith, again);
      unsent = refl;
      unplanned = refl;
    }

retried-IsNew :
    (load : Reply WebhookEndpoint) (id : Text) (d : WebhookDelivery) (at : ℕ) (jobs : List Job)
    → IsRecord d
    → d.next_retry_at ≡ some at
    → All IsNew jobs
    → All IsNew (retried load id d ++ jobs)
retried-IsNew nil id d at jobs rec planned h = h
retried-IsNew failed id d at jobs rec planned h = h
retried-IsNew (ok ep) id d at jobs rec planned h = elim (Bool-cases ep.is_active) [
  | inr off ↦ rw off h
  | inl on ↦ rw on (next_job-IsNew id (record ep { is_active = true }) d at rec planned, h)
]

unscheduled-IsRecord : (d : WebhookDelivery) → IsRecord d → IsRecord (unscheduled d)
unscheduled-IsRecord d rec = record {
  counted = rec.counted;
  bounded = rec.bounded;
  retries = inl refl;
}

-- Every step of the worker, also one whose query to clear a schedule fails, keeps the records and the
-- jobs in order: attempts run from 1 to 5, a retry is planned only after a failure and before the fifth
-- attempt, and what waits to be sent has no outcome.
pub Work-IsConsistent :
    (clear : Fate) (n : ℕ) (s s' : Webhooks) → Work clear n s s' → IsConsistent s → IsConsistent s'
unfolding deliver retry_one clear_retry_schedule
Work-IsConsistent clear n s s' (request outcome now save i job one found e) inv =
    let new = All-get IsNew i s.jobs job inv.started found in
    rw e (record {
      records =
          written-All IsRecord save s.deliveries _ inv.records
            (delivered-IsRecord outcome now job new, inv.records);
      started = All-remove_at IsNew i s.jobs inv.started;
    })
Work-IsConsistent clear n s s' (retry load id d at none_ stored planned e) inv =
    let rec = All-found IsRecord (delivery_is d.id) s.deliveries d inv.records stored in
    rw e (record {
      records = written-All IsRecord clear s.deliveries _ inv.records (
          All-update_where IsRecord (delivery_is d.id) unscheduled unscheduled-IsRecord s.deliveries
            inv.records);
      started =
          retried-IsNew (get_endpoint_by_id load d.endpoint_id s) id d at s.jobs rec planned
            inv.started;
    })

-- The requests that a job and a record can still lead to.
abbrev job_requests : Job → ℕ
job_requests job = 6 - job.delivery.attempt

abbrev planned_requests : Option ℕ → ℕ → ℕ
planned_requests none attempt = 0
planned_requests (some at) attempt = 5 - attempt

abbrev record_requests : WebhookDelivery → ℕ
record_requests d = planned_requests d.next_retry_at d.attempt

abbrev jobs_requests : List Job → ℕ
jobs_requests [] = 0
jobs_requests (x ∷ xs) = job_requests x + jobs_requests xs

abbrev records_requests : List WebhookDelivery → ℕ
records_requests [] = 0
records_requests (x ∷ xs) = record_requests x + records_requests xs

abbrev pub requests_left : Webhooks → ℕ
requests_left s = jobs_requests s.jobs + records_requests s.deliveries

jobs_requests-remove :
    (i : ℕ) (jobs : List Job) (job : Job)
    → get_elem? jobs i ≡ some job
    → jobs_requests (remove_at i jobs) + job_requests job ≡ jobs_requests jobs
jobs_requests-remove i [] job e = cc
jobs_requests-remove zero (x ∷ xs) job e =
    let same : x ≡ job = ground (arith, e) in rw (← same) (omega arith)
jobs_requests-remove (suc i) (x ∷ xs) job e =
    let rest = jobs_requests-remove i xs job e in omega (arith, rest)

records_requests-cleared :
    (id : Text) (rows : List WebhookDelivery)
    → records_requests (update_where (delivery_is id) unscheduled rows) ≤ records_requests rows
records_requests-cleared id [] = omega arith
records_requests-cleared id (x ∷ xs) =
    let rest = records_requests-cleared id xs in ground (arith, rest)

records_requests-found :
    (id : Text) (rows : List WebhookDelivery) (d : WebhookDelivery)
    → first_where (delivery_is id) rows ≡ some d
    → records_requests (update_where (delivery_is id) unscheduled rows) + record_requests d
      ≤ records_requests rows
records_requests-found id [] d e = cc
records_requests-found id (x ∷ xs) d e = elim (Bool-cases (text_eq x.id id)) [
  | inl here ↦
      let same : x ≡ d = ground (arith, e, here) in
      let rest = records_requests-cleared id xs in rw (here, ← same) (omega (arith, rest))
  | inr there ↦
      let rest = records_requests-found id xs d (ground (arith, e, there)) in
      rw there (omega (arith, rest))
]

scheduled-requests :
    (now : ℕ) (d : WebhookDelivery)
    → d.attempt ≤ max_attempts
    → d.next_retry_at ≡ none
    → record_requests (scheduled now d) + 1 ≤ 6 - d.attempt
scheduled-requests now d bounded unplanned = ground (arith, bounded, unplanned)

delivered-requests :
    (outcome : Outcome) (now : ℕ) (job : Job)
    → IsNew job
    → record_requests (delivered outcome now job.delivery) + 1 ≤ job_requests job
unfolding delivered
delivered-requests unbuilt now job new =
    scheduled-requests now job.delivery new.bounded new.unplanned
delivered-requests unreachable now job new =
    scheduled-requests now job.delivery new.bounded new.unplanned
delivered-requests (answered status body) now job new =
    let failed_ =
      scheduled-requests now (received status body job.delivery) new.bounded new.unplanned in
    let bounded = new.bounded in
    let unplanned = new.unplanned in ground (arith, failed_, bounded, unplanned)

retried-requests :
    (load : Reply WebhookEndpoint) (id : Text) (d : WebhookDelivery) (at : ℕ) (jobs : List Job)
    → d.attempt < max_attempts
    → d.next_retry_at ≡ some at
    → jobs_requests (retried load id d ++ jobs) ≤ record_requests d + jobs_requests jobs
retried-requests nil id d at jobs again planned = omega arith
retried-requests failed id d at jobs again planned = omega arith
retried-requests (ok ep) id d at jobs again planned = ground (arith, again, planned)

Work-requests :
    (n : ℕ) (s s' : Webhooks)
    → Work served n s s'
    → IsConsistent s
    → n + requests_left s' ≤ requests_left s
unfolding deliver retry_one clear_retry_schedule
Work-requests n s s' (request outcome now save i job one found e) inv =
    let new = All-get IsNew i s.jobs job inv.started found in
    let removed = jobs_requests-remove i s.jobs job found in
    let sent = delivered-requests outcome now job new in rw (e, one) (ground (arith, removed, sent))
Work-requests n s s' (retry load id d at none_ stored planned e) inv =
    let rec = All-found IsRecord (delivery_is d.id) s.deliveries d inv.records stored in
    let again : d.attempt < max_attempts = ground (arith, rec.retries, planned) in
    let cleared = records_requests-found d.id s.deliveries d stored in
    let started =
      retried-requests (get_endpoint_by_id load d.endpoint_id s) id d at s.jobs again planned in
    rw (e, none_) (omega (arith, cleared, started))

Works-requests :
    {s : Webhooks} {n : ℕ} {s' : Webhooks}
    → Works s n s'
    → IsConsistent s
    → IsConsistent s' × (n + requests_left s' ≤ requests_left s)
Works-requests idle inv = (inv, omega arith)
Works-requests (more {m = m} {n = n} {u = u} {v = v} works work) inv =
    let (held, done_) = Works-requests works inv in
    let step = Work-requests n u v work held in
    (Work-IsConsistent served n u v work held, omega (arith, done_, step))

first_jobs-requests :
    (fresh : Text → Text) (app event_type payload : Text) (es : List WebhookEndpoint)
    (jobs : List Job)
    → All IsNew jobs
    → All IsNew (first_jobs fresh app event_type payload es ++ jobs)
      × (jobs_requests (first_jobs fresh app event_type payload es ++ jobs)
          ≡ 5 * length es + jobs_requests jobs)
unfolding first_jobs
first_jobs-requests fresh app event_type payload [] jobs h = (h, omega arith)
first_jobs-requests fresh app event_type payload (e ∷ es) jobs h =
    let (new, count) = first_jobs-requests fresh app event_type payload es jobs h in
    (
      (
        record { counted = omega arith; bounded = omega arith; unsent = refl; unplanned = refl },
        new,
      ),
      omega (arith, count),
    )

-- An event that is dispatched while nothing waits makes at most five requests for each endpoint that
-- listens to it, however the worker goes on, where its queries that clear a schedule are answered.
pub dispatch-requests :
    (load : Fate) (fresh : Text → Text) (app event_type payload : Text) (s s' : Webhooks) (n : ℕ)
    → IsConsistent s
    → requests_left s ≡ 0
    → Works (dispatch load fresh app event_type (some payload) s) n s'
    → n ≤ 5 * length (select (listens app event_type) s.endpoints)
unfolding dispatch get_active_endpoints_for_event
dispatch-requests served fresh app event_type payload s s' n inv none_ works =
    let es = select (listens app event_type) s.endpoints in
    let (new, count) = first_jobs-requests fresh app event_type payload es s.jobs inv.started in
    let (_, bound) = Works-requests works (record { records = inv.records; started = new }) in
    omega (arith, bound, count, none_)
dispatch-requests refused fresh app event_type payload s s' n inv none_ works =
    let (_, bound) = Works-requests works inv in omega (arith, bound, none_)
dispatch-requests lost fresh app event_type payload s s' n inv none_ works =
    let (_, bound) = Works-requests works inv in omega (arith, bound, none_)
