-- ===== src/Tests/Webhooks.antt =====
-- A webhook that fails, on an endpoint that listens.
use graaa_golang_auth_api.Common.{
  inr, ◌*◌, ◌≤◌, refl, true, false, some, [], ◌∷◌, Text, codes, length, select, arith,
}
use graaa_golang_auth_api.Redis.Sessions.{second}
use graaa_golang_auth_api.Redis.Sample.{running}
use graaa_golang_auth_api.Database.{served, refused}
use graaa_golang_auth_api.Webhook.{
  WebhookEndpoint, WebhookDelivery, Webhooks, Job, listens, dispatch, first_jobs,
  get_active_endpoints_for_event, unreachable, deliver, delivered, retry_at, retry_one,
  clear_retry_schedule, get_endpoint_by_id, new_delivery,
}
use graaa_golang_auth_api.Webhook.Retries.{
  IsConsistent, request, retry, idle, more, Work-IsConsistent, dispatch-requests,
}

unfoldable run : Unit {0}
unfolding running dispatch first_jobs get_active_endpoints_for_event deliver delivered retry_at
    retry_one clear_retry_schedule get_endpoint_by_id
run = tt

abbrev endpoint : WebhookEndpoint
endpoint = record {
  id = codes "e";
  app_id = codes "a";
  event_type = codes "user.login";
  url = codes "https://hook";
  secret = codes "whsec_";
  is_active = true;
  is_deleted = false;
}

abbrev quiet : Webhooks
quiet = record { endpoints = endpoint ∷ []; deliveries = []; jobs = [] }

abbrev fresh : Text → Text
fresh id = codes "d"

abbrev started : Webhooks
started = dispatch served fresh (codes "a") (codes "user.login") (some (codes "{}")) quiet

abbrev job : Job
job = record {
  endpoint = endpoint;
  delivery = new_delivery (codes "d") (codes "e") (codes "a") (codes "user.login") (codes "{}") 1;
}

abbrev once : Webhooks
once = deliver unreachable (100 * second) served 0 job started

once-IsConsistent : IsConsistent once
unfolding run
once-IsConsistent = record {
  records = (
    record { counted = omega arith; bounded = omega arith; retries = inr (omega arith, refl) },
    tt,
  );
  started = tt;
}

-- The failed delivery, and what starting it again leaves.
abbrev failed_once : WebhookDelivery
failed_once = delivered unreachable (100 * second) job.delivery

abbrev twice : Webhooks
twice = retry_one served served (codes "d2") failed_once once

-- The schedule of the old record stays where the query that clears it is refused.
Work-IsConsistent_example : IsConsistent (retry_one served refused (codes "d2") failed_once once)
unfolding run
Work-IsConsistent_example =
    Work-IsConsistent refused 0 once (retry_one served refused (codes "d2") failed_once once)
      (retry served (codes "d2") failed_once (102 * second) refl refl refl refl) once-IsConsistent

dispatch-requests_example :
    1 ≤ 5 * length (select (listens (codes "a") (codes "user.login")) (endpoint ∷ []))
unfolding run
dispatch-requests_example =
    dispatch-requests served fresh (codes "a") (codes "user.login") (codes "{}") quiet twice 1
      (record { records = tt; started = tt }) refl
      (more (more idle (request unreachable (100 * second) served 0 job refl refl refl))
        (retry served (codes "d2") failed_once (102 * second) refl refl refl refl))
