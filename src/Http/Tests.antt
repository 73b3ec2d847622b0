-- ===== src/Http/Tests.antt =====
-- Failures of a request on which the theorems are tried.
use metaserver_worker.Common.{◌≡◌, refl, some, [], ◌∷◌, codes, text_eq}
use metaserver_worker.RateLimit.Errors.{Exceeded, request_budget_exceeded}
use metaserver_worker.Http.Requests.{
  handle_request_error, request_failure, budget_failure, publish_classic, publisher, publish_game,
  rendezvous_server, request_rejected, fetch,
}
use metaserver_worker.Http.Handled.{IsAnswered, handle_request_error-IsAnswered}
use metaserver_worker.Http.{rendezvous_server_daily, not_found}

abbrev daily : Exceeded
daily = record {
  scope = codes "rendezvous-server";
  reason = request_budget_exceeded;
  retry_after_seconds = 3600;
  reset_at = some 86_400;
  limit = some 3;
}

daily_reason :
    (handle_request_error (budget_failure daily) rendezvous_server fetch).response.body.body_reason
    ≡ some rendezvous_server_daily
unfolding handle_request_error text_eq
daily_reason = refl

missing_logged :
    (handle_request_error (request_failure 404) publish_game publisher).logged
    ≡ request_rejected publish_game not_found 404 ∷ []
unfolding handle_request_error text_eq
missing_logged = refl

handle_request_error-IsAnswered_example :
    IsAnswered publish_classic publisher
      (handle_request_error (request_failure 409) publish_classic publisher)
handle_request_error-IsAnswered_example =
    handle_request_error-IsAnswered (request_failure 409) publish_classic publisher
