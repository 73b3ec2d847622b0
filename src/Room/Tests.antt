-- ===== src/Room/Tests.antt =====
-- A room with one waiting client, on which the teardown's theorems are tried.
use mathlib.Core.List.{Memᴰ}
use metaserver_worker.Attachments.{
  client, ClientAttachment, ServerAttachment, TicketState, awaiting_candidate, active, not_required,
}
use metaserver_worker.Attachments.Valid.{IsClient, waiting, no_grant}
use metaserver_worker.Attachments.ServerCodec.{
  encode_rendezvous_attachment, decode_rendezvous_attachment,
}
use metaserver_worker.Attachments.ServerTrip.{decode-encode_attachment}
use metaserver_worker.Js.{is_uuid}
use metaserver_worker.Room.Teardown.{
  fail_client, mark_tickets_on, mark_ticket_on, mark_first, write_marked, marked_server,
  ended_client,
}
use metaserver_worker.Room.Rules.{
  newer_server, rendezvous_outcome_for_close, ServerFrame, candidate, remember_bounded, completion,
  rendezvous_close_for_outcome, earlier,
}
use metaserver_worker.Room.Teardown.Retire.{
  Ready, Retired, fail_client_retires, fail_client_refused,
}
use metaserver_worker.Room.State.{
  Environment, read_client_attachment, Room, try_write_attachment, throws, read_attachment, closes,
  client_part, close_socket,
}
use metaserver_worker.Room.Alarms.Due.{IsFuture, SetBy}
use metaserver_worker.Room.Alarms.Awaited.{
  schedule_next_alarm_due, live_client, IsAwaited, live_due,
}
use metaserver_worker.Room.Rules.Budget.{run_frames, after, Fits, run_frames_iff}
use metaserver_worker.Room.Teardown.Once.{attempts, metric_once}
use metaserver_worker.Contract.{
  server_replaced_close, Outcome, session_expired_close, internal_error_close,
}
use metaserver_worker.Room.Alarms.{schedule_next_alarm, soonest_server, soonest_client, sooner}
use metaserver_worker.Room.Rules.Memory.{
  newer_server_order, outcome_for_close_iff, remember_bounded_keeps,
}
use metaserver_worker.Room.Teardown.Cases.{canonical}
use metaserver_worker.Room.Alarms.Reasons.{schedule_next_alarm-IsAwaited}
use metaserver_worker.Common.{
  ℕ, ◌≡◌, refl, none, some, List, [], ◌∷◌, Text, codes, replicate, is_hex, arith, true, false,
  length, ap, ◌≤◌, ◌⊎◌, ◌≢◌, not, text_lt, ◌↔◌, ◌+◌, any, text_eq, ◌++◌, max, ◌<◌,
}

abbrev pub control : Text
control = codes "6ba7b810-9dad-41d1-80b4-00c04fd430c8"

abbrev pub connection : Text
connection = codes "6ba7b811-9dad-41d1-80b4-00c04fd430c8"

abbrev pub digits : Text
digits = replicate 64 97

abbrev pub waiting_client : ClientAttachment
waiting_client = record {
  control_id = control;
  generation = digits;
  connection_id = connection;
  admission_id = 7;
  opened_at = 1_000;
  expires_at = 6_000;
  bound_ticket_hash = some digits;
  access_client_nonce = none;
  access_expires_at = none;
  access_grant = none;
  access_redemption = none;
  ticket = none;
  ticket_digest = none;
  stage = awaiting_candidate;
  authorization = not_required;
  client_authorization_frames = 0;
  server_authorization_frames = 0;
  client_candidates = 0;
  server_candidates = 0;
  completion_count = 0;
  signal_bytes = 0;
  frames_forwarded = 0;
  summary_emitted = false;
  terminal_outcome = none;
  terminal_close_attempts = 0;
}

waiting_client-IsClient : IsClient waiting_client
unfolding is_uuid is_hex
waiting_client-IsClient = record {
  control = refl;
  generated = refl;
  connected = refl;
  admitted = omega arith;
  admission_safe = omega arith;
  opened_before = omega arith;
  short = omega arith;
  safe = omega arith;
  no_client_authorization = refl;
  no_server_authorization = refl;
  bytes_bounded = omega arith;
  forwarded_bounded = omega arith;
  bytes_iff = (λ h. refl, λ h. refl);
  staged =
      waiting refl (λ h. ground arith) (no_grant refl refl refl refl) refl refl refl refl refl refl
        refl refl refl;
}

decode-encode_attachment_example :
    decode_rendezvous_attachment (encode_rendezvous_attachment (client waiting_client))
    ≡ some (client waiting_client)
decode-encode_attachment_example =
    decode-encode_attachment (client waiting_client) waiting_client-IsClient

abbrev one_client : Room
one_client = record {
  client_sockets = 1 ∷ [];
  server_sockets = 2 ∷ [];
  socket = λ s. record {
    open_now = true;
    stored = encode_rendezvous_attachment (client waiting_client);
  };
  calls = 0;
  current_generation = some digits;
  pending_client_outcome = λ s. none;
  pending_server_outcome = λ s. none;
  inactive_controls = [];
  finalized_connections = [];
  metrics = [];
  sent = [];
  closed_with = [];
}

abbrev calm_platform : Environment
calm_platform = record {
  write_throws = λ n. false;
  close_effect = λ n. closes;
  send_throws = λ n. false;
  clock = λ n. 6_000 + n;
}

abbrev broken_platform : Environment
broken_platform = record {
  write_throws = λ n. true;
  close_effect = λ n. throws;
  send_throws = λ n. true;
  clock = λ n. 6_000 + n;
}

one_client-reads : read_client_attachment one_client 1 ≡ some waiting_client
unfolding read_client_attachment read_attachment
one_client-reads =
    ap client_part (decode-encode_attachment (client waiting_client) waiting_client-IsClient)

one_client-Ready : Ready one_client 1 waiting_client
one_client-Ready = record {
  valid = waiting_client-IsClient;
  stored_here = one_client-reads;
  not_server = refl;
  honest = λ h. ground arith;
}

calm_answer :
    (fail_client calm_platform one_client 1 waiting_client Outcome.session_expired
      session_expired_close).1
    ≡ true
unfolding fail_client try_write_attachment
calm_answer = refl

fail_client_retires_example :
    Retired Outcome.session_expired
      (fail_client calm_platform one_client 1 waiting_client Outcome.session_expired
        session_expired_close).0
      1
fail_client_retires_example =
    fail_client_retires calm_platform one_client 1 waiting_client Outcome.session_expired
      session_expired_close one_client-Ready calm_answer

broken_answer :
    (fail_client broken_platform one_client 1 waiting_client Outcome.session_expired
      session_expired_close).1
    ≡ false
unfolding fail_client try_write_attachment mark_tickets_on mark_ticket_on mark_first close_socket
    write_marked marked_server
broken_answer = refl

fail_client_refused_example :
    ((fail_client broken_platform one_client 1 waiting_client Outcome.session_expired
          session_expired_close).0.socket
        1
      ≡ one_client.socket 1)
    × ((fail_client broken_platform one_client 1 waiting_client Outcome.session_expired
          session_expired_close).0.metrics
        ≡ [])
    × (canonical
          (fail_client broken_platform one_client 1 waiting_client Outcome.session_expired
            session_expired_close).0
          1
          waiting_client
          Outcome.internal_error
        ≡ Outcome.session_expired)
fail_client_refused_example =
    fail_client_refused broken_platform one_client 1 waiting_client Outcome.session_expired
      Outcome.internal_error session_expired_close waiting_client-IsClient refl broken_answer

metric_once_example :
    (length
        (attempts broken_platform 1
          ((Outcome.session_expired, session_expired_close)
            ∷ (Outcome.internal_error, internal_error_close)
            ∷ [])
          one_client).metrics
      ≤ 1)
    × (false ≡ true
        → (attempts broken_platform 1
            ((Outcome.session_expired, session_expired_close)
              ∷ (Outcome.internal_error, internal_error_close)
              ∷ [])
            one_client).metrics
          ≡ [])
metric_once_example =
    metric_once broken_platform 1
      ((Outcome.session_expired, session_expired_close)
        ∷ (Outcome.internal_error, internal_error_close)
        ∷ [])
      one_client waiting_client (waiting_client-IsClient, one_client-reads, refl)

schedule_next_alarm_due_example :
    SetBy (schedule_next_alarm one_client 2_000 none) (max 2_001 6_000)
    × IsFuture 2_000 (schedule_next_alarm one_client 2_000 none)
schedule_next_alarm_due_example =
    schedule_next_alarm_due one_client 2_000 none 6_000
      (live_client 1 waiting_client (Memᴰ.head refl) refl one_client-reads refl)

abbrev lone_client : Room
lone_client = record one_client { server_sockets = [] }

lone_client-reads : read_client_attachment lone_client 1 ≡ some waiting_client
unfolding read_client_attachment read_attachment
lone_client-reads =
    ap client_part (decode-encode_attachment (client waiting_client) waiting_client-IsClient)

lone_client_soonest : soonest_client lone_client 2_000 (1 ∷ []) none ≡ some 6_000
unfolding soonest_client sooner earlier
lone_client_soonest =
    ap (sooner 2_000 none) (live_due lone_client 1 waiting_client refl lone_client-reads refl)

lone_client_alarm : schedule_next_alarm lone_client 2_000 (some 9_000) ≡ some 6_000
unfolding schedule_next_alarm soonest_server sooner earlier
lone_client_alarm = ap (λ next. sooner 2_000 next (some 9_000)) lone_client_soonest

schedule_next_alarm-IsAwaited_example :
    (at : ℕ) × IsAwaited lone_client (some 9_000) at × (6_000 ≡ max 2_001 at)
schedule_next_alarm-IsAwaited_example =
    schedule_next_alarm-IsAwaited lone_client (some 9_000) 2_000 6_000 lone_client_alarm

abbrev new_ticket : TicketState
new_ticket = record {
  ticket_digest = digits;
  client_connection_id = connection;
  opened_at = 1_000;
  expires_at = 6_000;
  stage = active;
  client_authorization_frames = 0;
  server_authorization_frames = 0;
  server_candidates = 0;
  completion_count = 0;
  signal_bytes = 120;
}

abbrev two_frames : List (ServerFrame × ℕ)
two_frames = (candidate, 100) ∷ (completion, 40) ∷ []

run_frames_iff_example :
    (run_frames new_ticket two_frames ≡ some (after new_ticket two_frames))
    ↔ (Fits new_ticket two_frames × (after new_ticket two_frames ≡ after new_ticket two_frames))
run_frames_iff_example =
    run_frames_iff new_ticket two_frames (after new_ticket two_frames)
      (omega arith, omega arith, omega arith)

abbrev two_known : List Text
two_known = codes "a" ∷ codes "b" ∷ []

abbrev one_more : List Text
one_more = remember_bounded two_known (codes "c") 2

remember_bounded_keeps_example :
    ((any (text_eq (codes "c")) two_known ≡ true) × (one_more ≡ two_known))
    ⊎ (((any (text_eq (codes "c")) two_known ≡ false)
          × (2 < 2)
          × (one_more ≡ two_known ++ (codes "c" ∷ [])))
        ⊎ ((any (text_eq (codes "c")) two_known ≡ false)
            × (length two_known ≡ 2)
            × ((oldest : Text) × (kept : List Text) × (two_known ≡ oldest ∷ kept)
                × (one_more ≡ kept ++ (codes "c" ∷ [])))))
remember_bounded_keeps_example =
    remember_bounded_keeps two_known (codes "c") 2 (omega arith) (omega arith)

outcome_for_close_iff_example :
    ((rendezvous_outcome_for_close server_replaced_close ≡ some Outcome.server_replaced)
      → rendezvous_close_for_outcome Outcome.server_replaced ≡ server_replaced_close)
    × (rendezvous_outcome_for_close (rendezvous_close_for_outcome Outcome.server_replaced)
        ≡ some Outcome.server_replaced)
outcome_for_close_iff_example = outcome_for_close_iff server_replaced_close Outcome.server_replaced

abbrev control_at : ℕ → ServerAttachment
control_at time = record {
  current = true;
  access_protocol = false;
  control_id = control;
  generation = digits;
  opened_at = time;
  tickets = [];
}

newer_server_order_example :
    ((newer_server (control_at 3) (control_at 2) ≡ true) ↔ (
      (2 < 3)
      ⊎ (((control_at 3).opened_at ≡ (control_at 2).opened_at) × (text_lt control control ≡ true))))
    × ((newer_server (control_at 3) (control_at 2) ≡ true)
        → (newer_server (control_at 2) (control_at 1) ≡ true)
        → newer_server (control_at 3) (control_at 1) ≡ true)
    × ((control ≢ control)
        → newer_server (control_at 3) (control_at 2)
          ≡ not (newer_server (control_at 2) (control_at 3)))
newer_server_order_example = newer_server_order (control_at 3) (control_at 2) (control_at 1)

abbrev expired_client : ClientAttachment
expired_client = ended_client waiting_client Outcome.session_expired
