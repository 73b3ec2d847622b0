-- ===== src/Room/RelayTests.antt =====
-- A room where one client has opened a ticket at the server, and another is about to.
use metaserver_worker.Common.{
  refl, ◌≡◌, true, false, none, some, List, [], ◌∷◌, ◌==◌, if◌then◌else◌, replicate, Text, codes,
  ◌⊎◌, text_eq, ap, is_hex, arith, ◌∙◌,
}
use metaserver_worker.Attachments.{
  ClientAttachment, TicketState, ServerAttachment, candidate_exchange, active, client, server,
}
use metaserver_worker.Room.Relay.{receive_server_frame, Delivery, resume_server_frame}
use metaserver_worker.Room.State.{
  Room, Environment, SocketId, closes, relayed, read_client_attachment, read_server_attachment,
  read_attachment, server_part,
}
use metaserver_worker.Contract.{Signal, server_candidate, lan, client_candidate}
use metaserver_worker.Room.Rules.{candidate}
use metaserver_worker.Room.Tests.{digits, connection, waiting_client, control}
use metaserver_worker.Js.{JsValue, is_uuid}
use metaserver_worker.Room.Relay.Holder.{Confined, receive_server_frame-Confined}
use metaserver_worker.Room.Messages.{Parsed, begin_client_ticket, Learned}
use metaserver_worker.Room.Ownership.{
  ActiveServer, reconcile_active_server, current_open_servers, is_current, active_among, active_on,
}
use metaserver_worker.Room.Relay.Settled.{IsRenewed}
use metaserver_worker.Room.Relay.Resumed.{resume_server_frame-Renewed}
use metaserver_worker.Room.Messages.Conditions.{IsOpened}
use metaserver_worker.Room.Messages.Begin.{begin_client_ticket-Opens}
use metaserver_worker.Attachments.Valid.{IsTicket, IsServer}
use metaserver_worker.Attachments.ServerTrip.{decode-encode_attachment}
use metaserver_worker.Attachments.ServerCodec.{encode_rendezvous_attachment, all_distinct}

-- Every call of the platform succeeds, at one moment.
abbrev steady_platform : Environment
steady_platform = record {
  write_throws = λ n. false;
  close_effect = λ n. closes;
  send_throws = λ n. false;
  clock = λ n. 2_000;
}

abbrev raw_ticket : Text
raw_ticket = replicate 64 98

abbrev digest : Text
digest = replicate 64 99

abbrev holder : ClientAttachment
holder = record waiting_client {
  stage = candidate_exchange;
  ticket = some raw_ticket;
  ticket_digest = some digest;
  client_candidates = 1;
  signal_bytes = 90;
}

abbrev open_ticket_state : TicketState
open_ticket_state = record {
  ticket_digest = digest;
  client_connection_id = connection;
  opened_at = 1_000;
  expires_at = 6_000;
  stage = active;
  client_authorization_frames = 0;
  server_authorization_frames = 0;
  server_candidates = 0;
  completion_count = 0;
  signal_bytes = 90;
}

abbrev owner_with : List TicketState → ServerAttachment
owner_with tickets = record {
  current = true;
  access_protocol = false;
  control_id = control;
  generation = digits;
  opened_at = 500;
  tickets = tickets;
}

abbrev stored_on : ClientAttachment → List TicketState → SocketId → JsValue
stored_on a tickets s =
    if s == 1
    then encode_rendezvous_attachment (client a)
    else encode_rendezvous_attachment (server (owner_with tickets))

abbrev room_of : ClientAttachment → List TicketState → Room
room_of a tickets = record {
  client_sockets = 1 ∷ [];
  server_sockets = 2 ∷ [];
  socket = λ s. record { open_now = true; stored = stored_on a tickets s };
  calls = 0;
  current_generation = some digits;
  pending_client_outcome = λ s. none;
  pending_server_outcome = λ s. none;
  inactive_controls = [];
  finalized_connections = [];
  metrics = [];
  sent = [];
  closed_with = [];
}

abbrev exchanging_room : Room
exchanging_room = room_of holder (open_ticket_state ∷ [])

abbrev answer : Signal
answer = server_candidate (codes "192.0.2.7") 13_327 lan raw_ticket

abbrev at_once : Delivery
at_once = record {
  server = owner_with (open_ticket_state ∷ []);
  ticket = open_ticket_state;
  target = record { socket = 1; attachment = holder };
}

receive_server_frame-Confined_example :
    Confined steady_platform 2 candidate raw_ticket digest answer 90 exchanging_room (
      receive_server_frame steady_platform exchanging_room 2 candidate
        (owner_with [])
        raw_ticket
        digest
        90)
receive_server_frame-Confined_example =
    receive_server_frame-Confined steady_platform 2 candidate raw_ticket digest answer 90
      exchanging_room (owner_with [])

abbrev sole_owner : ActiveServer
sole_owner = record { socket = 2; attachment = owner_with (open_ticket_state ∷ []) }

open_ticket_state-IsTicket : IsTicket open_ticket_state
unfolding is_uuid is_hex
open_ticket_state-IsTicket = record {
  digest = refl;
  connected = refl;
  opened_before = omega arith;
  short = omega arith;
  safe = omega arith;
  candidates_bounded = omega arith;
  completions_bounded = omega arith;
  completed_last = λ h. refl;
  no_client_authorization = refl;
  no_server_authorization = refl;
  bytes_positive = omega arith;
  bytes_bounded = omega arith;
}

sole_owner-IsServer : IsServer (owner_with (open_ticket_state ∷ []))
unfolding is_uuid is_hex all_distinct
sole_owner-IsServer = record {
  control = refl;
  generated = refl;
  opened_safe = omega arith;
  few = omega arith;
  digests_distinct = refl;
  connections_distinct = refl;
  ticketed = (open_ticket_state-IsTicket, tt);
}

sole_owner-reads : read_server_attachment exchanging_room 2 ≡ some sole_owner.attachment
unfolding read_server_attachment read_attachment
sole_owner-reads =
    ap server_part
      (decode-encode_attachment (server (owner_with (open_ticket_state ∷ []))) sole_owner-IsServer)

sole_active :
    (room : Room) (s : SocketId) (a : ServerAttachment)
    → (room.socket s).open_now ≡ true
    → read_server_attachment room s ≡ some a
    → is_current room.current_generation a ≡ true
    → active_on room none s ≡ some (record { socket = s; attachment = a })
unfolding active_on
sole_active room s a up stored newest = rw (up, stored, newest) refl

sole_control :
    (room : Room) (s : SocketId) (a : ServerAttachment)
    → room.server_sockets ≡ s ∷ []
    → active_on room none s ≡ some (record { socket = s; attachment = a })
    → current_open_servers room none ≡ record { socket = s; attachment = a } ∷ []
unfolding current_open_servers
sole_control room s a listed found =
    ap (active_among room none) listed ∙ rw (found, active_among) refl

only_control : current_open_servers exchanging_room none ≡ sole_owner ∷ []
unfolding is_current text_eq
only_control =
    sole_control exchanging_room 2 sole_owner.attachment refl
      (sole_active exchanging_room 2 sole_owner.attachment refl sole_owner-reads refl)

resume_server_frame-Renewed_example :
    ((resume_server_frame steady_platform exchanging_room 2 candidate at_once answer 90 true).0.sent
      ≡ [])
    ⊎ ((latest : ClientAttachment) × ((resume_server_frame steady_platform exchanging_room 2
            candidate at_once answer 90 true).0.sent
          ≡ (1, relayed answer) ∷ [])
        × IsRenewed steady_platform exchanging_room 2 at_once sole_owner latest true)
resume_server_frame-Renewed_example =
    resume_server_frame-Renewed steady_platform 2 candidate at_once answer 90 exchanging_room
      sole_owner true (λ t. refl) only_control

abbrev waiting_room : Room
waiting_room = room_of waiting_client []

abbrev offer : Parsed
offer = record { signal = client_candidate (codes "192.0.2.1") 13_327 raw_ticket; bytes = 90 }

abbrev found_out : Learned
found_out = record { digest = digest; bound_hash = digits; access_live = false }

begin_client_ticket-Opens_example :
    ((begin_client_ticket steady_platform waiting_room 1 waiting_client raw_ticket offer
        found_out).0.sent
      ≡ [])
    ⊎ ((current : ClientAttachment) × (owner : ActiveServer) × (read_client_attachment waiting_room
            1
          ≡ some current)
        × ((reconcile_active_server steady_platform waiting_room none).active ≡ some owner)
        × ((begin_client_ticket steady_platform waiting_room 1 waiting_client raw_ticket offer
              found_out).0.sent
            ≡ (owner.socket, relayed offer.signal) ∷ [])
        × IsOpened steady_platform
            (reconcile_active_server steady_platform waiting_room none).room
            waiting_client
            current
            raw_ticket
            found_out
            owner)
begin_client_ticket-Opens_example =
    begin_client_ticket-Opens steady_platform 1 raw_ticket offer found_out waiting_room
      waiting_client
