-- ===== src/Attachments/ServerCodec.antt =====
-- decodeRendezvousAttachment and encodeRendezvousAttachment, with the attachments of servers and their
-- tickets.
use mathlib.Core.Option
use metaserver_worker.Contract.{
  max_server_candidates, max_completions, max_rendezvous_session_signal_bytes,
}
use metaserver_worker.Js.{
  JsValue, Fields, get, has_exact_keys, is_boolean, is_number, is_string, is_bounded_integer,
  is_timestamp, is_hex64, is_connection_id, number_of, text_of, boolean_of, fields_of, array,
  number, string, items_of, items, boolean, object,
}
use metaserver_worker.Attachments.{
  attachment_version, max_session_ms, TicketState, Attachment, ServerAttachment, active,
  TicketStage, client, server, max_retained_tickets,
}
use metaserver_worker.Common.{
  ◌-◌, Bool, not, ◌&&◌, ◌||◌, Option, none, some, List, [], ◌∷◌, leb, ltb, if◌then◌else◌, Text,
  codes, true, any, map, text_eq, ◌>>=◌, length,
}
use metaserver_worker.Attachments.Codec.{
  server_keys, decode_client_attachment, encode_client_attachment,
}

-- The stored tuple of a ticket. Its ninth element is the code 0 of the only authorization.
unfoldable pub encode_ticket_state : TicketState → JsValue
encode_ticket_state t = array (
    items_of (
      string t.ticket_digest
      ∷ string t.client_connection_id
      ∷ number t.opened_at
      ∷ number t.expires_at
      ∷ number (elim t.stage [ active ↦ 0 | TicketStage.terminal ↦ 1 ])
      ∷ number t.server_candidates
      ∷ number t.completion_count
      ∷ number t.signal_bytes
      ∷ number 0
      ∷ number t.client_authorization_frames
      ∷ number t.server_authorization_frames
      ∷ []))

unfoldable pub encode_server_attachment : ServerAttachment → Fields
encode_server_attachment a = fields_of (
    (codes "v", number attachment_version)
    ∷ (codes "r", string (codes "s"))
    ∷ (codes "u", boolean a.current)
    ∷ (codes "p", boolean a.access_protocol)
    ∷ (codes "c", string a.control_id)
    ∷ (codes "g", string a.generation)
    ∷ (codes "o", number a.opened_at)
    ∷ (codes "t", array (items_of (map encode_ticket_state a.tickets)))
    ∷ [])

unfoldable pub encode_rendezvous_attachment : Attachment → JsValue
encode_rendezvous_attachment (client a) = object (encode_client_attachment a)
encode_rendezvous_attachment (server a) = object (encode_server_attachment a)

-- `isStoredTicketState` and `decodeTicketState` on the eleven elements.
unfoldable pub decode_ticket_state : List JsValue → Option TicketState
decode_ticket_state
      (digest ∷ connection ∷ opened ∷ expires ∷ stage ∷ candidates ∷ completions ∷ bytes
        ∷ authorization ∷ client_frames ∷ server_frames ∷ []) =
    if is_hex64 digest
      && is_connection_id connection
      && is_timestamp opened
      && is_timestamp expires
      && ltb (number_of opened) (number_of expires)
      && leb (number_of expires - number_of opened) max_session_ms
      && (is_number 0 stage || is_number 1 stage)
      && is_bounded_integer candidates 0 max_server_candidates
      && is_bounded_integer completions 0 max_completions
      && not (is_number 0 stage && not (is_number 0 completions))
      && is_number 0 authorization
      && (is_number 0 client_frames && is_number 0 server_frames)
      && is_bounded_integer bytes 1 max_rendezvous_session_signal_bytes
    then some (record {
      ticket_digest = text_of digest;
      client_connection_id = text_of connection;
      opened_at = number_of opened;
      expires_at = number_of expires;
      stage = if is_number 0 stage then active else TicketStage.terminal;
      client_authorization_frames = number_of client_frames;
      server_authorization_frames = number_of server_frames;
      server_candidates = number_of candidates;
      completion_count = number_of completions;
      signal_bytes = number_of bytes;
    })
    else none
decode_ticket_state _ = none

abbrev pub elements : JsValue → Option (List JsValue)
elements (array vs) = some (items vs)
elements _ = none

-- `every(isStoredTicketState)` and then `map(decodeTicketState)`.
unfoldable pub decode_tickets : List JsValue → Option (List TicketState)
unfolding decode_ticket_state
decode_tickets [] = some []
decode_tickets (v ∷ vs) = do
  elements ← elements v
  ticket ← decode_ticket_state elements
  rest ← decode_tickets vs
  some (ticket ∷ rest)

-- `new Set(texts).size === texts.length`
unfoldable pub all_distinct : List Text → Bool
all_distinct [] = true
all_distinct (t ∷ ts) = not (any (text_eq t) ts) && all_distinct ts

abbrev pub digests : List TicketState → List Text
digests = map λ t. t.ticket_digest

abbrev pub connections : List TicketState → List Text
connections = map λ t. t.client_connection_id

-- The guards of decodeServerAttachment.
unfoldable pub server_is_valid : Fields → List JsValue → List TicketState → Bool
server_is_valid value stored tickets =
    let v = λ (key : Text). get key value in
    has_exact_keys value server_keys
    && is_number attachment_version (v (codes "v"))
    && is_string (codes "s") (v (codes "r"))
    && is_boolean (v (codes "u"))
    && is_boolean (v (codes "p"))
    && is_connection_id (v (codes "c"))
    && is_hex64 (v (codes "g"))
    && is_timestamp (v (codes "o"))
    && leb (length stored) max_retained_tickets
    && all_distinct (digests tickets)
    && all_distinct (connections tickets)

unfoldable pub server_of : Fields → List TicketState → ServerAttachment
server_of value tickets = record {
  current = boolean_of (get (codes "u") value);
  access_protocol = boolean_of (get (codes "p") value);
  control_id = text_of (get (codes "c") value);
  generation = text_of (get (codes "g") value);
  opened_at = number_of (get (codes "o") value);
  tickets = tickets;
}

unfoldable pub decode_server_attachment : Fields → Option ServerAttachment
decode_server_attachment value = do
  stored ← elements (get (codes "t") value)
  tickets ← decode_tickets stored
  if server_is_valid value stored tickets then some (server_of value tickets) else none

unfoldable pub decode_rendezvous_attachment : JsValue → Option Attachment
unfolding decode_client_attachment decode_server_attachment
decode_rendezvous_attachment (object value) =
    if is_number attachment_version (get (codes "v") value)
    then (if is_string (codes "c") (get (codes "r") value)
        then Option.map client (decode_client_attachment value)
        else if is_string (codes "s") (get (codes "r") value)
        then Option.map server (decode_server_attachment value)
        else none)
    else none
decode_rendezvous_attachment _ = none
