-- ===== src/Attachments/ServerTrip.antt =====
-- The same for the attachments of server sockets and their tickets.
use metaserver_worker.Attachments.{
  active, TicketStage, ServerAttachment, TicketState, Attachment, client, server,
  attachment_version,
}
use metaserver_worker.Attachments.Valid.{IsTicket, IsServer, IsClient}
use metaserver_worker.Attachments.ServerCodec.{
  encode_server_attachment, decode_server_attachment, encode_ticket_state, decode_ticket_state,
  decode_tickets, server_is_valid, server_of, elements, decode_rendezvous_attachment,
  encode_rendezvous_attachment,
}
use metaserver_worker.Common.{
  ◌≡◌, refl, true, some, arith, List, [], ◌∷◌, map, All, length, text_eq, ap, codes, false,
}
use metaserver_worker.Attachments.RoundTrip.{client_version, client_role, decode-encode_client}
use metaserver_worker.Js.{
  js_tests, JsValue, get, items_of, items, string, has_exact_keys, number, is_number, is_string,
}

items-items_of : (vs : List JsValue) → items (items_of vs) ≡ vs
items-items_of [] = refl
items-items_of (v ∷ vs) = rw (items-items_of vs)

ticket_elements : TicketState → List JsValue
ticket_elements t =
    string t.ticket_digest
    ∷ string t.client_connection_id
    ∷ number t.opened_at
    ∷ number t.expires_at
    ∷ number (elim t.stage [ active ↦ 0 | TicketStage.terminal ↦ 1 ])
    ∷ number t.server_candidates
    ∷ number t.completion_count
    ∷ number t.signal_bytes
    ∷ number 0
    ∷ number t.client_authorization_frames
    ∷ number t.server_authorization_frames
    ∷ []

elements-encode : (t : TicketState) → elements (encode_ticket_state t) ≡ some (ticket_elements t)
unfolding encode_ticket_state ticket_elements
elements-encode t = refl

decode-ticket_elements :
    (t : TicketState) → IsTicket t → decode_ticket_state (ticket_elements t) ≡ some t
unfolding decode_ticket_state ticket_elements js_tests
decode-ticket_elements t h = ground arith

decode-encode_tickets :
    (ts : List TicketState)
    → All IsTicket ts
    → decode_tickets (map encode_ticket_state ts) ≡ some ts
unfolding decode_tickets
decode-encode_tickets [] h = refl
decode-encode_tickets (t ∷ ts) (h, hs) =
    rw (elements-encode t) (rw (decode-ticket_elements t h) (rw (decode-encode_tickets ts hs)))

length-encoded : (ts : List TicketState) → length (map encode_ticket_state ts) ≡ length ts
length-encoded [] = refl
length-encoded (t ∷ ts) = rw (length-encoded ts)

encoded_server-valid :
    (a : ServerAttachment)
    → IsServer a
    → server_is_valid (encode_server_attachment a) (map encode_ticket_state a.tickets) a.tickets
      ≡ true
unfolding server_is_valid has_exact_keys get encode_server_attachment text_eq js_tests
encoded_server-valid a h = ground (arith, length-encoded a.tickets)

stored_tickets :
    (a : ServerAttachment)
    → elements (get (codes "t") (encode_server_attachment a))
      ≡ some (map encode_ticket_state a.tickets)
unfolding get encode_server_attachment text_eq js_tests
stored_tickets a = ap some (items-items_of (map encode_ticket_state a.tickets))

server_of-encode : (a : ServerAttachment) → server_of (encode_server_attachment a) a.tickets ≡ a
unfolding server_of get encode_server_attachment text_eq js_tests
server_of-encode a = refl

decode-encode_server :
    (a : ServerAttachment)
    → IsServer a
    → decode_server_attachment (encode_server_attachment a) ≡ some a
unfolding decode_server_attachment
decode-encode_server a h =
    rw (stored_tickets a, decode_server_attachment)
      (rw (decode-encode_tickets a.tickets h.ticketed, encoded_server-valid a h)
        (ap some (server_of-encode a)))

server_version :
    (a : ServerAttachment)
    → is_number attachment_version (get (codes "v") (encode_server_attachment a)) ≡ true
unfolding get encode_server_attachment text_eq js_tests
server_version a = refl

server_role :
    (a : ServerAttachment)
    → (is_string (codes "c") (get (codes "r") (encode_server_attachment a)) ≡ false)
      × (is_string (codes "s") (get (codes "r") (encode_server_attachment a)) ≡ true)
unfolding get encode_server_attachment text_eq js_tests
server_role a = (refl, refl)

-- A valid attachment of either role.
abbrev pub IsAttachment : Attachment → Type 0
IsAttachment (client a) = IsClient a
IsAttachment (server a) = IsServer a

-- Decoding what encodeRendezvousAttachment makes of a valid attachment, of either role, gives the
-- same attachment.
pub decode-encode_attachment :
    (a : Attachment)
    → IsAttachment a
    → decode_rendezvous_attachment (encode_rendezvous_attachment a) ≡ some a
unfolding decode_rendezvous_attachment encode_rendezvous_attachment
decode-encode_attachment (client a) h =
    rw (decode-encode_client a h, client_version a, client_role a) refl
decode-encode_attachment (server a) h =
    rw (decode-encode_server a h, server_version a, (server_role a).0, (server_role a).1) refl
