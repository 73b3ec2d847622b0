-- ===== src/Contract/Signals.antt =====
-- parseSignalObject and serializeRendezvousSignal of src/rendezvous-contract.ts, between the object
-- that JSON.parse returns and the object that JSON.stringify takes. The normalization of addresses
-- (src/protocol.ts) is an argument: none where it throws.
pub mod Relay
use metaserver_worker.Contract.{
  Signal, CandidateKind, client_candidate, server_candidate, complete, lan, ipv6, mapped, srflx,
}
use metaserver_worker.Js.{
  JsValue, Fields, get, has_exact_keys, is_string, is_hex64, is_bounded_integer, number_of, text_of,
  fields_of, string, number,
}
use metaserver_worker.Common.{
  ℕ, Bool, true, false, not, ◌&&◌, ◌||◌, Option, none, some, List, [], ◌∷◌, if◌then◌else◌, Text,
  codes, ◌>>=◌,
}

abbrev pub client_candidate_keys : List Text
client_candidate_keys = codes "type" ∷ codes "host" ∷ codes "port" ∷ codes "ticket" ∷ []

abbrev pub server_candidate_keys : List Text
server_candidate_keys =
    codes "type" ∷ codes "host" ∷ codes "port" ∷ codes "kind" ∷ codes "ticket" ∷ []

abbrev pub complete_keys : List Text
complete_keys = codes "type" ∷ codes "ticket" ∷ []

unfoldable pub is_text : JsValue → Bool
is_text (string s) = true
is_text _ = false

unfoldable pub is_port : JsValue → Bool
is_port value = is_bounded_integer value 1 65_535

abbrev pub kind_name : CandidateKind → Text
kind_name lan = codes "lan"
kind_name ipv6 = codes "ipv6"
kind_name mapped = codes "mapped"
kind_name srflx = codes "srflx"

-- isServerSignalCandidateKind, with the kind that a value names.
unfoldable pub parse_kind : JsValue → Option CandidateKind
parse_kind value =
    if is_string (codes "lan") value
    then some lan
    else if is_string (codes "ipv6") value
    then some ipv6
    else if is_string (codes "mapped") value
    then some mapped
    else if is_string (codes "srflx") value
    then some srflx
    else none

unfoldable pub parse_complete : Fields → Option Signal
parse_complete fields =
    if has_exact_keys fields complete_keys && is_hex64 (get (codes "ticket") fields)
    then some (complete (text_of (get (codes "ticket") fields)))
    else none

unfoldable pub parse_client : Fields → Text → Option Signal
parse_client fields host =
    if has_exact_keys fields client_candidate_keys
    then some (
        client_candidate host (number_of (get (codes "port") fields))
          (text_of (get (codes "ticket") fields)))
    else none

unfoldable pub parse_server : Fields → Text → Option Signal
unfolding parse_kind
parse_server fields host =
    if has_exact_keys fields server_candidate_keys
    then (do
      kind ← parse_kind (get (codes "kind") fields)
      some (
          server_candidate host (number_of (get (codes "port") fields)) kind
            (text_of (get (codes "ticket") fields))))
    else none

unfoldable pub parse_candidate : (Text → Option Text) → Fields → Option Signal
unfolding is_text is_port parse_client parse_server
parse_candidate normalize fields =
    if is_text (get (codes "host") fields)
      && is_port (get (codes "port") fields)
      && is_hex64 (get (codes "ticket") fields)
    then (do
      host ← normalize (text_of (get (codes "host") fields))
      if is_string (codes "client_candidate") (get (codes "type") fields)
          then parse_client fields host
          else parse_server fields host)
    else none

unfoldable pub parse_signal_object : (Text → Option Text) → Fields → Option Signal
unfolding parse_complete parse_candidate
parse_signal_object normalize fields =
    let type = get (codes "type") fields in
    if is_string (codes "complete") type
    then parse_complete fields
    else if is_string (codes "client_candidate") type || is_string (codes "server_candidate") type
    then parse_candidate normalize fields
    else none

-- The object that serializeRendezvousSignal turns into JSON.
unfoldable pub serialize_rendezvous_signal : Signal → Fields
serialize_rendezvous_signal (client_candidate host port ticket) = fields_of (
    (codes "type", string (codes "client_candidate"))
    ∷ (codes "host", string host)
    ∷ (codes "port", number port)
    ∷ (codes "ticket", string ticket)
    ∷ [])
serialize_rendezvous_signal (server_candidate host port kind ticket) = fields_of (
    (codes "type", string (codes "server_candidate"))
    ∷ (codes "host", string host)
    ∷ (codes "port", number port)
    ∷ (codes "kind", string (kind_name kind))
    ∷ (codes "ticket", string ticket)
    ∷ [])
serialize_rendezvous_signal (complete ticket) =
    fields_of ((codes "type", string (codes "complete")) ∷ (codes "ticket", string ticket) ∷ [])
