-- ===== src/Contract/Tests.antt =====
-- A client's candidate as a room reads it and forwards it.
use metaserver_worker.Contract.{Signal, client_candidate}
use metaserver_worker.Contract.Signals.{parse_signal_object, serialize_rendezvous_signal}
use metaserver_worker.Contract.Signals.Relay.{parse-serialize_accepted}
use metaserver_worker.Js.{Fields, fields_of, string, number, get, has_exact_keys, js_tests}
use metaserver_worker.Protocol.{normalize_ip_address}
use metaserver_worker.Protocol.Idempotent.{normalize_ip_address_stable}
use metaserver_worker.Common.{◌≡◌, refl, some, [], ◌∷◌, Text, codes, replicate, text_eq, is_hex}

abbrev relayed_ticket : Text
relayed_ticket = replicate 64 97

abbrev received : Fields
received = fields_of (
    (codes "ticket", string relayed_ticket)
    ∷ (codes "type", string (codes "client_candidate"))
    ∷ (codes "host", string (codes "192.0.2.1"))
    ∷ (codes "port", number 13_327)
    ∷ [])

abbrev relayed : Signal
relayed = client_candidate (codes "192.0.2.1") 13_327 relayed_ticket

received-accepted : parse_signal_object normalize_ip_address received ≡ some relayed
unfolding parse_signal_object get has_exact_keys text_eq js_tests is_hex normalize_ip_address
received-accepted = refl

parse-serialize_accepted_example :
    parse_signal_object normalize_ip_address (serialize_rendezvous_signal relayed) ≡ some relayed
parse-serialize_accepted_example =
    parse-serialize_accepted normalize_ip_address received relayed normalize_ip_address_stable
      received-accepted
