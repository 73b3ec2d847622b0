-- ===== src/Attachments/Codec.antt =====
-- decodeClientAttachment and encodeClientAttachment.
use metaserver_worker.Attachments.Codes.{
  encode_client_stage, decode_client_stage, encode_authorization_state, decode_authorization_state,
  encode_terminal_outcome, decode_terminal_outcome,
}
use metaserver_worker.Attachments.Guards.{
  Lookup, grant_is_valid, identity_is_valid, ranges_are_valid, outcome_is_valid, ticket_is_valid,
  progress_is_valid, authorization_is_valid,
}
use metaserver_worker.Contract.{Outcome}
use metaserver_worker.Js.{
  JsValue, Fields, get, has_exact_keys, is_number, is_string, number_of, text_of, boolean_of,
  nullable_text, nullable_number, fields_of, number, string, text_or_null, boolean, number_or_null,
  null,
}
use metaserver_worker.Attachments.{attachment_version, AuthorizationState, ClientAttachment}
use metaserver_worker.Common.{
  Bool, ◌&&◌, Option, none, some, List, [], ◌∷◌, if◌then◌else◌, Text, codes,
}

abbrev pub client_keys : List Text
client_keys =
    codes "v"
    ∷ codes "r"
    ∷ codes "c"
    ∷ codes "g"
    ∷ codes "i"
    ∷ codes "a"
    ∷ codes "o"
    ∷ codes "x"
    ∷ codes "t"
    ∷ codes "d"
    ∷ codes "s"
    ∷ codes "p"
    ∷ codes "h"
    ∷ codes "j"
    ∷ codes "n"
    ∷ codes "q"
    ∷ codes "z"
    ∷ codes "b"
    ∷ codes "f"
    ∷ codes "m"
    ∷ codes "y"
    ∷ codes "k"
    ∷ codes "u"
    ∷ codes "e"
    ∷ codes "l"
    ∷ codes "w"
    ∷ codes "ae"
    ∷ []

abbrev pub server_keys : List Text
server_keys =
    codes "v"
    ∷ codes "r"
    ∷ codes "u"
    ∷ codes "p"
    ∷ codes "c"
    ∷ codes "g"
    ∷ codes "o"
    ∷ codes "t"
    ∷ []

abbrev authorization_or_terminal : Option AuthorizationState → AuthorizationState
authorization_or_terminal none = AuthorizationState.terminal
authorization_or_terminal (some state) = state

-- The attachment that the guards have let through.
unfoldable pub client_of : Lookup → ClientAttachment
client_of v = record {
  control_id = text_of (v (codes "c"));
  generation = text_of (v (codes "g"));
  connection_id = text_of (v (codes "i"));
  admission_id = number_of (v (codes "a"));
  opened_at = number_of (v (codes "o"));
  expires_at = number_of (v (codes "x"));
  bound_ticket_hash = nullable_text (v (codes "l"));
  access_client_nonce = nullable_text (v (codes "w"));
  access_expires_at = nullable_number (v (codes "ae"));
  access_grant = nullable_text (v (codes "u"));
  access_redemption = nullable_text (v (codes "e"));
  ticket = nullable_text (v (codes "t"));
  ticket_digest = nullable_text (v (codes "d"));
  stage = decode_client_stage (number_of (v (codes "s")));
  authorization = authorization_or_terminal (decode_authorization_state (v (codes "p")));
  client_authorization_frames = number_of (v (codes "h"));
  server_authorization_frames = number_of (v (codes "j"));
  client_candidates = number_of (v (codes "n"));
  server_candidates = number_of (v (codes "q"));
  completion_count = number_of (v (codes "z"));
  signal_bytes = number_of (v (codes "b"));
  frames_forwarded = number_of (v (codes "f"));
  summary_emitted = boolean_of (v (codes "m"));
  terminal_outcome = decode_terminal_outcome (v (codes "y"));
  terminal_close_attempts = number_of (v (codes "k"));
}

unfoldable pub client_is_valid : Lookup → Bool
client_is_valid v =
    grant_is_valid v
    && identity_is_valid v
    && ranges_are_valid v
    && outcome_is_valid v
    && ticket_is_valid v
    && progress_is_valid v
    && authorization_is_valid v

unfoldable pub decode_client_attachment : Fields → Option ClientAttachment
decode_client_attachment value =
    let v = λ (key : Text). get key value in
    if has_exact_keys value client_keys
      && is_number attachment_version (v (codes "v"))
      && is_string (codes "c") (v (codes "r"))
      && client_is_valid v
    then some (client_of v)
    else none

abbrev pub outcome_or_null : Option Outcome → JsValue
outcome_or_null none = null
outcome_or_null (some outcome) = number (encode_terminal_outcome outcome)

unfoldable pub encode_client_attachment : ClientAttachment → Fields
encode_client_attachment a = fields_of (
    (codes "v", number attachment_version)
    ∷ (codes "r", string (codes "c"))
    ∷ (codes "l", text_or_null a.bound_ticket_hash)
    ∷ (codes "w", text_or_null a.access_client_nonce)
    ∷ (codes "ae", number_or_null a.access_expires_at)
    ∷ (codes "u", text_or_null a.access_grant)
    ∷ (codes "e", text_or_null a.access_redemption)
    ∷ (codes "c", string a.control_id)
    ∷ (codes "g", string a.generation)
    ∷ (codes "i", string a.connection_id)
    ∷ (codes "a", number a.admission_id)
    ∷ (codes "o", number a.opened_at)
    ∷ (codes "x", number a.expires_at)
    ∷ (codes "t", text_or_null a.ticket)
    ∷ (codes "d", text_or_null a.ticket_digest)
    ∷ (codes "s", number (encode_client_stage a.stage))
    ∷ (codes "p", number (encode_authorization_state a.authorization))
    ∷ (codes "h", number a.client_authorization_frames)
    ∷ (codes "j", number a.server_authorization_frames)
    ∷ (codes "n", number a.client_candidates)
    ∷ (codes "q", number a.server_candidates)
    ∷ (codes "z", number a.completion_count)
    ∷ (codes "b", number a.signal_bytes)
    ∷ (codes "f", number a.frames_forwarded)
    ∷ (codes "m", boolean a.summary_emitted)
    ∷ (codes "y", outcome_or_null a.terminal_outcome)
    ∷ (codes "k", number a.terminal_close_attempts)
    ∷ [])
