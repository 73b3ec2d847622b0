-- ===== src/Attachments/RoundTrip.antt =====
-- Every valid attachment is read back as it was written.
use metaserver_worker.Attachments.{
  ClientAttachment, Outcome, Option, AuthorizationState, ClientStage, ℕ, attachment_version,
}
use metaserver_worker.Attachments.Valid.{
  no_grant, granted, HasStage, waiting, exchanging, ended, IsClient,
}
use metaserver_worker.Attachments.Codes.{
  encode_client_stage, decode_terminal_outcome, encode_terminal_outcome, encode_authorization_state,
  decode_authorization_state, decode_client_stage,
}
use metaserver_worker.Attachments.Guards.{
  grant_is_valid, identity_is_valid, ranges_are_valid, outcome_is_valid, ticket_is_valid,
  progress_is_valid, authorization_is_valid,
}
use metaserver_worker.Attachments.Codec.{
  encode_client_attachment, decode_client_attachment, client_is_valid, client_of, outcome_or_null,
  client_keys,
}
use metaserver_worker.Common.{
  ◌≡◌, refl, true, some, arith, Text, text_eq, Option, none, ℕ, ap, codes,
}
use metaserver_worker.Contract.{Outcome}
use metaserver_worker.Js.{
  js_tests, JsValue, get, number, null, nullable_text, nullable_number, text_or_null,
  number_or_null, has_exact_keys, is_number, is_string,
}

-- What is stored under each key.
abbrev stored : ClientAttachment → Text → JsValue
stored a key = get key (encode_client_attachment a)

identity : (a : ClientAttachment) → IsClient a → identity_is_valid (stored a) ≡ true
unfolding identity_is_valid get encode_client_attachment text_eq js_tests
identity a h = ground arith

grant : (a : ClientAttachment) → IsClient a → HasStage a → grant_is_valid (stored a) ≡ true
unfolding grant_is_valid get encode_client_attachment text_eq js_tests encode_client_stage
grant a h (waiting s p (no_grant u e w ae) l hash t d n q z y k) = ground arith
grant a h (waiting s p (granted u e w ae hu he hw safe after short) l hash t d n q z y k) =
    ground arith
grant a h (exchanging s p (no_grant u e w ae) l hash t ht d hd n q z y k) = ground arith
grant a h (exchanging s p (granted u e w ae hu he hw safe after short) l hash t ht d hd n q z y k) =
    ground arith
grant a h (ended s p u e w ae l t d n q z y k) = ground arith

ranges : (a : ClientAttachment) → IsClient a → HasStage a → ranges_are_valid (stored a) ≡ true
unfolding ranges_are_valid get encode_client_attachment text_eq js_tests encode_client_stage
    encode_authorization_state
ranges a h (waiting s p g l hash t d n q z y k) = ground arith
ranges a h (exchanging s p g l hash t ht d hd n q z y k) = ground arith
ranges a h (ended s p u e w ae l t d n q z y k) = ground arith

decode-encode_outcome :
    (o : Outcome) → decode_terminal_outcome (number (encode_terminal_outcome o)) ≡ some o
unfolding js_tests decode_terminal_outcome encode_terminal_outcome
decode-encode_outcome Outcome.completed = refl
decode-encode_outcome _ = refl

decode-null : decode_terminal_outcome null ≡ none
unfolding js_tests decode_terminal_outcome
decode-null = refl

outcome : (a : ClientAttachment) → IsClient a → HasStage a → outcome_is_valid (stored a) ≡ true
unfolding outcome_is_valid get encode_client_attachment text_eq js_tests encode_client_stage
outcome a h (waiting s p g l hash t d n q z y k) = ground (arith, decode-null)
outcome a h (exchanging s p g l hash t ht d hd n q z y k) = ground (arith, decode-null)
outcome a h (ended {outcome = o} s p u e w ae l t d n q z y k) =
    ground (arith, decode-encode_outcome o)

ticketed : (a : ClientAttachment) → HasStage a → ticket_is_valid (stored a) ≡ true
unfolding ticket_is_valid get encode_client_attachment text_eq js_tests
ticketed a (waiting s p g l hash t d n q z y k) = ground arith
ticketed a (exchanging s p g l hash t ht d hd n q z y k) = ground arith
ticketed a (ended s p u e w ae l t d n q z y k) = ground arith

progress : (a : ClientAttachment) → IsClient a → HasStage a → progress_is_valid (stored a) ≡ true
unfolding progress_is_valid get encode_client_attachment text_eq js_tests encode_client_stage
progress a h (waiting s p g l hash t d n q z y k) = ground arith
progress a h (exchanging s p g l hash t ht d hd n q z y k) = ground arith
progress a h (ended s p u e w ae l t d n q z y k) = ground arith

authorized :
    (a : ClientAttachment) → IsClient a → HasStage a → authorization_is_valid (stored a) ≡ true
unfolding authorization_is_valid get encode_client_attachment text_eq js_tests encode_client_stage
    encode_authorization_state
authorized a h (waiting s p g l hash t d n q z y k) = ground arith
authorized a h (exchanging s p g l hash t ht d hd n q z y k) = ground arith
authorized a h (ended s p u e w ae l t d n q z y k) = ground arith

encoded-valid : (a : ClientAttachment) → IsClient a → client_is_valid (stored a) ≡ true
unfolding client_is_valid
encoded-valid a h = rw (
  grant a h h.staged,
  identity a h,
  ranges a h h.staged,
  outcome a h h.staged,
  ticketed a h.staged,
  progress a h h.staged,
  authorized a h h.staged,
)

nullable_text-or_null : (o : Option Text) → nullable_text (text_or_null o) ≡ o
unfolding js_tests
nullable_text-or_null none = refl
nullable_text-or_null (some t) = refl

nullable_number-or_null : (o : Option ℕ) → nullable_number (number_or_null o) ≡ o
unfolding js_tests
nullable_number-or_null none = refl
nullable_number-or_null (some n) = refl

decode_outcome-or_null : (o : Option Outcome) → decode_terminal_outcome (outcome_or_null o) ≡ o
decode_outcome-or_null none = decode-null
decode_outcome-or_null (some o) = decode-encode_outcome o

decode-encode_stage : (s : ClientStage) → decode_client_stage (encode_client_stage s) ≡ s
unfolding js_tests decode_client_stage encode_client_stage
decode-encode_stage ClientStage.terminal = refl
decode-encode_stage _ = refl

decode-encode_authorization :
    (p : AuthorizationState)
    → decode_authorization_state (number (encode_authorization_state p)) ≡ some p
unfolding js_tests decode_authorization_state encode_authorization_state
decode-encode_authorization AuthorizationState.terminal = refl
decode-encode_authorization _ = refl

client_of-encode : (a : ClientAttachment) → client_of (stored a) ≡ a
unfolding client_of get encode_client_attachment text_eq js_tests
client_of-encode a = simp (
  nullable_text-or_null, nullable_number-or_null, decode_outcome-or_null, decode-encode_stage,
  decode-encode_authorization,
)

client_keys-encoded :
    (a : ClientAttachment) → has_exact_keys (encode_client_attachment a) client_keys ≡ true
unfolding has_exact_keys encode_client_attachment text_eq
client_keys-encoded a = refl

pub client_version :
    (a : ClientAttachment) → is_number attachment_version (stored a (codes "v")) ≡ true
unfolding get encode_client_attachment text_eq js_tests
client_version a = refl

pub client_role : (a : ClientAttachment) → is_string (codes "c") (stored a (codes "r")) ≡ true
unfolding get encode_client_attachment text_eq js_tests
client_role a = refl

pub decode-encode_client :
    (a : ClientAttachment)
    → IsClient a
    → decode_client_attachment (encode_client_attachment a) ≡ some a
unfolding decode_client_attachment
decode-encode_client a h =
    rw (client_keys-encoded a, client_version a, client_role a, encoded-valid a h)
      (ap some (client_of-encode a))
