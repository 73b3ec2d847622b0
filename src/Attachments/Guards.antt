-- ===== src/Attachments/Guards.antt =====
-- The guards of decodeClientAttachment.
use metaserver_worker.Contract.{
  max_client_candidates, max_server_candidates, max_completions, max_client_authorization_frames,
  max_server_authorization_frames, max_rendezvous_session_signal_bytes, max_terminal_close_attempts,
  terminal_close_retry_horizon_ms,
}
use metaserver_worker.Js.{
  JsValue, is_null, is_boolean, is_number, is_bounded_integer, is_timestamp, is_positive_integer,
  is_hex64, is_connection_id, number_of,
}
use metaserver_worker.Attachments.{max_session_ms}
use metaserver_worker.Common.{
  ℕ, ◌+◌, ◌-◌, Bool, not, ◌&&◌, ◌||◌, leb, ltb, ◌==◌, same, is_some, is_none, if◌then◌else◌, Text,
  codes, max_safe_integer,
}
use metaserver_worker.Attachments.Codes.{decode_terminal_outcome}

-- The value under each key of an object.
abbrev pub Lookup : Type 0
Lookup = Text → JsValue

-- The guards of decodeClientAttachment on the grant and on the ticket's hash.
unfoldable pub grant_is_valid : Lookup → Bool
grant_is_valid v =
    let u = v (codes "u") in
    let e = v (codes "e") in
    let w = v (codes "w") in
    let ae = v (codes "ae") in
    let o = v (codes "o") in
    let terminal = is_number 2 (v (codes "s")) in
    (is_null u && is_null e && is_null w && is_null ae
      || is_hex64 u
        && is_hex64 e
        && is_hex64 w
        && is_timestamp ae
        && is_timestamp o
        && ltb (number_of o) (number_of ae)
        && leb (number_of ae - number_of o) max_session_ms)
    && not (terminal && (not (is_null u) || not (is_null e) || not (is_null w)))
    && (if terminal then is_null (v (codes "l")) else is_hex64 (v (codes "l")))

-- Its guards on the identities and the times.
unfoldable pub identity_is_valid : Lookup → Bool
identity_is_valid v =
    let o = v (codes "o") in
    let x = v (codes "x") in
    is_connection_id (v (codes "c"))
    && is_hex64 (v (codes "g"))
    && is_connection_id (v (codes "i"))
    && is_positive_integer (v (codes "a"))
    && is_timestamp o
    && is_timestamp x
    && ltb (number_of o) (number_of x)
    && leb (number_of x - number_of o) max_session_ms
    && leb (number_of x) (max_safe_integer - terminal_close_retry_horizon_ms)

-- Its guards on the range of each code and counter.
unfoldable pub ranges_are_valid : Lookup → Bool
ranges_are_valid v =
    let s = v (codes "s") in
    let p = v (codes "p") in
    (is_number 0 s || is_number 1 s || is_number 2 s)
    && (is_number 0 p || is_number 1 p || is_number 6 p)
    && is_bounded_integer (v (codes "h")) 0 max_client_authorization_frames
    && is_bounded_integer (v (codes "j")) 0 max_server_authorization_frames
    && is_bounded_integer (v (codes "n")) 0 max_client_candidates
    && is_bounded_integer (v (codes "q")) 0 max_server_candidates
    && is_bounded_integer (v (codes "z")) 0 max_completions
    && is_bounded_integer (v (codes "b")) 0 max_rendezvous_session_signal_bytes
    && is_bounded_integer (v (codes "f")) 0 (
        max_client_authorization_frames + max_server_authorization_frames + max_client_candidates
        + max_server_candidates + max_completions)
    && is_boolean (v (codes "m"))
    && is_bounded_integer (v (codes "k")) 0 max_terminal_close_attempts

-- Its guard on the outcome: exactly a terminal attachment has one.
unfoldable pub outcome_is_valid : Lookup → Bool
outcome_is_valid v =
    let y = v (codes "y") in
    not (not (is_null y) && is_none (decode_terminal_outcome y))
    && same (is_number 2 (v (codes "s"))) (is_some (decode_terminal_outcome y))

-- Ticket and digest are both null or both 64 hexadecimal digits.
unfoldable pub ticket_is_valid : Lookup → Bool
ticket_is_valid v =
    let t = v (codes "t") in
    let d = v (codes "d") in is_null t && is_null d || is_hex64 t && is_hex64 d

abbrev pub accepted_frames : Lookup → ℕ
accepted_frames v =
    number_of (v (codes "h"))
    + number_of (v (codes "j"))
    + number_of (v (codes "n"))
    + number_of (v (codes "q"))
    + number_of (v (codes "z"))

-- The guards that relate the stage to the counters.
unfoldable pub progress_is_valid : Lookup → Bool
progress_is_valid v =
    let s = v (codes "s") in
    let h = number_of (v (codes "h")) in
    let j = number_of (v (codes "j")) in
    let n = number_of (v (codes "n")) in
    let q = number_of (v (codes "q")) in
    let z = number_of (v (codes "z")) in
    let b = number_of (v (codes "b")) in
    let f = number_of (v (codes "f")) in
    let k = number_of (v (codes "k")) in
    let no_ticket = is_null (v (codes "t")) in
    (h == 0)
    && (j == 0)
    && leb f (accepted_frames v)
    && same (accepted_frames v == 0) (b == 0)
    && not ((z == max_completions) && not (is_number 2 s))
    && not (is_number 0 s && (not (n == 0) || not (q == 0) || not (z == 0)))
    && not (is_number 1 s && (no_ticket || not (n == max_client_candidates) || not (z == 0)))
    && not (is_number 2 s && not no_ticket)
    && not (not (is_number 2 s) && not (k == 0))

-- The guards that relate the stage to the authorization.
unfoldable pub authorization_is_valid : Lookup → Bool
authorization_is_valid v =
    let s = v (codes "s") in
    let p = v (codes "p") in
    let no_ticket = is_null (v (codes "t")) in
    same (is_number 2 s) (is_number 6 p)
    && not (is_number 1 p && (not (is_number 0 s) || not no_ticket || not (accepted_frames v == 0)))
    && not (is_number 0 p && (is_number 0 s && not no_ticket || is_number 1 s && no_ticket))
    && not (is_number 1 s && not (is_number 0 p))
