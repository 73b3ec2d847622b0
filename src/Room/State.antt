-- ===== src/Room/State.antt =====
-- The state of a RendezvousRoom and the platform that it stands on.
-- A socket is a number. What the platform decides is read from an environment at the number of the
-- platform call, so that every pattern of faults and every clock is some environment.
use metaserver_worker.Attachments.{Attachment, client, server, ClientAttachment, ServerAttachment}
use metaserver_worker.Attachments.ServerCodec.{
  decode_rendezvous_attachment, encode_rendezvous_attachment,
}
use metaserver_worker.Contract.{Close, Outcome, Signal}
use metaserver_worker.Js.{JsValue}
use metaserver_worker.Common.{
  ℕ, Bool, true, false, Option, none, some, List, ◌∷◌, ◌==◌, if◌then◌else◌, Text, suc, leb, ◌-◌,
}

abbrev pub SocketId : Type 0
SocketId = ℕ

-- `readyState === WebSocket.OPEN`, and the value that deserializeAttachment returns; where it
-- throws, a value that does not decode.
pub record Socket : Type 0 where
  pub open_now : Bool
  pub stored : JsValue

-- What `socket.close` does to an open socket.
pub data CloseEffect : Type 0 where
  closes stays_open throws : CloseEffect

pub data ℤ : Type 0 where
  pos negsuc : ℕ → ℤ

-- A difference of two times, which a clock that was set back makes negative.
abbrev pub difference : ℕ → ℕ → ℤ
difference a b = if leb b a then pos (a - b) else negsuc (b - a - 1)

pub record Environment : Type 0 where
  pub write_throws : ℕ → Bool
  pub close_effect : ℕ → CloseEffect
  pub send_throws : ℕ → Bool
  pub clock : ℕ → ℕ

-- A terminal metric together with the health observation of the same outcome.
pub record Metric : Type 0 where
  pub connection_id : Text
  pub outcome : Outcome
  pub client_frames_accepted : ℕ
  pub server_frames_matched : ℕ
  pub frames_forwarded : ℕ
  pub signal_bytes : ℕ
  pub duration_ms : ℤ

-- What a room sends: a relayed signal, or the answer to a grant's first frame.
pub data Frame : Type 0 where
  relayed : Signal → Frame
  access_ready : Frame

pub record Room : Type 0 where
  pub client_sockets : List SocketId
  pub server_sockets : List SocketId
  pub socket : SocketId → Socket
  pub calls : ℕ
  pub current_generation : Option Text
  pub pending_client_outcome : SocketId → Option Outcome
  pub pending_server_outcome : SocketId → Option Outcome
  pub inactive_controls : List Text
  pub finalized_connections : List Text
  pub metrics : List Metric
  pub sent : List (SocketId × Frame)
  pub closed_with : List (SocketId × Close)

abbrev pub put {ℓ} : {A : Type ℓ} → SocketId → A → (SocketId → A) → SocketId → A
put s a f t = if t == s then a else f t

-- readAttachment, readClientAttachment and readServerAttachment.
unfoldable pub read_attachment : Room → SocketId → Option Attachment
read_attachment room s = decode_rendezvous_attachment (room.socket s).stored

abbrev pub client_part : Option Attachment → Option ClientAttachment
client_part none = none
client_part (some (client a)) = some a
client_part (some (server a)) = none

abbrev pub server_part : Option Attachment → Option ServerAttachment
server_part none = none
server_part (some (client a)) = none
server_part (some (server a)) = some a

unfoldable pub read_client_attachment : Room → SocketId → Option ClientAttachment
unfolding read_attachment
read_client_attachment room s = client_part (read_attachment room s)

unfoldable pub read_server_attachment : Room → SocketId → Option ServerAttachment
unfolding read_attachment
read_server_attachment room s = server_part (read_attachment room s)

-- tryWriteAttachment: a value that cannot be serialized leaves the stored one.
unfoldable pub try_write_attachment : Environment → Room → SocketId → Attachment → Room × Bool
try_write_attachment env room s a =
    let next = record room { calls = suc room.calls } in
    let kept = room.socket s in
    if env.write_throws room.calls then (next, false) else (
      record next {
        socket = put s (record kept { stored = encode_rendezvous_attachment a }) room.socket;
      },
      true,
    )

-- closeSocket: it answers whether the socket is no longer open.
unfoldable pub close_socket : Environment → Room → SocketId → Close → Room × Bool
close_socket env room s close =
    let kept = room.socket s in
    let next = record room {
      calls = suc room.calls;
      closed_with = (s, close) ∷ room.closed_with;
    } in
    if kept.open_now
    then elim (env.close_effect room.calls) [
      | closes ↦
          (record next { socket = put s (record kept { open_now = false }) room.socket }, true)
      | stays_open ↦ (next, false)
      | throws ↦ (next, false)
    ]
    else (room, true)

-- `socket.send` in a try block: whether it returned.
unfoldable pub send : Environment → Room → SocketId → Frame → Room × Bool
send env room s frame =
    let next = record room { calls = suc room.calls } in
    if env.send_throws room.calls
    then (next, false)
    else (record next { sent = (s, frame) ∷ room.sent }, true)

-- How an event handler ends: it returns, it raises a RendezvousTeardownIntegrityError, or it
-- throws what a platform call threw.
pub data Ending : Type 0 where
  returned unretired thrown : Ending

abbrev pub Ended : Type 0
Ended = Room × Ending

-- The ending of a step that is false where it raises an integrity error.
abbrev pub settled : Room × Bool → Ended
settled (room, true) = (room, returned)
settled (room, false) = (room, unretired)

-- The ending of a step that is false where a platform call has thrown.
abbrev pub performed : Room × Bool → Ended
performed (room, true) = (room, returned)
performed (room, false) = (room, thrown)

abbrev pub then_on : Ended → (Room → Ended) → Ended
then_on (room, returned) next = next room
then_on (room, unretired) next = (room, unretired)
then_on (room, thrown) next = (room, thrown)
