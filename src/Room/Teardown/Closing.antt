-- ===== src/Room/Teardown/Closing.antt =====
-- What closeSocket has done when it answers.
use metaserver_worker.Room.State.{
  CloseEffect, close_socket, Room, Environment, closes, SocketId, read_client_attachment,
  stays_open, throws, read_attachment, put,
}
use metaserver_worker.Common.{
  refl, inl, inr, true, false, Bool-cases, ◌∷◌, ◌≡◌, ◌⊎◌, arith, Bool, suc,
}
use metaserver_worker.Room.Teardown.Steps.{itself}
use metaserver_worker.Contract.{Close}

effect-cases : (x : CloseEffect) → (x ≡ closes) ⊎ ((x ≡ stays_open) ⊎ (x ≡ throws))
effect-cases closes = inl refl
effect-cases stays_open = inr (inl refl)
effect-cases throws = inr (inr refl)

-- Closing keeps what a socket stores; the answer says whether the socket is open.
pub record AfterClose (room : Room) (s : SocketId) (r : Room × Bool) : Type 0 where
  pub same_read : read_client_attachment (r.0) s ≡ read_client_attachment room s
  pub same_metrics : (r.0).metrics ≡ room.metrics
  pub same_servers : (r.0).server_sockets ≡ room.server_sockets
  pub same_pending : (r.0).pending_client_outcome ≡ room.pending_client_outcome
  pub shut : r.1 ≡ true → ((r.0).socket s).open_now ≡ false
  pub unshut : r.1 ≡ false → (r.0).socket s ≡ room.socket s

-- A close that the platform does not carry out.
in_vain :
    (room : Room) (s : SocketId) (close : Close)
    → AfterClose room s
        (record room { calls = suc room.calls; closed_with = (s, close) ∷ room.closed_with }, false)
unfolding read_client_attachment read_attachment
in_vain room s close = record {
  same_read = refl;
  same_metrics = refl;
  same_servers = refl;
  same_pending = refl;
  shut = λ impossible. ground arith;
  unshut = λ _. refl;
}

carried_out :
    (room : Room) (s : SocketId) (close : Close)
    → AfterClose room s (
      record room {
        socket = put s (record (room.socket s) { open_now = false }) room.socket;
        calls = suc room.calls;
        closed_with = (s, close) ∷ room.closed_with;
      },
      true,
    )
unfolding read_client_attachment read_attachment
carried_out room s close = record {
  same_read = rw (itself s) refl;
  same_metrics = refl;
  same_servers = refl;
  same_pending = refl;
  shut = λ _. rw (itself s) refl;
  unshut = λ impossible. ground arith;
}

pub close-cases :
    (env : Environment) (room : Room) (s : SocketId) (close : Close)
    → AfterClose room s (close_socket env room s close)
unfolding close_socket
close-cases env room s close = elim (Bool-cases (room.socket s).open_now) [
  | inr was_closed ↦ rw was_closed (record {
    same_read = refl;
    same_metrics = refl;
    same_servers = refl;
    same_pending = refl;
    shut = λ _. was_closed;
    unshut = λ _. refl;
  })
  | inl was_open ↦ elim (effect-cases (env.close_effect room.calls)) [
    | inl closing ↦ rw (was_open, closing) (carried_out room s close)
    | inr (inl staying) ↦ rw (was_open, staying) (in_vain room s close)
    | inr (inr throwing) ↦ rw (was_open, throwing) (in_vain room s close)
  ]
]
