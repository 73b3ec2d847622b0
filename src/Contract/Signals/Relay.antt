-- ===== src/Contract/Signals/Relay.antt =====
-- What a room forwards is what it accepted.
use metaserver_worker.Contract.{
  Signal, client_candidate, server_candidate, complete, lan, ipv6, mapped, srflx, CandidateKind,
}
use metaserver_worker.Contract.Signals.{
  parse_signal_object, parse_candidate, parse_complete, parse_client, parse_server,
  serialize_rendezvous_signal, is_text, is_port, number, string, server_candidate_keys, parse_kind,
  is_string,
}
use metaserver_worker.Js.{
  Fields, JsValue, get, has_exact_keys, is_hex64, js_tests, text_of, number_of, is_bounded_integer,
  is_string,
}
use metaserver_worker.Common.{
  some-injective, ℕ, ◌≡◌, refl, Option, none, some, Text, codes, is_hex, true, false, Bool, arith,
  text_eq, subst, &&_left, &&_right, inl, inr, if◌then◌else◌, ◌>>=◌, ◌⊎◌, ◌||◌,
}

module _ (normalize : Text → Option Text) where
  -- A signal with a normalized host, a port and a ticket.
  pub data IsSignal : Signal → Type 0 where
    client :
        {host ticket : Text} {port : ℕ}
        → normalize host ≡ some host
        → is_port (number port) ≡ true
        → is_hex 64 ticket ≡ true
        → IsSignal (client_candidate host port ticket)
    server :
        {host ticket : Text} {port : ℕ} {kind : CandidateKind}
        → normalize host ≡ some host
        → is_port (number port) ≡ true
        → is_hex 64 ticket ≡ true
        → IsSignal (server_candidate host port kind ticket)
    completed : {ticket : Text} → is_hex 64 ticket ≡ true → IsSignal (complete ticket)

  parse-serialize_client :
      (host ticket : Text) (port : ℕ)
      → normalize host ≡ some host
      → is_port (number port) ≡ true
      → is_hex 64 ticket ≡ true
      → parse_signal_object normalize
          (serialize_rendezvous_signal (client_candidate host port ticket))
        ≡ some (client_candidate host port ticket)
  unfolding parse_signal_object serialize_rendezvous_signal get has_exact_keys text_eq js_tests
  parse-serialize_client host ticket port h p t = rw (p, t, h) refl

  parse-serialize_server :
      (host ticket : Text) (port : ℕ) (kind : CandidateKind)
      → normalize host ≡ some host
      → is_port (number port) ≡ true
      → is_hex 64 ticket ≡ true
      → parse_signal_object normalize
          (serialize_rendezvous_signal (server_candidate host port kind ticket))
        ≡ some (server_candidate host port kind ticket)
  unfolding parse_signal_object serialize_rendezvous_signal get has_exact_keys text_eq js_tests
  parse-serialize_server host ticket port lan h p t = rw (p, t, h) refl
  parse-serialize_server host ticket port ipv6 h p t = rw (p, t, h) refl
  parse-serialize_server host ticket port mapped h p t = rw (p, t, h) refl
  parse-serialize_server host ticket port srflx h p t = rw (p, t, h) refl

  parse-serialize :
      (s : Signal)
      → IsSignal s
      → parse_signal_object normalize (serialize_rendezvous_signal s) ≡ some s
  unfolding parse_signal_object serialize_rendezvous_signal get has_exact_keys text_eq js_tests
  parse-serialize s (IsSignal.client h p t) = parse-serialize_client _ _ _ h p t
  parse-serialize s (IsSignal.server h p t) = parse-serialize_server _ _ _ _ h p t
  parse-serialize s (IsSignal.completed t) = rw t refl

guarded {ℓ} :
    {A : Type ℓ} (b : Bool) (o : Option A) (a : A)
    → (if b then o else none) ≡ some a
    → (b ≡ true) × (o ≡ some a)
guarded true o a h = (refl, h)
guarded false o a h = ground arith

one_branch {ℓ} :
    {A : Type ℓ} (b : Bool) (x y : Option A) (a : A)
    → (if b then x else y) ≡ some a
    → (x ≡ some a) ⊎ (y ≡ some a)
one_branch true x y a h = inl h
one_branch false x y a h = inr h

bound {ℓ κ} :
    {A : Type ℓ} {B : Type κ} (o : Option A) (f : A → Option B) (b : B)
    → (o >>= f) ≡ some b
    → (a : A) × (o ≡ some a) × (f a ≡ some b)
bound none f b h = ground arith
bound (some a) f b h = (a, refl, h)

hex64_text : (v : JsValue) → is_hex64 v ≡ true → is_hex 64 (text_of v) ≡ true
unfolding is_hex64 text_of
hex64_text (string s) h = h
hex64_text _ h = ground arith

port_number : (v : JsValue) → is_port v ≡ true → is_port (number (number_of v)) ≡ true
unfolding is_port is_bounded_integer number_of
port_number (number n) h = h
port_number _ h = ground arith

module _ (normalize : Text → Option Text) (fields : Fields) where
  complete-IsSignal : (s : Signal) → parse_complete fields ≡ some s → IsSignal normalize s
  unfolding parse_complete
  complete-IsSignal s h =
      let (passed, parsed) = guarded _ _ s h in
      subst (IsSignal normalize) (some-injective _ s parsed)
        (IsSignal.completed (hex64_text _ (&&_right _ _ passed)))

  client-IsSignal :
      (host : Text) (s : Signal)
      → normalize host ≡ some host
      → is_port (number (number_of (get (codes "port") fields))) ≡ true
      → is_hex 64 (text_of (get (codes "ticket") fields)) ≡ true
      → parse_client fields host ≡ some s
      → IsSignal normalize s
  unfolding parse_client
  client-IsSignal host s canonical port ticket h =
      let (_, parsed) = guarded _ _ s h in
      subst (IsSignal normalize) (some-injective _ s parsed) (IsSignal.client canonical port ticket)

  abbrev server_of : CandidateKind → Text → Signal
  server_of kind host =
      server_candidate host (number_of (get (codes "port") fields)) kind
        (text_of (get (codes "ticket") fields))

  server-IsSignal :
      (host : Text) (s : Signal)
      → normalize host ≡ some host
      → is_port (number (number_of (get (codes "port") fields))) ≡ true
      → is_hex 64 (text_of (get (codes "ticket") fields)) ≡ true
      → parse_server fields host ≡ some s
      → IsSignal normalize s
  unfolding parse_server
  server-IsSignal host s canonical port ticket h =
      let (_, parsed) =
        guarded (has_exact_keys fields server_candidate_keys)
          (parse_kind (get (codes "kind") fields) >>= λ k. some (server_of k host)) s h in
      let (kind, _, made) =
        bound (parse_kind (get (codes "kind") fields)) (λ k. some (server_of k host)) s parsed in
      subst (IsSignal normalize) (some-injective (server_of kind host) s made)
        (IsSignal.server canonical port ticket)

  candidate-IsSignal :
      (s : Signal)
      → ((t u : Text) → normalize t ≡ some u → normalize u ≡ some u)
      → parse_candidate normalize fields ≡ some s
      → IsSignal normalize s
  unfolding parse_candidate
  candidate-IsSignal s stable h =
      let (passed, parsed) = guarded _ _ s h in
      let (host, normal, rest) = bound _ _ s parsed in
      let canonical = stable _ host normal in
      let port =
        port_number _ (&&_right (is_text (get (codes "host") fields)) _ (&&_left _ _ passed)) in
      let ticket = hex64_text _ (&&_right _ _ passed) in
      elim (one_branch _ _ _ s rest) [
        | inl as_client ↦ client-IsSignal host s canonical port ticket as_client
        | inr as_server ↦ server-IsSignal host s canonical port ticket as_server
      ]

  signal-IsSignal :
      (s : Signal)
      → ((t u : Text) → normalize t ≡ some u → normalize u ≡ some u)
      → parse_signal_object normalize fields ≡ some s
      → IsSignal normalize s
  unfolding parse_signal_object
  signal-IsSignal s stable h =
      let type = get (codes "type") fields in
      let candidate_type =
        is_string (codes "client_candidate") type || is_string (codes "server_candidate") type in
      let as_candidate = if candidate_type then parse_candidate normalize fields else none in
      elim (one_branch (is_string (codes "complete") type) (parse_complete fields) as_candidate s
        h) [
          | inl completes ↦ complete-IsSignal s completes
          | inr other ↦
              candidate-IsSignal s stable
                (guarded candidate_type (parse_candidate normalize fields) s other).1
        ]

  -- A signal that was accepted is forwarded as an object that is accepted as the same signal,
  -- where normalizing a normalized address changes nothing.
  pub parse-serialize_accepted :
      (s : Signal)
      → ((t u : Text) → normalize t ≡ some u → normalize u ≡ some u)
      → parse_signal_object normalize fields ≡ some s
      → parse_signal_object normalize (serialize_rendezvous_signal s) ≡ some s
  parse-serialize_accepted s stable h = parse-serialize normalize s (signal-IsSignal s stable h)
