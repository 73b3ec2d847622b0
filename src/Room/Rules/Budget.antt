-- ===== src/Room/Rules/Budget.antt =====
-- What the frame budget of a ticket lets through over a whole session.
use metaserver_worker.Attachments.{TicketState}
use metaserver_worker.Room.Rules.{ServerFrame, candidate, completion, apply_server_frame_budget}
use metaserver_worker.Contract.{
  max_server_candidates, max_completions, max_rendezvous_session_signal_bytes,
}
use metaserver_worker.Common.{
  ℕ, ◌+◌, ◌≤◌, ◌≡◌, Option, some, List, [], ◌∷◌, arith, ◌>>=◌, ap, Option-cases, ◌↔◌, sym, inl, inr,
  subst, some-injective, ◌∙◌,
}

-- A session's server frames in their order, each with its size; no ticket at the first refusal.
unfoldable pub run_frames : TicketState → List (ServerFrame × ℕ) → Option TicketState
unfolding apply_server_frame_budget
run_frames ticket [] = some ticket
run_frames ticket ((frame, bytes) ∷ rest) = do
  next ← apply_server_frame_budget ticket frame bytes
  run_frames next rest

abbrev pub candidates : List (ServerFrame × ℕ) → ℕ
candidates [] = 0
candidates ((candidate, bytes) ∷ rest) = 1 + candidates rest
candidates ((completion, bytes) ∷ rest) = candidates rest

abbrev pub completions : List (ServerFrame × ℕ) → ℕ
completions [] = 0
completions ((candidate, bytes) ∷ rest) = completions rest
completions ((completion, bytes) ∷ rest) = 1 + completions rest

abbrev pub total_bytes : List (ServerFrame × ℕ) → ℕ
total_bytes [] = 0
total_bytes ((frame, bytes) ∷ rest) = bytes + total_bytes rest

-- The ticket that `frames` leave, where all of them fit.
abbrev pub Fits : TicketState → List (ServerFrame × ℕ) → Type 0
Fits ticket frames =
    (ticket.server_candidates + candidates frames ≤ max_server_candidates)
    × (ticket.completion_count + completions frames ≤ max_completions)
    × (ticket.signal_bytes + total_bytes frames ≤ max_rendezvous_session_signal_bytes)

abbrev pub after : TicketState → List (ServerFrame × ℕ) → TicketState
after ticket frames = record ticket {
  server_candidates = ticket.server_candidates + candidates frames;
  completion_count = ticket.completion_count + completions frames;
  signal_bytes = ticket.signal_bytes + total_bytes frames;
}

abbrev pub WithinBudget : TicketState → Type 0
WithinBudget t =
    (t.server_candidates ≤ max_server_candidates)
    × (t.completion_count ≤ max_completions)
    × (t.signal_bytes ≤ max_rendezvous_session_signal_bytes)

after-nothing : (t : TicketState) → after t [] ≡ t
after-nothing t = ground arith

after-cons :
    (t : TicketState) (f : ServerFrame × ℕ) (rest : List (ServerFrame × ℕ))
    → after (after t (f ∷ [])) rest ≡ after t (f ∷ rest)
after-cons t (candidate, b) rest = ground arith
after-cons t (completion, b) rest = ground arith

Fits-cons :
    (t : TicketState) (f : ServerFrame × ℕ) (rest : List (ServerFrame × ℕ))
    → Fits t (f ∷ rest) ↔ (Fits t (f ∷ []) × Fits (after t (f ∷ [])) rest)
Fits-cons t (candidate, b) rest = ground arith
Fits-cons t (completion, b) rest = ground arith

apply-fitting :
    (t : TicketState) (f : ServerFrame) (b : ℕ)
    → Fits t ((f, b) ∷ [])
    → apply_server_frame_budget t f b ≡ some (after t ((f, b) ∷ []))
unfolding apply_server_frame_budget
apply-fitting t candidate b h = ground arith
apply-fitting t completion b h = ground arith

apply-Fits :
    (t : TicketState) (f : ServerFrame) (b : ℕ) (u : TicketState)
    → WithinBudget t
    → apply_server_frame_budget t f b ≡ some u
    → Fits t ((f, b) ∷ [])
unfolding apply_server_frame_budget
apply-Fits t candidate b u w h = ground arith
apply-Fits t completion b u w h = ground arith

run_frames-fitting :
    (t : TicketState) (frames : List (ServerFrame × ℕ))
    → Fits t frames
    → run_frames t frames ≡ some (after t frames)
unfolding run_frames
run_frames-fitting t [] h = ap some (sym (after-nothing t))
run_frames-fitting t ((f, b) ∷ rest) h =
    let parts = (Fits-cons t (f, b) rest).0 h in
    rw (apply-fitting t f b parts.0, sym (after-cons t (f, b) rest))
      (run_frames-fitting (after t ((f, b) ∷ [])) rest parts.1)

within-after :
    (t : TicketState) (f : ServerFrame × ℕ) → Fits t (f ∷ []) → WithinBudget (after t (f ∷ []))
within-after t (candidate, b) h = ground arith
within-after t (completion, b) h = ground arith

run_frames-Fits :
    (t : TicketState) (frames : List (ServerFrame × ℕ)) (u : TicketState)
    → WithinBudget t
    → run_frames t frames ≡ some u
    → Fits t frames
unfolding run_frames
run_frames-Fits t [] u w h = ground arith
run_frames-Fits t ((f, b) ∷ rest) u w h = elim (Option-cases (apply_server_frame_budget t f b)) [
  | inl refused ↦ cc
  | inr (v, accepted) ↦
      let first = apply-Fits t f b v w accepted in
      let one = apply-fitting t f b first in
      (Fits-cons t (f, b) rest).1 (
        first,
        run_frames-Fits (after t ((f, b) ∷ [])) rest u (within-after t (f, b) first)
            (subst (λ r. (r >>= λ next. run_frames next rest) ≡ some u) one h),
      )
]

-- From a ticket within its budget, a run of frames is accepted whole exactly when its candidates,
-- completions and bytes fit what is left, and the ticket has then counted every frame and byte.
pub run_frames_iff :
    (t : TicketState) (frames : List (ServerFrame × ℕ)) (u : TicketState)
    → WithinBudget t
    → (run_frames t frames ≡ some u) ↔ (Fits t frames × (u ≡ after t frames))
run_frames_iff t frames u w = (
  λ h.
      let fits = run_frames-Fits t frames u w h in
      (fits, some-injective _ _ (sym h ∙ run_frames-fitting t frames fits)),
  λ (fits, same_ticket). run_frames-fitting t frames fits ∙ ap some (sym same_ticket),
)
