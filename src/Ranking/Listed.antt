-- ===== src/Ranking/Listed.antt =====
-- The order of the directory on the keys of its entries, and the comparator.
use Prim.Native.Nat.{Ordering, compare}
use metaserver_worker.Ranking.{
  Ranked, at_most, compare_ranked, then_by, active_pin, AdminPin, compare_pins, compare_texts,
}
use metaserver_worker.Ranking.Order.{compare_texts-eq}
use metaserver_worker.Common.{
  if◌then◌else◌, ℕ, ◌≡◌, refl, ◌⊎◌, inl, inr, true, List, [], ◌∷◌, All, arith, Bool-cases, Option,
  ◌≢◌, ◌<◌, text_lt, some, ◌≤◌, none, ltb,
}
use metaserver_worker.Ranking.Sorting.{InOrder}

-- A comparison that does not come out greater was decided by its first part or by the rest.
then_by-le :
    (a b : Ordering)
    → (then_by a b ≢ Ordering.gt)
    → (a ≡ Ordering.lt) ⊎ ((a ≡ Ordering.eq) × (b ≢ Ordering.gt))
then_by-le Ordering.lt b h = inl refl
then_by-le Ordering.eq b h = inr (refl, h)
then_by-le Ordering.gt b h = absurd (h refl)

-- A pin that has not expired, and none otherwise.
abbrev pub PinAt : ℕ → Option AdminPin → Option AdminPin → Type 0
PinAt now none pinned = pinned ≡ none
PinAt now (some pin) pinned =
    ((pinned ≡ some pin)
      × ((pin.expires_at ≡ none) ⊎ ((at : ℕ) × (pin.expires_at ≡ some at) × (now < at))))
    ⊎ ((pinned ≡ none) × ((at : ℕ) × (pin.expires_at ≡ some at) × (at ≤ now)))

abbrev pub HasOwnPin : ℕ → Ranked → Type 0
HasOwnPin now r = PinAt now (r.entry).admin_pin r.pinned

pin_until :
    (pin : AdminPin) (now : ℕ) (until : Option ℕ)
    → pin.expires_at ≡ until
    → PinAt now
        (some pin)
        (elim until [ none ↦ some pin | some at ↦ if ltb now at then some pin else none ])
pin_until pin now none h = inl (refl, inl h)
pin_until pin now (some at) h = elim (Bool-cases (ltb now at)) [
  | inl early ↦ rw early (inl (refl, inr (at, h, ground arith)))
  | inr late ↦ rw late (inr (refl, (at, h, ground arith)))
]

pub own_pin : (pin : Option AdminPin) (now : ℕ) → PinAt now pin (active_pin pin now)
unfolding active_pin
own_pin none now = refl
own_pin (some pin) now = pin_until pin now pin.expires_at refl

-- What of two keys decides first, and what decides where they agree.
abbrev pub Decides : Type 0 → Type 0 → Type 0 → Type 0
Decides before agree next = before ⊎ (agree × next)

abbrev pub PinBefore : Option AdminPin → Option AdminPin → Type 0
PinBefore none q = ⊥
PinBefore (some p) none = Unit
PinBefore (some p) (some q) = p.priority < q.priority

abbrev pub SamePin : Option AdminPin → Option AdminPin → Type 0
SamePin none none = Unit
SamePin none (some q) = ⊥
SamePin (some p) none = ⊥
SamePin (some p) (some q) = p.priority ≡ q.priority

-- The order that the directory promises.
abbrev pub IsRightlyBefore : Ranked → Ranked → Type 0
IsRightlyBefore x y = Decides (PinBefore x.pinned y.pinned) (SamePin x.pinned y.pinned) (
    Decides (y.score < x.score) (x.score ≡ y.score) (
      Decides (y.population < x.population) (x.population ≡ y.population) (
        Decides ((y.entry).last_seen < (x.entry).last_seen)
          ((x.entry).last_seen ≡ (y.entry).last_seen)
          (Decides (text_lt (x.entry).server_id (y.entry).server_id ≡ true)
            ((x.entry).server_id ≡ (y.entry).server_id) (x.index ≤ y.index)))))

abbrev pub IsRightlyListed : List Ranked → Type 0
IsRightlyListed [] = Unit
IsRightlyListed (x ∷ xs) = All (λ y. IsRightlyBefore x y) xs × IsRightlyListed xs

pin_decides : (p q : Option AdminPin) → compare_pins p q ≡ Ordering.lt → PinBefore p q
pin_decides none none h = absurd (ground arith)
pin_decides none (some q) h = absurd (ground arith)
pin_decides (some p) none h = tt
pin_decides (some p) (some q) h = ground arith

pin_agrees : (p q : Option AdminPin) → compare_pins p q ≡ Ordering.eq → SamePin p q
pin_agrees none none h = tt
pin_agrees none (some q) h = absurd (ground arith)
pin_agrees (some p) none h = absurd (ground arith)
pin_agrees (some p) (some q) h = ground arith

-- One criterion, and what follows it.
decided :
    (a b : Ordering) {P Q R : Type 0}
    → (then_by a b ≢ Ordering.gt)
    → (a ≡ Ordering.lt → P)
    → (a ≡ Ordering.eq → Q)
    → ((b ≢ Ordering.gt) → R)
    → Decides P Q R
decided a b h before agrees next = elim (then_by-le a b h) [
  | inl first ↦ inl (before first)
  | inr (same, rest) ↦ inr (agrees same, next rest)
]

rightly_before : (x y : Ranked) → (compare_ranked x y ≢ Ordering.gt) → IsRightlyBefore x y
unfolding compare_ranked
rightly_before x y h =
    decided (compare_pins x.pinned y.pinned) _ h (pin_decides x.pinned y.pinned)
      (pin_agrees x.pinned y.pinned)
      (λ h1.
        decided (compare y.score x.score) _ h1 (λ e. ground arith) (λ e. ground arith)
          (λ h2.
            decided (compare y.population x.population) _ h2 (λ e. ground arith) (λ e. ground arith)
              (λ h3.
                decided (compare (y.entry).last_seen (x.entry).last_seen) _ h3 (λ e. ground arith)
                  (λ e. ground arith)
                  (λ h4.
                    decided (compare_texts (x.entry).server_id (y.entry).server_id) _ h4
                      (λ e. ground arith) (compare_texts-eq (x.entry).server_id (y.entry).server_id)
                      (λ h5. ground arith)))))

All-rightly :
    (x : Ranked) (ys : List Ranked)
    → All (λ y. at_most x y ≡ true) ys
    → All (λ y. IsRightlyBefore x y) ys
All-rightly x [] h = tt
All-rightly x (y ∷ ys) (first, rest) =
    (rightly_before x y (λ greater. ground arith), All-rightly x ys rest)

pub InOrder-IsRightlyListed : (xs : List Ranked) → InOrder xs → IsRightlyListed xs
InOrder-IsRightlyListed [] h = tt
InOrder-IsRightlyListed (x ∷ xs) (first, rest) =
    (All-rightly x xs first, InOrder-IsRightlyListed xs rest)
