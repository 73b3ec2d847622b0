-- ===== src/Ranking/Order.antt =====
-- Three-way comparators that are total orders, and why the ranking's comparator is one.
use Prim.Native.Nat.{Ordering, compare}
use metaserver_worker.Ranking.{AdminPin, then_by, compare_pins, compare_texts, compare_ranked}
use metaserver_worker.Common.{
  ◌≡◌, refl, sym, ◌∙◌, ap, ◌⊎◌, inl, inr, Option, none, some, Text, text_lt_asymm, text_lt_trans,
  text_lt_connex, arith,
}

abbrev pub flip : Ordering → Ordering
flip Ordering.lt = Ordering.gt
flip Ordering.eq = Ordering.eq
flip Ordering.gt = Ordering.lt

pub Ordering-cases : (o : Ordering) → (o ≡ Ordering.lt) ⊎ ((o ≡ Ordering.eq) ⊎ (o ≡ Ordering.gt))
Ordering-cases Ordering.lt = inl refl
Ordering-cases Ordering.eq = inr (inl refl)
Ordering-cases Ordering.gt = inr (inr refl)

pub record IsComparator {ℓ} {A : Type ℓ} (c : A → A → Ordering) : Type ℓ where
  pub flips : (x y : A) → c y x ≡ flip (c x y)
  pub trans : (x y z : A) → c x y ≡ Ordering.lt → c y z ≡ Ordering.lt → c x z ≡ Ordering.lt
  pub same : (x y z : A) → c x y ≡ Ordering.eq → c x z ≡ c y z

compare-IsComparator : IsComparator compare
compare-IsComparator = record {
  flips = λ x y. ground arith;
  trans = λ x y z h k. ground arith;
  same = λ x y z h. ground arith;
}

reversed {ℓ} : {A : Type ℓ} {c : A → A → Ordering} → IsComparator c → IsComparator (λ x y. c y x)
reversed h = record {
  flips = λ x y. h.flips y x;
  trans = λ x y z p q. h.trans z y x q p;
  same =
      λ x y z p. h.flips x z ∙ ap flip (h.same x y z (h.flips y x ∙ ap flip p)) ∙ sym (h.flips y z);
}

by_key {ℓ κ} :
    {A : Type ℓ} {B : Type κ} {c : B → B → Ordering} (f : A → B)
    → IsComparator c
    → IsComparator (λ x y. c (f x) (f y))
by_key f h = record {
  flips = λ x y. h.flips (f x) (f y);
  trans = λ x y z. h.trans (f x) (f y) (f z);
  same = λ x y z. h.same (f x) (f y) (f z);
}

flip-then_by : (a b : Ordering) → then_by (flip a) (flip b) ≡ flip (then_by a b)
flip-then_by Ordering.lt b = refl
flip-then_by Ordering.eq b = refl
flip-then_by Ordering.gt b = refl

then_by-lt :
    (a b : Ordering)
    → then_by a b ≡ Ordering.lt
    → (a ≡ Ordering.lt) ⊎ ((a ≡ Ordering.eq) × (b ≡ Ordering.lt))
then_by-lt Ordering.lt b h = inl refl
then_by-lt Ordering.eq b h = inr (refl, h)
then_by-lt Ordering.gt b h = ground arith

then_by-eq : (a b : Ordering) → then_by a b ≡ Ordering.eq → (a ≡ Ordering.eq) × (b ≡ Ordering.eq)
then_by-eq Ordering.lt b h = ground arith
then_by-eq Ordering.eq b h = (refl, h)
then_by-eq Ordering.gt b h = ground arith

pub right_same {ℓ} :
    {A : Type ℓ} {c : A → A → Ordering}
    → IsComparator c
    → (x y z : A) → c y z ≡ Ordering.eq
    → c x y ≡ c x z
right_same h x y z e = (reversed h).same y z x (h.flips y z ∙ ap flip e)

module _ {ℓ} {A : Type ℓ} {c d : A → A → Ordering} (hc : IsComparator c) (hd : IsComparator d) where
  then_flips : (x y : A) → then_by (c y x) (d y x) ≡ flip (then_by (c x y) (d x y))
  then_flips x y = rw (hc.flips x y, hd.flips x y) (flip-then_by (c x y) (d x y))

  then_trans :
      (x y z : A)
      → then_by (c x y) (d x y) ≡ Ordering.lt
      → then_by (c y z) (d y z) ≡ Ordering.lt
      → then_by (c x z) (d x z) ≡ Ordering.lt
  then_trans x y z h k = elim (then_by-lt (c x y) (d x y) h) [
    | inl xy ↦ elim (then_by-lt (c y z) (d y z) k) [
      | inl yz ↦ rw (hc.trans x y z xy yz) refl
      | inr (yz, _) ↦ rw (sym (right_same hc x y z yz), xy) refl
    ]
    | inr (xy, dxy) ↦ elim (then_by-lt (c y z) (d y z) k) [
      | inl yz ↦ rw (hc.same x y z xy, yz) refl
      | inr (yz, dyz) ↦ rw (hc.same x y z xy, yz) (hd.trans x y z dxy dyz)
    ]
  ]

  then_same :
      (x y z : A)
      → then_by (c x y) (d x y) ≡ Ordering.eq
      → then_by (c x z) (d x z) ≡ then_by (c y z) (d y z)
  then_same x y z h =
      let (cxy, dxy) = then_by-eq (c x y) (d x y) h in
      rw (hc.same x y z cxy, hd.same x y z dxy) refl

  then_by-IsComparator : IsComparator (λ x y. then_by (c x y) (d x y))
  then_by-IsComparator = record { flips = then_flips; trans = then_trans; same = then_same }

pins_flip : (p q : Option AdminPin) → compare_pins q p ≡ flip (compare_pins p q)
pins_flip none none = refl
pins_flip none (some q) = refl
pins_flip (some p) none = refl
pins_flip (some p) (some q) = compare-IsComparator.flips p.priority q.priority

pins_trans :
    (p q r : Option AdminPin)
    → compare_pins p q ≡ Ordering.lt
    → compare_pins q r ≡ Ordering.lt
    → compare_pins p r ≡ Ordering.lt
pins_trans none none r h k = ground arith
pins_trans none (some q) r h k = ground arith
pins_trans (some p) none none h k = refl
pins_trans (some p) none (some r) h k = ground arith
pins_trans (some p) (some q) none h k = refl
pins_trans (some p) (some q) (some r) h k =
    compare-IsComparator.trans p.priority q.priority r.priority h k

pins_same :
    (p q r : Option AdminPin) → compare_pins p q ≡ Ordering.eq → compare_pins p r ≡ compare_pins q r
pins_same none none r h = refl
pins_same none (some q) r h = ground arith
pins_same (some p) none r h = ground arith
pins_same (some p) (some q) none h = refl
pins_same (some p) (some q) (some r) h =
    compare-IsComparator.same p.priority q.priority r.priority h

pins-IsComparator : IsComparator compare_pins
pins-IsComparator = record { flips = pins_flip; trans = pins_trans; same = pins_same }

pub compare_texts-eq : (s t : Text) → compare_texts s t ≡ Ordering.eq → s ≡ t
compare_texts-eq s t h = text_lt_connex s t (ground arith) (ground arith)

texts-IsComparator : IsComparator compare_texts
texts-IsComparator = record {
  flips = λ s t. ground (arith, text_lt_asymm s t, text_lt_asymm t s);
  trans = λ s t u h k. ground (arith, text_lt_trans s t u);
  same = λ s t u h. ap (λ v. compare_texts v u) (compare_texts-eq s t h);
}

-- The ranking's comparator is a total preorder: turning it around flips its sign, "before" is
-- transitive, and entries that compare equal compare alike with every other.
pub compare_ranked-IsComparator : IsComparator compare_ranked
unfolding compare_ranked
compare_ranked-IsComparator = then_by-IsComparator (by_key (λ r. r.pinned) pins-IsComparator) (
    then_by-IsComparator (by_key (λ r. r.score) (reversed compare-IsComparator)) (
      then_by-IsComparator (by_key (λ r. r.population) (reversed compare-IsComparator)) (
        then_by-IsComparator (by_key (λ r. (r.entry).last_seen) (reversed compare-IsComparator)) (
          then_by-IsComparator (by_key (λ r. (r.entry).server_id) texts-IsComparator)
            (by_key (λ r. r.index) compare-IsComparator)))))
