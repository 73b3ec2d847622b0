-- ===== src/Ranking/Sorting.antt =====
-- The sort puts its list in the comparator's order and keeps what is in it.
use Prim.Native.Nat.{Ordering}
use mathlib.Core.List.{Perm}
use mathlib.Core.List.Perm
use metaserver_worker.Ranking.{Ranked, at_most, compare_ranked, insert, sort_ranked}
use metaserver_worker.Ranking.Order.{compare_ranked-IsComparator, right_same}
use metaserver_worker.Common.{
  ◌≡◌, refl, sym, ◌∙◌, ◌⊎◌, inl, inr, true, false, List, [], ◌∷◌, All, arith, Bool-cases,
}

pub at_most_cases :
    (x y : Ranked)
    → at_most x y ≡ true
    → (compare_ranked x y ≡ Ordering.lt) ⊎ (compare_ranked x y ≡ Ordering.eq)
at_most_cases x y h = ground arith

at_most_lt : (x y : Ranked) → compare_ranked x y ≡ Ordering.lt → at_most x y ≡ true
at_most_lt x y h = rw (h, at_most) refl

at_most_trans : (x y z : Ranked) → at_most x y ≡ true → at_most y z ≡ true → at_most x z ≡ true
at_most_trans x y z h k =
    let c = compare_ranked-IsComparator in
    elim (at_most_cases x y h) [
      | inl xy ↦ elim (at_most_cases y z k) [
        | inl yz ↦ at_most_lt x z (c.trans x y z xy yz)
        | inr yz ↦ at_most_lt x z (sym (right_same c x y z yz) ∙ xy)
      ]
      | inr xy ↦ rw (c.same x y z xy, at_most) k
    ]

at_most_total : (x y : Ranked) → at_most x y ≡ false → at_most y x ≡ true
at_most_total x y h = ground (arith, compare_ranked-IsComparator.flips x y)

abbrev pub InOrder : List Ranked → Type 0
InOrder [] = Unit
InOrder (x ∷ xs) = All (λ y. at_most x y ≡ true) xs × InOrder xs

module _ (P : Ranked → Type 0) where
  All-insert : (x : Ranked) (ys : List Ranked) → P x → All P ys → All P (insert x ys)
  unfolding insert
  All-insert x [] h hs = (h, tt)
  All-insert x (y ∷ ys) h (hy, hys) = elim (Bool-cases (at_most x y)) [
    | inl first ↦ rw first (h, (hy, hys))
    | inr later ↦ rw later (hy, All-insert x ys h hys)
  ]

  pub All-sort : (xs : List Ranked) → All P xs → All P (sort_ranked xs)
  unfolding sort_ranked
  All-sort [] h = tt
  All-sort (x ∷ xs) (h, hs) = All-insert x (sort_ranked xs) h (All-sort xs hs)

before-All :
    (x y : Ranked) (ys : List Ranked)
    → at_most x y ≡ true
    → All (λ z. at_most y z ≡ true) ys
    → All (λ z. at_most x z ≡ true) ys
before-All x y [] h hs = tt
before-All x y (z ∷ zs) h (hz, hzs) = (at_most_trans x y z h hz, before-All x y zs h hzs)

insert-InOrder : (x : Ranked) (ys : List Ranked) → InOrder ys → InOrder (insert x ys)
unfolding insert
insert-InOrder x [] h = (tt, tt)
insert-InOrder x (y ∷ ys) (first_y, rest) = elim (Bool-cases (at_most x y)) [
  | inl first ↦ rw first ((first, before-All x y ys first first_y), (first_y, rest))
  | inr later ↦ rw later (
    All-insert (λ z. at_most y z ≡ true) x ys (at_most_total x y later) first_y,
    insert-InOrder x ys rest,
  )
]

pub sort-InOrder : (xs : List Ranked) → InOrder (sort_ranked xs)
unfolding sort_ranked
sort-InOrder [] = tt
sort-InOrder (x ∷ xs) = insert-InOrder x (sort_ranked xs) (sort-InOrder xs)

insert-Perm : (x : Ranked) (ys : List Ranked) → Perm (x ∷ ys) (insert x ys)
unfolding insert
insert-Perm x [] = Perm.refl (x ∷ [])
insert-Perm x (y ∷ ys) = elim (Bool-cases (at_most x y)) [
  | inl first ↦ rw first (Perm.refl (x ∷ y ∷ ys))
  | inr later ↦ rw later (Perm.trans (Perm.swap y x ys) (Perm.cons y (insert-Perm x ys)))
]

pub sort-Perm : (xs : List Ranked) → Perm xs (sort_ranked xs)
unfolding sort_ranked
sort-Perm [] = Perm.refl []
sort-Perm (x ∷ xs) = Perm.trans (Perm.cons x (sort-Perm xs)) (insert-Perm x (sort_ranked xs))
