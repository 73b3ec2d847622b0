-- ===== src/Admission/Rows.antt =====
-- Lists of admissions: what filters, batches and the order by age keep.
use metaserver_worker.Common.{
  ℕ, zero, suc, ◌≤◌, ◌≡◌, refl, Bool, true, false, ◌||◌, List, [], ◌∷◌, length, every, any, keep,
  take, All, arith,
}
use metaserver_worker.Admission.Store.{insert_older, by_age, Table}
use metaserver_worker.Admission.{AdmissionRow}

module _ {ℓ} {A : Type ℓ} where
  pub any-keep :
      (p f : A → Bool) (xs : List A)
      → All (λ x. p x ≡ true → f x ≡ true) xs
      → any p xs ≡ true
      → any p (keep f xs) ≡ true
  unfolding keep
  any-keep p f [] h k = k
  any-keep p f (x ∷ xs) h k = ground (arith, any-keep p f xs h.1, h.0)

  pub any-keep-false : (p f : A → Bool) (xs : List A) → any p xs ≡ false → any p (keep f xs) ≡ false
  unfolding keep
  any-keep-false p f [] h = h
  any-keep-false p f (x ∷ xs) h = ground (arith, any-keep-false p f xs)

  pub any-take-false :
      (p : A → Bool) (n : ℕ) (xs : List A) → any p xs ≡ false → any p (take n xs) ≡ false
  any-take-false p zero xs h = refl
  any-take-false p (suc n) [] h = refl
  any-take-false p (suc n) (x ∷ xs) h = ground (arith, any-take-false p n xs)

  pub every-take :
      (p : A → Bool) (n : ℕ) (xs : List A) → every p xs ≡ true → every p (take n xs) ≡ true
  every-take p zero xs h = refl
  every-take p (suc n) [] h = refl
  every-take p (suc n) (x ∷ xs) h = ground (arith, every-take p n xs)

  pub length-take_le : (n : ℕ) (xs : List A) → length (take n xs) ≤ n
  length-take_le zero xs = omega arith
  length-take_le (suc n) [] = omega arith
  length-take_le (suc n) (x ∷ xs) = omega (arith, length-take_le n xs)

  pub All-map {κ μ} :
      (P : A → Type κ) (Q : A → Type μ) (xs : List A) → ((x : A) → P x → Q x) → All P xs → All Q xs
  All-map P Q [] f h = tt
  All-map P Q (x ∷ xs) f h = (f x h.0, All-map P Q xs f h.1)

  pub All-pure {κ} : (P : A → Type κ) (xs : List A) → ((x : A) → P x) → All P xs
  All-pure P [] f = tt
  All-pure P (x ∷ xs) f = (f x, All-pure P xs f)

  pub keep-none : (p : A → Bool) (xs : List A) → any p xs ≡ false → keep p xs ≡ []
  unfolding keep
  keep-none p [] h = refl
  keep-none p (x ∷ xs) h = ground (arith, keep-none p xs)

  pub All-zip {κ μ ν} :
      (P : A → Type κ) (Q : A → Type μ) (R : A → Type ν) (xs : List A)
      → ((x : A) → P x → Q x → R x)
      → All P xs
      → All Q xs
      → All R xs
  All-zip P Q R [] f h k = tt
  All-zip P Q R (x ∷ xs) f h k = (f x h.0 k.0, All-zip P Q R xs f h.1 k.1)

pub any-insert_older :
    (p : AdmissionRow → Bool) (row : AdmissionRow) (rows : Table)
    → any p (insert_older row rows) ≡ (p row || any p rows)
unfolding insert_older
any-insert_older p row [] = refl
any-insert_older p row (other ∷ rows) = ground (arith, any-insert_older p row rows)

pub any-by_age : (p : AdmissionRow → Bool) (rows : Table) → any p (by_age rows) ≡ any p rows
unfolding by_age
any-by_age p [] = refl
any-by_age p (row ∷ rows) = ground (arith, any-insert_older p row (by_age rows), any-by_age p rows)
