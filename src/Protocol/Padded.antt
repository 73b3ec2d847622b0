-- ===== src/Protocol/Padded.antt =====
-- A full word loses its zeros and gets them back.
use metaserver_worker.Common.{
  ℕ, zero, suc, ◌-◌, ◌≤◌, ◌≡◌, inl, inr, refl, sym, ap, ◌∙◌, true, [], ◌∷◌, ◌++◌, ◌==◌, length,
  every, replicate, Text, arith, Bool-cases, is_hex_digit, length-append, ==_iff,
}
use metaserver_worker.Protocol.{strip_zeros, pad4, drop_zeros, or_zero}
use metaserver_worker.Protocol.Ipv6.{IsFull, IsShort, length-drop_zeros}
use metaserver_worker.Protocol.Ipv4.{every-append}

drop_zeros_lem : (t : Text) → replicate (length t - length (drop_zeros t)) b'0' ++ drop_zeros t ≡ t
unfolding drop_zeros
drop_zeros_lem [] = refl
drop_zeros_lem (c ∷ t) = elim (Bool-cases (c == b'0')) [
  | inr other ↦
      let whole : suc (length t) - suc (length t) ≡ 0 = omega arith in rw (other, whole) refl
  | inl nought ↦
      let more : suc (length t) - length (drop_zeros t) ≡ suc (length t - length (drop_zeros t)) =
        omega (arith, length-drop_zeros t) in
      rw (nought, more)
        (ap (λ u. b'0' ∷ u) (drop_zeros_lem t) ∙ ap (λ d. d ∷ t) (sym ((==_iff c b'0').0 nought)))
]

every-replicate : (n : ℕ) → every is_hex_digit (replicate n b'0') ≡ true
unfolding is_hex_digit
every-replicate zero = refl
every-replicate (suc n) = every-replicate n

length-replicate : (n c : ℕ) → length (replicate n c) ≡ n
length-replicate zero c = refl
length-replicate (suc n) c = omega (arith, length-replicate n c)

pub pad4-IsFull : (w : Text) → IsShort w → IsFull (pad4 w)
unfolding pad4
pad4-IsFull w (hex, least, most) = (
  every-append is_hex_digit (replicate (4 - length w) b'0') w (every-replicate (4 - length w)) hex,
  omega (
    arith,
    length-append (replicate (4 - length w) b'0') w,
    length-replicate (4 - length w) b'0',
    most,
  ),
)

or_zero_pad : (t : Text) → length t ≤ 4 → pad4 (or_zero t) ≡ replicate (4 - length t) b'0' ++ t
unfolding pad4
or_zero_pad [] h = refl
or_zero_pad (c ∷ t) h = refl

pub pad4-strip_zeros : (w : Text) → IsFull w → pad4 (strip_zeros w) ≡ w
unfolding strip_zeros
pad4-strip_zeros w (hex, size) =
    or_zero_pad (drop_zeros w) (omega (arith, length-drop_zeros w, size))
    ∙ rw (← size) (drop_zeros_lem w)
