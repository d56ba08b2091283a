-- ===== src/Sha3/Keccak/Equivalence.antt =====
-- `keccakf` is the permutation of the standard.
use Prim.Native.Nat.{bit_or}
use mathlib.Core.Path.{fun_ext, subst}
use cpputils.Base.{
  ℕ, zero, suc, ◌+◌, ◌-◌, ◌/◌, ◌^◌, ◌≤◌, ◌<◌, ◌≡◌, refl, sym, ◌∙◌, List, [], ◌∷◌, length, arith, ap,
  true, ◌==◌, ==_iff, holds_up_to, holds_up_to_lem,
}
use cpputils.Sha3.Bits.{shifted_lem}
use cpputils.Sha3.Keccak.{
  theta, rho_pi, chi, iota, keccak_round, keccakf, keccakf_rndc, for_each, at, rotl64, not64,
}
use cpputils.Sha3.Keccak.Fips

tail : List ℕ → List ℕ
tail [] = []
tail (x ∷ xs) = xs

firsts : ℕ → List ℕ → List ℕ
firsts zero s = []
firsts (suc n) s = at s 0 ∷ firsts n (tail s)

eq-firsts : (n : ℕ) (s : List ℕ) → length s ≡ n → s ≡ firsts n s
unfolding firsts tail
eq-firsts zero [] h = refl
eq-firsts zero (x ∷ s) h = absurd (omega arith)
eq-firsts (suc n) [] h = absurd (omega arith)
eq-firsts (suc n) (x ∷ s) h = ap (◌∷◌ x) (eq-firsts n s (omega arith))

-- The code's rotation and complement are those of the standard.
rotl64-eq-rotation : (x k : ℕ) → rotl64 x k ≡ Fips.rotation x k
rotl64-eq-rotation x k = ap (λ high. bit_or high (x / 2 ^ (64 - k))) (shifted_lem k x)

not64-eq-complement : (x : ℕ) → not64 x ≡ Fips.complement x
not64-eq-complement x = omega arith

theta-firsts : (s : List ℕ) → theta (firsts 25 s) ≡ Fips.theta (firsts 25 s)
unfolding theta Fips.theta Fips.theta_by firsts
theta-firsts s = ap (λ turn. Fips.theta_by turn (firsts 25 s)) (fun_ext λ x. rotl64-eq-rotation x 1)

rho_pi-firsts : (s : List ℕ) → rho_pi (firsts 25 s) ≡ Fips.rho_pi (firsts 25 s)
unfolding rho_pi Fips.rho_pi Fips.rho_pi_by firsts
rho_pi-firsts s =
    ap (λ turn. Fips.rho_pi_by turn (firsts 25 s))
      (fun_ext λ x. fun_ext λ k. rotl64-eq-rotation x k)

chi-firsts : (s : List ℕ) → chi (firsts 25 s) ≡ Fips.chi (firsts 25 s)
unfolding chi Fips.chi Fips.chi_by firsts
chi-firsts s = ap (λ flip. Fips.chi_by flip (firsts 25 s)) (fun_ext not64-eq-complement)

length-theta : (s : List ℕ) → length (Fips.theta s) ≡ 25
unfolding Fips.theta Fips.theta_by
length-theta s = refl

length-rho_pi : (s : List ℕ) → length (Fips.rho_pi s) ≡ 25
unfolding Fips.rho_pi Fips.rho_pi_by
length-rho_pi s = refl

length-chi : (s : List ℕ) → length (Fips.chi s) ≡ 25
unfolding Fips.chi Fips.chi_by
length-chi s = refl

length-iota : (round : ℕ) (s : List ℕ) → length (Fips.iota round s) ≡ 25
unfolding Fips.iota
length-iota round s = refl

-- What holds of the first 25 entries of a list holds of a list of 25.
lift :
    (f g : List ℕ → List ℕ)
    → ((s : List ℕ) → f (firsts 25 s) ≡ g (firsts 25 s))
    → (s : List ℕ) → length s ≡ 25
    → f s ≡ g s
lift f g same s h = subst (λ l. f l ≡ g l) (sym (eq-firsts 25 s h)) (same s)

constants_agree : holds_up_to (λ r. at keccakf_rndc r == Fips.round_constant r) 24 ≡ true
unfolding holds_up_to keccakf_rndc Fips.round_constant
constants_agree = refl

iota-firsts :
    (round : ℕ) (s : List ℕ) → round < 24 → iota round (firsts 25 s) ≡ Fips.iota round (firsts 25 s)
unfolding iota Fips.iota firsts
iota-firsts round s lt =
    let same : at keccakf_rndc round ≡ Fips.round_constant round =
      (==_iff _ _).0 (holds_up_to_lem _ 24 constants_agree lt) in
    rw same

round_eq :
    (round : ℕ) (s : List ℕ)
    → round < 24
    → length s ≡ 25
    → (keccak_round round s ≡ Fips.round_of round s) × (length (Fips.round_of round s) ≡ 25)
unfolding keccak_round Fips.round_of
round_eq round s lt h = (
  ap (λ l. iota round (chi (rho_pi l))) (lift theta Fips.theta theta-firsts s h)
      ∙ ap (λ l. iota round (chi l)) (lift rho_pi Fips.rho_pi rho_pi-firsts t (length-theta s))
      ∙ ap (iota round) (lift chi Fips.chi chi-firsts (Fips.rho_pi t) (length-rho_pi t))
      ∙ lift (iota round) (Fips.iota round) (λ l. iota-firsts round l lt) (Fips.chi (Fips.rho_pi t))
          (length-chi (Fips.rho_pi t)),
  length-iota round (Fips.chi (Fips.rho_pi t)),
)
  where
    t : List ℕ
    t = Fips.theta s

-- The rounds from `k`, `n` of them.
count_from : ℕ → ℕ → List ℕ
count_from zero k = []
count_from (suc n) k = k ∷ count_from n (k + 1)

rounds_eq :
    (n k : ℕ) (s : List ℕ)
    → k + n ≤ 24
    → length s ≡ 25
    → for_each (count_from n k) keccak_round s ≡ Fips.rounds n k s
unfolding count_from Fips.rounds
rounds_eq zero k s le h = refl
rounds_eq (suc n) k s le h =
    let (same, h') = round_eq k s (omega arith) h in
    ap (for_each (count_from n (k + 1)) keccak_round) same
    ∙ rounds_eq n (k + 1) (Fips.round_of k s) (omega arith) h'

-- On a state of 25 words `keccakf` computes the permutation KECCAK-f[1600] of FIPS 202.
pub keccakf-eq-keccak_f : (s : List ℕ) → length s ≡ 25 → keccakf s ≡ Fips.keccak_f s
unfolding keccakf Fips.keccak_f count_from
keccakf-eq-keccak_f s h = rounds_eq 24 0 s (omega arith) h

length-rounds : (n k : ℕ) (s : List ℕ) → length s ≡ 25 → length (Fips.rounds n k s) ≡ 25
unfolding Fips.rounds Fips.round_of
length-rounds zero k s h = h
length-rounds (suc n) k s h =
    length-rounds n (k + 1) (Fips.round_of k s)
      (length-iota k (Fips.chi (Fips.rho_pi (Fips.theta s))))

pub length-keccakf : (s : List ℕ) → length s ≡ 25 → length (keccakf s) ≡ 25
unfolding Fips.keccak_f
length-keccakf s h = rw (keccakf-eq-keccak_f s h) (length-rounds 24 0 s h)
