-- ===== src/Asset/Code.antt =====
-- Which asset codes the regular expression accepts.
use py_stellar_base.Prelude.{
  ℕ, ◌+◌, ◌≤◌, ◌≡◌, refl, ap, ◌↔◌, ◌⊎◌, inl, inr, arith, true, false, Bool-cases, List, [], ◌∷◌,
  ◌++◌, length, All,
}
use py_stellar_base.Asset.{is_alphanumeric, matches_from}

abbrev pub IsAlphanumeric : ℕ → Type 0
IsAlphanumeric c = is_alphanumeric c ≡ true

-- A word of one to twelve letters and digits, n of which have been read.
pub record IsWord (n : ℕ) (w : List ℕ) : Type 0 where
  pub letters : All IsAlphanumeric w
  pub least : 1 ≤ n + length w
  pub most : n + length w ≤ 12

newline_lem : is_alphanumeric 10 ≡ false
unfolding is_alphanumeric
newline_lem = refl

pub matches-word : (n : ℕ) (w : List ℕ) → IsWord n w → matches_from n w ≡ true
unfolding matches_from
matches-word n [] v = ground arith
matches-word n (c ∷ []) v = ground arith
matches-word n (c ∷ (d ∷ w)) v = ground (
  arith,
  matches-word (n + 1) (d ∷ w)
      (record { letters = v.letters.1; least = omega arith; most = omega arith }),
)

pub matches-newline : (n : ℕ) (w : List ℕ) → IsWord n w → matches_from n (w ++ 10 ∷ []) ≡ true
unfolding matches_from
matches-newline n [] v = ground (arith, newline_lem)
matches-newline n (c ∷ []) v = ground (arith, newline_lem)
matches-newline n (c ∷ (d ∷ w)) v = ground (
  arith,
  matches-newline (n + 1) (d ∷ w)
      (record { letters = v.letters.1; least = omega arith; most = omega arith }),
)

abbrev Accepted : ℕ → List ℕ → Type 0
Accepted n code = IsWord n code ⊎ ((w : List ℕ) × IsWord n w × (code ≡ w ++ 10 ∷ []))

matches_from-word : (n : ℕ) (code : List ℕ) → matches_from n code ≡ true → Accepted n code
unfolding matches_from
matches_from-word n [] h = inl (record { letters = tt; least = ground arith; most = ground arith })
matches_from-word n (c ∷ []) h = elim (Bool-cases (is_alphanumeric c)) [
  | inl e ↦ inl (record { letters = (e, tt); least = ground arith; most = ground arith })
  | inr e ↦
      inr ([], record { letters = tt; least = ground arith; most = ground arith }, ground arith)
]
matches_from-word n (c ∷ (d ∷ rest)) h =
    let e : is_alphanumeric c ≡ true = ground arith in
    elim (matches_from-word (n + 1) (d ∷ rest) (ground arith)) [
      | inl v ↦ inl (record { letters = (e, v.letters); least = omega arith; most = omega arith })
      | inr (w, v, same) ↦ inr (
        c ∷ w,
        record { letters = (e, v.letters); least = omega arith; most = omega arith },
        ap (λ (t : List ℕ). c ∷ t) same,
      )
    ]

-- The regular expression accepts one to twelve letters and digits, and those with one line feed
-- behind them.
pub matches_iff :
    (code : List ℕ)
    → (matches_from 0 code ≡ true)
      ↔ (IsWord 0 code ⊎ ((w : List ℕ) × IsWord 0 w × (code ≡ w ++ 10 ∷ [])))
matches_iff code = (matches_from-word 0 code, accepted)
  where
    accepted :
        IsWord 0 code ⊎ ((w : List ℕ) × IsWord 0 w × (code ≡ w ++ 10 ∷ []))
        → matches_from 0 code ≡ true
    accepted (inl v) = matches-word 0 code v
    accepted (inr (w, v, same)) = rw same (matches-newline 0 w v)
