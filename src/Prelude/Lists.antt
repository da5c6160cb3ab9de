-- ===== src/Prelude/Lists.antt =====
-- Lists measured by native numbers, under the library's names, and Python's slices from the end.
use Prim.Native.Nat.{ℕ, zero, suc, ◌+◌, ◌-◌}
use mathlib.Core.Path.{◌≡◌, refl, ap}
use mathlib.Core.Bool.{Bool, true, false, ◌&&◌}
use mathlib.Core.Logic.{◌↔◌}
use mathlib.Core.List.{List, [], ◌∷◌, ◌++◌}
use native.Mathlib.Omega.{arith}
use py_stellar_base.Prelude.Tests.{◌==◌, if◌then◌else◌}

module _ {ℓ} {A : Type ℓ} where
  abbrev pub length : List A → ℕ
  length [] = 0
  length (x ∷ xs) = suc (length xs)

  abbrev pub All {κ} : (A → Type κ) → List A → Type κ
  All P [] = Unit {κ}
  All P (x ∷ xs) = P x × All P xs

  abbrev pub take : ℕ → List A → List A
  take zero xs = []
  take (suc n) [] = []
  take (suc n) (x ∷ xs) = x ∷ take n xs

  abbrev pub drop : ℕ → List A → List A
  drop zero xs = xs
  drop (suc n) [] = []
  drop (suc n) (x ∷ xs) = drop n xs

  abbrev pub replicate : ℕ → A → List A
  replicate zero a = []
  replicate (suc n) a = a ∷ replicate n a

  pub length-append : (xs ys : List A) → length (xs ++ ys) ≡ length xs + length ys
  length-append [] ys = omega arith
  length-append (x ∷ xs) ys = omega (arith, length-append xs ys)

  pub length-replicate : (n : ℕ) (a : A) → length (replicate n a) ≡ n
  length-replicate zero a = refl
  length-replicate (suc n) a = ap suc (length-replicate n a)

  pub length-drop : (n : ℕ) (xs : List A) → length (drop n xs) ≡ length xs - n
  length-drop zero xs = omega arith
  length-drop (suc n) [] = omega arith
  length-drop (suc n) (x ∷ xs) = omega (arith, length-drop n xs)

  pub take-append-drop : (n : ℕ) (xs : List A) → take n xs ++ drop n xs ≡ xs
  take-append-drop zero xs = refl
  take-append-drop (suc n) [] = refl
  take-append-drop (suc n) (x ∷ xs) = ap (λ (t : List A). x ∷ t) (take-append-drop n xs)

  pub take-append : (xs ys : List A) → take (length xs) (xs ++ ys) ≡ xs
  take-append [] ys = refl
  take-append (x ∷ xs) ys = ap (λ (t : List A). x ∷ t) (take-append xs ys)

  pub drop-append : (xs ys : List A) → drop (length xs) (xs ++ ys) ≡ ys
  drop-append [] ys = refl
  drop-append (x ∷ xs) ys = drop-append xs ys

  -- `xs[-n:]` and `xs[0:-n]`
  abbrev pub take_last : ℕ → List A → List A
  take_last n xs = drop (length xs - n) xs

  abbrev pub drop_last : ℕ → List A → List A
  drop_last n xs = take (length xs - n) xs

  pub All-append {κ} : (P : A → Type κ) (xs ys : List A) → All P xs → All P ys → All P (xs ++ ys)
  All-append P [] ys h k = k
  All-append P (x ∷ xs) ys h k = (h.0, All-append P xs ys h.1 k)

-- `==` on lists of numbers (`bytes` and `str`)
abbrev pub list_eq : List ℕ → List ℕ → Bool
list_eq [] [] = true
list_eq [] (y ∷ ys) = false
list_eq (x ∷ xs) [] = false
list_eq (x ∷ xs) (y ∷ ys) = x == y && list_eq xs ys

pub list_eq_sound : (xs ys : List ℕ) → list_eq xs ys ≡ true → xs ≡ ys
list_eq_sound [] [] h = refl
list_eq_sound [] (y ∷ ys) h = cc
list_eq_sound (x ∷ xs) [] h = cc
list_eq_sound (x ∷ xs) (y ∷ ys) h = ground (arith, list_eq_sound xs ys)

pub list_eq_refl : (xs : List ℕ) → list_eq xs xs ≡ true
list_eq_refl [] = refl
list_eq_refl (x ∷ xs) = ground (arith, list_eq_refl xs)

pub list_eq_iff : (xs ys : List ℕ) → (list_eq xs ys ≡ true) ↔ (xs ≡ ys)
list_eq_iff xs ys = (list_eq_sound xs ys, λ e. rw e (list_eq_refl ys))

-- `xs.rstrip(c)` for one character
abbrev cons_or_nil : Bool → ℕ → List ℕ → List ℕ
cons_or_nil is_c x [] = if is_c then [] else x ∷ []
cons_or_nil is_c x (y ∷ ys) = x ∷ (y ∷ ys)

unfoldable pub rstrip : ℕ → List ℕ → List ℕ
rstrip c [] = []
rstrip c (x ∷ xs) = cons_or_nil (x == c) x (rstrip c xs)

pub rstrip-replicate : (c n : ℕ) → rstrip c (replicate n c) ≡ []
unfolding rstrip
rstrip-replicate c zero = refl
rstrip-replicate c (suc n) = ground (arith, rstrip-replicate c n)

-- No character of a text without `c` is stripped.
pub rstrip_none : (c : ℕ) (xs : List ℕ) → All (λ x. ¬ (x ≡ c)) xs → rstrip c xs ≡ xs
unfolding rstrip
rstrip_none c [] h = refl
rstrip_none c (x ∷ []) h = ground arith
rstrip_none c (x ∷ (y ∷ xs)) h = ground (arith, rstrip_none c (y ∷ xs) h.1)

pub rstrip-append :
    (c n : ℕ) (xs : List ℕ) → All (λ x. ¬ (x ≡ c)) xs → rstrip c (xs ++ replicate n c) ≡ xs
unfolding rstrip
rstrip-append c n [] h = rstrip-replicate c n
rstrip-append c n (x ∷ []) h = ground (arith, rstrip-replicate c n)
rstrip-append c n (x ∷ (y ∷ xs)) h = ground (arith, rstrip-append c n (y ∷ xs) h.1)

-- Characters that will be stripped may be added.
pub rstrip-append_replicate : (c n : ℕ) (xs : List ℕ) → rstrip c (xs ++ replicate n c) ≡ rstrip c xs
unfolding rstrip
rstrip-append_replicate c n [] = rstrip-replicate c n
rstrip-append_replicate c n (x ∷ xs) = rw (rstrip-append_replicate c n xs)
