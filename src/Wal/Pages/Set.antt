-- ===== src/Wal/Pages/Set.antt =====
-- Lists as arrays: a read with a default, and a write, which changes nothing out of bounds.
use pgroonga.Base.{ℕ, zero, suc, ◌≡◌, refl, ap, List, [], ◌∷◌, ◌++◌, length}

module _ {ℓ} {A : Type ℓ} where
  abbrev pub get_or : A → List A → ℕ → A
  get_or default [] i = default
  get_or default (x ∷ xs) zero = x
  get_or default (x ∷ xs) (suc i) = get_or default xs i

  abbrev pub set : List A → ℕ → A → List A
  set [] i v = []
  set (x ∷ xs) zero v = v ∷ xs
  set (x ∷ xs) (suc i) v = x ∷ set xs i v

  pub length-set : (xs : List A) (i : ℕ) (v : A) → length (set xs i v) ≡ length xs
  length-set [] i v = refl
  length-set (x ∷ xs) zero v = refl
  length-set (x ∷ xs) (suc i) v = ap suc (length-set xs i v)

  pub get_or-middle :
      (default : A) (xs : List A) (x : A) (ys : List A)
      → get_or default (xs ++ x ∷ ys) (length xs) ≡ x
  get_or-middle default [] x ys = refl
  get_or-middle default (z ∷ xs) x ys = get_or-middle default xs x ys

  pub set-middle :
      (xs : List A) (x v : A) (ys : List A) → set (xs ++ x ∷ ys) (length xs) v ≡ xs ++ v ∷ ys
  set-middle [] x v ys = refl
  set-middle (y ∷ xs) x v ys = ap (λ t. y ∷ t) (set-middle xs x v ys)
