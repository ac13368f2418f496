-- ===== src/Prelude/Lists.antt =====
-- Lists over the native numbers: the library's names, with lengths that `omega` reads.
use Prim.Native.Nat.{ℕ, zero, suc, ◌+◌, ◌-◌, ◌≤◌, min}
use mathlib.Core.Path.{◌≡◌, refl}
use mathlib.Core.Bool.{Bool, true, false, ◌&&◌}
use mathlib.Core.Option
use mathlib.Core.Option.{Option, none, some}
use mathlib.Core.List.{List, [], ◌∷◌, ◌++◌, map}
use native.Mathlib.Omega.{arith}
use native.Mathlib.Nat.{zero-add, suc-add}

module _ {ℓ} {A : Type ℓ} where
  abbrev pub length : List A → ℕ
  length [] = 0
  length (x ∷ xs) = suc (length xs)

  -- Python's slice `xs[n:]`
  abbrev pub drop : ℕ → List A → List A
  drop zero xs = xs
  drop (suc n) [] = []
  drop (suc n) (x ∷ xs) = drop n xs

  abbrev pub take : ℕ → List A → List A
  take zero xs = []
  take (suc n) [] = []
  take (suc n) (x ∷ xs) = x ∷ take n xs

  abbrev pub replicate : ℕ → A → List A
  replicate zero x = []
  replicate (suc n) x = x ∷ replicate n x

  abbrev pub get_elem? : List A → ℕ → Option A
  get_elem? [] i = none
  get_elem? (x ∷ xs) zero = some x
  get_elem? (x ∷ xs) (suc i) = get_elem? xs i

  -- Python's `not xs`
  abbrev pub is_empty : List A → Bool
  is_empty [] = true
  is_empty (x ∷ xs) = false

  pub length-append : (xs ys : List A) → length (xs ++ ys) ≡ length xs + length ys
  length-append [] ys = omega arith
  length-append (x ∷ xs) ys = omega (arith, length-append xs ys)

  pub length-drop : (n : ℕ) (xs : List A) → length (drop n xs) ≡ length xs - n
  length-drop zero xs = omega arith
  length-drop (suc n) [] = omega arith
  length-drop (suc n) (x ∷ xs) = omega (arith, length-drop n xs)

  pub get_elem?-drop :
      (n : ℕ) (xs : List A) (i : ℕ) → get_elem? (drop n xs) i ≡ get_elem? xs (n + i)
  get_elem?-drop zero xs i = rw zero-add
  get_elem?-drop (suc n) [] i = refl
  get_elem?-drop (suc n) (x ∷ xs) i = rw suc-add (get_elem?-drop n xs i)

  pub length-take : (n : ℕ) (xs : List A) → length (take n xs) ≡ min n (length xs)
  length-take zero xs = omega arith
  length-take (suc n) [] = omega arith
  length-take (suc n) (x ∷ xs) = omega (arith, length-take n xs)

  pub take-nil : (n : ℕ) → take n [] ≡ []
  take-nil zero = refl
  take-nil (suc n) = refl

  pub length-replicate : (n : ℕ) (x : A) → length (replicate n x) ≡ n
  length-replicate zero x = refl
  length-replicate (suc n) x = omega (arith, length-replicate n x)

  -- Python's `all(test(x) for x in xs)`
  abbrev pub all : (A → Bool) → List A → Bool
  all test [] = true
  all test (x ∷ xs) = test x && all test xs

-- every element satisfies the predicate
abbrev pub All {ℓ κ} : {A : Type ℓ} → (A → Type κ) → List A → Type κ
All P [] = Unit
All P (x ∷ xs) = P x × All P xs

module _ {ℓ κ} {A : Type ℓ} (P : A → Type κ) where
  pub All-append : (xs ys : List A) → All P xs → All P ys → All P (xs ++ ys)
  All-append [] ys hx hy = hy
  All-append (x ∷ xs) ys hx hy = (hx.0, All-append xs ys hx.1 hy)

module _ {ℓ κ} {A B : Type ℓ} (P : B → Type κ) (f : A → B) where
  pub All-map : (xs : List A) → ((a : A) → P (f a)) → All P (map f xs)
  All-map [] h = tt
  All-map (x ∷ xs) h = (h x, All-map xs h)

module _ {ℓ} {A B : Type ℓ} (f : A → B) where
  pub length-map : (xs : List A) → length (map f xs) ≡ length xs
  length-map [] = refl
  length-map (x ∷ xs) = omega (arith, length-map xs)

  pub get_elem?-map : (xs : List A) (i : ℕ) → get_elem? (map f xs) i ≡ Option.map f (get_elem? xs i)
  get_elem?-map [] i = refl
  get_elem?-map (x ∷ xs) zero = refl
  get_elem?-map (x ∷ xs) (suc i) = get_elem?-map xs i

module _ {ℓ κ} {A : Type ℓ} {P Q : A → Type κ} where
  pub All-weaken : ((a : A) → P a → Q a) → (xs : List A) → All P xs → All Q xs
  All-weaken h [] all = tt
  All-weaken h (x ∷ xs) all = (h x all.0, All-weaken h xs all.1)

module _ {ℓ κ} {A : Type ℓ} (P : A → Type κ) where
  pub All-drop : (n : ℕ) (xs : List A) → All P xs → All P (drop n xs)
  All-drop zero xs all = all
  All-drop (suc n) [] all = tt
  All-drop (suc n) (x ∷ xs) all = All-drop n xs all.1

abbrev pub OptionAll {ℓ κ} : {A : Type ℓ} → (A → Type κ) → Option A → Type κ
OptionAll P none = Unit
OptionAll P (some a) = P a

-- a slice of a list that is joined from two
module _ {ℓ} {A : Type ℓ} where
  pub take-append-le : (n : ℕ) (xs ys : List A) → n ≤ length xs → take n (xs ++ ys) ≡ take n xs
  take-append-le zero xs ys h = refl
  take-append-le (suc n) [] ys h = ground arith
  take-append-le (suc n) (x ∷ xs) ys h = rw (take-append-le n xs ys (omega arith)) refl

  pub take-append-ge :
      (n m : ℕ) (xs ys : List A) → n ≡ length xs + m → take n (xs ++ ys) ≡ xs ++ take m ys
  take-append-ge n m [] ys h = let same : n ≡ m = omega arith in rw same refl
  take-append-ge zero m (x ∷ xs) ys h = ground arith
  take-append-ge (suc n) m (x ∷ xs) ys h = rw (take-append-ge n m xs ys (omega arith)) refl

  pub drop-append-le :
      (n : ℕ) (xs ys : List A) → n ≤ length xs → drop n (xs ++ ys) ≡ drop n xs ++ ys
  drop-append-le zero xs ys h = refl
  drop-append-le (suc n) [] ys h = ground arith
  drop-append-le (suc n) (x ∷ xs) ys h = drop-append-le n xs ys (omega arith)

  pub drop-append-ge :
      (n m : ℕ) (xs ys : List A) → n ≡ length xs + m → drop n (xs ++ ys) ≡ drop m ys
  drop-append-ge n m [] ys h = let same : n ≡ m = omega arith in rw same refl
  drop-append-ge zero m (x ∷ xs) ys h = ground arith
  drop-append-ge (suc n) m (x ∷ xs) ys h = drop-append-ge n m xs ys (omega arith)

  pub append_nil : (xs : List A) → xs ++ [] ≡ xs
  append_nil [] = refl
  append_nil (x ∷ xs) = rw (append_nil xs) refl
