-- ===== src/Prelude/Lists.antt =====
-- Lists as C arrays: measured and indexed by native numbers.
use Prim.Native.Nat.{ℕ, zero, suc, ◌+◌, ◌-◌, ◌≤◌, ◌<◌, min}
use mathlib.Core.Path.{◌≡◌, refl, ap, sym, ◌∙◌}
use mathlib.Core.Logic.{◌≢◌}
use mathlib.Core.List.{List, [], ◌∷◌, ◌++◌, map}
use mathlib.Core.Option.{Option, none, some}
use native.Mathlib.Omega.{arith}

module _ {ℓ} {A : Type ℓ} where
  abbrev pub length : List A → ℕ
  length [] = 0
  length (x ∷ xs) = suc (length xs)

  abbrev pub get_elem? : List A → ℕ → Option A
  get_elem? [] i = none
  get_elem? (x ∷ xs) zero = some x
  get_elem? (x ∷ xs) (suc i) = get_elem? xs i

  abbrev pub get_or : List A → ℕ → A → A
  get_or [] i d = d
  get_or (x ∷ xs) zero d = x
  get_or (x ∷ xs) (suc i) d = get_or xs i d

  abbrev pub set : List A → ℕ → A → List A
  set [] i v = []
  set (x ∷ xs) zero v = v ∷ xs
  set (x ∷ xs) (suc i) v = x ∷ set xs i v

  abbrev pub take : ℕ → List A → List A
  take zero xs = []
  take (suc n) [] = []
  take (suc n) (x ∷ xs) = x ∷ take n xs

  abbrev pub drop : ℕ → List A → List A
  drop zero xs = xs
  drop (suc n) [] = []
  drop (suc n) (x ∷ xs) = drop n xs

  abbrev pub replicate : ℕ → A → List A
  replicate zero a = []
  replicate (suc n) a = a ∷ replicate n a

  -- Every element of the list satisfies `P`.
  abbrev pub All {κ} : (A → Type κ) → List A → Type κ
  All P [] = Unit
  All P (x ∷ xs) = P x × All P xs

module _ {ℓ} {A : Type ℓ} where
  pub length-append : (xs ys : List A) → length (xs ++ ys) ≡ length xs + length ys
  length-append [] ys = omega arith
  length-append (x ∷ xs) ys = omega (arith, length-append xs ys)

  pub length-set : (xs : List A) (i : ℕ) (v : A) → length (set xs i v) ≡ length xs
  length-set [] i v = refl
  length-set (x ∷ xs) zero v = refl
  length-set (x ∷ xs) (suc i) v = ap suc (length-set xs i v)

  pub length-take : (n : ℕ) (xs : List A) → length (take n xs) ≡ min n (length xs)
  length-take zero xs = omega arith
  length-take (suc n) [] = omega arith
  length-take (suc n) (x ∷ xs) = omega (arith, length-take n xs)

  pub length-drop : (n : ℕ) (xs : List A) → length (drop n xs) ≡ length xs - n
  length-drop zero xs = omega arith
  length-drop (suc n) [] = omega arith
  length-drop (suc n) (x ∷ xs) = omega (arith, length-drop n xs)

  pub get_elem?-eq-get_or :
      (xs : List A) (i : ℕ) (d : A) → i < length xs → get_elem? xs i ≡ some (get_or xs i d)
  get_elem?-eq-get_or [] i d h = absurd (omega arith)
  get_elem?-eq-get_or (x ∷ xs) zero d h = refl
  get_elem?-eq-get_or (x ∷ xs) (suc i) d h = get_elem?-eq-get_or xs i d (omega arith)

  pub get_elem?-of_le : (xs : List A) (i : ℕ) → length xs ≤ i → get_elem? xs i ≡ none
  get_elem?-of_le [] i h = refl
  get_elem?-of_le (x ∷ xs) zero h = absurd (omega arith)
  get_elem?-of_le (x ∷ xs) (suc i) h = get_elem?-of_le xs i (omega arith)

  pub get_elem?-set_self :
      (xs : List A) (i : ℕ) (v : A) → i < length xs → get_elem? (set xs i v) i ≡ some v
  get_elem?-set_self [] i v h = absurd (omega arith)
  get_elem?-set_self (x ∷ xs) zero v h = refl
  get_elem?-set_self (x ∷ xs) (suc i) v h = get_elem?-set_self xs i v (omega arith)

  pub get_elem?-set_ne :
      (xs : List A) (i j : ℕ) (v : A) → i ≢ j → get_elem? (set xs i v) j ≡ get_elem? xs j
  get_elem?-set_ne [] i j v h = refl
  get_elem?-set_ne (x ∷ xs) zero zero v h = absurd (h refl)
  get_elem?-set_ne (x ∷ xs) zero (suc j) v h = refl
  get_elem?-set_ne (x ∷ xs) (suc i) zero v h = refl
  get_elem?-set_ne (x ∷ xs) (suc i) (suc j) v h = get_elem?-set_ne xs i j v (λ e. h (ap suc e))

  pub get_or-set_self :
      (xs : List A) (i : ℕ) (v d : A) → i < length xs → get_or (set xs i v) i d ≡ v
  get_or-set_self [] i v d h = absurd (omega arith)
  get_or-set_self (x ∷ xs) zero v d h = refl
  get_or-set_self (x ∷ xs) (suc i) v d h = get_or-set_self xs i v d (omega arith)

  pub get_or-set_ne :
      (xs : List A) (i j : ℕ) (v d : A) → i ≢ j → get_or (set xs i v) j d ≡ get_or xs j d
  get_or-set_ne [] i j v d h = refl
  get_or-set_ne (x ∷ xs) zero zero v d h = absurd (h refl)
  get_or-set_ne (x ∷ xs) zero (suc j) v d h = refl
  get_or-set_ne (x ∷ xs) (suc i) zero v d h = refl
  get_or-set_ne (x ∷ xs) (suc i) (suc j) v d h = get_or-set_ne xs i j v d (λ e. h (ap suc e))

  pub take-append-drop : (n : ℕ) (xs : List A) → take n xs ++ drop n xs ≡ xs
  take-append-drop zero xs = refl
  take-append-drop (suc n) [] = refl
  take-append-drop (suc n) (x ∷ xs) = ap (◌∷◌ x) (take-append-drop n xs)

  pub length-map {κ} : {B : Type κ} (f : A → B) (xs : List A) → length (map f xs) ≡ length xs
  length-map f [] = refl
  length-map f (x ∷ xs) = ap suc (length-map f xs)

  pub All-append {κ} : (P : A → Type κ) (xs ys : List A) → All P xs → All P ys → All P (xs ++ ys)
  All-append P [] ys hx hy = hy
  All-append P (x ∷ xs) ys hx hy = (hx.0, All-append P xs ys hx.1 hy)

  pub All-append_right {κ} : (P : A → Type κ) (xs ys : List A) → All P (xs ++ ys) → All P ys
  All-append_right P [] ys h = h
  All-append_right P (x ∷ xs) ys h = All-append_right P xs ys h.1

  pub All-imp {κ μ} :
      {P : A → Type κ} {Q : A → Type μ}
      → ((x : A) → P x → Q x)
      → (xs : List A) → All P xs
      → All Q xs
  All-imp f [] h = tt
  All-imp f (x ∷ xs) h = (f x h.0, All-imp f xs h.1)

-- A run of values stored in consecutive cells from index `i` on: the effect of `memcpy`.
module _ {ℓ} {A : Type ℓ} where
  unfoldable pub blit : List A → ℕ → List A → List A
  blit a i [] = a
  blit a i (x ∷ xs) = blit (set a i x) (suc i) xs

  pub length-blit : (a : List A) (i : ℕ) (xs : List A) → length (blit a i xs) ≡ length a
  unfolding blit
  length-blit a i [] = refl
  length-blit a i (x ∷ xs) = omega (arith, length-blit (set a i x) (suc i) xs, length-set a i x)

  pub blit-suc :
      (y : A) (a : List A) (i : ℕ) (xs : List A) → blit (y ∷ a) (suc i) xs ≡ y ∷ blit a i xs
  unfolding blit
  blit-suc y a i [] = refl
  blit-suc y a i (x ∷ xs) = blit-suc y (set a i x) (suc i) xs

  -- From the start of an array that has room.
  pub blit-zero : (a xs : List A) → length xs ≤ length a → blit a 0 xs ≡ xs ++ drop (length xs) a
  unfolding blit
  blit-zero a [] h = refl
  blit-zero [] (x ∷ xs) h = absurd (omega arith)
  blit-zero (y ∷ a) (x ∷ xs) h = rw (blit-suc x a 0 xs, blit-zero a xs (omega arith))

  pub blit-append :
      (a : List A) (i : ℕ) (xs ys : List A)
      → blit a i (xs ++ ys) ≡ blit (blit a i xs) (i + length xs) ys
  unfolding blit
  blit-append a i [] ys = ap (λ j. blit a j ys) (omega arith)
  blit-append a i (x ∷ xs) ys =
      rw (blit-append (set a i x) (suc i) xs ys)
        (ap (λ j. blit (blit (set a i x) (suc i) xs) j ys) (omega arith))

  pub drop-set : (a : List A) (i j : ℕ) (v : A) → i < j → drop j (set a i v) ≡ drop j a
  drop-set [] i zero v h = absurd (omega arith)
  drop-set [] i (suc j) v h = refl
  drop-set (x ∷ a) i zero v h = absurd (omega arith)
  drop-set (x ∷ a) zero (suc j) v h = refl
  drop-set (x ∷ a) (suc i) (suc j) v h = drop-set a i j v (omega arith)

  pub set-get_elem? : (a : List A) (i : ℕ) (v : A) → get_elem? a i ≡ some v → set a i v ≡ a
  set-get_elem? [] i v h = refl
  set-get_elem? (x ∷ a) zero v h = ground arith
  set-get_elem? (x ∷ a) (suc i) v h = ap (◌∷◌ x) (set-get_elem? a i v h)

  -- Inside the array a read succeeds, and gives the head of what is left there.
  pub get_elem?-drop :
      (a : List A) (i : ℕ)
      → i < length a
      → (x : A) × (get_elem? a i ≡ some x) × (drop i a ≡ x ∷ drop (suc i) a)
  get_elem?-drop [] i h = absurd (omega arith)
  get_elem?-drop (x ∷ a) zero h = (x, refl, refl)
  get_elem?-drop (x ∷ a) (suc i) h = get_elem?-drop a i (omega arith)

  pub get_elem?-append_right :
      (xs ys : List A) (i : ℕ)
      → length xs ≤ i
      → get_elem? (xs ++ ys) i ≡ get_elem? ys (i - length xs)
  get_elem?-append_right [] ys i h = ap (get_elem? ys) (omega arith)
  get_elem?-append_right (x ∷ xs) ys zero h = absurd (omega arith)
  get_elem?-append_right (x ∷ xs) ys (suc i) h =
      get_elem?-append_right xs ys i (omega arith) ∙ ap (get_elem? ys) (omega arith)

  pub get_elem?-drop_add : (a : List A) (i j : ℕ) → get_elem? (drop i a) j ≡ get_elem? a (i + j)
  get_elem?-drop_add a zero j = ap (get_elem? a) (omega arith)
  get_elem?-drop_add [] (suc i) j = sym (get_elem?-of_le [] (suc i + j) (omega arith))
  get_elem?-drop_add (x ∷ a) (suc i) j =
      let e : suc i + j ≡ suc (i + j) = omega arith in rw e (get_elem?-drop_add a i j)
