-- ===== src/Prelude/Cells.antt =====
-- Lists cell by cell: what `get_or` reads of an appended, cut or overwritten list.
use Prim.Native.Nat.{ℕ, zero, suc, ◌+◌, ◌-◌, ◌≤◌, ◌<◌}
use mathlib.Core.Path.{◌≡◌, refl, ap, ◌∙◌}
use mathlib.Core.List.{List, [], ◌∷◌, ◌++◌}
use native.Mathlib.Omega.{arith}
use pp_final_project.Prelude.Lists.{
  length, get_or, set, take, drop, blit, length-set, get_or-set_self, get_or-set_ne,
}

module _ {ℓ} {A : Type ℓ} where
  pub get_or-append_left :
      (xs ys : List A) (i : ℕ) (d : A) → i < length xs → get_or (xs ++ ys) i d ≡ get_or xs i d
  get_or-append_left [] ys i d h = absurd (omega arith)
  get_or-append_left (x ∷ xs) ys zero d h = refl
  get_or-append_left (x ∷ xs) ys (suc i) d h = get_or-append_left xs ys i d (omega arith)

  pub get_or-append_right :
      (xs ys : List A) (i : ℕ) (d : A)
      → length xs ≤ i
      → get_or (xs ++ ys) i d ≡ get_or ys (i - length xs) d
  get_or-append_right [] ys i d h = ap (λ j. get_or ys j d) (omega arith)
  get_or-append_right (x ∷ xs) ys zero d h = absurd (omega arith)
  get_or-append_right (x ∷ xs) ys (suc i) d h =
      get_or-append_right xs ys i d (omega arith) ∙ ap (λ j. get_or ys j d) (omega arith)

  pub get_or-take :
      (n : ℕ) (xs : List A) (i : ℕ) (d : A) → i < n → get_or (take n xs) i d ≡ get_or xs i d
  get_or-take zero xs i d h = absurd (omega arith)
  get_or-take (suc n) [] i d h = refl
  get_or-take (suc n) (x ∷ xs) zero d h = refl
  get_or-take (suc n) (x ∷ xs) (suc i) d h = get_or-take n xs i d (omega arith)

  pub get_or-drop :
      (n : ℕ) (xs : List A) (i : ℕ) (d : A) → get_or (drop n xs) i d ≡ get_or xs (n + i) d
  get_or-drop zero xs i d = ap (λ j. get_or xs j d) (omega arith)
  get_or-drop (suc n) [] i d = refl
  get_or-drop (suc n) (x ∷ xs) i d =
      let e : suc n + i ≡ suc (n + i) = omega arith in rw e (get_or-drop n xs i d)

  -- Two lists of one length that agree on each cell are equal.
  pub cells_ext :
      (d : A) (xs ys : List A)
      → length xs ≡ length ys
      → ((i : ℕ) → i < length xs → get_or xs i d ≡ get_or ys i d)
      → xs ≡ ys
  cells_ext d [] [] e h = refl
  cells_ext d [] (y ∷ ys) e h = absurd (omega arith)
  cells_ext d (x ∷ xs) [] e h = absurd (omega arith)
  cells_ext d (x ∷ xs) (y ∷ ys) e h =
      rw (h 0 (omega arith), cells_ext d xs ys (omega arith) (λ i p. h (suc i) (omega arith))) refl

  pub get_or-blit_before :
      (a : List A) (i : ℕ) (xs : List A) (j : ℕ) (d : A)
      → j < i
      → get_or (blit a i xs) j d ≡ get_or a j d
  unfolding blit
  get_or-blit_before a i [] j d h = refl
  get_or-blit_before a i (x ∷ xs) j d h =
      get_or-blit_before (set a i x) (suc i) xs j d (omega arith)
      ∙ get_or-set_ne a i j x d (λ e. absurd (omega arith))

  pub get_or-blit_after :
      (a : List A) (i : ℕ) (xs : List A) (j : ℕ) (d : A)
      → i + length xs ≤ j
      → get_or (blit a i xs) j d ≡ get_or a j d
  unfolding blit
  get_or-blit_after a i [] j d h = refl
  get_or-blit_after a i (x ∷ xs) j d h =
      get_or-blit_after (set a i x) (suc i) xs j d (omega arith)
      ∙ get_or-set_ne a i j x d (λ e. absurd (omega arith))

  pub get_or-blit_in :
      (a : List A) (i : ℕ) (xs : List A) (k : ℕ) (d : A)
      → k < length xs
      → i + length xs ≤ length a
      → get_or (blit a i xs) (i + k) d ≡ get_or xs k d
  unfolding blit
  get_or-blit_in a i [] k d h r = absurd (omega arith)
  get_or-blit_in a i (x ∷ xs) zero d h r =
      ap (λ j. get_or (blit (set a i x) (suc i) xs) j d) (omega arith)
      ∙ get_or-blit_before (set a i x) (suc i) xs i d (omega arith)
      ∙ get_or-set_self a i x d (omega arith)
  get_or-blit_in a i (x ∷ xs) (suc k) d h r =
      ap (λ j. get_or (blit (set a i x) (suc i) xs) j d) (omega arith)
      ∙ get_or-blit_in (set a i x) (suc i) xs k d (omega arith) (omega (arith, length-set a i x))

  -- A list cut in two.
  pub take-append-take : (m n : ℕ) (xs : List A) → take m xs ++ take n (drop m xs) ≡ take (m + n) xs
  take-append-take zero n xs = ap (λ k. take k xs) (omega arith)
  take-append-take (suc m) zero [] = let e : suc m + 0 ≡ suc m = omega arith in rw e refl
  take-append-take (suc m) (suc n) [] =
      let e : suc m + suc n ≡ suc (m + suc n) = omega arith in rw e refl
  take-append-take (suc m) n (x ∷ xs) =
      let e : suc m + n ≡ suc (m + n) = omega arith in rw (e, take-append-take m n xs) refl
