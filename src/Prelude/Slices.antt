-- ===== src/Prelude/Slices.antt =====
-- Parts of arrays: what `memcpy` and the ends of buffers need of `take`, `drop` and `set`.
use Prim.Native.Nat.{ℕ, zero, suc, ◌+◌, ◌≤◌, ◌<◌}
use mathlib.Core.Path.{◌≡◌, refl, sym, ap, ◌∙◌}
use mathlib.Core.List.{List, [], ◌∷◌, ◌++◌}
use native.Mathlib.Omega.{arith}
use esp32_deskflow.Prelude.Lists.{length, get_or, take, drop, set, length-drop}

module _ {ℓ} {A : Type ℓ} where
  pub length-take : (n : ℕ) (xs : List A) → n ≤ length xs → length (take n xs) ≡ n
  length-take zero xs h = refl
  length-take (suc n) [] h = absurd (omega arith)
  length-take (suc n) (x ∷ xs) h = ap suc (length-take n xs (omega arith))

  pub take-append : (n : ℕ) (xs ys : List A) → n ≤ length xs → take n (xs ++ ys) ≡ take n xs
  take-append zero xs ys h = refl
  take-append (suc n) [] ys h = absurd (omega arith)
  take-append (suc n) (x ∷ xs) ys h = ap (λ r. x ∷ r) (take-append n xs ys (omega arith))

  pub drop-append : (n : ℕ) (xs ys : List A) → n ≤ length xs → drop n (xs ++ ys) ≡ drop n xs ++ ys
  drop-append zero xs ys h = refl
  drop-append (suc n) [] ys h = absurd (omega arith)
  drop-append (suc n) (x ∷ xs) ys h = drop-append n xs ys (omega arith)

  pub take-drop : (n : ℕ) (xs : List A) → take n xs ++ drop n xs ≡ xs
  take-drop zero xs = refl
  take-drop (suc n) [] = refl
  take-drop (suc n) (x ∷ xs) = ap (λ r. x ∷ r) (take-drop n xs)

  pub take_all : (n : ℕ) (xs : List A) → length xs ≤ n → take n xs ≡ xs
  take_all zero [] h = refl
  take_all zero (x ∷ xs) h = absurd (omega arith)
  take_all (suc n) [] h = refl
  take_all (suc n) (x ∷ xs) h = ap (λ r. x ∷ r) (take_all n xs (omega arith))

  pub length-take_at_most : (n : ℕ) (xs : List A) → length (take n xs) ≤ n
  length-take_at_most zero xs = omega arith
  length-take_at_most (suc n) [] = omega arith
  length-take_at_most (suc n) (x ∷ xs) = omega (arith, length-take_at_most n xs)

  pub length-take_shrinks : (n : ℕ) (xs : List A) → length (take n xs) ≤ length xs
  length-take_shrinks zero xs = omega arith
  length-take_shrinks (suc n) [] = omega arith
  length-take_shrinks (suc n) (x ∷ xs) = omega (arith, length-take_shrinks n xs)

  -- A prefix comes back whole.
  pub take-append_all : (xs ys : List A) → take (length xs) (xs ++ ys) ≡ xs
  take-append_all [] ys = refl
  take-append_all (x ∷ xs) ys = ap (λ r. x ∷ r) (take-append_all xs ys)

  pub drop-append_all : (xs ys : List A) → drop (length xs) (xs ++ ys) ≡ ys
  drop-append_all [] ys = refl
  drop-append_all (x ∷ xs) ys = drop-append_all xs ys

  pub take-take : (n m : ℕ) (xs : List A) → n ≤ m → take n (take m xs) ≡ take n xs
  take-take zero m xs h = refl
  take-take (suc n) zero xs h = absurd (omega arith)
  take-take (suc n) (suc m) [] h = refl
  take-take (suc n) (suc m) (x ∷ xs) h = ap (λ r. x ∷ r) (take-take n m xs (omega arith))

  -- The `n` cells from index `i` on.
  abbrev pub slice : List A → ℕ → ℕ → List A
  slice xs i n = take n (drop i xs)

  pub length-slice : (xs : List A) (i n : ℕ) → i + n ≤ length xs → length (slice xs i n) ≡ n
  length-slice xs i n h = length-take n (drop i xs) (omega (arith, length-drop i xs))

  -- A write behind a part, and one before it, do not change it.
  pub take-set_after : (xs : List A) (n j : ℕ) (v : A) → n ≤ j → take n (set xs j v) ≡ take n xs
  take-set_after xs zero j v h = refl
  take-set_after [] (suc n) j v h = refl
  take-set_after (x ∷ xs) (suc n) zero v h = absurd (omega arith)
  take-set_after (x ∷ xs) (suc n) (suc j) v h =
      ap (λ r. x ∷ r) (take-set_after xs n j v (omega arith))

  pub drop-set_before : (xs : List A) (i j : ℕ) (v : A) → j < i → drop i (set xs j v) ≡ drop i xs
  drop-set_before xs zero j v h = absurd (omega arith)
  drop-set_before [] (suc i) j v h = refl
  drop-set_before (x ∷ xs) (suc i) zero v h = refl
  drop-set_before (x ∷ xs) (suc i) (suc j) v h = drop-set_before xs i j v (omega arith)

  pub slice-set_after :
      (xs : List A) (i n j : ℕ) (v : A) → i + n ≤ j → slice (set xs j v) i n ≡ slice xs i n
  slice-set_after xs zero n j v h = take-set_after xs n j v (omega arith)
  slice-set_after [] (suc i) n j v h = refl
  slice-set_after (x ∷ xs) (suc i) n zero v h = absurd (omega arith)
  slice-set_after (x ∷ xs) (suc i) n (suc j) v h = slice-set_after xs i n j v (omega arith)

  pub slice-set_before :
      (xs : List A) (i n j : ℕ) (v : A) → j < i → slice (set xs j v) i n ≡ slice xs i n
  slice-set_before xs i n j v h = ap (λ r. take n r) (drop-set_before xs i j v h)

  -- A write just behind a part makes it one longer.
  pub slice-set_end :
      (xs : List A) (i n j : ℕ) (v : A)
      → j ≡ i + n
      → j < length xs
      → slice (set xs j v) i (suc n) ≡ slice xs i n ++ v ∷ []
  slice-set_end [] i n j v e h = absurd (omega arith)
  slice-set_end (x ∷ xs) zero zero zero v e h = refl
  slice-set_end (x ∷ xs) zero zero (suc j) v e h = absurd (omega arith)
  slice-set_end (x ∷ xs) zero (suc n) zero v e h = absurd (omega arith)
  slice-set_end (x ∷ xs) zero (suc n) (suc j) v e h =
      ap (λ r. x ∷ r) (slice-set_end xs zero n j v (omega arith) (omega arith))
  slice-set_end (x ∷ xs) (suc i) n zero v e h = absurd (omega arith)
  slice-set_end (x ∷ xs) (suc i) n (suc j) v e h =
      slice-set_end xs i n j v (omega arith) (omega arith)

  pub slice-get_or :
      (xs : List A) (i n : ℕ) (d : A)
      → i < length xs
      → slice xs i (suc n) ≡ get_or xs i d ∷ slice xs (suc i) n
  slice-get_or [] i n d h = absurd (omega arith)
  slice-get_or (x ∷ xs) zero n d h = refl
  slice-get_or (x ∷ xs) (suc i) n d h = slice-get_or xs i n d (omega arith)

  pub get_or-take : (xs : List A) (i n : ℕ) (d : A) → i < n → get_or (take n xs) i d ≡ get_or xs i d
  get_or-take xs i zero d h = absurd (omega arith)
  get_or-take [] i (suc n) d h = refl
  get_or-take (x ∷ xs) zero (suc n) d h = refl
  get_or-take (x ∷ xs) (suc i) (suc n) d h = get_or-take xs i n d (omega arith)

  -- The front of an array, one longer after a write just behind it.
  pub take-set_end :
      (xs : List A) (n : ℕ) (v : A)
      → n < length xs
      → take (suc n) (set xs n v) ≡ take n xs ++ v ∷ []
  take-set_end xs n v h = slice-set_end xs 0 n n v (omega arith) h

  pub drop-nil : (n : ℕ) → ◌≡◌ {A = List A} (drop n []) []
  drop-nil zero = refl
  drop-nil (suc n) = refl

  pub drop-all : (n : ℕ) (xs : List A) → length xs ≤ n → drop n xs ≡ []
  drop-all zero [] h = refl
  drop-all zero (x ∷ xs) h = absurd (omega arith)
  drop-all (suc n) [] h = refl
  drop-all (suc n) (x ∷ xs) h = drop-all n xs (omega arith)

  pub drop-drop : (i n : ℕ) (xs : List A) → drop n (drop i xs) ≡ drop (i + n) xs
  drop-drop zero n xs = ap (λ k. drop k xs) (omega arith)
  drop-drop (suc i) n [] = drop-nil n ∙ sym (drop-nil (suc i + n))
  drop-drop (suc i) n (x ∷ xs) =
      let next : suc i + n ≡ suc (i + n) = omega arith in
      drop-drop i n xs ∙ sym (ap (λ k. drop k (x ∷ xs)) next)

  -- A part and what is behind it.
  pub slice-drop : (xs : List A) (i n : ℕ) → slice xs i n ++ drop (i + n) xs ≡ drop i xs
  slice-drop xs i n = ap (λ r. slice xs i n ++ r) (sym (drop-drop i n xs)) ∙ take-drop n (drop i xs)
