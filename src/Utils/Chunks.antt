-- ===== src/Utils/Chunks.antt =====
-- noray/src/utils.mjs, `chunks`.
use Prim.Native.Nat.{min}
use native.Mathlib.Omega.{div_any}
use native.Mathlib.Nat.{mod-lt}
use bevy_noray.Base.{
  ℕ, zero, suc, ◌+◌, ◌-◌, ◌*◌, ◌/◌, ◌≤◌, ◌<◌, ◌≡◌, refl, ap, sym, ◌∙◌, List, [], ◌∷◌, ◌++◌, map,
  length, arith, iota, ok,
}
use bevy_noray.Utils.{take, drop, slice, chunks}

module _ {A : Type 0} where
  abbrev pub concat : List (List A) → List A
  concat [] = []
  concat (xs ∷ xss) = xs ++ concat xss

  -- Each part has an element, and at most `size` of them.
  abbrev pub Sized : ℕ → List (List A) → Type 0
  Sized size [] = Unit {0}
  Sized size (xs ∷ xss) = (0 < length xs) × (length xs ≤ size) × Sized size xss

  -- Counts that are equal as numbers take and drop the same.
  drop_same : (m n : ℕ) (xs : List A) → m ≡ n → drop m xs ≡ drop n xs
  drop_same m n xs e = ap (λ k. drop k xs) e

  take_same : (m n : ℕ) (xs : List A) → m ≡ n → take m xs ≡ take n xs
  take_same m n xs e = ap (λ k. take k xs) e

  take_nil : (n : ℕ) → take {A = A} n [] ≡ []
  take_nil zero = refl
  take_nil (suc n) = refl

  take-add : (a b : ℕ) (xs : List A) → take (a + b) xs ≡ take a xs ++ take b (drop a xs)
  take-add zero b xs = take_same (0 + b) b xs (omega arith)
  take-add (suc a) b (x ∷ xs) =
      take_same (suc a + b) (suc (a + b)) (x ∷ xs) (omega arith) ∙ ap (λ t. x ∷ t) (take-add a b xs)
  take-add (suc a) b [] = take_nil (suc a + b) ∙ sym (take_nil b)

  drop_nil : (n : ℕ) → drop {A = A} n [] ≡ []
  drop_nil zero = refl
  drop_nil (suc n) = refl

  drop-add : (a b : ℕ) (xs : List A) → drop (a + b) xs ≡ drop b (drop a xs)
  drop-add zero b xs = drop_same (0 + b) b xs (omega arith)
  drop-add (suc a) b (x ∷ xs) =
      drop_same (suc a + b) (suc (a + b)) (x ∷ xs) (omega arith) ∙ drop-add a b xs
  drop-add (suc a) b [] = drop_nil (suc a + b) ∙ sym (drop_nil b)

  take_all : (n : ℕ) (xs : List A) → length xs ≤ n → take n xs ≡ xs
  take_all zero [] h = refl
  take_all zero (x ∷ xs) h = absurd (omega arith)
  take_all (suc n) [] h = refl
  take_all (suc n) (x ∷ xs) h = ap (λ t. x ∷ t) (take_all n xs (omega arith))

  length-take : (n : ℕ) (xs : List A) → length (take n xs) ≡ min n (length xs)
  length-take zero xs = omega arith
  length-take (suc n) [] = omega arith
  length-take (suc n) (x ∷ xs) = omega (arith, length-take n xs)

  length-drop : (n : ℕ) (xs : List A) → length (drop n xs) ≡ length xs - n
  length-drop zero xs = omega arith
  length-drop (suc n) [] = omega arith
  length-drop (suc n) (x ∷ xs) = omega (arith, length-drop n xs)

  module _ (s : ℕ) (xs : List A) where
    abbrev piece : ℕ → List A
    piece i = slice (i * suc s) ((i + 1) * suc s) xs

    piece_alone : (i : ℕ) → piece i ≡ take (suc s) (drop (i * suc s) xs)
    piece_alone i =
        take_same ((i + 1) * suc s - i * suc s) (suc s) (drop (i * suc s) xs) (omega arith)

    length-piece : (i : ℕ) → length (piece i) ≡ min (suc s) (length xs - i * suc s)
    length-piece i =
        ap length (piece_alone i)
        ∙ (length-take (suc s) (drop (i * suc s) xs)
            ∙ ap (min (suc s)) (length-drop (i * suc s) xs))

    concat-pieces :
        (k n : ℕ) → concat (map piece (iota k n)) ≡ take (n * suc s) (drop (k * suc s) xs)
    concat-pieces k zero = sym (take_same (0 * suc s) 0 (drop (k * suc s) xs) (omega arith))
    concat-pieces k (suc n) =
        let next : drop (suc k * suc s) xs ≡ drop (suc s) (drop (k * suc s) xs) =
          drop_same (suc k * suc s) (k * suc s + suc s) xs (omega arith)
          ∙ drop-add (k * suc s) (suc s) xs in
        let whole : take (suc n * suc s) (drop (k * suc s) xs)
            ≡ take (suc s) (drop (k * suc s) xs)
              ++ take (n * suc s) (drop (suc s) (drop (k * suc s) xs)) =
          take_same (suc n * suc s) (suc s + n * suc s) (drop (k * suc s) xs) (omega arith)
          ∙ take-add (suc s) (n * suc s) (drop (k * suc s) xs) in
        rw (piece_alone k, concat-pieces (suc k) n, next, whole)

    pieces-Sized :
        (k n : ℕ) → (k + n) * suc s < length xs + suc s → Sized (suc s) (map piece (iota k n))
    pieces-Sized k zero h = tt
    pieces-Sized k (suc n) h =
        let less : k * suc s < length xs = omega arith in
        (
          omega (arith, length-piece k),
          omega (arith, length-piece k),
          pieces-Sized (suc k) n (omega arith),
        )

  -- Splitting into chunks of a size above zero loses nothing and keeps the order: one after the other
  -- the chunks are the data, and each has an element and at most the size.
  pub chunks_exact :
      (s : ℕ) (xs : List A)
      → (xss : List (List A)) × (chunks xs (suc s) ≡ ok xss) × (concat xss ≡ xs) × Sized (suc s) xss
  unfolding chunks
  chunks_exact s xs =
      let n = (length xs + s) / suc s in
      (
        map (piece s xs) (iota 0 n),
        refl,
        concat-pieces s xs 0 n
            ∙ (ap (take (n * suc s)) (drop_same (0 * suc s) 0 xs (omega arith))
                ∙ take_all (n * suc s) xs (
                    omega (
                      arith,
                      div_any (length xs + s) (suc s),
                      mod-lt (length xs + s) {m = suc s} (omega arith),
                    ))),
        pieces-Sized s xs 0 n (omega (arith, div_any (length xs + s) (suc s))),
      )
