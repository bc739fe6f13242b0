-- ===== src/Utils/Words.antt =====
-- noray/src/utils.mjs, `generateWordId`: an identifier tells which words it was made of.
use bevy_noray.Base.{
  zero, suc, ℕ, ◌≡◌, refl, ap, ◌∙◌, sym, Bool, true, false, not, ◌&&◌, leb, Option, some, List, [],
  ◌∷◌, ◌++◌, get_elem?, Text, arith,
}
use bevy_noray.Utils.{generate_word_id}
use bevy_noray.Wordlist.{words}

abbrev is_capital : ℕ → Bool
is_capital c = leb 65 c && leb c 90

abbrev no_capital : Text → Bool
no_capital [] = true
no_capital (c ∷ cs) = not (is_capital c) && no_capital cs

-- A capital and one more character at the front, and no capital behind them.
abbrev is_word : Text → Bool
is_word (a ∷ b ∷ cs) = is_capital a && no_capital cs
is_word _ = false

abbrev all_words : List Text → Bool
all_words [] = true
all_words (w ∷ ws) = is_word w && all_words ws

-- Nothing, or a text that starts with a capital.
abbrev Starts : Text → Type 0
Starts [] = Unit
Starts (c ∷ cs) = is_capital c ≡ true

-- Where the characters behind the first two end, another word starts.
split_tails :
    (u v s t : Text)
    → no_capital u ≡ true
    → no_capital v ≡ true
    → Starts s
    → Starts t
    → u ++ s ≡ v ++ t
    → (u ≡ v) × (s ≡ t)
split_tails [] [] s t hu hv hs ht e = (refl, e)
split_tails [] (y ∷ v) [] t hu hv hs ht e = absurd (ground (arith, e))
split_tails [] (y ∷ v) (x ∷ s) t hu hv hs ht e = absurd (ground (arith, e, hv, hs))
split_tails (x ∷ u) [] s [] hu hv hs ht e = absurd (ground (arith, e))
split_tails (x ∷ u) [] s (y ∷ t) hu hv hs ht e = absurd (ground (arith, e, hu, ht))
split_tails (x ∷ u) (y ∷ v) s t hu hv hs ht e =
    let w =
      split_tails u v s t (ground (arith, hu)) (ground (arith, hv)) hs ht (ground (arith, e)) in
    (ground (arith, w.0, e), w.1)

split_words :
    (u v s t : Text)
    → is_word u ≡ true
    → is_word v ≡ true
    → Starts s
    → Starts t
    → u ++ s ≡ v ++ t
    → (u ≡ v) × (s ≡ t)
split_words (a ∷ b ∷ u) (c ∷ d ∷ v) s t hu hv hs ht e =
    let w =
      split_tails u v s t (ground (arith, hu)) (ground (arith, hv)) hs ht (ground (arith, e)) in
    (ground (arith, w.0, e), w.1)
split_words [] v s t hu hv hs ht e = absurd (ground (arith, hu))
split_words (a ∷ []) v s t hu hv hs ht e = absurd (ground (arith, hu))
split_words (a ∷ b ∷ u) [] s t hu hv hs ht e = absurd (ground (arith, hv))
split_words (a ∷ b ∷ u) (c ∷ []) s t hu hv hs ht e = absurd (ground (arith, hv))

-- The words that are drawn.
abbrev pub drawn : List Text → List ℕ → List (Option Text)
drawn list [] = []
drawn list (i ∷ is) = get_elem? list i ∷ drawn list is

-- Each index is that of a word, as those that `randomInt` gives are.
abbrev pub InRange : List Text → List ℕ → Type 0
InRange list [] = Unit
InRange list (i ∷ is) = (w : Text) × (get_elem? list i ≡ some w) × InRange list is

get_elem?-is_word :
    (ws : List Text) (i : ℕ) (w : Text)
    → all_words ws ≡ true
    → get_elem? ws i ≡ some w
    → is_word w ≡ true
get_elem?-is_word [] i w k g = absurd (ground (arith, g))
get_elem?-is_word (x ∷ ws) zero w k g = ground (arith, k, g)
get_elem?-is_word (x ∷ ws) (suc i) w k g = get_elem?-is_word ws i w (ground (arith, k)) g

word-Starts : (w t : Text) → is_word w ≡ true → Starts (w ++ t)
word-Starts (a ∷ b ∷ cs) t h = ground (arith, h)
word-Starts [] t h = absurd (ground (arith, h))
word-Starts (a ∷ []) t h = absurd (ground (arith, h))

word_not_nil : (w t : Text) → is_word w ≡ true → ¬ ([] ≡ w ++ t)
word_not_nil (a ∷ b ∷ cs) t h e = absurd (ground (arith, e))
word_not_nil [] t h e = absurd (ground (arith, h))
word_not_nil (a ∷ []) t h e = absurd (ground (arith, h))

module _ (list : List Text) (all : all_words list ≡ true) where
  id-Starts : (is : List ℕ) → InRange list is → Starts (generate_word_id list is)
  unfolding generate_word_id
  id-Starts [] r = tt
  id-Starts (i ∷ is) (w, g, r) =
      rw g (word-Starts w (generate_word_id list is) (get_elem?-is_word list i w all g))

  generate_word_id-drawn :
      (is js : List ℕ)
      → InRange list is
      → InRange list js
      → generate_word_id list is ≡ generate_word_id list js
      → drawn list is ≡ drawn list js
  unfolding generate_word_id
  generate_word_id-drawn [] [] r q e = refl
  generate_word_id-drawn [] (j ∷ js) r (w, g, q) e =
      absurd (
        word_not_nil w (generate_word_id list js) (get_elem?-is_word list j w all g)
          (e ∙ rw g refl))
  generate_word_id-drawn (i ∷ is) [] (w, g, r) q e = absurd (
      word_not_nil w (generate_word_id list is) (get_elem?-is_word list i w all g)
        (sym e ∙ rw g refl))
  generate_word_id-drawn (i ∷ is) (j ∷ js) (u, f, r) (v, g, q) e =
      let w =
        split_words u v (generate_word_id list is) (generate_word_id list js)
          (get_elem?-is_word list i u all f) (get_elem?-is_word list j v all g) (id-Starts is r)
          (id-Starts js q) (ground (arith, e, f, g)) in
      rw (f, g, w.0) (ap (λ x. some v ∷ x) (generate_word_id-drawn is js r q w.1))

-- Every word of the list is of that form, "CD", "X-ray" and "Jalapeño" too.
words_read : all_words words ≡ true
words_read = refl

-- Two identifiers that `generateWordId` makes of the list's words are the same only if the same words
-- were drawn in the same order, and as many, where each index is that of a word.
pub word_ids_differ :
    (is js : List ℕ)
    → InRange words is
    → InRange words js
    → generate_word_id words is ≡ generate_word_id words js
    → drawn words is ≡ drawn words js
word_ids_differ = generate_word_id-drawn words words_read
