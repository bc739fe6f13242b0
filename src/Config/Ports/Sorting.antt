-- ===== src/Config/Ports/Sorting.antt =====
-- noray/src/config.parsers.mjs, `ports`: sorting by text brings equal ports together, so that comparing
-- with the port before removes every repetition.
use bevy_noray.Base.{
  subst, sym, nat_eq, ◌≡◌, ◌⊎◌, refl, ap, ◌∙◌, inl, inr, Bool, true, false, Bool-cases, List, [],
  ◌∷◌, elem, Distinct, arith, Text, ℤ, int_eq, int_beq, int_beq_iff, int_to_string,
  int_to_string-injective,
}
use bevy_noray.Config.Ports.{text_leb, insert_sorted, sort, unique, unique_after}

text_leb_total : (a b : Text) → (text_leb a b ≡ true) ⊎ (text_leb b a ≡ true)
text_leb_total [] b = inl refl
text_leb_total (x ∷ xs) [] = inr refl
text_leb_total (x ∷ xs) (y ∷ ys) = ground (arith, text_leb_total xs ys)

text_leb_trans : (a b c : Text) → text_leb a b ≡ true → text_leb b c ≡ true → text_leb a c ≡ true
text_leb_trans [] b c p q = refl
text_leb_trans (x ∷ xs) [] c p q = cc
text_leb_trans (x ∷ xs) (y ∷ ys) [] p q = cc
text_leb_trans (x ∷ xs) (y ∷ ys) (z ∷ zs) p q = ground (arith, text_leb_trans xs ys zs)

text_leb_antisym : (a b : Text) → text_leb a b ≡ true → text_leb b a ≡ true → a ≡ b
text_leb_antisym [] [] p q = refl
text_leb_antisym [] (y ∷ ys) p q = cc
text_leb_antisym (x ∷ xs) [] p q = cc
text_leb_antisym (x ∷ xs) (y ∷ ys) p q = ground (arith, text_leb_antisym xs ys)

abbrev before : ℤ → ℤ → Bool
before p q = text_leb (int_to_string p) (int_to_string q)

before_antisym : (p q : ℤ) → before p q ≡ true → before q p ≡ true → p ≡ q
before_antisym p q h k = int_to_string-injective p q (text_leb_antisym _ _ h k)

abbrev BeforeAll : ℤ → List ℤ → Type 0
BeforeAll p [] = Unit {0}
BeforeAll p (q ∷ qs) = (before p q ≡ true) × BeforeAll p qs

abbrev pub IsSorted : List ℤ → Type 0
IsSorted [] = Unit {0}
IsSorted (p ∷ ps) = BeforeAll p ps × IsSorted ps

BeforeAll-trans : (p q : ℤ) (qs : List ℤ) → before p q ≡ true → BeforeAll q qs → BeforeAll p qs
BeforeAll-trans p q [] h b = tt
BeforeAll-trans p q (r ∷ rs) h b = (
  text_leb_trans (int_to_string p) (int_to_string q) (int_to_string r) h b.0,
  BeforeAll-trans p q rs h b.1,
)

BeforeAll-elem : (p z : ℤ) (qs : List ℤ) → BeforeAll p qs → elem z qs ≡ true → before p z ≡ true
BeforeAll-elem p z [] b e = cc
BeforeAll-elem p z (q ∷ qs) b e = elim (Bool-cases (int_beq q z)) [
  | inl same ↦ let eq : q ≡ z = (int_beq_iff q z).0 same in ap (before p) (sym eq) ∙ b.0
  | inr other ↦ BeforeAll-elem p z qs b.1 (ground arith)
]

BeforeAll-insert_sorted :
    (p q : ℤ) (qs : List ℤ) → before p q ≡ true → BeforeAll p qs → BeforeAll p (insert_sorted q qs)
unfolding insert_sorted
BeforeAll-insert_sorted p q [] h b = (h, tt)
BeforeAll-insert_sorted p q (r ∷ rs) h b = elim (Bool-cases (before q r)) [
  | inl first ↦ rw (first, insert_sorted) (h, b)
  | inr later ↦ rw (later, insert_sorted) (b.0, BeforeAll-insert_sorted p q rs h b.1)
]

insert_sorted-IsSorted : (p : ℤ) (qs : List ℤ) → IsSorted qs → IsSorted (insert_sorted p qs)
unfolding insert_sorted
insert_sorted-IsSorted p [] s = (tt, tt)
insert_sorted-IsSorted p (q ∷ qs) s = elim (Bool-cases (before p q)) [
  | inl first ↦ rw (first, insert_sorted) ((first, BeforeAll-trans p q qs first s.0), s)
  | inr later ↦
      let swapped : before q p ≡ true =
        ground (arith, text_leb_total (int_to_string p) (int_to_string q)) in
      rw (later, insert_sorted)
        (BeforeAll-insert_sorted q p qs swapped s.0, insert_sorted-IsSorted p qs s.1)
]

pub sort-IsSorted : (ps : List ℤ) → IsSorted (sort ps)
unfolding sort
sort-IsSorted [] = tt
sort-IsSorted (p ∷ ps) = insert_sorted-IsSorted p (sort ps) (sort-IsSorted ps)

elem-insert_sorted : (z p : ℤ) (qs : List ℤ) → elem z (insert_sorted p qs) ≡ elem z (p ∷ qs)
unfolding insert_sorted
elem-insert_sorted z p [] = refl
elem-insert_sorted z p (q ∷ qs) = ground (arith, elem-insert_sorted z p qs)

pub elem-sort : (z : ℤ) (ps : List ℤ) → elem z (sort ps) ≡ elem z ps
unfolding sort
elem-sort z [] = refl
elem-sort z (p ∷ ps) = ground (arith, elem-insert_sorted z p (sort ps), elem-sort z ps)

elem-unique_after :
    (z last : ℤ) (ps : List ℤ) → elem z (last ∷ unique_after last ps) ≡ elem z (last ∷ ps)
unfolding unique_after
elem-unique_after z last [] = refl
elem-unique_after z last (p ∷ ps) = ground (arith, elem-unique_after z p ps, int_beq_iff p last)

-- Behind `last`, in a sorted list, `last` does not occur again and nothing occurs twice.
unique_after-Distinct :
    (last : ℤ) (ps : List ℤ) → IsSorted (last ∷ ps) → Distinct (last ∷ unique_after last ps)
unfolding unique_after
unique_after-Distinct last [] s = (refl, tt)
unique_after-Distinct last (p ∷ ps) s = elim (Bool-cases (int_beq p last)) [
  | inl same ↦
      let eq : p ≡ last = (int_beq_iff p last).0 same in
      rw (same, unique_after)
        (subst (λ x. Distinct (x ∷ unique_after p ps)) eq (unique_after-Distinct p ps s.1))
  | inr other ↦
      let rest : Distinct (p ∷ unique_after p ps) = unique_after-Distinct p ps s.1 in
      rw (other, unique_after) (gone other, rest)
]
  where
    gone : int_beq p last ≡ false → elem last (p ∷ unique_after p ps) ≡ false
    gone other = elim (Bool-cases (elem last (p ∷ ps))) [
      | inr missing ↦ elem-unique_after last p ps ∙ missing
      | inl there ↦
          let back : before p last ≡ true = BeforeAll-elem p last ps s.1.0 (ground arith) in
          absurd (ground (arith, before_antisym p last back s.0.0, int_beq_iff p last))
    ]

pub unique-Distinct : (ps : List ℤ) → IsSorted ps → Distinct (unique ps)
unfolding unique
unique-Distinct [] s = tt
unique-Distinct (p ∷ ps) s = unique_after-Distinct p ps s

pub elem-unique : (z : ℤ) (ps : List ℤ) → elem z (unique ps) ≡ elem z ps
unfolding unique
elem-unique z [] = refl
elem-unique z (p ∷ ps) = elem-unique_after z p ps
