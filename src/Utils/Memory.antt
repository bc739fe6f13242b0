-- ===== src/Utils/Memory.antt =====
-- noray/src/utils.mjs, `memoize`.
use bevy_noray.Base.{
  ◌≡◌, refl, ap, inl, inr, Bool-cases, Option-cases, some, List, [], ◌∷◌, arith, Text, text_eq,
  text_beq, text_beq_iff, Store, lookup, has, lookup-insert, elem, Distinct, Outcome, ok, Action,
}
use bevy_noray.Utils.{memoized}

module _ {A B : Type 0} (key : A → Text) (f : A → B) where
  -- The wrapped function, which notes the keys of the arguments that it is called with, newest first.
  abbrev pub noted : A → Action (List Text) B
  noted a calls = (ok (f a), key a ∷ calls)

  -- The results of calls of the memoized function, one after the other.
  abbrev pub call_all :
      List A → Store Text B × List Text → List (Outcome B) × (Store Text B × List Text)
  call_all [] s = ([], s)
  call_all (a ∷ rest) s =
      let (r, s') = memoized key noted a s in let (rs, s'') = call_all rest s' in (r ∷ rs, s'')

  abbrev pub results : List A → List (Outcome B)
  results [] = []
  results (a ∷ rest) = ok (f a) ∷ results rest

  -- The cache has what the function returns, for exactly the keys that it was called with.
  record Filled (s : Store Text B × List Text) : Type 0 where
    right : (a : A) (b : B) → lookup (key a) s.0 ≡ some b → b ≡ f a
    known : (k : Text) → has k s.0 ≡ elem k s.1
    once : Distinct s.1

  module _ (faithful : (a b : A) → key a ≡ key b → f a ≡ f b) where
    memoized-Filled :
        (a : A) (s : Store Text B × List Text)
        → Filled s
        → ((memoized key noted a s).0 ≡ ok (f a)) × Filled (memoized key noted a s).1
    unfolding memoized
    memoized-Filled a (cache, calls) v = elim (Option-cases (lookup (key a) cache)) [
      | inr (b, h) ↦ (rw (h, memoized) (ap ok (v.right a b h)), rw (h, memoized) v)
      | inl n ↦ (
        rw (n, memoized) refl,
        rw (n, memoized)
            (record {
              right = λ c b h. elim (Bool-cases (text_beq (key a) (key c))) [
                | inl same ↦ ground (
                  arith,
                  h,
                  lookup-insert (key a) (key c) (f a) cache,
                  faithful a c ((text_beq_iff (key a) (key c)).0 same),
                )
                | inr other ↦
                    v.right c b (ground (arith, h, lookup-insert (key a) (key c) (f a) cache))
              ];
              known = λ k. ground (arith, lookup-insert (key a) k (f a) cache, v.known k);
              once = (ground (arith, v.known (key a), n), v.once);
            }),
      )
    ]

    calls_Filled :
        (args : List A) (s : Store Text B × List Text)
        → Filled s
        → ((call_all args s).0 ≡ results args) × Filled (call_all args s).1
    calls_Filled [] s v = (refl, v)
    calls_Filled (a ∷ rest) s v =
        let (e, w) = memoized-Filled a s v in
        let (es, ws) = calls_Filled rest (memoized key noted a s).1 w in (rw (e, es), ws)

    -- Calls of a memoized function, one after the other from an empty cache, give what the function
    -- gives, and call it at most once for each key, if arguments with one key have one result.
    pub call_all_once :
        (args : List A)
        → ((call_all args ([], [])).0 ≡ results args) × Distinct (call_all args ([], [])).1.1
    call_all_once args = let (e, v) = calls_Filled args ([], []) empty in (e, v.once)
      where
        empty : Filled ([], [])
        empty = unfold lookup in record { right = λ a b h. cc; known = λ k. refl; once = tt }
