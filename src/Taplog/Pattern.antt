-- ===== src/Taplog/Pattern.antt =====
-- noray/scripts/taplog.mjs: the pattern of a log line.
use bevy_noray.Base.{
  ◌↔◌, ℕ, ◌≡◌, ◌∙◌, ap, refl, inl, inr, Bool, Bool-cases, true, false, ◌&&◌, some, [], ◌∷◌, ◌++◌,
  Text, arith,
}
use bevy_noray.Config.Numbers.{is_space}
use bevy_noray.Taplog.{skip, is_hash, behind_brace, match_log}

abbrev pub all : (ℕ → Bool) → Text → Bool
all p [] = true
all p (c ∷ cs) = p c && all p cs

-- What the pattern says: white space, number signs, white space and a brace.
abbrev pub IsLog : Text → Text → Type 0
IsLog line rest =
    (a : Text) × (b : Text) × (c : Text) × (all is_space a ≡ true)
    × (all is_hash b ≡ true)
    × (all is_space c ≡ true)
    × (line ≡ a ++ (b ++ (c ++ b'{' ∷ rest)))

-- `skip` takes away all that it can.
skipped : (p : ℕ → Bool) (line : Text) → (a : Text) × (all p a ≡ true) × (line ≡ a ++ skip p line)
unfolding skip
skipped p [] = ([], refl, refl)
skipped p (c ∷ cs) = elim (Bool-cases (p c)) [
  | inl y ↦ let (a, h, e) = skipped p cs in (c ∷ a, ground (arith, h), rw y (ap (◌∷◌ c) e))
  | inr n ↦ ([], refl, rw n refl)
]

skip-append : (p : ℕ → Bool) (a rest : Text) → all p a ≡ true → skip p (a ++ rest) ≡ skip p rest
unfolding skip
skip-append p [] rest h = refl
skip-append p (c ∷ a) rest h = ground (arith, skip-append p a rest)

brace_of : (line rest : Text) → behind_brace line ≡ some rest → line ≡ b'{' ∷ rest
brace_of [] rest h = absurd (ground (arith, h))
brace_of (c ∷ cs) rest h = ground (arith, h)

match_log_sound : (line rest : Text) → match_log line ≡ some rest → IsLog line rest
unfolding match_log
match_log_sound line rest e =
    let (a, ha, ea) = skipped is_space line in
    let l1 : Text = skip is_space line in
    let (b, hb, eb) = skipped is_hash l1 in
    let l2 : Text = skip is_hash l1 in
    let (c, hc, ec) = skipped is_space l2 in
    let brace = ap (◌++◌ c) (brace_of (skip is_space l2) rest e) in
    (a, b, c, ha, hb, hc, ea ∙ ap (◌++◌ a) (eb ∙ ap (◌++◌ b) (ec ∙ brace)))

-- White space and number signs are different, and a brace is neither.
hash_no_space : (x : ℕ) → is_hash x ≡ true → is_space x ≡ false
hash_no_space x h = let eq : x ≡ b'#' = ground (arith, h) in rw eq refl

space_no_hash : (x : ℕ) → is_space x ≡ true → is_hash x ≡ false
space_no_hash x h = elim (Bool-cases (is_hash x)) [
  | inl y ↦ absurd (ground (arith, h, hash_no_space x y))
  | inr n ↦ n
]

past_hashes :
    (c rest : Text) → all is_space c ≡ true → skip is_hash (c ++ b'{' ∷ rest) ≡ c ++ b'{' ∷ rest
unfolding skip
past_hashes [] rest h = refl
past_hashes (y ∷ c) rest h = ground (arith, h, space_no_hash y)

past_space :
    (b c rest : Text)
    → all is_hash b ≡ true
    → all is_space c ≡ true
    → skip is_space (skip is_hash (skip is_space (b ++ (c ++ b'{' ∷ rest)))) ≡ b'{' ∷ rest
unfolding skip
past_space [] c rest hb hc = rw (skip-append is_space c (b'{' ∷ rest) hc) refl
past_space (x ∷ b) c rest hb hc =
    let x_space : is_space x ≡ false = hash_no_space x (ground (arith, hb)) in
    rw
      (
        x_space,
        skip-append is_hash (x ∷ b) (c ++ b'{' ∷ rest) hb,
        past_hashes c rest hc,
        skip-append is_space c (b'{' ∷ rest) hc,
      )
      refl

match_log_complete : (line rest : Text) → IsLog line rest → match_log line ≡ some rest
unfolding match_log
match_log_complete line rest (a, b, c, ha, hb, hc, e) =
    rw (e, skip-append is_space a (b ++ (c ++ b'{' ∷ rest)) ha, past_space b c rest hb hc) refl

-- `match_log` finds what the pattern `/^\s*#*\s*{/` says: it gives the text behind the brace exactly
-- where the line is white space, number signs, white space, a brace and that text.
pub match_log_exact : (line rest : Text) → (match_log line ≡ some rest) ↔ IsLog line rest
match_log_exact line rest = (match_log_sound line rest, match_log_complete line rest)
