-- ===== src/Tests/Utilities.antt =====
-- The theorems on noray/src/config.parsers.mjs and noray/src/utils.mjs at concrete inputs.
use bevy_noray.Base.{
  to_string, ◌++◌, ℕ, nat_eq, text_eq, ◌≡◌, ◌⊎◌, ◌≤◌, ◌<◌, ◌+◌, ◌^◌, refl, Bool, true, false,
  Option, none, some, List, [], ◌∷◌, codes, Text, length, get_elem?, elem, Distinct, arith, Outcome,
  ok, throws, Failure, ℤ, pos, int_eq,
}
use bevy_noray.Config.Ports.{ranges, ports}
use bevy_noray.Config.Ports.Contents.{in_ranges, ports_exact}
use bevy_noray.Config.Ports.Printed.{print_ranges, ranges-print_ranges}
use bevy_noray.Config.Numbers.Decimals.{finite}
use bevy_noray.Config.Units.{Scaled, byte_size, duration}
use bevy_noray.Config.Units.Sizes.{whole_value, byte_size-format_byte_size}
use bevy_noray.Utils.{
  generate_word_id, postfix_index, chunks, combine, count, format_byte_size, format_duration,
}
use bevy_noray.Wordlist.{words}
use bevy_noray.Utils.Words.{drawn, InRange, word_ids_differ}
use bevy_noray.Utils.Chunks.{concat, Sized, chunks_exact}
use bevy_noray.Utils.Combining.{Choice, chosen, index_of, combine_exact}
use bevy_noray.Utils.Memory.{call_all, results, call_all_once}

-- The three kinds of ranges, with white space and a repetition.
abbrev three : Text
three = codes "1007, 1024-1026, 1025+2"

abbrev three_ports : List ℤ
three_ports = pos 1007 ∷ pos 1024 ∷ pos 1025 ∷ pos 1026 ∷ pos 1027 ∷ []

ports-three : ports (some three) ≡ ok (some three_ports)
unfolding ports bevy_noray.Config.Numbers.integer bevy_noray.Base.◌+ℤ◌ bevy_noray.Base.◌-ℤ◌
    bevy_noray.Base.to_string
ports-three = refl

ports_reversed : ports (some (codes "10-5")) ≡ throws Failure.range_error
unfolding ports bevy_noray.Config.Numbers.integer bevy_noray.Base.◌+ℤ◌ bevy_noray.Base.◌-ℤ◌
ports_reversed = refl

ports_exact_example :
    Distinct three_ports × ((z : ℤ) → elem z three_ports ≡ in_ranges z (ranges three))
ports_exact_example = ports_exact three three_ports ports-three

chunks_exact_example :
    (xss : List (List ℕ)) × (chunks (1 ∷ 2 ∷ 3 ∷ 4 ∷ 5 ∷ []) 2 ≡ ok xss)
    × (concat xss ≡ 1 ∷ 2 ∷ 3 ∷ 4 ∷ 5 ∷ [])
    × Sized 2 xss
chunks_exact_example = chunks_exact 1 (1 ∷ 2 ∷ 3 ∷ 4 ∷ 5 ∷ [])

abbrev arrays : List (List ℕ)
arrays = (5 ∷ 6 ∷ []) ∷ (7 ∷ 8 ∷ 9 ∷ []) ∷ []

combine_exact_example :
    ((ps : List ℕ)
      → Choice arrays ps
      → get_elem? (combine arrays) (index_of arrays ps) ≡ some (chosen arrays ps))
    × ((i : ℕ) → i < count arrays → (ps : List ℕ) × Choice arrays ps × (index_of arrays ps ≡ i))
    × ((ps qs : List ℕ)
        → Choice arrays ps
        → Choice arrays qs
        → index_of arrays ps ≡ index_of arrays qs
        → ps ≡ qs)
    × (length (combine arrays) ≡ count arrays)
combine_exact_example = combine_exact arrays

abbrev name_of : ℕ → Text
name_of n = n ∷ []

call_all_once_example :
    ((call_all name_of (λ n. n + 1) (3 ∷ 4 ∷ 3 ∷ []) ([], [])).0
      ≡ results name_of (λ n. n + 1) (3 ∷ 4 ∷ 3 ∷ []))
    × Distinct (call_all name_of (λ n. n + 1) (3 ∷ 4 ∷ 3 ∷ []) ([], [])).1.1
call_all_once_example = call_all_once name_of (λ n. n + 1) (λ a b e. ground arith) (3 ∷ 4 ∷ 3 ∷ [])

ranges-print_ranges_example :
    ranges (print_ranges ((80, 90) ∷ (1024, 1024) ∷ []))
    ≡ (pos 80, pos 90) ∷ (pos 1024, pos 1024) ∷ []
ranges-print_ranges_example = ranges-print_ranges ((80, 90) ∷ (1024, 1024) ∷ [])

byte_size-format_byte_size_example :
    (s : Scaled) × (byte_size (some (to_string 128 ++ (format_byte_size 131_072).unit))
      ≡ ok (some s))
    × (whole_value s ≡ some 131_072)
byte_size-format_byte_size_example =
    byte_size-format_byte_size 131_072 128 (unfold format_byte_size postfix_index in refl)

-- A minute and a half, and the unit that every object has.
duration_minutes :
    duration (some (codes "1.5M"))
    ≡ ok (some (record { base = some (finite false 15 1 (pos 0)); factor = some (60, 1) }))
unfolding duration bevy_noray.Config.Units.extract_unit bevy_noray.Base.lookup
    bevy_noray.Config.Numbers.Decimals.number bevy_noray.Config.Numbers.read_digits
duration_minutes = refl

duration_constructor :
    duration (some (codes "5constructor"))
    ≡ ok (some (record { base = some (finite false 5 0 (pos 0)); factor = none }))
unfolding duration bevy_noray.Config.Units.extract_unit bevy_noray.Base.lookup
    bevy_noray.Config.Numbers.Decimals.number bevy_noray.Config.Numbers.read_digits
duration_constructor = refl

hour :
    format_duration 7_200_000_000
    ≡ record { numerator = 7_200_000_000; denominator = 3_600_000_000; unit = codes "hr" }
unfolding format_duration
hour = refl

word_count : length words ≡ 2638
word_count = refl

abacus_zoom : generate_word_id words (0 ∷ 2637 ∷ []) ≡ codes "AbacusZoom"
unfolding generate_word_id
abacus_zoom = refl

in_range : InRange words (0 ∷ 2637 ∷ [])
in_range = (codes "Abacus", refl, (codes "Zoom", refl, tt))

word_ids_differ_example : drawn words (0 ∷ 2637 ∷ []) ≡ drawn words (0 ∷ 2637 ∷ [])
word_ids_differ_example = word_ids_differ (0 ∷ 2637 ∷ []) (0 ∷ 2637 ∷ []) in_range in_range refl
