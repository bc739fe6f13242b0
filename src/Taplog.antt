-- ===== src/Taplog.antt =====
-- noray/scripts/taplog.mjs: a filter that parts the log of a test run from its TAP lines.
pub mod Pattern
pub mod Parting
use bevy_noray.Base.{
  ℕ, ◌==◌, Bool, true, false, not, ◌&&◌, ◌||◌, Option, none, some, is_some, List, [], ◌∷◌, ◌++◌,
  map, Text, codes, if◌then◌else◌,
}
use bevy_noray.Config.Numbers.{is_space, is_digit}

-- `p*` of a regular expression, as far as it goes.
unfoldable pub skip : (ℕ → Bool) → Text → Text
skip p [] = []
skip p (c ∷ cs) = if p c then skip p cs else c ∷ cs

abbrev pub is_hash : ℕ → Bool
is_hash c = c == b'#'

-- `/^\s*#*\s*{/`: what stands behind the match.
abbrev pub behind_brace : Text → Option Text
behind_brace [] = none
behind_brace (c ∷ cs) = if c == b'{' then some cs else none

unfoldable pub match_log : Text → Option Text
unfolding skip
match_log line = behind_brace (skip is_space (skip is_hash (skip is_space line)))

-- `/\s*not ok \d+/`, at a place of a line and anywhere in it.
unfoldable pub starts_with : Text → Text → Option Text
starts_with [] line = some line
starts_with (x ∷ xs) [] = none
starts_with (x ∷ xs) (c ∷ cs) = if x == c then starts_with xs cs else none

fails_here : Text → Bool
unfolding starts_with
fails_here line = elim (starts_with (codes "not ok ") line) [
  | none ↦ false
  | some rest ↦ elim rest [ [] ↦ false | c ∷ cs ↦ is_digit c ]
]

unfoldable pub match_fail : Text → Bool
unfolding fails_here
match_fail [] = false
match_fail (c ∷ cs) = fails_here (c ∷ cs) || match_fail cs

-- `log_input` and `tap_input` are what was written to the two commands, in order.
pub record Taplog : Type 0 where
  pub tap_lines : List Text
  pub test_pass : Bool
  pub log_input : List Text
  pub tap_input : List Text
  pub exit_code : Option ℕ

abbrev pub new_taplog : Taplog
new_taplog = record {
  tap_lines = [];
  test_pass = true;
  log_input = [];
  tap_input = [];
  exit_code = none;
}

abbrev pub with_newline : Text → Text
with_newline line = line ++ codes "\n"

-- The listener of 'line'.
on_line : Text → Taplog → Taplog
unfolding match_log match_fail
on_line line s = elim (match_log line) [
  | some rest ↦ record s { log_input = s.log_input ++ with_newline (b'{' ∷ rest) ∷ [] }
  | none ↦ record s {
    tap_lines = s.tap_lines ++ line ∷ [];
    test_pass = s.test_pass && not (match_fail line);
  }
]

-- The listener of 'close'.
on_close : Taplog → Taplog
on_close s = record s {
  tap_input = map with_newline s.tap_lines;
  exit_code = some (if s.test_pass then 0 else 1);
}

on_lines : List Text → Taplog → Taplog
unfolding on_line
on_lines [] s = s
on_lines (line ∷ lines) s = on_lines lines (on_line line s)

-- The input's lines, and its end.
unfoldable pub taplog : List Text → Taplog
unfolding on_lines on_close
taplog lines = on_close (on_lines lines new_taplog)
