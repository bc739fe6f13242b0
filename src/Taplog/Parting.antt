-- ===== src/Taplog/Parting.antt =====
-- noray/scripts/taplog.mjs: where each line goes, and the exit code.
use bevy_noray.Base.{
  append-nil, sym, ◌≡◌, refl, inl, inr, Bool, false, not, ◌&&◌, ◌||◌, Option-cases, none, some,
  is_some, List, [], ◌∷◌, ◌++◌, append_assoc, map, select, Text, arith, if◌then◌else◌,
}
use bevy_noray.Taplog.{
  match_log, match_fail, Taplog, new_taplog, with_newline, on_line, on_close, on_lines, taplog,
}

abbrev pub is_tap : Text → Bool
is_tap line = not (is_some (match_log line))

-- The log lines from their brace on.
abbrev pub logs : List Text → List Text
logs [] = []
logs (line ∷ lines) =
    let rest = logs lines in
    elim (match_log line) [ none ↦ rest | some l ↦ with_newline (b'{' ∷ l) ∷ rest ]

abbrev pub any_fail : List Text → Bool
any_fail [] = false
any_fail (line ∷ lines) = match_fail line || any_fail lines

-- The state of the reader after lines.
abbrev Parts : Taplog → List Text → Taplog → Type 0
Parts s lines s' =
    (s'.tap_lines ≡ s.tap_lines ++ select is_tap lines)
    × (s'.test_pass ≡ (s.test_pass && not (any_fail (select is_tap lines))))
    × (s'.log_input ≡ s.log_input ++ logs lines)

on_tap :
    (line : Text) (s : Taplog)
    → match_log line ≡ none
    → on_line line s ≡ record s {
      tap_lines = s.tap_lines ++ line ∷ [];
      test_pass = s.test_pass && not (match_fail line);
    }
unfolding on_line
on_tap line s n = rw (n, on_line) refl

on_log :
    (line l : Text) (s : Taplog)
    → match_log line ≡ some l
    → on_line line s ≡ record s { log_input = s.log_input ++ with_newline (b'{' ∷ l) ∷ [] }
unfolding on_line
on_log line l s e = rw (e, on_line) refl

on_lines-Parts : (lines : List Text) (s : Taplog) → Parts s lines (on_lines lines s)
unfolding on_lines
on_lines-Parts [] s = (sym (append-nil _), ground arith, sym (append-nil _))
on_lines-Parts (line ∷ lines) s =
    let (t, p, r) = on_lines-Parts lines (on_line line s) in
    elim (Option-cases (match_log line)) [
      | inl n ↦ ground (
        arith,
        t,
        p,
        r,
        n,
        on_tap line s n,
        append_assoc s.tap_lines (line ∷ []) (select is_tap lines),
      )
      | inr (l, e) ↦ ground (
        arith,
        t,
        p,
        r,
        e,
        on_log line l s e,
        append_assoc s.log_input (with_newline (b'{' ∷ l) ∷ []) (logs lines),
      )
    ]

-- Each line goes to one of the two commands and keeps its place there: a line of the log goes out from
-- its brace on, and any other line, unchanged, when the input ends. The exit code is 1 if one of these
-- other lines reports a failed test, and 0 otherwise.
pub taplog_exact :
    (lines : List Text)
    → let s = taplog lines in
      (s.log_input ≡ logs lines)
      × (s.tap_input ≡ map with_newline (select is_tap lines))
      × (s.exit_code ≡ some (if any_fail (select is_tap lines) then 1 else 0))
unfolding taplog on_close
taplog_exact lines =
    let (t, p, r) = on_lines-Parts lines new_taplog in (r, rw t refl, rw p (ground arith))
