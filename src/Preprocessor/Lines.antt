-- ===== src/Preprocessor/Lines.antt =====
-- The texts of src/coding/HeadersAndDefinitions.cpp: lines as their bytes, and its regular
-- expressions as functions that give what their groups match.
use Prim.Native.String.{String, len}
use sysdarft.Encoding.Text.{byte_at}
use sysdarft.Base.{
  Bool, List, Option, [], false, if◌then◌else◌, leb, length, none, not, replicate, some, suc, zero,
  ℕ, ◌&&◌, ◌++◌, ◌+◌, ◌==◌, ◌>>=◌, ◌||◌, ◌∷◌,
}

abbrev pub Line : Type 0
Line = List ℕ

-- The bytes of a text, from a position on.
abbrev text_from : String → ℕ → ℕ → Line
text_from s pos zero = []
text_from s pos (suc n) = byte_at s pos ∷ text_from s (pos + 1) n

abbrev pub text : String → Line
text s = text_from s 0 (len s)

abbrev pub is_space : ℕ → Bool
is_space c = c == 0x20 || (leb 9 c && leb c 13)

abbrev is_upper : ℕ → Bool
is_upper c = leb b'A' c && leb c b'Z'

abbrev lower : ℕ → ℕ
lower c = if is_upper c then c + 0x20 else c

abbrev is_letter : ℕ → Bool
is_letter c = c == b'_' || is_upper c || (leb b'a' c && leb c b'z')

abbrev is_word : ℕ → Bool
is_word c = is_letter c || (leb b'0' c && leb c b'9')

-- What `.` does not match.
abbrev is_terminator : ℕ → Bool
is_terminator c = c == 10 || c == 13

abbrev any : (ℕ → Bool) → Line → Bool
any p [] = false
any p (c ∷ cs) = p c || any p cs

abbrev pub only_spaces : Line → Bool
only_spaces cs = not (any (λ c. not (is_space c)) cs)

abbrev drop_while : (ℕ → Bool) → Line → Line
drop_while p [] = []
drop_while p (c ∷ cs) = if p c then drop_while p cs else c ∷ cs

abbrev take_while : (ℕ → Bool) → Line → Line
take_while p [] = []
take_while p (c ∷ cs) = if p c then c ∷ take_while p cs else []

-- `replace_all(line, " ", "")`.
abbrev pub without_spaces : Line → Line
without_spaces [] = []
without_spaces (c ∷ cs) = if c == 0x20 then without_spaces cs else c ∷ without_spaces cs

-- `replace_all(line, "\t", "    ")`.
abbrev pub expand_tabs : Line → Line
expand_tabs [] = []
expand_tabs (c ∷ cs) = if c == 9 then replicate 4 0x20 ++ expand_tabs cs else c ∷ expand_tabs cs

abbrev pub truncate_after_semicolon_or_hash : Line → Line
truncate_after_semicolon_or_hash cs = take_while (λ c. not (c == b';' || c == b'#')) cs

-- What comes after a text that the line starts with, its letters up to a function.
abbrev after : (ℕ → ℕ) → Line → Line → Option Line
after fold [] cs = some cs
after fold (d ∷ ds) [] = none
after fold (d ∷ ds) (c ∷ cs) = if fold c == d then after fold ds cs else none

-- What comes after spaces and a directive.
abbrev directive : (ℕ → ℕ) → String → Line → Option Line
directive fold name line = after fold (text name) (drop_while is_space line)

-- At least one space, and what comes after the spaces.
abbrev spaces : Line → Option Line
spaces [] = none
spaces (c ∷ cs) = if is_space c then some (drop_while is_space cs) else none

abbrev same : ℕ → ℕ
same c = c

abbrev alone : Option Line → Bool
alone rest = elim rest [ none ↦ false | some cs ↦ only_spaces cs ]

-- `endif_pattern`, which tells upper from lower case, and `else_pattern`.
unfoldable pub is_endif : Line → Bool
is_endif line = alone (directive same "%endif" line)

unfoldable pub is_else : Line → Bool
is_else line = alone (directive lower "%else" line)

-- A name with nothing but spaces after it.
abbrev name_alone : Line → Option Line
name_alone cs =
    let name = take_while is_word cs in
    if length name == 0 || not (only_spaces (drop_while is_word cs)) then none else some name

-- `ifdef_pattern` and `ifndef_pattern`.
unfoldable pub match_ifdef : Line → Option Line
match_ifdef line = do rest ← directive lower "%ifdef" line; cs ← spaces rest; name_alone cs

unfoldable pub match_ifndef : Line → Option Line
match_ifndef line = do rest ← directive lower "%ifndef" line; cs ← spaces rest; name_alone cs

-- The first alternative of `define_pattern`'s name that matches: letters, and only where the text
-- starts with a digit also digits.
abbrev name_and_rest : Line → Option (Line × Line)
name_and_rest [] = none
name_and_rest (c ∷ cs) =
    let p = if is_letter c then is_letter else is_word in
    let rest = drop_while p (c ∷ cs) in
    if not (is_word c) || any is_terminator rest then none else some (take_while p (c ∷ cs), rest)

unfoldable pub match_define : Line → Option (Line × Line)
match_define line = do rest ← directive lower "%define" line; cs ← spaces rest; name_and_rest cs

-- The text before the last quotation mark, if nothing but spaces comes after it.
abbrev before_last_quote : Line → Option Line
before_last_quote [] = none
before_last_quote (c ∷ cs) = elim (before_last_quote cs) [
  | some before ↦ some (c ∷ before)
  | none ↦ if c == b'"' && only_spaces cs then some [] else none
]

abbrev quoted : Line → Option Line
quoted [] = none
quoted (c ∷ cs) = if c == b'"' then before_last_quote cs else none

abbrev one_line : Line → Option Line
one_line cs = if any is_terminator cs then none else some cs

unfoldable pub match_include : Line → Option Line
match_include line = do
  rest ← directive lower "%include" line
  cs ← spaces rest
  name ← quoted cs
  one_line name

-- `warning_pattern` and `error_pattern`, which tell upper from lower case.
unfoldable pub match_warning : Line → Option Line
match_warning line = do rest ← directive same "%warning" line; cs ← spaces rest; one_line cs

unfoldable pub match_error : Line → Option Line
match_error line = do rest ← directive same "%error" line; cs ← spaces rest; one_line cs
