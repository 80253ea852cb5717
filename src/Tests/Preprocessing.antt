-- ===== src/Tests/Preprocessing.antt =====
-- Lines of source files, read and left out.
use sysdarft.Base.{List, [], if◌then◌else◌, none, refl, replicate, some, true, ◌++◌, ◌∷◌, ◌≡◌}
use sysdarft.Preprocessor.{
  Files, Head, clean, find_include, head_process, line_eq, lines_of, prepend,
}
use sysdarft.Preprocessor.Lines.{
  Line, is_else, is_endif, match_define, match_ifdef, match_include, text,
}
use sysdarft.Preprocessor.Conditions.{
  Asks, else_ignored, ifdef_skips, is_body, outside, prepend_all,
}
use sysdarft.Preprocessor.Includes.{find_include_lem}

-- One file.
abbrev files : Files
files path = if line_eq path (text "lib/a.h") then some (text "NOP" ∷ []) else none

-- The first alternative of the pattern takes the letters of a name and leaves its digits.
digits_cut : match_define (text "%define FOO2 1") ≡ some (text "FOO", text "2 1")
unfolding match_define
digits_cut = refl

included : match_include (text " %INCLUDE \"a.h\" ") ≡ some (text "a.h")
unfolding match_include
included = refl

abbrev request : Line
request = text "%ifdef DEBUG ; a comment"

request-Asks : Asks (text "DEBUG") request
unfolding clean is_endif match_include match_define match_ifdef
request-Asks = record { no_endif = refl; no_include = refl; no_define = refl; asked = refl }

abbrev body : List Line
body = text "%error never" ∷ text "%define A 1" ∷ []

body_plain : is_body body ≡ true
unfolding clean is_endif is_else
body_plain = refl

endif_closes : is_endif (clean (text "  %endif # done")) ≡ true
unfolding clean is_endif
endif_closes = refl

ifdef_skips_example :
    head_process files [] 0
      (request ∷ body ++ text "  %endif # done" ∷ text "NOP" ∷ [])
      (outside [] [] [])
    ≡ prepend_all (replicate 4 []) (head_process files [] 4 (text "NOP" ∷ []) (outside [] [] []))
ifdef_skips_example =
    ifdef_skips files [] [] [] [] 0 (text "DEBUG") request (text "  %endif # done") body
      (text "NOP" ∷ []) request-Asks refl body_plain endif_closes

-- The state in a condition that holds.
abbrev taken : Head
taken = record (outside [] [] []) { inside_ifdef = true; requested_macro_present = true }

else_ignored_example :
    head_process files [] 5 (text "%else" ∷ text "NOP" ∷ []) taken
    ≡ prepend (text "%else") (head_process files [] 6 (text "NOP" ∷ []) taken)
else_ignored_example = else_ignored files [] 5 (text "NOP" ∷ []) taken refl

find_include_lem_example :
    (lines_of (find_include files (text "lib" ∷ []) (text "a.h")) ≡ some (text "NOP" ∷ []))
    × (lines_of (find_include files (text "lib" ∷ text "src" ∷ []) (text "a.h")) ≡ none)
find_include_lem_example = find_include_lem files (text "a.h") (text "lib") (text "src") [] refl
