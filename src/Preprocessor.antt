-- ===== src/Preprocessor.antt =====
-- src/coding/HeadersAndDefinitions.cpp: the first pass over the lines of a source file, which reads
-- the header files, registers the definitions and leaves out what a condition excludes.
pub mod Conditions
pub mod Includes
pub mod Lines
use sysdarft.Preprocessor.Lines.{
  Line, expand_tabs, is_else, is_endif, match_define, match_error, match_ifdef, match_ifndef,
  match_include, match_warning, text, truncate_after_semicolon_or_hash, without_spaces,
}
use sysdarft.Base.{
  Bool, List, Option, [], false, if◌then◌else◌, inl, inr, none, not, some, true, ℕ, ◌&&◌, ◌++◌, ◌+◌,
  ◌==◌, ◌||◌, ◌∷◌, ◌⊎◌,
}

abbrev pub line_eq : Line → Line → Bool
line_eq [] [] = true
line_eq (c ∷ cs) (d ∷ ds) = c == d && line_eq cs ds
line_eq [] (d ∷ ds) = false
line_eq (c ∷ cs) [] = false

-- `include_file_t`.
pub record IncludeFile : Type 0 where
  pub file_name : Line
  pub appearance_at_line_num : ℕ
  pub content : List Line

-- `SysdarftPreProcessorError`.
pub data HeadError : Type 0 where
  could_not_open : Line → HeadError
  caught : Line → HeadError

abbrev pub Definitions : Type 0
Definitions = List (Line × Line)

abbrev pub contains : Definitions → Line → Bool
contains [] name = false
contains (d ∷ ds) name = line_eq d.0 name || contains ds name

-- `emplace` of `std::map`, which keeps a value that is there.
unfoldable pub emplace : Definitions → Line → Line → Definitions
emplace ds name value = if contains ds name then ds else (name, value) ∷ ds

-- What `HeadProcess` keeps from line to line, with what it has printed.
pub record Head : Type 0 where
  pub definitions : Definitions
  pub headers : List IncludeFile
  pub warnings : List Line
  pub inside_ifdef : Bool
  pub requested_macro_present : Bool

-- A `std::fstream`: the lines of the file that is open, if one is, and the sign of a failure.
pub record Stream : Type 0 where
  pub opened : Option (List Line)
  pub failed : Bool

-- The files of the host, by their path.
abbrev pub Files : Type 0
Files = Line → Option (List Line)

-- `open`: a stream that has a file open fails and keeps it, and one that opens a file is cleared.
unfoldable pub open_file : Files → Line → Stream → Stream
open_file files path s = elim s.opened [
  | some content ↦ record s { failed = true }
  | none ↦ record {
    opened = files path;
    failed = elim (files path) [ some c ↦ false | none ↦ true ];
  }
]

abbrev pub path_in : Line → Line → Line
path_in path name = path ++ b'/' ∷ name

abbrev closed : Stream
closed = record { opened = none; failed = false }

-- The loop over the include path, which a path without the file ends.
unfoldable pub search_path : Files → List Line → Line → Stream → Stream
search_path files [] name s = s
search_path files (path ∷ paths) name s =
    let s' = open_file files (path_in path name) s in
    elim s'.opened [ some content ↦ search_path files paths name s' | none ↦ s' ]

unfoldable pub find_include : Files → List Line → Line → Stream
find_include files paths name =
    let s = open_file files name closed in
    elim s.opened [ some content ↦ s | none ↦ search_path files paths name s ]

-- The lines of a stream without a failure.
abbrev pub lines_of : Stream → Option (List Line)
lines_of s = if s.failed then none else s.opened

unfoldable pub process_include : Files → List Line → Line → ℕ → Head → HeadError ⊎ (Line × Head)
process_include files paths name n h = elim (lines_of (find_include files paths name)) [
  | none ↦ inl (could_not_open name)
  | some content ↦ inr (
    [],
    record h {
      headers =
          h.headers
          ++ record { file_name = name; appearance_at_line_num = n; content = content } ∷ [];
    },
  )
]

unfoldable pub process_define : Line × Line → Head → Line × Head
process_define d h =
    let name = without_spaces d.0 in
    let value = without_spaces d.1 in
    (
      text ".equ '" ++ name ++ text "', '" ++ value ++ text "'",
      record h { definitions = emplace h.definitions name value },
    )

-- The chain of conditions at the end of the loop's body, of what each pattern matches.
unfoldable pub process_matched :
    Files
    → List Line
    → ℕ
    → Line
    → Head
    → Option Line
    → Option (Line × Line)
    → Option Line
    → Option Line
    → Option Line
    → Option Line
    → HeadError ⊎ (Line × Head)
process_matched files paths n line h (some name) d i j w e = process_include files paths name n h
process_matched files paths n line h none (some d) i j w e = inr (process_define d h)
process_matched files paths n line h none none (some name) j w e =
    inr
      ([], record h { inside_ifdef = true; requested_macro_present = contains h.definitions name })
process_matched files paths n line h none none none (some name) w e = inr (
  [],
  record h { inside_ifdef = true; requested_macro_present = not (contains h.definitions name) },
)
process_matched files paths n line h none none none none (some message) e =
    inr (line, record h { warnings = h.warnings ++ message ∷ [] })
process_matched files paths n line h none none none none none (some message) = inl (caught message)
process_matched files paths n line h none none none none none none = inr (line, h)

unfoldable pub process_directive : Files → List Line → ℕ → Line → Head → HeadError ⊎ (Line × Head)
process_directive files paths n line h =
    process_matched files paths n line h (match_include line) (match_define line) (match_ifdef line)
      (match_ifndef line) (match_warning line) (match_error line)

-- A line without its comment.
unfoldable pub clean : Line → Line
clean line = truncate_after_semicolon_or_hash (expand_tabs line)

-- The body of the loop of `HeadProcess`.
unfoldable pub process_line : Files → List Line → ℕ → Line → Head → HeadError ⊎ (Line × Head)
process_line files paths n raw h =
    let line = clean raw in
    if is_endif line
    then inr ([], record h { inside_ifdef = false; requested_macro_present = false })
    else if h.inside_ifdef && not h.requested_macro_present
    then inr ([], if is_else line then record h { requested_macro_present = true } else h)
    else process_directive files paths n line h

abbrev pub Processed : Type 0
Processed = HeadError ⊎ (List Line × Head)

-- A line before the lines that follow.
abbrev pub prepend : Line → Processed → Processed
prepend line (inl e) = inl e
prepend line (inr (lines, h)) = inr (line ∷ lines, h)

-- The loop, which numbers the lines from `n` plus one on.
unfoldable pub head_process : Files → List Line → ℕ → List Line → Head → Processed
head_process files paths n [] h = inr ([], h)
head_process files paths n (line ∷ lines) h = elim (process_line files paths (n + 1) line h) [
  | inl e ↦ inl e
  | inr (line', h') ↦ prepend line' (head_process files paths (n + 1) lines h')
]
