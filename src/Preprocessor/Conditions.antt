-- ===== src/Preprocessor/Conditions.antt =====
-- The conditions of `HeadProcess` in src/coding/HeadersAndDefinitions.cpp.
use sysdarft.Base.{
  Bool, List, [], ap, arith, false, inl, inr, length, none, not, refl, replicate, some, suc, sym,
  true, zero, ℕ, ◌&&◌, ◌++◌, ◌+◌, ◌∙◌, ◌∷◌, ◌≡◌,
}
use sysdarft.Preprocessor.{
  Definitions, Files, Head, IncludeFile, Processed, clean, contains, head_process, prepend,
  process_directive, process_line, process_matched,
}
use sysdarft.Preprocessor.Lines.{
  Line, is_else, is_endif, match_define, match_error, match_ifdef, match_ifndef, match_include,
  match_warning, text,
}

-- Lines before the lines that follow.
abbrev pub prepend_all : List Line → Processed → Processed
prepend_all [] p = p
prepend_all (line ∷ lines) p = prepend line (prepend_all lines p)

-- No line ends the part of the block that is left out.
abbrev pub is_body : List Line → Bool
is_body [] = true
is_body (line ∷ lines) =
    not (is_endif (clean line)) && (not (is_else (clean line)) && is_body lines)

-- A state outside of every condition, and in one whose definition is not there.
abbrev pub outside : Definitions → List IncludeFile → List Line → Head
outside ds hs ws = record {
  definitions = ds;
  headers = hs;
  warnings = ws;
  inside_ifdef = false;
  requested_macro_present = false;
}

abbrev pub excluded : Definitions → List IncludeFile → List Line → Head
excluded ds hs ws = record (outside ds hs ws) { inside_ifdef = true }

-- The line asks for the definition of a name.
pub record Asks (name line : Line) : Type 0 where
  pub no_endif : is_endif (clean line) ≡ false
  pub no_include : match_include (clean line) ≡ none
  pub no_define : match_define (clean line) ≡ none
  pub asked : match_ifdef (clean line) ≡ some name

not-true : (b : Bool) → not b ≡ true → b ≡ false
not-true true e = sym e
not-true false e = refl

and_left : (a b : Bool) → a && b ≡ true → a ≡ true
and_left true b e = refl
and_left false b e = e

and_right : (a b : Bool) → a && b ≡ true → b ≡ true
and_right true b e = e
and_right false true e = refl
and_right false false e = e

head_step :
    (files : Files) (paths : List Line) (n : ℕ) (line line' : Line) (lines : List Line)
    (h h' : Head)
    → process_line files paths (n + 1) line h ≡ inr (line', h')
    → head_process files paths n (line ∷ lines) h
      ≡ prepend line' (head_process files paths (n + 1) lines h')
unfolding head_process
head_step files paths n line line' lines h h' e =
    ap
      (λ r. elim r [
        | inl e ↦ inl e
        | inr (line', h') ↦ prepend line' (head_process files paths (n + 1) lines h')
      ])
      e

else_line :
    (files : Files) (paths : List Line) (n : ℕ) (h : Head)
    → h.inside_ifdef && not h.requested_macro_present ≡ false
    → process_line files paths n (text "%else") h ≡ inr (text "%else", h)
unfolding process_line process_directive process_matched clean is_endif match_include match_define
    match_ifdef match_ifndef match_warning match_error
else_line files paths n h taken = rw taken refl

prepend_blank :
    (n : ℕ) (p : Processed)
    → prepend_all (replicate n []) (prepend [] p) ≡ prepend [] (prepend_all (replicate n []) p)
prepend_blank zero p = refl
prepend_blank (suc n) p = ap (prepend []) (prepend_blank n p)

module _ (files : Files) (paths : List Line) (ds : Definitions) (hs : List IncludeFile)
    (ws : List Line) where
  Asks-directive :
      (n : ℕ) (name line : Line)
      → Asks name line
      → contains ds name ≡ false
      → process_directive files paths n (clean line) (outside ds hs ws)
        ≡ inr ([], excluded ds hs ws)
  unfolding process_directive process_matched
  Asks-directive n name line a absent =
      let l = clean line in
      let h = outside ds hs ws in
      let f = process_matched files paths n l h in
      let j = match_ifndef l in
      let w = match_warning l in
      let e = match_error l in
      ap (λ m. f m (match_define l) (match_ifdef l) j w e) a.no_include
      ∙ ap (λ m. f none m (match_ifdef l) j w e) a.no_define
      ∙ ap (λ m. f none none m j w e) a.asked
      ∙ ap (λ b. inr ([], record (excluded ds hs ws) { requested_macro_present = b })) absent

  Asks-line :
      (n : ℕ) (name line : Line)
      → Asks name line
      → contains ds name ≡ false
      → process_line files paths n line (outside ds hs ws) ≡ inr ([], excluded ds hs ws)
  unfolding process_line
  Asks-line n name line a absent = rw a.no_endif (Asks-directive n name line a absent)

  close_line :
      (n : ℕ) (line : Line)
      → is_endif (clean line) ≡ true
      → process_line files paths n line (excluded ds hs ws) ≡ inr ([], outside ds hs ws)
  unfolding process_line
  close_line n line e = rw e refl

  skip_line :
      (n : ℕ) (line : Line)
      → is_endif (clean line) ≡ false
      → is_else (clean line) ≡ false
      → process_line files paths n line (excluded ds hs ws) ≡ inr ([], excluded ds hs ws)
  unfolding process_line
  skip_line n line e o = rw (e, o) refl

  skip_body :
      (n : ℕ) (body rest : List Line)
      → is_body body ≡ true
      → head_process files paths n (body ++ rest) (excluded ds hs ws)
        ≡ prepend_all
            (replicate (length body) [])
            (head_process files paths (n + length body) rest (excluded ds hs ws))
  skip_body n [] rest b =
      let e : n ≡ n + 0 = omega arith in
      ap (λ m. head_process files paths m rest (excluded ds hs ws)) e
  skip_body n (line ∷ body) rest b =
      let p = not (is_endif (clean line)) in
      let q = not (is_else (clean line)) in
      let plain = and_right p (q && is_body body) b in
      let e : n + 1 + length body ≡ n + suc (length body) = omega arith in
      let h = excluded ds hs ws in
      let no_endif = not-true (is_endif (clean line)) (and_left p (q && is_body body) b) in
      let no_else = not-true (is_else (clean line)) (and_left q (is_body body) plain) in
      head_step files paths n line [] (body ++ rest) h h (skip_line (n + 1) line no_endif no_else)
      ∙ ap (prepend []) (skip_body (n + 1) body rest (and_right q (is_body body) plain))
      ∙ ap (λ m. prepend_all (replicate (suc (length body)) []) (head_process files paths m rest h))
          e

  -- If a line asks for a definition that is not there, the lines after it are neither `%endif` nor
  -- `%else`, and the line after those is `%endif`, then `HeadProcess` makes all of them empty lines
  -- and reads the lines that follow in the state before the condition, with the numbers that they
  -- have in the file: nothing in the block is included, defined, warned of or reported.
  pub ifdef_skips :
      (n : ℕ) (name line close : Line) (body rest : List Line)
      → Asks name line
      → contains ds name ≡ false
      → is_body body ≡ true
      → is_endif (clean close) ≡ true
      → head_process files paths n (line ∷ body ++ close ∷ rest) (outside ds hs ws)
        ≡ prepend_all
            (replicate (suc (suc (length body))) [])
            (head_process files paths (n + (suc (suc (length body)))) rest (outside ds hs ws))
  unfolding head_process
  ifdef_skips n name line close body rest a absent b e =
      let h = excluded ds hs ws in
      let m = n + 1 + length body in
      let k : m + 1 ≡ n + (suc (suc (length body))) = omega arith in
      let first =
        head_step files paths n line [] (body ++ close ∷ rest) (outside ds hs ws) h
          (Asks-line (n + 1) name line a absent) in
      let last =
        head_step files paths m close [] rest h (outside ds hs ws) (close_line (m + 1) close e) in
      first
      ∙ ap (prepend []) (skip_body (n + 1) body (close ∷ rest) b)
      ∙ ap (λ p. prepend [] (prepend_all (replicate (length body) []) p)) last
      ∙ ap (λ p. prepend [] p)
          (prepend_blank (length body) (head_process files paths (m + 1) rest (outside ds hs ws)))
      ∙ ap
          (λ i.
            prepend_all (replicate (suc (suc (length body))) [])
              (head_process files paths i rest (outside ds hs ws)))
          k

-- In a state that leaves nothing out, inside of a condition or not, a line `%else` stays as it is
-- and changes nothing: the lines after it are read like those before it.
pub else_ignored :
    (files : Files) (paths : List Line) (n : ℕ) (rest : List Line) (h : Head)
    → h.inside_ifdef && not h.requested_macro_present ≡ false
    → head_process files paths n (text "%else" ∷ rest) h
      ≡ prepend (text "%else") (head_process files paths (n + 1) rest h)
else_ignored files paths n rest h taken =
    head_step files paths n (text "%else") (text "%else") rest h h
      (else_line files paths (n + 1) h taken)
