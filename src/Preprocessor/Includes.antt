-- ===== src/Preprocessor/Includes.antt =====
-- `process_include` of src/coding/HeadersAndDefinitions.cpp: where a header file is looked for.
use sysdarft.Base.{Bool, List, Option, [], ap, false, none, refl, some, sym, true, ◌∙◌, ◌∷◌, ◌≡◌}
use sysdarft.Preprocessor.{Files, Stream, find_include, lines_of, open_file, path_in, search_path}
use sysdarft.Preprocessor.Lines.{Line}

-- The stream after an `open` of a path where there is no file.
abbrev shut : Stream
shut = record { opened = none; failed = true }

-- The stream that has opened a file.
abbrev holding : List Line → Bool → Stream
holding content failed = record { opened = some content; failed = failed }

open_missing :
    (files : Files) (path : Line) (f : Bool)
    → files path ≡ none
    → open_file files path (record { opened = none; failed = f }) ≡ shut
unfolding open_file
open_missing files path f e = rw e refl

open_there :
    (files : Files) (path : Line) (content : List Line)
    → files path ≡ some content
    → open_file files path shut ≡ holding content false
unfolding open_file
open_there files path content e = rw e refl

open_again :
    (files : Files) (path : Line) (content : List Line) (f : Bool)
    → open_file files path (holding content f) ≡ holding content true
unfolding open_file
open_again files path content f = refl

module _ (files : Files) (name : Line) where
  -- What the loop does with the stream that `open` leaves.
  abbrev go_on : List Line → Stream → Stream
  go_on paths s = elim s.opened [ some content ↦ search_path files paths name s | none ↦ s ]

  search_missing :
      (path : Line) (paths : List Line)
      → files (path_in path name) ≡ none
      → search_path files (path ∷ paths) name shut ≡ shut
  unfolding search_path
  search_missing path paths e = ap (go_on paths) (open_missing files (path_in path name) true e)

  search_there :
      (path : Line) (paths : List Line) (content : List Line)
      → files (path_in path name) ≡ some content
      → search_path files (path ∷ paths) name shut
        ≡ search_path files paths name (holding content false)
  unfolding search_path
  search_there path paths content e =
      ap (go_on paths) (open_there files (path_in path name) content e)

  search_again :
      (path : Line) (paths : List Line) (content : List Line) (f : Bool)
      → search_path files (path ∷ paths) name (holding content f) ≡ holding content true
  unfolding search_path
  search_again path [] content f = ap (go_on []) (open_again files (path_in path name) content f)
  search_again path (path' ∷ paths) content f =
      ap (go_on (path' ∷ paths)) (open_again files (path_in path name) content f)
      ∙ search_again path' paths content true

  searched :
      (paths : List Line)
      → files name ≡ none
      → find_include files paths name ≡ search_path files paths name shut
  unfolding find_include
  searched paths e =
      ap (λ s. elim s.opened [ some content ↦ s | none ↦ search_path files paths name s ])
        (open_missing files name false e)

find_include_fails :
    (files : Files) (name path path' : Line) (paths : List Line)
    → files name ≡ none
    → lines_of (find_include files (path ∷ path' ∷ paths) name) ≡ none
find_include_fails files name path path' paths missing =
    rw (searched files name (path ∷ path' ∷ paths) missing) (go (files (path_in path name)) refl)
  where
    go :
        (found : Option (List Line))
        → files (path_in path name) ≡ found
        → lines_of (search_path files (path ∷ path' ∷ paths) name shut) ≡ none
    go none e = ap lines_of (search_missing files name path (path' ∷ paths) e)
    go (some content) e = ap lines_of (
        search_there files name path (path' ∷ paths) content e
        ∙ search_again files name path' paths content false)

find_include_one :
    (files : Files) (name path : Line)
    → files name ≡ none
    → lines_of (find_include files (path ∷ []) name) ≡ files (path_in path name)
unfolding search_path
find_include_one files name path missing =
    rw (searched files name (path ∷ []) missing) (go (files (path_in path name)) refl)
  where
    go :
        (found : Option (List Line))
        → files (path_in path name) ≡ found
        → lines_of (search_path files (path ∷ []) name shut) ≡ files (path_in path name)
    go none e = ap lines_of (search_missing files name path [] e) ∙ sym e
    go (some content) e = ap lines_of (search_there files name path [] content e) ∙ sym e

-- If the file of an `%include` is not where its name says, an include path of one path gives what
-- that path holds, and one of two paths or more never gives a file, whatever the paths hold.
pub find_include_lem :
    (files : Files) (name path path' : Line) (paths : List Line)
    → files name ≡ none
    → (lines_of (find_include files (path ∷ []) name) ≡ files (path_in path name))
      × (lines_of (find_include files (path ∷ path' ∷ paths) name) ≡ none)
find_include_lem files name path path' paths missing = (
  find_include_one files name path missing,
  find_include_fails files name path path' paths missing,
)
