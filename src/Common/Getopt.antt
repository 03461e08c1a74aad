-- ===== src/Common/Getopt.antt =====
-- getopt of POSIX, which stops at the first argument that is no option.
use Prim.Native.Nat.{ℕ}
use mathlib.Core.Bool.{Bool, true, false, ◌&&◌}
use mathlib.Core.Option.{Option, none, some}
use mathlib.Core.List.{List, [], ◌∷◌, ◌++◌}
use otus_c_prog.Common.Tests.{◌==◌, if◌then◌else◌}

abbrev begins_colon : List ℕ → Bool
begins_colon [] = false
begins_colon (c ∷ cs) = c == b':'

-- Whether the letter is in the string of options, and whether it has an argument.
unfoldable pub kind : List ℕ → ℕ → Option Bool
kind [] c = none
kind (o ∷ os) c =
    let later = kind os c in
    if c == b':' then none else if o == c then some (begins_colon os) else later

-- A letter, or a question mark for one that is not there, and `optarg`, which may be NULL.
abbrev pub Given : Type 0
Given = ℕ × Option (List ℕ)

-- The letters of one argument: what they give, and one that waits for the next argument.
unfoldable pub letters : List ℕ → List ℕ → List Given × Option ℕ
unfolding kind
letters os [] = ([], none)
letters os (c ∷ cs) =
    let (more, waits) = letters os cs in
    elim (kind os c) [
      | none ↦ ((b'?', none) ∷ more, waits)
      | some false ↦ ((c, none) ∷ more, waits)
      | some true ↦ elim cs [ [] ↦ ([], some c) | d ∷ ds ↦ ((c, some (d ∷ ds)) ∷ [], none) ]
    ]

abbrev is_empty : List ℕ → Bool
is_empty [] = true
is_empty (c ∷ cs) = false

abbrev before : List Given → List Given × List (List ℕ) → List Given × List (List ℕ)
before gs (more, rest) = (gs ++ more, rest)

-- What the calls return until -1, and the arguments from `optind` on.
unfoldable pub getopt : List ℕ → List (List ℕ) → List Given × List (List ℕ)
unfolding letters
getopt os [] = ([], [])
getopt os ([] ∷ rest) = ([], [] ∷ rest)
getopt os ((c ∷ []) ∷ rest) = ([], (c ∷ []) ∷ rest)
getopt os ((c ∷ (d ∷ ds)) ∷ []) =
    let (gs, waits) = letters os (d ∷ ds) in
    if c == b'-'
    then if d == b'-' && is_empty ds
      then ([], [])
      else elim waits [ none ↦ (gs, []) | some w ↦ (gs ++ ((b'?', none) ∷ []), []) ]
    else ([], (c ∷ (d ∷ ds)) ∷ [])
getopt os ((c ∷ (d ∷ ds)) ∷ (next ∷ rest)) =
    let (gs, waits) = letters os (d ∷ ds) in
    let from_next = getopt os (next ∷ rest) in
    let after_next = getopt os rest in
    if c == b'-'
    then if d == b'-' && is_empty ds then ([], next ∷ rest) else elim waits [
      | none ↦ before gs from_next
      | some w ↦ before (gs ++ ((w, some next) ∷ [])) after_next
    ]
    else ([], (c ∷ (d ∷ ds)) ∷ (next ∷ rest))
