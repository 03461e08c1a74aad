-- ===== src/LogReader/Files.antt =====
-- 17_log_reader/main.c: which files of the directory are read. What the directory holds and which
-- allocations succeed are arguments.
use otus_c_prog.Common.{
  ℕ, ◌+◌, ◌*◌, ◌≤◌, ◌<◌, ◌==◌, ◌≡◌, ◌≢◌, refl, inl, inr, leb, ◌&&◌, Bool, true, false,
  if◌then◌else◌, List, [], ◌∷◌, ◌++◌, length, Option, none, some, arith, Bool-cases,
}
use otus_c_prog.LogReader.Text.{isdigit, ◌>>=◌}

-- What stands behind the first ".log", as strstr finds it.
unfoldable pub after_log : List ℕ → Option (List ℕ)
after_log (a ∷ b ∷ c ∷ d ∷ name) =
    let rest = after_log (b ∷ c ∷ d ∷ name) in
    if (a == 46) && (b == 108) && (c == 111) && (d == 103) then some name else rest
after_log _ = none

unfoldable pub all_digits : List ℕ → Bool
all_digits [] = true
all_digits (c ∷ p) = let rest = all_digits p in isdigit c && rest

-- The test of what stands behind ".log": nothing, or a dot and digits.
unfoldable pub log_ending : List ℕ → Bool
log_ending [] = true
log_ending (c ∷ []) = false
log_ending (c ∷ d ∷ p) = (c == 46) && all_digits (d ∷ p)

unfoldable pub has_ending : Option (List ℕ) → Bool
has_ending none = false
has_ending (some behind) = log_ending behind

unfoldable pub is_log_file : List ℕ → Bool
is_log_file name = has_ending (after_log name)

-- An entry of the directory: its name, whether stat finds a regular file, and whether the
-- allocation of the path and the growth of the array succeed.
pub record Dirent : Type 0 where
  pub d_name : List ℕ
  pub is_regular : Bool
  pub path_memory : Bool
  pub array_memory : Bool

-- The array: its paths, and how many it has room for.
pub record Array : Type 0 where
  pub files : List (List ℕ)
  pub capacity : ℕ

abbrev grown : ℕ → ℕ
grown capacity = if capacity == 0 then 16 else capacity * 2

-- A path is added; without memory for a larger array the function returns NULL.
unfoldable pub add_path : Array → List ℕ → Bool → Option Array
add_path a path array_memory =
    if leb a.capacity (length a.files)
    then if array_memory
      then some (record { files = a.files ++ (path ∷ []); capacity = grown a.capacity })
      else none
    else some (record { files = a.files ++ (path ∷ []); capacity = a.capacity })

unfoldable pub add_entry : List ℕ → Array → Dirent → Option Array
add_entry dir_path a ent =
    if is_log_file ent.d_name && ent.path_memory && ent.is_regular
    then add_path a (dir_path ++ (47 ∷ ent.d_name)) ent.array_memory
    else some a

unfoldable pub add_entries : List ℕ → Array → List Dirent → Option Array
add_entries dir_path a [] = some a
add_entries dir_path a (ent ∷ ents) = do
  more ← add_entry dir_path a ent
  add_entries dir_path more ents

-- No array at all where the directory holds no file to read.
unfoldable pub list_files : List ℕ → List Dirent → Option Array
list_files dir_path ents = add_entries dir_path (record { files = []; capacity = 0 }) ents

-- The result of the loop: no more paths than the array has room for.
pub Fits : Option Array → Type 0
Fits none = Unit
Fits (some a) = length a.files ≤ a.capacity

length-++_one : (xs : List (List ℕ)) (x : List ℕ) → length (xs ++ (x ∷ [])) ≡ length xs + 1
length-++_one [] x = refl
length-++_one (y ∷ xs) x = omega (arith, length-++_one xs x)

add_path-Fits :
    (a : Array) (path : List ℕ) (m : Bool) → length a.files ≤ a.capacity → Fits (add_path a path m)
unfolding add_path Fits
add_path-Fits a path m h =
    let one_more = length-++_one a.files path in
    elim (Bool-cases (leb a.capacity (length a.files))) [
      | inl full ↦
          let full_eq : a.capacity ≤ length a.files = ground arith in
          elim (Bool-cases m) [
            | inl memory ↦ elim (Bool-cases (a.capacity == 0)) [
              | inl empty ↦
                  let none_yet : a.capacity ≡ 0 = ground arith in
                  rw (full, memory, empty) (omega (arith, one_more, h, none_yet))
              | inr used ↦
                  let several : a.capacity ≢ 0 = ground arith in
                  rw (full, memory, used) (omega (arith, one_more, h, several))
            ]
            | inr refused ↦ rw (full, refused) tt
          ]
      | inr room ↦
          let below : length a.files < a.capacity = ground arith in
          rw room (omega (arith, one_more, below))
    ]

add_entry-Fits :
    (dir_path : List ℕ) (a : Array) (ent : Dirent)
    → length a.files ≤ a.capacity
    → Fits (add_entry dir_path a ent)
unfolding add_entry Fits
add_entry-Fits dir_path a ent h =
    elim (Bool-cases (is_log_file ent.d_name && ent.path_memory && ent.is_regular)) [
      | inl wanted ↦ rw wanted (add_path-Fits a (dir_path ++ (47 ∷ ent.d_name)) ent.array_memory h)
      | inr other ↦ rw other h
    ]

then_Fits :
    (o : Option Array) (f : Array → Option Array)
    → Fits o
    → ((a : Array) → length a.files ≤ a.capacity → Fits (f a))
    → Fits (o >>= f)
unfolding Fits
then_Fits none f h k = tt
then_Fits (some a) f h k = k a h

add_entries-Fits :
    (dir_path : List ℕ) (a : Array) (ents : List Dirent)
    → length a.files ≤ a.capacity
    → Fits (add_entries dir_path a ents)
unfolding add_entries Fits
add_entries-Fits dir_path a [] h = h
add_entries-Fits dir_path a (ent ∷ ents) h =
    then_Fits (add_entry dir_path a ent) (λ more. add_entries dir_path more ents)
      (add_entry-Fits dir_path a ent h) (λ more k. add_entries-Fits dir_path more ents k)

-- Whatever the directory holds and whichever allocations fail, list_files stores no path past the
-- end of its array.
pub list_files-Fits : (dir_path : List ℕ) (ents : List Dirent) → Fits (list_files dir_path ents)
unfolding list_files
list_files-Fits dir_path ents =
    add_entries-Fits dir_path (record { files = []; capacity = 0 }) ents (omega arith)
