-- ===== src/HashMap/Tally.antt =====
-- 08_search_sort_homework/hashmap_open.c: countWords against the words of the text.
use otus_c_prog.Common.{
  ℕ, zero, suc, ◌+◌, ◌%◌, ◌^◌, leb, ◌≡◌, refl, ap, ◌∙◌, true, false, if◌then◌else◌, List, [], ◌∷◌,
  ◌++◌, length, take, take-nil, length-append, Option, none, some, arith, Bool-cases, inl, inr,
}
use mathlib.Core.Path.{subst}
use otus_c_prog.Common.Text.{same, same-eq, same_refl}
use otus_c_prog.HashMap.{Hashmap, initial_size, get, create_hashmap}
use otus_c_prog.HashMap.Slots.{lookup}
use otus_c_prog.HashMap.Good.{IsGood}
use otus_c_prog.HashMap.Find.{get-lookup}
use otus_c_prog.HashMap.Grow.{Scaled, create_hashmap-IsGood, lookup-replicate}
use otus_c_prog.HashMap.Words.{
  is_separator, Counting, count_word, count_byte, count_bytes, count_words,
}
use otus_c_prog.HashMap.Recount.{next_number, counted_word}

-- The words of a text from the bytes `current` of a word on: what stands between separators, cut to
-- 127 bytes. A word that no separator ends is not one of them.
unfoldable pub words_of : List ℕ → List ℕ → List (List ℕ)
words_of current [] = []
words_of [] (c ∷ input) = if is_separator c then words_of [] input else words_of (c ∷ []) input
words_of (b ∷ current) (c ∷ input) =
    if is_separator c
    then take 127 (b ∷ current) ∷ words_of [] input
    else words_of ((b ∷ current) ++ (c ∷ [])) input

-- How many of the words are the key.
unfoldable pub times : List ℕ → List (List ℕ) → ℕ
times key [] = 0
times key (w ∷ ws) = let rest = times key ws in if same w key then suc rest else rest

-- What get has for a key that was met so often.
abbrev pub number : ℕ → Option ℕ
number zero = none
number (suc n) = some (suc n % 2 ^ 64)

next_number_lem : (n : ℕ) → some (next_number (number n)) ≡ number (suc n)
next_number_lem zero = refl
next_number_lem (suc n) = ap some (omega arith)

take_snoc :
    (n : ℕ) (word : List ℕ) (c : ℕ)
    → take n (word ++ (c ∷ []))
      ≡ (if leb (length word + 1) n then take n word ++ (c ∷ []) else take n word)
take_snoc zero word c = ground arith
take_snoc (suc n) [] c = ground (arith, take-nil {A = ℕ} n)
take_snoc (suc n) (x ∷ word) c = ground (arith, take_snoc n word c)

-- The state of the loop inside the word `current`.
Reading : Counting → List ℕ → Type 0
Reading s [] = (s.inside ≡ false) × (s.word ≡ [])
Reading s (c ∷ current) =
    (s.inside ≡ true) × (s.word ≡ take 127 (c ∷ current)) × (s.word_len ≡ length (c ∷ current))

-- The words of the map are those counted.
Numbered : Hashmap → (List ℕ → ℕ) → Type 0
Numbered map count = IsGood map × ((k : List ℕ) → lookup map.slots k ≡ number (count k))

renumbered :
    (map : Hashmap) (f g : List ℕ → ℕ)
    → ((k : List ℕ) → f k ≡ g k)
    → Numbered map f
    → Numbered map g
unfolding Numbered
renumbered map f g same_numbers (good, looked_up) =
    (good, λ k. looked_up k ∙ ap number (same_numbers k))

module _ (load grow : ℕ → ℕ) (scaled : Scaled load grow) where
  -- One more word.
  counted_more :
      (map : Hashmap) (key : List ℕ) (count : List ℕ → ℕ)
      → Numbered map count
      → (map' : Hashmap) × (count_word load grow map key ≡ some map')
        × Numbered map' (λ k. if same key k then suc (count k) else count k)
  unfolding Numbered
  counted_more map key count (good, looked_up) =
      let (map', e, good', now) = counted_word load grow scaled map key good in
      (
        map',
        e,
        (
          good',
          λ k. elim (Bool-cases (same key k)) [
            | inl eq ↦
                let was = looked_up key in
                let again = next_number_lem (count key) in
                subst
                  (λ x.
                    lookup map'.slots x ≡ number (if same key x then suc (count x) else count x))
                  (same-eq key k eq) (now key ∙ rw (same_refl key, was) again)
            | inr ne ↦ now k ∙ rw ne (looked_up k)
          ],
        ),
      )

  byte_between :
      (s : Counting) (c : ℕ)
      → is_separator c ≡ true
      → s.inside ≡ false
      → count_byte load grow s c ≡ some s
  unfolding count_byte
  byte_between s c separator outside = ground arith

  byte_begins :
      (s : Counting) (c : ℕ)
      → is_separator c ≡ false
      → s.inside ≡ false
      → s.word ≡ []
      → count_byte load grow s c ≡ some (record s { inside = true; word = c ∷ []; word_len = 1 })
  unfolding count_byte
  byte_begins s c letter outside empty = ground arith

  byte_ends :
      (s : Counting) (c : ℕ) (map' : Hashmap)
      → is_separator c ≡ true
      → s.inside ≡ true
      → count_word load grow s.map s.word ≡ some map'
      → count_byte load grow s c ≡ some (record s { inside = false; word = []; map = map' })
  unfolding count_byte
  byte_ends s c map' separator inside e = rw (separator, inside, e)

  byte_longer :
      (s : Counting) (c : ℕ) (word : List ℕ)
      → is_separator c ≡ false
      → s.inside ≡ true
      → s.word ≡ take 127 word
      → s.word_len ≡ length word
      → count_byte load grow s c
        ≡ some
            (record s { word = take 127 (word ++ (c ∷ [])); word_len = length (word ++ (c ∷ [])) })
  unfolding count_byte
  byte_longer s c word letter inside cut len =
      rw (letter, inside, cut, len, take_snoc 127 word c, length-append word (c ∷ []))

  -- The loop, from a state inside the word `current`.
  counted_bytes :
      (input current : List ℕ) (s : Counting) (count : List ℕ → ℕ)
      → Reading s current
      → Numbered s.map count
      → (s' : Counting) × (count_bytes load grow s input ≡ some s')
        × Numbered s'.map (λ k. times k (words_of current input) + count k)
  unfolding count_bytes count_byte Reading words_of times
  counted_bytes [] current s count reading numbered =
      (s, refl, renumbered s.map count _ (λ k. omega arith) numbered)
  counted_bytes (c ∷ input) [] s count (outside, empty) numbered =
      elim (Bool-cases (is_separator c)) [
        | inl separator ↦
            let (s', e, numbered') = counted_bytes input [] s count (outside, empty) numbered in
            (s', rw (byte_between s c separator outside) e, rw separator numbered')
        | inr letter ↦
            let begun : Counting = record s { inside = true; word = c ∷ []; word_len = 1 } in
            let (s', e, numbered') =
              counted_bytes input (c ∷ []) begun count (refl, refl, refl) numbered in
            (s', rw (byte_begins s c letter outside empty) e, rw letter numbered')
      ]
  counted_bytes (c ∷ input) (b ∷ current) s count (inside, word, len) numbered =
      elim (Bool-cases (is_separator c)) [
        | inl separator ↦
            let key = take 127 (b ∷ current) in
            let (map', e, more) = counted_more s.map key count numbered in
            let ended : Counting = record s { inside = false; word = []; map = map' } in
            let (s', e', numbered') = counted_bytes input [] ended _ (refl, refl) more in
            let counted : count_word load grow s.map s.word ≡ some map' = rw word e in
            (
              s',
              rw (byte_ends s c map' separator inside counted) e',
              rw separator (renumbered s'.map _ _ (λ k. ground arith) numbered'),
            )
        | inr letter ↦
            let all = (b ∷ current) ++ (c ∷ []) in
            let longer : Counting = record s { word = take 127 all; word_len = length all } in
            let (s', e, numbered') =
              counted_bytes input all longer count (inside, refl, refl) numbered in
            (s', rw (byte_longer s c (b ∷ current) letter inside word len) e, rw letter numbered')
      ]

  -- Where the products keep to Scaled, countWords ends for every text, with a map that keeps the
  -- invariant, in which get finds for every key how many of the words of the text, cut to 127
  -- bytes, are that key, modulo 2^64, and nothing if none is. The last word is left out if no
  -- separator ends it.
  pub count_words-get :
      (input : List ℕ)
      → (map : Hashmap) × (count_words load grow input ≡ some map)
        × IsGood map
        × ((k : List ℕ) → get map k ≡ some (number (times k (words_of [] input))))
  unfolding count_words Reading Numbered create_hashmap
  count_words-get input =
      let new = create_hashmap load grow 2 in
      let start : Counting = record { inside = false; word = []; word_len = 0; map = new } in
      let good = create_hashmap-IsGood load grow scaled 2 in
      let (s', e, (good', looked_up)) =
        counted_bytes input [] start (λ k. 0) (refl, refl) (good, lookup-replicate initial_size) in
      (
        s'.map,
        rw e refl,
        good',
        λ k. get-lookup s'.map good' k ∙ ap some (looked_up k ∙ ap number (omega arith)),
      )
