-- ===== src/Telnet/Words.antt =====
-- 21_telnet/main.c: the words in the array of main.
use otus_c_prog.Common.{
  ℕ, ◌+◌, ◌-◌, ◌<◌, ◌≤◌, ◌≡◌, refl, sym, ap, ◌∙◌, ◌⊎◌, inl, inr, Bool, true, false, List, [], ◌∷◌,
  ◌++◌, length, take, drop, take-append-drop, length-append, length-take, take_all, ltb, leb,
  if◌then◌else◌, arith, Bool-cases,
}
use mathlib.Core.Path.{subst}
use mathlib.Core.List.{append_assoc, append-nil}
use otus_c_prog.Telnet.{text_size, add_word, add_words}

-- The words with a space before each, but not before the first if `first` holds.
abbrev pub joined : Bool → List (List ℕ) → List ℕ
joined first [] = []
joined first (word ∷ words) = (if first then [] else b' ' ∷ []) ++ (word ++ joined false words)

-- What is in the array is the beginning of the words, joined; the rest of them is `rest`.
pub record Fills (text whole : List ℕ) : Type 0 where
  pub rest : List ℕ
  pub beginning : text ++ rest ≡ whole
  pub inside : length text < text_size
  pub nothing_lost : length whole < text_size - 1 → text ≡ whole

spaced : Bool → List ℕ → List ℕ
spaced first text = if first then text else text ++ (b' ' ∷ [])

-- One word: all of it fits, or it fills the array.
record Adds (text whole : List ℕ) : Type 0 where
  rest : List ℕ
  beginning : text ++ rest ≡ whole
  all_or_full : ((text ≡ whole) × (length text < text_size)) ⊎ (length text ≡ text_size - 1)

fit-Adds :
    (s word : List ℕ)
    → length s < text_size
    → Adds
        (s
          ++ take
              (if leb text_size (length s + length word)
                then text_size - length s - 1
                else length word)
              word)
        (s ++ word)
fit-Adds s word h = elim (Bool-cases (leb text_size (length s + length word))) [
  | inl full ↦
      let n = text_size - length s - 1 in
      let long : text_size ≤ length s + length word = ground arith in
      rw full (record {
        rest = drop n word;
        beginning =
            append_assoc s (take n word) (drop n word) ∙ ap (λ t. s ++ t) (take-append-drop n word);
        all_or_full = inr (omega (arith, length-append s (take n word), length-take n word, long));
      })
  | inr fits ↦
      let short : length s + length word < text_size = ground arith in
      let all = take_all (length word) word (omega arith) in
      rw fits (record {
        rest = [];
        beginning = append-nil (s ++ take (length word) word) ∙ ap (λ t. s ++ t) all;
        all_or_full = inl (
          ap (λ t. s ++ t) all,
          omega (arith, length-append s (take (length word) word), length-take (length word) word),
        );
      })
]

add_word-Adds :
    (first : Bool) (text word : List ℕ)
    → length text < text_size - 2
    → Adds (add_word first text word) (spaced first text ++ word)
unfolding add_word spaced
add_word-Adds true text word h = fit-Adds text word (omega arith)
add_word-Adds false text word h =
    fit-Adds (text ++ (b' ' ∷ [])) word (omega (arith, length-append text (b' ' ∷ [])))

spaced-joined :
    (first : Bool) (text word : List ℕ) (words : List (List ℕ))
    → (spaced first text ++ word) ++ joined false words ≡ text ++ joined first (word ∷ words)
unfolding spaced
spaced-joined true text word words = append_assoc text word (joined false words)
spaced-joined false text word words =
    append_assoc (text ++ (b' ' ∷ [])) word (joined false words)
    ∙ append_assoc text (b' ' ∷ []) (word ++ joined false words)

full-add_words :
    (text : List ℕ) (words : List (List ℕ))
    → length text ≡ text_size - 1
    → add_words false text words ≡ text
unfolding add_words
full-add_words text [] h = refl
full-add_words text (word ∷ words) h = ground arith

-- What is filled after one word, from what is filled by those behind it.
step-Fills :
    (t added target : List ℕ) (words : List (List ℕ))
    → Adds t added
    → added ++ joined false words ≡ target
    → (length t < text_size → Fills (add_words false t words) (t ++ joined false words))
    → Fills (add_words false t words) target
step-Fills t added target words a e later = elim a.all_or_full [
  | inl (all, room) ↦
      subst (λ s. Fills (add_words false t words) s) (ap (λ s. s ++ joined false words) all ∙ e)
        (later room)
  | inr full ↦
      let whole =
        sym (append_assoc t a.rest (joined false words))
        ∙ ap (λ s. s ++ joined false words) a.beginning
        ∙ e in
      let long : length t + length (a.rest ++ joined false words) ≡ length target =
        sym (length-append t (a.rest ++ joined false words))
        ∙ ap (λ (s : List ℕ). length s) whole in
      rw (full-add_words t words full) (record {
        rest = a.rest ++ joined false words;
        beginning = whole;
        inside = omega arith;
        nothing_lost = λ small. absurd (omega arith);
      })
]

-- The words behind a text that has room, or is full.
add_words-Fills :
    (text : List ℕ) (words : List (List ℕ))
    → length text < text_size
    → Fills (add_words false text words) (text ++ joined false words)
unfolding add_words
add_words-Fills text [] h = record {
  rest = [];
  beginning = refl;
  inside = h;
  nothing_lost = λ _. sym (append-nil text);
}
add_words-Fills text (word ∷ words) h = elim (Bool-cases (ltb (length text) 4094)) [
  | inr full ↦ rw full (stopped text word words h (ground arith))
  | inl room ↦
      let t = add_word false text word in
      rw room (
        step-Fills t (spaced false text ++ word) (text ++ joined false (word ∷ words)) words
          (add_word-Adds false text word (ground arith)) (spaced-joined false text word words)
          (add_words-Fills t words))
]
  where
    stopped :
        (text word : List ℕ) (words : List (List ℕ))
        → length text < text_size
        → text_size - 2 ≤ length text
        → Fills text (text ++ joined false (word ∷ words))
    stopped text word words h full = record {
      rest = joined false (word ∷ words);
      beginning = refl;
      inside = h;
      nothing_lost =
          λ small. absurd (omega (arith, length-append text (b' ' ∷ (word ++ joined false words))));
    }

-- The array of main holds the beginning of the words, joined by spaces, and has room for the
-- closing zero; nothing is lost where the joined words have fewer than 4095 bytes with their spaces.
pub add_words-joined : (words : List (List ℕ)) → Fills (add_words true [] words) (joined true words)
unfolding add_words spaced
add_words-joined [] = record {
  rest = [];
  beginning = refl;
  inside = omega arith;
  nothing_lost = λ _. refl;
}
add_words-joined (word ∷ words) =
    let t = add_word true [] word in
    step-Fills t word (joined true (word ∷ words)) words (add_word-Adds true [] word (omega arith))
      refl (add_words-Fills t words)
