-- ===== src/HashMap/Words.antt =====
-- 08_search_sort_homework/hashmap_open.c: countWords over the bytes of the file.
use otus_c_prog.Common.{
  ℕ, ◌+◌, ◌-◌, ◌==◌, leb, ◌||◌, Bool, true, false, if◌then◌else◌, List, [], ◌∷◌, ◌++◌, add_size,
  Option, none, some,
}
use otus_c_prog.HashMap.{Hashmap, get, xremove, put, create_hashmap, ◌>>=◌}

abbrev pub max_word_len : ℕ
max_word_len = 128

-- The characters that end a word.
unfoldable pub is_separator : ℕ → Bool
is_separator c =
    c == 32
    || c == 10
    || c == 9
    || c == 0
    || c == b'['
    || c == b'{'
    || c == b'('
    || c == b']'
    || c == b'}'
    || c == b')'
    || c == b'.'
    || c == b','
    || c == b'?'
    || c == b'!'
    || c == b';'
    || c == b'+'
    || c == b'='
    || c == b'^'
    || c == b'*'
    || c == b'|'
    || c == 92
    || c == b'/'
    || c == b'<'
    || c == b'>'
    || c == 39
    || c == 34
    || c == 96

-- `state`, the word between `word_init_ptr` and `word`, `word_len` and the map.
pub record Counting : Type 0 where
  pub inside : Bool
  pub word : List ℕ
  pub word_len : ℕ
  pub map : Hashmap

module _ (load grow : ℕ → ℕ) where
  -- What is done with a word once its number is known: the old entry is taken out and freed.
  unfoldable pub recount : Hashmap → List ℕ → Option ℕ → Option Hashmap
  recount map key none = put load grow map key 1
  recount map key (some old_value) = do
    removed ← xremove map key
    put load grow removed.0 key (add_size old_value 1)

  unfoldable pub count_word : Hashmap → List ℕ → Option Hashmap
  count_word map key = get map key >>= recount map key

  -- One turn of the loop.
  unfoldable pub count_byte : Counting → ℕ → Option Counting
  count_byte s c =
      if is_separator c
      then if s.inside
        then (do
          counted ← count_word s.map s.word
          some (record s { inside = false; word = []; map = counted }))
        else some s
      else if s.inside
      then some (record s {
        word = if leb (s.word_len + 1) (max_word_len - 1) then s.word ++ (c ∷ []) else s.word;
        word_len = s.word_len + 1;
      })
      else some (record s { inside = true; word = s.word ++ (c ∷ []); word_len = 1 })

  unfoldable pub count_bytes : Counting → List ℕ → Option Counting
  count_bytes s [] = some s
  count_bytes s (c ∷ input) = do next ← count_byte s c; count_bytes next input

  unfoldable pub count_words : List ℕ → Option Hashmap
  count_words input = do
    done ←
        count_bytes
          (record { inside = false; word = []; word_len = 0; map = create_hashmap load grow 2 })
          input
    some done.map
