-- ===== src/Telnet.antt =====
-- 21_telnet/main.c: the client that has a text drawn. Texts are lists of the bytes above zero; what
-- the network gives is a parameter.
pub mod Words
pub mod Marks
pub mod Art
mod Tests
use otus_c_prog.Common.{
  ℕ, zero, suc, ◌+◌, ◌-◌, Bool, true, false, ◌&&◌, Option, none, some, List, [], ◌∷◌, ◌++◌, length,
  take, drop, min, ltb, leb, ◌==◌, if◌then◌else◌,
}
use otus_c_prog.Common.Text.{codes}
use otus_c_prog.Common.Getopt.{Given, getopt}

abbrev pub buf_size : ℕ
buf_size = 8192

-- send_all with the calls of write from the `i`-th on: `none` where write fails, else at most one
-- byte more than the number. It gives what has gone out, and whether it returns. The fuel is the
-- length of the buffer, since a call that does not fail takes a byte at least.
unfoldable pub send_from : (ℕ → Option ℕ) → ℕ → ℕ → List ℕ → List ℕ × Bool
send_from write i fuel [] = ([], true)
send_from write i zero (b ∷ bs) = ([], false)
send_from write i (suc fuel) (b ∷ bs) = elim (write i) [
  | none ↦ ([], false)
  | some k ↦
      let n = min (k + 1) (length (b ∷ bs)) in
      let later = send_from write (i + 1) fuel (drop n (b ∷ bs)) in
      (take n (b ∷ bs) ++ later.0, later.1)
]

unfoldable pub send_all : (ℕ → Option ℕ) → List ℕ → List ℕ × Bool
unfolding send_from
send_all write buf = send_from write 0 (length buf) buf

-- The loop over the options: the font, or nothing where the usage is printed.
unfoldable pub choose_font : List ℕ → List Given → Option (List ℕ)
choose_font font [] = some font
choose_font font ((opt, none) ∷ rest) = none
choose_font font ((opt, some arg) ∷ rest) =
    let later = choose_font arg rest in if opt == b'f' then later else none

abbrev pub text_size : ℕ
text_size = 4096

-- A word in the array, of which `text` is what is filled: a space before all but the first, then
-- as much of the word as leaves room for the closing zero.
unfoldable pub add_word : Bool → List ℕ → List ℕ → List ℕ
add_word first text word =
    let spaced = if first then text else text ++ (b' ' ∷ []) in
    let room =
      if leb text_size (length spaced + length word)
      then text_size - length spaced - 1
      else length word in
    spaced ++ take room word

-- The loop over the words; it stops once the array is nearly full.
unfoldable pub add_words : Bool → List ℕ → List (List ℕ) → List ℕ
add_words first text [] = text
add_words first text (word ∷ words) =
    let longer = add_words false (add_word first text word) words in
    if ltb (length text) (text_size - 2) then longer else text

unfoldable pub command : List ℕ → List ℕ → List ℕ
command font text = codes "figlet /" ++ (font ++ (b' ' ∷ (text ++ codes "\r\n")))

-- Whether the text begins with the other.
unfoldable pub begins : List ℕ → List ℕ → Bool
begins [] s = true
begins (m ∷ ms) [] = false
begins (m ∷ ms) (c ∷ cs) = let more = begins ms cs in (m == c) && more

-- strstr on what was read: how many bytes stand before the mark. The text ends at a zero.
unfoldable pub strstr : List ℕ → List ℕ → Option ℕ
unfolding begins
strstr mark [] = none
strstr mark (c ∷ cs) =
    let later : Option ℕ = elim (strstr mark cs) [ none ↦ none | some n ↦ some (n + 1) ] in
    if c == 0 then none else if begins mark (c ∷ cs) then some 0 else later

-- What the calls of read give: bytes, and at last the end of the connection or an error.
pub data Reads : Type 0 where
  bytes : List ℕ → Reads → Reads
  closed : Reads
  broken : Reads

-- The loop up to the first prompt: what is still to be read, if it comes.
unfoldable pub await_prompt : Reads → Option Reads
unfolding strstr
await_prompt (bytes chunk more) =
    let later = await_prompt more in
    elim (strstr (codes ".\r\n") chunk) [ none ↦ later | some n ↦ some more ]
await_prompt closed = none
await_prompt broken = none

-- The loop over the answer: what is written to the output, and whether the program succeeds.
unfoldable pub read_art : Reads → List ℕ × Bool
unfolding strstr
read_art (bytes chunk more) =
    let later = read_art more in
    elim (strstr (codes "\r\n.") chunk) [
      | none ↦ (chunk ++ later.0, later.1)
      | some n ↦ (take n chunk ++ (b'\n' ∷ []), true)
    ]
read_art closed = ([], true)
read_art broken = ([], false)

-- What becomes of an address: no socket, no connection, or a connection.
pub data Attempt : Type 0 where
  no_socket : Attempt
  no_connection : Attempt
  connected : Attempt

-- The loop over the addresses: whether a connection is left in `sock`.
unfoldable pub connect_any : List Attempt → Bool
connect_any [] = false
connect_any (no_socket ∷ rest) = connect_any rest
connect_any (no_connection ∷ rest) = connect_any rest
connect_any (connected ∷ rest) = true

-- The addresses, if getaddrinfo finds them; the calls of write for the line break and for the
-- command; and the calls of read.
pub record Network : Type 0 where
  pub addresses : Option (List Attempt)
  pub write_first : ℕ → Option ℕ
  pub write_command : ℕ → Option ℕ
  pub reads : Reads

-- What went out to the network and to the output, and whether the program succeeds.
pub record Ending : Type 0 where
  pub sent : List ℕ
  pub printed : List ℕ
  pub status : Bool

unfoldable pub fail : List ℕ → Ending
fail sent = record { sent = sent; printed = []; status = false }

unfoldable pub after_command : List ℕ → Reads → List ℕ × Bool → Ending
unfolding fail read_art
after_command before reads (out, false) = fail (before ++ out)
after_command before reads (out, true) =
    let art = read_art reads in record { sent = before ++ out; printed = art.0; status = art.1 }

unfoldable pub with_prompt : Network → List ℕ → List ℕ → Option Reads → Ending
unfolding fail after_command send_all
with_prompt net cmd before none = fail before
with_prompt net cmd before (some reads) =
    if leb buf_size (length cmd)
    then fail before
    else after_command before reads (send_all net.write_command cmd)

unfoldable pub after_first : Network → List ℕ → List ℕ × Bool → Ending
unfolding fail with_prompt await_prompt
after_first net cmd (out, false) = fail out
after_first net cmd (out, true) = with_prompt net cmd out (await_prompt net.reads)

unfoldable pub connected_to : Network → List ℕ → Option (List Attempt) → Ending
unfolding fail after_first send_all connect_any
connected_to net cmd none = fail []
connected_to net cmd (some addresses) =
    if connect_any addresses
    then after_first net cmd (send_all net.write_first (codes "\r\n"))
    else fail []

unfoldable pub with_words : Network → Option (List ℕ) → List (List ℕ) → Ending
unfolding fail connected_to command add_words add_word
with_words net none words = fail []
with_words net (some font) [] = fail []
with_words net (some font) (word ∷ words) =
    connected_to net (command font (add_words true [] (word ∷ words))) net.addresses

-- main on the arguments behind the name of the program.
unfoldable pub main : Network → List (List ℕ) → Ending
unfolding with_words choose_font
main net args =
    let given = getopt (codes "f:") args in
    with_words net (choose_font (codes "standard") given.0) given.1
