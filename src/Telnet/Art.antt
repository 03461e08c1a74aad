-- ===== src/Telnet/Art.antt =====
-- 21_telnet/main.c: what the program sends and prints when nothing fails.
use otus_c_prog.Common.{
  ℕ, zero, suc, ◌+◌, ◌<◌, ◌≤◌, ◌≡◌, refl, ap, ◌∙◌, Bool, true, false, Option, some, List, [], ◌∷◌,
  ◌++◌, length, take, drop, min, take-append-drop, length-drop, leb, lt→not_leb, arith,
}
use mathlib.Core.Path.{ap₂}
use mathlib.Core.List.{append_assoc}
use otus_c_prog.Common.Text.{codes}
use otus_c_prog.Common.Getopt.{getopt}
use otus_c_prog.Telnet.Marks.{Holds, NoZero, prompt, strstr-none, strstr-some, strstr-prompt}
use otus_c_prog.Telnet.{
  buf_size, send_from, send_all, choose_font, add_words, command, Reads, bytes, await_prompt,
  read_art, Attempt, no_socket, no_connection, connected, connect_any, Network, Ending,
  after_command, with_prompt, after_first, connected_to, with_words, main,
}

-- Calls of write that never fail.
abbrev pub Writes : (ℕ → Option ℕ) → Type 0
Writes write = (i : ℕ) → (k : ℕ) × (write i ≡ some k)

send_from-all :
    (write : ℕ → Option ℕ) (i fuel : ℕ) (buf : List ℕ)
    → Writes write
    → length buf ≤ fuel
    → send_from write i fuel buf ≡ (buf, true)
unfolding send_from
send_from-all write i zero [] w h = refl
send_from-all write i (suc fuel) [] w h = refl
send_from-all write i zero (b ∷ bs) w h = absurd (omega arith)
send_from-all write i (suc fuel) (b ∷ bs) w h =
    let (k, e) = w i in
    let n = min (k + 1) (length (b ∷ bs)) in
    let later =
      send_from-all write (i + 1) fuel (drop n (b ∷ bs)) w
        (omega (arith, length-drop n (b ∷ bs))) in
    ground (arith, e, later, take-append-drop n (b ∷ bs))

send_all-all :
    (write : ℕ → Option ℕ) (buf : List ℕ) → Writes write → send_all write buf ≡ (buf, true)
unfolding send_all
send_all-all write buf w = send_from-all write 0 (length buf) buf w (omega arith)

connect_any-connected :
    (front back : List Attempt) → connect_any (front ++ (connected ∷ back)) ≡ true
unfolding connect_any
connect_any-connected [] back = refl
connect_any-connected (no_socket ∷ front) back = connect_any-connected front back
connect_any-connected (no_connection ∷ front) back = connect_any-connected front back
connect_any-connected (connected ∷ front) back = refl

-- Chunks that are read before the rest.
abbrev pub reads_before : List (List ℕ) → Reads → Reads
reads_before [] rest = rest
reads_before (c ∷ cs) rest = bytes c (reads_before cs rest)

-- No chunk holds the mark.
abbrev pub NoneHolds : List ℕ → List (List ℕ) → Type 0
NoneHolds mark [] = Unit
NoneHolds mark (c ∷ cs) = ¬ Holds mark c × NoneHolds mark cs

abbrev pub concat : List (List ℕ) → List ℕ
concat [] = []
concat (c ∷ cs) = c ++ concat cs

await_prompt-before :
    (cs : List (List ℕ)) (a b : List ℕ) (more : Reads)
    → NoneHolds (codes ".\r\n") cs
    → NoZero a
    → await_prompt (reads_before cs (bytes (a ++ (codes ".\r\n" ++ b)) more)) ≡ some more
unfolding await_prompt
await_prompt-before [] a b more n z =
    let (i, e) = strstr-some b'.' (codes "\r\n") a b (omega arith) z in ground (arith, e)
await_prompt-before (c ∷ cs) a b more n z =
    ground (arith, strstr-none (codes ".\r\n") c n.0, await_prompt-before cs a b more n.1 z)

take-append : (a b : List ℕ) → take (length a) (a ++ b) ≡ a
take-append [] b = refl
take-append (x ∷ a) b = ap (λ t. x ∷ t) (take-append a b)

read_art-before :
    (cs : List (List ℕ)) (a b : List ℕ) (more : Reads)
    → NoneHolds prompt cs
    → NoZero a
    → ¬ Holds prompt a
    → read_art (reads_before cs (bytes (a ++ (prompt ++ b)) more))
      ≡ (concat cs ++ (a ++ (b'\n' ∷ [])), true)
unfolding read_art
read_art-before [] a b more n z h =
    ground (arith, strstr-prompt a b z h, take-append a (prompt ++ b))
read_art-before (c ∷ cs) a b more n z h = ground (
  arith,
  strstr-none prompt c n.0,
  read_art-before cs a b more n.1 z h,
  append_assoc c (concat cs) (a ++ (b'\n' ∷ [])),
)

-- A connection to one of the addresses, no failing write, a prompt in one of the chunks that are
-- read, and behind the command an answer that ends with the next prompt, both within one chunk.
pub record Answers (net : Network) (greeting art : List (List ℕ)) (last : List ℕ) : Type 0 where
  pub front : List Attempt
  pub back : List Attempt
  pub connects : net.addresses ≡ some (front ++ (connected ∷ back))
  pub writes_first : Writes net.write_first
  pub writes_command : Writes net.write_command
  pub hello : List ℕ
  pub after_hello : List ℕ
  pub after_last : List ℕ
  pub more : Reads
  pub reads :
      net.reads
      ≡ reads_before greeting (
          bytes
            (hello ++ (codes ".\r\n" ++ after_hello))
            (reads_before art (bytes (last ++ (prompt ++ after_last)) more)))
  pub no_dot : NoneHolds (codes ".\r\n") greeting
  pub hello_NoZero : NoZero hello
  pub no_prompt : NoneHolds prompt art
  pub last_NoZero : NoZero last
  pub last_no_prompt : ¬ Holds prompt last

module _ (net : Network) (cmd : List ℕ) (greeting art : List (List ℕ)) (last : List ℕ)
    (fits : length cmd < buf_size) (a : Answers net greeting art last) where
  answer : Reads
  answer = reads_before art (bytes (last ++ (prompt ++ a.after_last)) a.more)

  awaited : await_prompt net.reads ≡ some answer
  unfolding answer
  awaited =
      ap await_prompt a.reads
      ∙ await_prompt-before greeting a.hello a.after_hello _ a.no_dot a.hello_NoZero

  drawn : Ending
  drawn = record {
    sent = codes "\r\n" ++ cmd;
    printed = concat art ++ (last ++ (b'\n' ∷ []));
    status = true;
  }

  commanded : after_command (codes "\r\n") answer (send_all net.write_command cmd) ≡ drawn
  unfolding drawn answer after_command
  commanded =
      ap (after_command (codes "\r\n") answer) (send_all-all net.write_command cmd a.writes_command)
      ∙ ap (λ (r : List ℕ × Bool). finished (codes "\r\n" ++ cmd) r)
          (read_art-before art last a.after_last a.more a.no_prompt a.last_NoZero a.last_no_prompt)
    where
      finished : List ℕ → List ℕ × Bool → Ending
      finished out r = record { sent = out; printed = r.0; status = r.1 }

  prompted : with_prompt net cmd (codes "\r\n") (some answer) ≡ drawn
  unfolding with_prompt
  prompted =
      let small : leb buf_size (length cmd) ≡ false = lt→not_leb (length cmd) buf_size fits in
      rw small commanded

  greeted : after_first net cmd (send_all net.write_first (codes "\r\n")) ≡ drawn
  unfolding after_first
  greeted =
      ap (after_first net cmd) (send_all-all net.write_first (codes "\r\n") a.writes_first)
      ∙ ap (with_prompt net cmd (codes "\r\n")) awaited
      ∙ prompted

  connects_and_draws : connected_to net cmd net.addresses ≡ drawn
  unfolding connected_to
  connects_and_draws =
      ap (connected_to net cmd) a.connects ∙ rw (connect_any-connected a.front a.back) greeted

-- Where one of the addresses takes a connection, no write fails, a prompt comes within one chunk
-- and, behind the command, an answer that ends with the next prompt within one chunk, with no zero
-- before either in its chunk, and where the arguments give a font and a word and the command fits
-- its buffer, the program sends a line break and the command with the font and the words, prints
-- all of the answer up to the prompt and a line break, and succeeds.
pub main-Answers :
    (net : Network) (args : List (List ℕ)) (font word : List ℕ) (words : List (List ℕ))
    (greeting art : List (List ℕ)) (last : List ℕ)
    → choose_font (codes "standard") (getopt (codes "f:") args).0 ≡ some font
    → (getopt (codes "f:") args).1 ≡ word ∷ words
    → length (command font (add_words true [] (word ∷ words))) < buf_size
    → Answers net greeting art last
    → main net args ≡ record {
      sent = codes "\r\n" ++ command font (add_words true [] (word ∷ words));
      printed = concat art ++ (last ++ (b'\n' ∷ []));
      status = true;
    }
unfolding main drawn
main-Answers net args font word words greeting art last f w fits a =
    ap₂ (with_words net) f w
    ∙ connects_and_draws net (command font (add_words true [] (word ∷ words))) greeting art last
        fits a
