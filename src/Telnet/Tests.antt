-- ===== src/Telnet/Tests.antt =====
-- 21_telnet/main.c: a picture of four letters in two reads.
use otus_c_prog.Common.{
  ℕ, ◌<◌, ◌≡◌, refl, ap, true, some, List, [], ◌∷◌, ◌++◌, length, length-append, arith,
}
use otus_c_prog.Common.Text.{codes}
use otus_c_prog.Common.Getopt.{getopt}
use otus_c_prog.Telnet.{
  buf_size, choose_font, add_words, command, bytes, closed, no_connection, connected, Network, main,
}
use otus_c_prog.Telnet.Marks.{Holds, prompt}
use otus_c_prog.Telnet.Words.{Fills, joined, add_words-joined}
use otus_c_prog.Telnet.Art.{Answers, concat, main-Answers}

short : (mark s : List ℕ) → length s < length mark → ¬ Holds mark s
short mark s h (p, q, e) =
    let whole : length (p ++ (mark ++ q)) ≡ length s = ap (λ (t : List ℕ). length t) e in
    absurd (omega (arith, whole, length-append p (mark ++ q), length-append mark q))

abbrev net : Network
net = record {
  addresses = some (no_connection ∷ (connected ∷ []));
  write_first = λ i. some 0;
  write_command = λ i. some 3;
  reads =
      bytes (codes "hi")
        (bytes (codes "\r\n.\r\n") (bytes (codes "ab") (bytes (codes "cd\r\n.") closed)));
}

abbrev two_words : List (List ℕ)
two_words = codes "so" ∷ (codes "on" ∷ [])

abbrev args : List (List ℕ)
args = codes "-f" ∷ (codes "big" ∷ two_words)

answers : Answers net (codes "hi" ∷ []) (codes "ab" ∷ []) (codes "cd")
answers = record {
  front = no_connection ∷ [];
  back = [];
  connects = refl;
  writes_first = λ i. (0, refl);
  writes_command = λ i. (3, refl);
  hello = codes "\r\n";
  after_hello = [];
  after_last = [];
  more = closed;
  reads = refl;
  no_dot = (short (codes ".\r\n") (codes "hi") (omega arith), tt);
  hello_NoZero = omega arith;
  no_prompt = (short prompt (codes "ab") (omega arith), tt);
  last_NoZero = omega arith;
  last_no_prompt = short prompt (codes "cd") (omega arith);
}

chosen_font : choose_font (codes "standard") (getopt (codes "f:") args).0 ≡ some (codes "big")
unfolding choose_font getopt
chosen_font = refl

given_words : (getopt (codes "f:") args).1 ≡ two_words
unfolding getopt
given_words = refl

fitting : length (command (codes "big") (add_words true [] two_words)) < buf_size
unfolding main
fitting = omega arith

main-Answers_example : main net args ≡ record {
  sent = codes "\r\n" ++ command (codes "big") (add_words true [] two_words);
  printed = concat (codes "ab" ∷ []) ++ (codes "cd" ++ (b'\n' ∷ []));
  status = true;
}
main-Answers_example =
    main-Answers net args (codes "big") (codes "so") (codes "on" ∷ []) (codes "hi" ∷ [])
      (codes "ab" ∷ []) (codes "cd") chosen_font given_words fitting answers

add_words-joined_example : Fills (add_words true [] two_words) (joined true two_words)
add_words-joined_example = add_words-joined two_words

sent_text : (main net args).sent ≡ codes "\r\nfiglet /big so on\r\n"
unfolding main getopt
sent_text = refl

-- A prompt that comes in two reads is not seen, and is printed with the rest.
prompt_in_two :
    (main
      (record net {
        reads = bytes (codes ".\r\n") (bytes (codes "ab\r\n") (bytes (codes ".") closed));
      })
      args).printed
    ≡ codes "ab\r\n."
unfolding main getopt
prompt_in_two = refl
