-- ===== src/Daemon/Server/Served.antt =====
-- 15_daemon/server.c: what the clients are sent, and what run_server leaves behind.
use otus_c_prog.Common.{
  ℕ, ◌^◌, ◌<◌, ◌≡◌, refl, sym, ap, ◌∙◌, ◌⊎◌, inl, inr, Bool, true, false, not, ◌&&◌, Option, none,
  some, List, [], ◌∷◌, ◌++◌, length, take_all, length-append, if◌then◌else◌, arith, Bool-cases,
}
use mathlib.Core.List.{append-nil}
use mathlib.Core.Path.{subst}
use otus_c_prog.Common.Text.{codes}
use otus_c_prog.Common.Decimal.{decimal, length-decimal}
use otus_c_prog.Daemon.Server.{
  Stat, size, failure, Send, whole, failed, gone, Loop, going, over, killed, is_gone, Returned,
  not_yet, returned, by_signal, Turn, responses_of, serve, Server, Network, null, freed, refused,
  after_loop, run_server, untouched, used_after_free, at_exit,
}

-- The turns up to the first with a signal, or to one with a client that is gone, which is left out.
abbrev pub until_end : List Turn → List Turn
until_end [] = []
until_end (t ∷ ts) =
    let more = until_end ts in
    if is_gone t.client then [] else if t.signalled then t ∷ [] else t ∷ more

-- How far these turns bring the loop.
abbrev pub ending : List Turn → Loop
ending [] = going
ending (t ∷ ts) =
    let later = ending ts in
    if is_gone t.client then killed else if t.signalled then over else later

-- What a client is to be told: the size of the file in decimal, or the error, and a line break.
abbrev pub message : Stat → List ℕ
message (size n) = decimal n ++ (b'\n' ∷ [])
message (failure text) = codes "error: " ++ (text ++ (b'\n' ∷ []))

-- Nothing, where the send fails.
abbrev pub message_to : Option (Stat × Send) → List (List ℕ)
message_to none = []
message_to (some (s, whole)) = message s ∷ []
message_to (some (s, failed)) = []
message_to (some (s, gone)) = []

abbrev pub messages : List Turn → List (List ℕ)
messages [] = []
messages (t ∷ ts) = message_to t.client ++ messages ts

-- A size is an off_t, and the text of an error is short.
abbrev pub Fits : Option (Stat × Send) → Type 0
Fits none = Unit
Fits (some (size n, send)) = n < 2 ^ 63
Fits (some (failure text, send)) = length text < 248

abbrev pub AllFit : List Turn → Type 0
AllFit [] = Unit
AllFit (t ∷ ts) = Fits t.client × AllFit ts

responses_of-message : (s : Option (Stat × Send)) → Fits s → responses_of s ≡ message_to s
unfolding responses_of
responses_of-message none h = refl
responses_of-message (some (size n, whole)) h =
    let short = length-decimal n 18 (omega arith) in
    ap (λ t. t ∷ [])
      (take_all 255 (message (size n))
        (omega (arith, short, length-append (decimal n) (b'\n' ∷ []))))
responses_of-message (some (failure text, whole)) h =
    ap (λ t. t ∷ [])
      (take_all 255 (message (failure text)) (omega (arith, length-append text (b'\n' ∷ []))))
responses_of-message (some (st, failed)) h = refl
responses_of-message (some (st, gone)) h = refl

serve-messages : (ts : List Turn) → AllFit ts → serve ts ≡ (messages (until_end ts), ending ts)
unfolding serve
serve-messages [] h = refl
serve-messages (t ∷ ts) h =
    let here = responses_of-message t.client h.0 in
    let later = serve-messages ts h.1 in
    elim (Bool-cases (is_gone t.client)) [
      | inl lost ↦ rw lost refl
      | inr there ↦ elim (Bool-cases (t.signalled)) [
        | inl end ↦
            rw (there, end) (ap (λ m. (m, over)) (here ∙ sym (append-nil (message_to t.client))))
        | inr on ↦ rw (there, on, here, later) refl
      ]
    ]

-- The turns that the server takes, and how far it comes: none when a signal arrives before the loop.
abbrev pub turns_taken : Network → List Turn → List Turn
turns_taken net ts = if net.signalled then [] else until_end ts

abbrev pub loop_end : Network → List Turn → Loop
loop_end net ts = if net.signalled then over else ending ts

abbrev pub is_ready : Network → Bool
is_ready net = net.strdup && net.socket && net.bind && net.listen

-- run_server returned -1: the socket is closed, nothing was sent, and nothing is left to do at exit.
pub record Refused (s : Server) : Type 0 where
  pub returned_error : s.result ≡ returned false
  pub not_listening : s.listening ≡ false
  pub nothing_sent : s.sent ≡ []
  pub nothing_at_exit : at_exit s ≡ untouched

-- What the end of the loop is to leave: the result, and whether the socket is open and has its file.
abbrev pub result_of : Loop → Returned
result_of going = not_yet
result_of over = returned true
result_of killed = by_signal

abbrev pub still_open : Loop → Bool
still_open going = true
still_open over = false
still_open killed = false

abbrev pub file_left : Loop → Bool
file_left going = true
file_left over = false
file_left killed = true

-- run_server is in its loop, has returned 0, or has been killed; the file of the socket is there
-- unless it has returned, but where the path is too long, a file with its beginning is and stays.
pub record Serves (s : Server) (fits : Bool) (l : Loop) (sent : List (List ℕ)) : Type 0 where
  pub result : s.result ≡ result_of l
  pub listening : s.listening ≡ still_open l
  pub path : s.path_exists ≡ (fits && file_left l)
  pub cut : s.cut_exists ≡ not fits
  pub all_sent : s.sent ≡ sent

after_loop-Serves :
    (fits : Bool) (l : Loop) (sent : List (List ℕ)) → Serves (after_loop fits (sent, l)) fits l sent
unfolding after_loop
after_loop-Serves true going sent = ground arith
after_loop-Serves true over sent = ground arith
after_loop-Serves true killed sent = ground arith
after_loop-Serves false going sent = ground arith
after_loop-Serves false over sent = ground arith
after_loop-Serves false killed sent = ground arith

loop-Serves :
    (net : Network) (turns : List Turn)
    → AllFit turns
    → Serves
        (after_loop net.path_fits (if net.signalled then ([], over) else serve turns))
        net.path_fits
        (loop_end net turns)
        (messages (turns_taken net turns))
loop-Serves net turns fit = go net.signalled
  where
    go :
        (b : Bool)
        → Serves
            (after_loop net.path_fits (if b then ([], over) else serve turns))
            net.path_fits
            (if b then over else ending turns)
            (messages (if b then [] else until_end turns))
    go true = after_loop-Serves net.path_fits over []
    go false =
        rw (serve-messages turns fit)
          (after_loop-Serves net.path_fits (ending turns) (messages (until_end turns)))

run_server-ready :
    (net : Network) (exists : Bool) (turns : List Turn)
    → is_ready net ≡ true
    → after_loop net.path_fits (if net.signalled then ([], over) else serve turns)
      ≡ run_server net exists turns
unfolding run_server
run_server-ready net exists turns e = ground arith

-- Where a call before the loop fails, run_server is refused; else every client that comes up to the
-- turn with the first signal, if no signal came before, is sent the size of the file at that time
-- in decimal, or the error, unless the send to it fails; but the first that is gone before it is
-- sent to ends the process, and no later one is served. After a signal run_server has returned 0
-- and closed the socket, and its path is removed; a path too long for sun_path leaves a file with
-- its beginning; a process that was killed leaves the path; and with neither it goes on. Sizes are
-- below 2^63, and the texts of errors shorter than 248 bytes.
pub run_server-Serves :
    (net : Network) (exists : Bool) (turns : List Turn)
    → AllFit turns
    → ((is_ready net ≡ false) × Refused (run_server net exists turns))
      ⊎ ((is_ready net ≡ true)
          × Serves
              (run_server net exists turns)
              net.path_fits
              (loop_end net turns)
              (messages (turns_taken net turns)))
unfolding run_server at_exit
run_server-Serves net exists turns fit = elim (Bool-cases (is_ready net)) [
  | inl e ↦ inr (
    e,
    subst (λ s. Serves s net.path_fits (loop_end net turns) (messages (turns_taken net turns)))
        (run_server-ready net exists turns e) (loop-Serves net turns fit),
  )
  | inr e ↦ inl (e, ground arith)
]

-- run_server with what its loop gives.
abbrev with_loop : Network → Bool → List (List ℕ) × Loop → Server
with_loop net exists l =
    if not net.strdup
    then refused null exists false
    else if not net.socket
    then refused freed exists false
    else if not net.bind
    then refused freed false false
    else if not net.listen
    then refused freed false (not net.path_fits)
    else after_loop net.path_fits (if net.signalled then ([], over) else l)

-- Whenever run_server returns 0, cleanup_socket uses the freed g_socket_path at exit.
pub run_server-used_after_free :
    (net : Network) (exists : Bool) (turns : List Turn)
    → (run_server net exists turns).result ≡ returned true
    → at_exit (run_server net exists turns) ≡ used_after_free
unfolding run_server at_exit after_loop
run_server-used_after_free net exists turns h = go (serve turns) h
  where
    go :
        (l : List (List ℕ) × Loop)
        → (with_loop net exists l).result ≡ returned true
        → at_exit (with_loop net exists l) ≡ used_after_free
    go (sent, going) e = ground arith
    go (sent, over) e = ground arith
    go (sent, killed) e = ground arith
