-- ===== src/Daemon/Server.antt =====
-- 15_daemon/server.c: run_server. What the system calls return is a parameter.
pub mod Served
use otus_c_prog.Common.{
  ℕ, ◌+◌, ◌-◌, ◌^◌, ◌<◌, ◌≤◌, ◌≡◌, refl, sym, ap, ◌∙◌, ◌⊎◌, inl, inr, Bool, true, false, not, ◌&&◌,
  ◌||◌, Option, none, some, List, [], ◌∷◌, ◌++◌, length, take, length-take, min, if◌then◌else◌,
  arith, Bool-cases,
}
use otus_c_prog.Common.Text.{codes}
use otus_c_prog.Common.Decimal.{decimal}

-- What stat gives: the size of the file, or the text of the error.
pub data Stat : Type 0 where
  size : ℕ → Stat
  failure : List ℕ → Stat

abbrev pub response_size : ℕ
response_size = 256

-- What snprintf leaves in `response`.
unfoldable pub response : Stat → List ℕ
response (size n) = take (response_size - 1) (decimal n ++ (b'\n' ∷ []))
response (failure text) = take (response_size - 1) (codes "error: " ++ (text ++ (b'\n' ∷ [])))

-- How `send` goes: the whole text is sent, it fails, or the client is gone, which SIGPIPE tells.
pub data Send : Type 0 where
  whole : Send
  failed : Send
  gone : Send

-- A turn of the loop: what accept gives, with what stat gives for a client and how the send to it
-- goes, and whether SIGINT or SIGTERM arrives in the turn.
pub record Turn : Type 0 where
  pub client : Option (Stat × Send)
  pub signalled : Bool

-- Whether the loop goes on, has ended, or SIGPIPE has ended the process.
pub data Loop : Type 0 where
  going : Loop
  over : Loop
  killed : Loop

unfoldable pub responses_of : Option (Stat × Send) → List (List ℕ)
unfolding response
responses_of none = []
responses_of (some (s, whole)) = response s ∷ []
responses_of (some (s, failed)) = []
responses_of (some (s, gone)) = []

unfoldable pub is_gone : Option (Stat × Send) → Bool
is_gone none = false
is_gone (some (s, whole)) = false
is_gone (some (s, failed)) = false
is_gone (some (s, gone)) = true

-- The loop over the turns: what is sent, and how far it is.
unfoldable pub serve : List Turn → List (List ℕ) × Loop
unfolding responses_of is_gone
serve [] = ([], going)
serve (t ∷ ts) =
    let later = serve ts in
    if is_gone t.client
    then ([], killed)
    else if t.signalled
    then (responses_of t.client, over)
    else (responses_of t.client ++ later.0, later.1)

-- `g_socket_path`: not set, set, or still set when its memory is freed.
pub data Pointer : Type 0 where
  null : Pointer
  held : Pointer
  freed : Pointer

-- What run_server has returned, 0 or -1, if it has, or that the process has been killed.
pub data Returned : Type 0 where
  not_yet : Returned
  returned : Bool → Returned
  by_signal : Returned

-- Whether the socket is open, a file with the path of the socket is there, bind has left a file
-- with the beginning of a path that is too long, and cleanup_socket is registered.
pub record Server : Type 0 where
  pub g_socket_path : Pointer
  pub listening : Bool
  pub path_exists : Bool
  pub cut_exists : Bool
  pub registered : Bool
  pub sent : List (List ℕ)
  pub result : Returned

-- Whether strdup, socket, bind and listen succeed, whether the path is shorter than `sun_path`, and
-- whether a signal arrives before the loop. strncpy cuts a path that is too long, and bind makes a
-- file with its beginning.
pub record Network : Type 0 where
  pub strdup : Bool
  pub socket : Bool
  pub bind : Bool
  pub listen : Bool
  pub path_fits : Bool
  pub signalled : Bool

-- What is left when run_server returns -1.
unfoldable pub refused : Pointer → Bool → Bool → Server
refused p exists cut = record {
  g_socket_path = p;
  listening = false;
  path_exists = exists;
  cut_exists = cut;
  registered = false;
  sent = [];
  result = returned false;
}

unfoldable pub after_loop : Bool → List (List ℕ) × Loop → Server
after_loop fits (sent, going) = record {
  g_socket_path = held;
  listening = true;
  path_exists = fits;
  cut_exists = not fits;
  registered = true;
  sent = sent;
  result = not_yet;
}
after_loop fits (sent, over) = record {
  g_socket_path = freed;
  listening = false;
  path_exists = false;
  cut_exists = not fits;
  registered = true;
  sent = sent;
  result = returned true;
}
after_loop fits (sent, killed) = record {
  g_socket_path = held;
  listening = false;
  path_exists = fits;
  cut_exists = not fits;
  registered = true;
  sent = sent;
  result = by_signal;
}

-- run_server where a file with the path of the socket is there or not, and none with its beginning.
unfoldable pub run_server : Network → Bool → List Turn → Server
unfolding refused after_loop serve
run_server net exists turns =
    if not net.strdup
    then refused null exists false
    else if not net.socket
    then refused freed exists false
    else if not net.bind
    then refused freed false false
    else if not net.listen
    then refused freed false (not net.path_fits)
    else after_loop net.path_fits (if net.signalled then ([], over) else serve turns)

-- What cleanup_socket does at exit: nothing without a path, an unlink, or a use of freed memory.
pub data Cleaned : Type 0 where
  untouched : Cleaned
  unlinked : Cleaned
  used_after_free : Cleaned

unfoldable pub cleanup_socket : Pointer → Cleaned
cleanup_socket null = untouched
cleanup_socket held = unlinked
cleanup_socket freed = used_after_free

-- A process that a signal kills runs nothing at exit.
unfoldable pub is_killed : Returned → Bool
is_killed not_yet = false
is_killed (returned status) = false
is_killed by_signal = true

unfoldable pub at_exit : Server → Cleaned
unfolding cleanup_socket is_killed
at_exit s =
    if s.registered && not (is_killed s.result) then cleanup_socket s.g_socket_path else untouched
