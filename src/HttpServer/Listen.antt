-- ===== src/HttpServer/Listen.antt =====
-- 23_http_server/main.c: parse_args and setup_listen_socket. What the system calls return is a
-- parameter.
use otus_c_prog.Common.{
  ℕ, ◌-◌, ◌<◌, ◌≤◌, ◌≡◌, refl, sym, ap, ◌∙◌, ◌==◌, ltb, not, ◌&&◌, ◌||◌, Bool, true, false,
  if◌then◌else◌, List, [], ◌∷◌, ◌++◌, length, take, length-append, take_all, Option, none, some,
  arith,
}
use mathlib.Core.List.{append-nil}
use otus_c_prog.Common.Text.{codes}
use otus_c_prog.Common.Int.{pos, negsuc}
use otus_c_prog.Common.Decimal.{
  Number, strtol, decimal, strtol-decimal, is_digit, AllDigits, decimal-AllDigits,
}
use otus_c_prog.Common.Getopt.{Given, getopt}
use otus_c_prog.HttpServer.Request.{strrchr}

-- `server.root_dir` and `server.listen_addr`, or NULL.
pub record Settings : Type 0 where
  pub root_dir : Option (List ℕ)
  pub listen_addr : Option (List ℕ)

-- The loop over the options; `none` is the branch to the error.
unfoldable pub take_options : Settings → List Given → Option Settings
take_options s [] = some s
take_options s ((opt, arg) ∷ rest) =
    let with_d = take_options (record s { root_dir = arg }) rest in
    let with_l = take_options (record s { listen_addr = arg }) rest in
    if opt == b'd' then with_d else if opt == b'l' then with_l else none

-- Both settings, if both are there.
unfoldable pub both_given : Option Settings → Option (List ℕ × List ℕ)
both_given none = none
both_given (some s) = elim s.root_dir [
  | none ↦ none
  | some root ↦ elim s.listen_addr [ none ↦ none | some addr ↦ some (root, addr) ]
]

unfoldable pub parse_args : List (List ℕ) → Option (List ℕ × List ℕ)
unfolding take_options both_given
parse_args args =
    both_given
      (take_options (record { root_dir = none; listen_addr = none }) (getopt (codes "d:l:") args).0)

abbrev pub addr_size : ℕ
addr_size = 64

-- The port behind the colon: strtol reads all of it, and it is between 1 and 65535.
unfoldable pub port_of : Number → Option ℕ
port_of n = elim n.rest [
  | c ∷ cs ↦ none
  | [] ↦ elim (n.value) [ negsuc k ↦ none | pos p ↦ if p == 0 || ltb 65535 p then none else some p ]
]

unfoldable with_port : List ℕ → Option ℕ → Option (List ℕ × ℕ)
with_port host none = none
with_port host (some port) = some (host, port)

-- The address before the last colon and the port behind it.
unfoldable pub split_at : List ℕ → Option (List ℕ) → Option (List ℕ × ℕ)
unfolding with_port
split_at addr_str none = none
split_at addr_str (some []) = none
split_at addr_str (some (colon ∷ port_str)) =
    with_port (take (length addr_str - length (colon ∷ port_str)) addr_str)
      (port_of (strtol port_str))

unfoldable pub parse_address : List ℕ → Option (List ℕ × ℕ)
unfolding split_at strrchr
parse_address listen_addr =
    let addr_str = take (addr_size - 1) listen_addr in
    split_at addr_str (strrchr addr_str b':' none)

-- Whether socket, setsockopt, inet_pton, bind, listen and set_nonblocking succeed.
pub record Calls : Type 0 where
  pub socket : Bool
  pub setsockopt : Bool
  pub inet_pton : List ℕ → Bool
  pub bind : List ℕ → ℕ → Bool
  pub listen : Bool
  pub nonblocking : Bool

-- Whether the result is 0, and whether `listen_fd` is then open.
unfoldable pub setup_listen_socket : Calls → List ℕ → Bool × Bool
unfolding parse_address
setup_listen_socket calls listen_addr = elim (parse_address listen_addr) [
  | none ↦ (false, false)
  | some (host, port) ↦
      if not calls.socket
      then (false, false)
      else if calls.setsockopt
          && calls.inet_pton host
          && calls.bind host port
          && calls.listen
          && calls.nonblocking
      then (true, true)
      else (false, false)
]

-- No byte is the colon.
abbrev NoColon : List ℕ → Type 0
NoColon [] = Unit
NoColon (c ∷ cs) = (c == b':' ≡ false) × NoColon cs

digits-NoColon : (s : List ℕ) → AllDigits s → NoColon s
digits-NoColon [] h = tt
digits-NoColon (c ∷ cs) (h, hs) =
    let e : c == b':' ≡ false = unfold is_digit in ground arith in (e, digits-NoColon cs hs)

strrchr-none : (s : List ℕ) (last : Option (List ℕ)) → NoColon s → strrchr s b':' last ≡ last
unfolding strrchr
strrchr-none [] last h = refl
strrchr-none (c ∷ cs) last (e, h) = rw e (strrchr-none cs last h)

strrchr-append :
    (a b : List ℕ) (last : Option (List ℕ))
    → NoColon b
    → strrchr (a ++ (b':' ∷ b)) b':' last ≡ some (b':' ∷ b)
unfolding strrchr
strrchr-append [] b last h = strrchr-none b (some (b':' ∷ b)) h
strrchr-append (c ∷ cs) b last h =
    strrchr-append cs b (if c == b':' then some (c ∷ (cs ++ (b':' ∷ b))) else last) h

take-append : (a b : List ℕ) → take (length a) (a ++ b) ≡ a
take-append [] b = refl
take-append (c ∷ a) b = ap (λ t. c ∷ t) (take-append a b)

port-decimal : (p : ℕ) → 0 < p → p ≤ 65535 → port_of (strtol (decimal p)) ≡ some p
port-decimal p h top =
    ap port_of (ap strtol (sym (append-nil (decimal p))) ∙ strtol-decimal p [] (omega arith) tt)
    ∙ in_range p h top
  where
    in_range :
        (p : ℕ)
        → 0 < p
        → p ≤ 65535
        → port_of (record { value = pos p; in_range = true; found = true; rest = [] }) ≡ some p
    in_range p h top = unfold port_of in ground arith

split_at-port :
    (a port : List ℕ) (p : ℕ)
    → port_of (strtol port) ≡ some p
    → split_at a (some (b':' ∷ port)) ≡ some (take (length a - length (b':' ∷ port)) a, p)
unfolding split_at
split_at-port a port p e = ap (with_port (take (length a - length (b':' ∷ port)) a)) e

-- setup_listen_socket reads back an address and a decimal port from 1 to 65535 behind a colon,
-- where the whole has at most 63 bytes; the address may have colons of its own.
pub parse_address-decimal :
    (host : List ℕ) (p : ℕ)
    → 0 < p
    → p ≤ 65535
    → length (host ++ (b':' ∷ decimal p)) ≤ 63
    → parse_address (host ++ (b':' ∷ decimal p)) ≡ some (host, p)
unfolding parse_address
parse_address-decimal host p h top fits =
    let port = decimal p in
    let whole = host ++ (b':' ∷ port) in
    let len = length-append host (b':' ∷ port) in
    let all : take (addr_size - 1) whole ≡ whole = take_all (addr_size - 1) whole fits in
    let colon = strrchr-append host port none (digits-NoColon port (decimal-AllDigits p)) in
    let front : length whole - length (b':' ∷ port) ≡ length host = omega (arith, len) in
    rw (all, colon)
      (split_at-port whole port p (port-decimal p h top)
        ∙ ap (λ n. some (take n whole, p)) front
        ∙ ap (λ t. some (t, p)) (take-append host (b':' ∷ port)))
