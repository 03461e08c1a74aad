-- ===== src/HttpServer/Loop/Bounded.antt =====
-- 23_http_server/main.c: what holds of the table of connections whatever events come.
use otus_c_prog.Common.{
  ℕ, zero, suc, ◌+◌, ◌<◌, ◌≤◌, ◌≡◌, refl, ap, ◌∙◌, ◌==◌, inl, inr, leb, not, Bool, true, false,
  if◌then◌else◌, List, [], ◌∷◌, length, replicate, get_or, set, length-set, length-take,
  length-replicate, Option, none, some, arith, Bool-cases,
}
use otus_c_prog.HttpServer.{Connection}
use otus_c_prog.HttpServer.Request.{System, Received, handle_read}
use otus_c_prog.HttpServer.Safe.{OpensSafely, Fine, handle_read-Fine}
use otus_c_prog.HttpServer.Safe.Written.{handle_write-Fine}
use otus_c_prog.HttpServer.Slots.{
  max_conn, fresh, Slots, accept_connection, is_open, free_from, free_conns,
}
use otus_c_prog.HttpServer.Slots.Compact.{free_conns-Holds}
use otus_c_prog.HttpServer.Listen.{Calls, parse_args, setup_listen_socket}
use otus_c_prog.HttpServer.Loop.{
  Event, on_listener, on_read, on_write, other, Waited, ready, interrupted, failed, at_slot,
  initial, handle_event, handle_events, main_loop, start, main,
}

module _ (sys : System) where
  fresh-Fine : (fd : Option ℕ) → Fine sys (fresh fd)
  unfolding Fine OpensSafely
  fresh-Fine fd = (omega arith, inl refl)

  pub AllFine : List Connection → Type 0
  AllFine [] = Unit
  AllFine (c ∷ cs) = Fine sys c × AllFine cs

  get_or-Fine : (cs : List Connection) (i : ℕ) → AllFine cs → Fine sys (get_or cs i (fresh none))
  unfolding AllFine
  get_or-Fine [] i h = fresh-Fine none
  get_or-Fine (c ∷ cs) zero h = h.0
  get_or-Fine (c ∷ cs) (suc i) h = get_or-Fine cs i h.1

  set-AllFine :
      (cs : List Connection) (i : ℕ) (c : Connection)
      → AllFine cs
      → Fine sys c
      → AllFine (set cs i c)
  unfolding AllFine
  set-AllFine [] i c h new = tt
  set-AllFine (x ∷ cs) zero c h new = (new, h.1)
  set-AllFine (x ∷ cs) (suc i) c h new = (h.0, set-AllFine cs i c h.1 new)

  replicate-AllFine : (n : ℕ) → AllFine (replicate n (fresh none))
  unfolding AllFine
  replicate-AllFine zero = tt
  replicate-AllFine (suc n) = (fresh-Fine none, replicate-AllFine n)

  free_from-AllFine :
      (conns : List Connection) (n i j : ℕ) → AllFine conns → AllFine (free_from conns n i j).conns
  unfolding free_from
  free_from-AllFine conns zero i j h = h
  free_from-AllFine conns (suc n) i j h =
      let c = get_or conns i (fresh none) in
      elim (Bool-cases (is_open c.fd)) [
        | inr closed ↦ rw closed (free_from-AllFine conns n (i + 1) j h)
        | inl op ↦ elim (Bool-cases (i == j)) [
          | inl e ↦ rw (op, e) (free_from-AllFine conns n (i + 1) (j + 1) h)
          | inr e ↦
              rw (op, e)
                (free_from-AllFine (set conns j c) n (i + 1) (j + 1)
                  (set-AllFine conns j c h (get_or-Fine conns i h)))
        ]
      ]

  -- The table has its 1024 slots and uses no more, and its connections are fine.
  pub record Bounded (s : Slots) : Type 0 where
    pub slots : length s.conns ≡ max_conn
    pub used : s.nconns ≤ max_conn
    pub fine : AllFine s.conns

  free_conns-Bounded : (s : Slots) → Bounded s → Bounded (free_conns s)
  unfolding free_conns
  free_conns-Bounded s h =
      let r = free_conns s in
      let k = free_conns-Holds s (omega (arith, h.used, h.slots)) in
      let first = ap (λ (xs : List Connection). length xs) k.first in
      record {
        slots = k.same_length ∙ h.slots;
        used = omega (arith, k.count, first, length-take r.nconns r.conns, k.same_length, h.slots);
        fine = free_from-AllFine s.conns s.nconns 0 0 h.fine;
      }

  accept_connection-Bounded :
      (client_fd : ℕ) (nonblocking added : Bool) (s : Slots)
      → Bounded s
      → Bounded (accept_connection client_fd nonblocking added s)
  unfolding accept_connection
  accept_connection-Bounded client_fd nonblocking added s h =
      let new = fresh (some client_fd) in
      elim (Bool-cases (leb max_conn s.nconns)) [
        | inl full ↦ rw full h
        | inr room ↦ elim (Bool-cases (not nonblocking)) [
          | inl refused ↦ rw (room, refused) h
          | inr kept ↦
              rw (room, kept)
                (record {
                  slots = length-set s.conns s.nconns new ∙ h.slots;
                  used = counted added (s.nconns) (ground arith);
                  fine = set-AllFine s.conns s.nconns new h.fine (fresh-Fine (some client_fd));
                })
        ]
      ]
    where
      counted : (added : Bool) (n : ℕ) → n < max_conn → (if added then n + 1 else n) ≤ max_conn
      counted true n h = omega arith
      counted false n h = omega arith

  at_slot-Bounded :
      (s : Slots) (udata : Option ℕ) (handle : Connection → Connection)
      → ((conn : Connection) → Fine sys conn → Fine sys (handle conn))
      → Bounded s
      → Bounded (at_slot s udata handle)
  unfolding at_slot
  at_slot-Bounded s none handle keeps h = h
  at_slot-Bounded s (some i) handle keeps h =
      let now = handle (get_or s.conns i (fresh none)) in
      record {
        slots = length-set s.conns i now ∙ h.slots;
        used = h.used;
        fine = set-AllFine s.conns i now h.fine (keeps _ (get_or-Fine s.conns i h.fine));
      }

  read-Fine :
      (registers : Bool) (received : Received) (conn : Connection)
      → Fine sys conn
      → Fine sys (handle_read (record sys { registers = registers }) conn received)
  unfolding Fine OpensSafely
  read-Fine registers received conn h =
      handle_read-Fine (record sys { registers = registers }) conn received h

  handle_event-Bounded : (s : Slots) (e : Event) → Bounded s → Bounded (handle_event sys s e)
  unfolding handle_event
  handle_event-Bounded s (on_listener none nonblocking added) h = h
  handle_event-Bounded s (on_listener (some client_fd) nonblocking added) h =
      accept_connection-Bounded client_fd nonblocking added s h
  handle_event-Bounded s (on_read udata registers received) h =
      at_slot-Bounded s udata _ (read-Fine registers received) h
  handle_event-Bounded s (on_write udata content first block second) h =
      at_slot-Bounded s udata _ (λ conn. handle_write-Fine sys content block second conn first) h
  handle_event-Bounded s other h = h

  handle_events-Bounded :
      (s : Slots) (events : List Event) → Bounded s → Bounded (handle_events sys s events)
  unfolding handle_events
  handle_events-Bounded s [] h = h
  handle_events-Bounded s (e ∷ events) h =
      handle_events-Bounded (handle_event sys s e) events (handle_event-Bounded s e h)

  main_loop-Bounded :
      (s : Slots) (waits : List Waited) → Bounded s → Bounded (main_loop sys s waits).0
  unfolding main_loop
  main_loop-Bounded s [] h = h
  main_loop-Bounded s (ready events ∷ waits) h =
      let after = handle_events sys s events in
      main_loop-Bounded (free_conns after) waits
        (free_conns-Bounded after (handle_events-Bounded s events h))
  main_loop-Bounded s (interrupted ∷ waits) h = main_loop-Bounded s waits h
  main_loop-Bounded s (failed ∷ waits) h = h

  initial-Bounded : Bounded initial
  unfolding initial
  initial-Bounded = record {
    slots = length-replicate max_conn (fresh none);
    used = omega arith;
    fine = replicate-AllFine max_conn;
  }

-- Where parse_args accepts the arguments and the set-up of the socket, kqueue and the registering
-- of the socket succeed, main serves, and after whatever events the table has 1024 slots and uses
-- no more, the bytes that each connection received and their closing zero are inside its buffer,
-- and its file is none or one below the root directory whose decoded path has no "..".
pub main-Bounded :
    (sys : System) (calls : Calls) (kqueue added : Bool) (waits : List Waited)
    (argv : List (List ℕ)) (root_dir listen_addr : List ℕ)
    → parse_args argv ≡ some (root_dir, listen_addr)
    → (setup_listen_socket calls listen_addr).0 ≡ true
    → kqueue ≡ true
    → added ≡ true
    → (s : Slots) × (running : Bool) × (main sys calls kqueue added waits argv ≡ some (s, running))
      × Bounded (record sys { root_dir = root_dir }) s
unfolding main start
main-Bounded sys calls kqueue added waits argv root_dir listen_addr args set_up queue listens =
    let sys' = record sys { root_dir = root_dir } in
    let served = main_loop sys' initial waits in
    (
      served.0,
      served.1,
      rw (args, set_up, queue, listens) refl,
      main_loop-Bounded sys' initial waits (initial-Bounded sys'),
    )
