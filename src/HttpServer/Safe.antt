-- ===== src/HttpServer/Safe.antt =====
-- 23_http_server/main.c: what a request can open, and how far it fills the buffer.
pub mod Written
use otus_c_prog.Common.{
  ℕ, ◌+◌, ◌-◌, ◌<◌, ◌≡◌, refl, sym, ap, ◌∙◌, ◌⊎◌, inl, inr, ltb, leb, not, false, List, [], ◌∷◌,
  ◌++◌, length, take, length-take, Option, none, some, arith, Bool-cases,
}
use mathlib.Core.Path.{subst}
use otus_c_prog.Common.Text.{codes, same}
use Prim.Native.String.{String}
use otus_c_prog.HttpServer.{Connection, close_connection, with_send}
use otus_c_prog.HttpServer.Write.{send_buf_size}
use otus_c_prog.HttpServer.Request.{
  System, Stat, missing, denied, trouble, regular, irregular, c_string, has_dots, is_safe_path,
  has_end, recv_buf_size, url_decode, build_http_status, with_body, registered, send_error,
  serve_file, serve_path, full_path_of, serve_decoded, serve_request, handle_request, Received,
  bytes, not_yet, gone, with_received, after_received, append_received, read_open, if_connected,
  handle_read,
}

module _ (sys : System) where
  -- The file of the connection is none, or one below the root directory whose path has no "..".
  unfoldable pub OpensSafely : Option ℕ → Type 0
  OpensSafely file_fd =
      (file_fd ≡ none)
      ⊎ ((decoded : List ℕ) × (has_dots decoded ≡ false)
          × (sys.opens (sys.root_dir ++ (47 ∷ decoded)) ≡ file_fd))

  -- The received bytes are kept, and the file is that of `old`, or as above.
  Answered : Connection → Connection → Type 0
  Answered old conn =
      (conn.recv_buf ≡ old.recv_buf) × ((conn.file_fd ≡ old.file_fd) ⊎ OpensSafely conn.file_fd)

  registered-Answered :
      (old conn : Connection) → Answered old conn → Answered old (registered sys conn)
  unfolding registered close_connection Answered OpensSafely
  registered-Answered old conn h = elim (Bool-cases sys.registers) [
    | inl e ↦ rw e h
    | inr e ↦ rw e (h.0, inr (inl refl))
  ]

  with_body-Answered :
      (old conn : Connection) (body : List ℕ)
      → Answered old conn
      → Answered old (with_body sys conn body)
  unfolding with_body with_send Answered
  with_body-Answered old conn body h =
      elim (Bool-cases (ltb (length conn.send_buf + length body) send_buf_size)) [
        | inl e ↦ rw e h
        | inr e ↦ rw e h
      ]

  module _ (conn : Connection) where
    send_error-Answered :
        (code : ℕ) (status : String) → Answered conn (send_error sys conn code status)
    unfolding send_error build_http_status Answered OpensSafely
    send_error-Answered code status = registered-Answered conn _ (
        with_body-Answered conn
          (build_http_status sys conn code (codes status) (codes "text/plain")
            (length (codes status)))
          (codes status) (refl, inl refl))

    serve_file-Answered :
        (decoded : List ℕ) (size : ℕ) (opened : Option ℕ)
        → has_dots decoded ≡ false
        → sys.opens (full_path_of sys decoded) ≡ opened
        → Answered conn (serve_file sys conn (full_path_of sys decoded) size opened)
    unfolding serve_file build_http_status full_path_of Answered OpensSafely
    serve_file-Answered decoded size none safe e = send_error-Answered 500 "Internal Server Error"
    serve_file-Answered decoded size (some fd) safe e =
        registered-Answered conn _ (refl, inr (inr (decoded, safe, e)))

    serve_path-Answered :
        (decoded : List ℕ) (found : Stat)
        → has_dots decoded ≡ false
        → Answered conn (serve_path sys conn (full_path_of sys decoded) found)
    unfolding serve_path
    serve_path-Answered decoded missing safe = send_error-Answered 404 "Not Found"
    serve_path-Answered decoded denied safe = send_error-Answered 403 "Forbidden"
    serve_path-Answered decoded trouble safe = send_error-Answered 500 "Internal Server Error"
    serve_path-Answered decoded irregular safe = send_error-Answered 404 "Not Found"
    serve_path-Answered decoded (regular size) safe =
        elim (Bool-cases (not (sys.readable (full_path_of sys decoded)))) [
          | inl e ↦ rw e (send_error-Answered 403 "Forbidden")
          | inr e ↦
              rw e
                (serve_file-Answered decoded size (sys.opens (full_path_of sys decoded)) safe refl)
        ]

    serve_decoded-Answered : (decoded : List ℕ) → Answered conn (serve_decoded sys conn decoded)
    unfolding serve_decoded is_safe_path
    serve_decoded-Answered decoded = elim (Bool-cases (has_dots decoded)) [
      | inl e ↦ rw e (send_error-Answered 403 "Forbidden")
      | inr e ↦ elim (Bool-cases (leb sys.path_max (length (full_path_of sys decoded)))) [
        | inl f ↦ rw (e, f) (send_error-Answered 414 "URI Too Long")
        | inr f ↦ rw (e, f) (serve_path-Answered decoded (sys.stat (full_path_of sys decoded)) e)
      ]
    ]

    serve_request-Answered :
        (read : Option (List ℕ × (List ℕ × List ℕ))) → Answered conn (serve_request sys conn read)
    unfolding serve_request
    serve_request-Answered none = send_error-Answered 400 "Bad Request"
    serve_request-Answered (some (method, (path, version))) =
        elim (Bool-cases (not (same method (codes "GET")))) [
          | inl e ↦ rw e (send_error-Answered 405 "Method Not Allowed")
          | inr e ↦ rw e (serve_decoded-Answered (c_string (url_decode sys 1023 path)))
        ]

    handle_request-Answered : Answered conn (handle_request sys conn)
    unfolding handle_request
    handle_request-Answered = serve_request-Answered (sys.sscanf (c_string conn.recv_buf))

    -- For a connection without a file, handle_request leaves none open but one whose path below the
    -- root directory, decoded, has no "..", and it leaves the received bytes as they are.
    pub handle_request-safe :
        conn.file_fd ≡ none
        → ((handle_request sys conn).recv_buf ≡ conn.recv_buf)
          × OpensSafely (handle_request sys conn).file_fd
    unfolding Answered OpensSafely
    handle_request-safe new =
        let h = handle_request-Answered in
        (h.0, elim h.1 [ inl e ↦ inl (e ∙ new) | inr safe ↦ safe ])

  length-++ : (xs ys : List ℕ) → length (xs ++ ys) ≡ length xs + length ys
  length-++ [] ys = omega arith
  length-++ (x ∷ xs) ys = omega (arith, length-++ xs ys)

  after_received-Answered : (conn : Connection) → Answered conn (after_received sys conn)
  unfolding after_received Answered
  after_received-Answered conn = elim (Bool-cases (has_end (c_string conn.recv_buf))) [
    | inl e ↦ rw e (handle_request-Answered conn)
    | inr e ↦ elim (Bool-cases (leb (recv_buf_size - 1) (length conn.recv_buf))) [
      | inl f ↦ rw (e, f) (send_error-Answered conn 413 "Payload Too Large")
      | inr f ↦ rw (e, f) (refl, inl refl)
    ]
  ]

  -- The received bytes and their closing zero are inside the buffer, and the file is one as above.
  unfoldable pub Fine : Connection → Type 0
  Fine conn = (length conn.recv_buf < recv_buf_size) × OpensSafely conn.file_fd

  Answered-Fine : (old conn : Connection) → Answered old conn → Fine old → Fine conn
  unfolding Answered Fine
  Answered-Fine old conn (same, file) (small, safe) = (
    omega (arith, ap (λ (xs : List ℕ). length xs) same),
    elim file [ inl e ↦ subst OpensSafely (sym e) safe | inr opened ↦ opened ],
  )

  pub closed-Fine : (conn : Connection) → Fine conn → Fine (close_connection conn)
  unfolding close_connection Fine OpensSafely
  closed-Fine conn h = (h.0, inl refl)

  with_received-Fine :
      (conn : Connection) (b : List ℕ)
      → length conn.recv_buf + length b < recv_buf_size
      → Fine conn
      → Fine (with_received conn (conn.recv_buf ++ b))
  unfolding with_received Fine
  with_received-Fine conn b fits h = (omega (arith, length-++ conn.recv_buf b), h.1)

  append_received-Fine :
      (conn : Connection) (b : List ℕ)
      → length conn.recv_buf + length b < recv_buf_size
      → Fine conn
      → Fine (append_received sys conn b)
  unfolding append_received
  append_received-Fine conn [] fits h = closed-Fine conn h
  append_received-Fine conn (b ∷ bs) fits h =
      let now = with_received conn (conn.recv_buf ++ (b ∷ bs)) in
      Answered-Fine now (after_received sys now) (after_received-Answered now)
        (with_received-Fine conn (b ∷ bs) fits h)

  read_open-Fine : (conn : Connection) (r : Received) → Fine conn → Fine (read_open sys conn r)
  unfolding read_open
  read_open-Fine conn (bytes b) h =
      let room = recv_buf_size - length conn.recv_buf - 1 in
      let small : length conn.recv_buf < recv_buf_size = unfold Fine in h.0 in
      append_received-Fine conn (take room b) (omega (arith, small, length-take room b)) h
  read_open-Fine conn not_yet h = h
  read_open-Fine conn gone h = closed-Fine conn h

  if_connected-Fine :
      (conn : Connection) (fd : Option ℕ) (r : Received)
      → Fine conn
      → Fine (if_connected sys conn fd (read_open sys conn r))
  unfolding if_connected
  if_connected-Fine conn none r h = h
  if_connected-Fine conn (some fd) r h = read_open-Fine conn r h

  -- handle_read keeps the received bytes inside the buffer, whatever recv returns, and opens no
  -- file but one below the root directory.
  pub handle_read-Fine :
      (conn : Connection) (r : Received) → Fine conn → Fine (handle_read sys conn r)
  unfolding handle_read
  handle_read-Fine conn r h = if_connected-Fine conn conn.fd r h
