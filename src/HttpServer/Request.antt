-- ===== src/HttpServer/Request.antt =====
-- 23_http_server/main.c: reading a request and the choice of the answer. The C library's sscanf,
-- strtol and decimal conversion, and the system calls, are parameters.
use otus_c_prog.Common.{
  ℕ, zero, suc, ◌+◌, ◌-◌, ◌==◌, ltb, leb, ◌&&◌, ◌||◌, not, Bool, false, if◌then◌else◌, List, [],
  ◌∷◌, ◌++◌, length, take, drop, Option, none, some,
}
use otus_c_prog.Common.Int.{ℤ, pos, negsuc}
use otus_c_prog.Common.Text.{codes, same}
use otus_c_prog.HttpServer.{state_sending_header, Connection, close_connection, with_send}
use otus_c_prog.HttpServer.Write.{send_buf_size}
use Prim.Native.String.{String}

abbrev pub recv_buf_size : ℕ
recv_buf_size = 4096

-- What `stat` finds.
pub data Stat : Type 0 where
  missing : Stat
  denied : Stat
  trouble : Stat
  regular : ℕ → Stat
  irregular : Stat

pub record System : Type 0 where
  pub sscanf : List ℕ → Option (List ℕ × (List ℕ × List ℕ))
  -- The value and how many characters were read, in base 16.
  pub strtol : List ℕ → ℤ × ℕ
  pub decimal : ℕ → List ℕ
  pub path_max : ℕ
  pub root_dir : List ℕ
  pub stat : List ℕ → Stat
  pub readable : List ℕ → Bool
  pub opens : List ℕ → Option ℕ
  -- Whether mod_kqueue_event succeeds.
  pub registers : Bool

-- A C string ends at its first zero.
unfoldable pub c_string : List ℕ → List ℕ
c_string [] = []
c_string (x ∷ s) = let rest = c_string s in if x == 0 then [] else x ∷ rest

-- The extension, from the last dot on; the argument is what the part before has.
unfoldable pub strrchr : List ℕ → ℕ → Option (List ℕ) → Option (List ℕ)
strrchr [] c last = last
strrchr (x ∷ s) c last = strrchr s c (if x == c then some (x ∷ s) else last)

unfoldable pub mime_of : Option (List ℕ) → List ℕ
mime_of none = codes "application/octet-stream"
mime_of (some ext) =
    if same ext (codes ".html") || same ext (codes ".htm")
    then codes "text/html"
    else if same ext (codes ".txt")
    then codes "text/plain"
    else if same ext (codes ".css")
    then codes "text/css"
    else if same ext (codes ".js")
    then codes "application/javascript"
    else if same ext (codes ".json")
    then codes "application/json"
    else if same ext (codes ".png")
    then codes "image/png"
    else if same ext (codes ".jpg") || same ext (codes ".jpeg")
    then codes "image/jpeg"
    else if same ext (codes ".gif")
    then codes "image/gif"
    else if same ext (codes ".ico")
    then codes "image/x-icon"
    else if same ext (codes ".svg")
    then codes "image/svg+xml"
    else if same ext (codes ".pdf")
    then codes "application/pdf"
    else codes "application/octet-stream"

unfoldable pub get_mime_type : List ℕ → List ℕ
get_mime_type path = mime_of (strrchr path 46 none)

-- `strstr(path, "..") != NULL`
unfoldable pub has_dots : List ℕ → Bool
has_dots [] = false
has_dots (a ∷ []) = false
has_dots (a ∷ b ∷ s) = let rest = has_dots (b ∷ s) in ((a == 46) && (b == 46)) || rest

unfoldable pub is_safe_path : List ℕ → Bool
is_safe_path path = not (has_dots path)

-- `strstr(recv_buf, "\r\n\r\n") != NULL`
unfoldable pub has_end : List ℕ → Bool
has_end (a ∷ b ∷ c ∷ d ∷ s) =
    let rest = has_end (b ∷ c ∷ d ∷ s) in ((a == 13) && (b == 10) && (c == 13) && (d == 10)) || rest
has_end _ = false

-- What `recv` returns: bytes, EAGAIN, or the end of the connection or another error.
pub data Received : Type 0 where
  bytes : List ℕ → Received
  not_yet : Received
  gone : Received

unfoldable pub with_received : Connection → List ℕ → Connection
with_received conn buf = record {
  fd = conn.fd;
  state = conn.state;
  recv_buf = buf;
  file_fd = conn.file_fd;
  file_offset = conn.file_offset;
  file_size = conn.file_size;
  send_buf = conn.send_buf;
  send_sent = conn.send_sent;
}

module _ (sys : System) where
  -- A value that strtol reads from both characters.
  unfoldable pub in_byte : ℤ × ℕ → Option ℕ
  in_byte (pos v, n) = if (n == 2) && leb v 255 then some v else none
  in_byte (negsuc v, n) = none

  unfoldable pub hex_at : List ℕ → Option ℕ
  hex_at (a ∷ b ∷ src) = in_byte (sys.strtol (a ∷ b ∷ []))
  hex_at _ = none

  unfoldable pub store : Option ℕ → ℕ → List ℕ → List ℕ → List ℕ
  store none c plain behind = (if c == 43 then 32 else c) ∷ plain
  store (some v) c plain behind = v ∷ behind

  -- url_decode into a buffer with room for so many bytes and the closing zero.
  unfoldable pub url_decode : ℕ → List ℕ → List ℕ
  url_decode zero src = []
  url_decode (suc room) [] = []
  url_decode (suc room) (c ∷ src) =
      let plain = url_decode room src in
      let behind = url_decode room (drop 2 src) in
      store (if c == 37 then hex_at src else none) c plain behind

  unfoldable pub header_text : ℕ → List ℕ → List ℕ → ℕ → List ℕ
  header_text code status content_type content_len =
      codes "HTTP/1.1 "
      ++ (sys.decimal code
          ++ (32
              ∷ (status
                  ++ (13
                      ∷ 10
                      ∷ (codes "Content-Type: "
                          ++ (content_type
                              ++ (13
                                  ∷ 10
                                  ∷ (codes "Content-Length: "
                                      ++ (sys.decimal content_len
                                          ++ (13
                                              ∷ 10
                                              ∷ (codes "Connection: close"
                                                  ++ (13 ∷ 10 ∷ 13 ∷ 10 ∷ []))))))))))))

  unfoldable pub build_http_status : Connection → ℕ → List ℕ → List ℕ → ℕ → Connection
  build_http_status conn code status content_type content_len = record {
    fd = conn.fd;
    state = state_sending_header;
    recv_buf = conn.recv_buf;
    file_fd = conn.file_fd;
    file_offset = conn.file_offset;
    file_size = conn.file_size;
    send_buf = header_text code status content_type content_len;
    send_sent = 0;
  }

  unfoldable pub with_body : Connection → List ℕ → Connection
  with_body conn body =
      if ltb (length conn.send_buf + length body) send_buf_size
      then with_send conn (conn.send_buf ++ body) conn.send_sent
      else conn

  -- The write event is asked for.
  unfoldable pub registered : Connection → Connection
  registered conn = if sys.registers then conn else close_connection conn

  unfoldable pub send_error : Connection → ℕ → String → Connection
  send_error conn code status = registered (
      with_body
        (build_http_status conn code (codes status) (codes "text/plain") (length (codes status)))
        (codes status))

  -- The end of handle_request, with what `open` returns.
  unfoldable pub serve_file : Connection → List ℕ → ℕ → Option ℕ → Connection
  serve_file conn full_path size none = send_error conn 500 "Internal Server Error"
  serve_file conn full_path size (some file_fd) = registered (
      build_http_status
        (record {
          fd = conn.fd;
          state = conn.state;
          recv_buf = conn.recv_buf;
          file_fd = some file_fd;
          file_offset = 0;
          file_size = size;
          send_buf = conn.send_buf;
          send_sent = conn.send_sent;
        })
        200 (codes "OK") (get_mime_type full_path) size)

  unfoldable pub serve_path : Connection → List ℕ → Stat → Connection
  serve_path conn full_path missing = send_error conn 404 "Not Found"
  serve_path conn full_path denied = send_error conn 403 "Forbidden"
  serve_path conn full_path trouble = send_error conn 500 "Internal Server Error"
  serve_path conn full_path irregular = send_error conn 404 "Not Found"
  serve_path conn full_path (regular size) =
      if not (sys.readable full_path)
      then send_error conn 403 "Forbidden"
      else serve_file conn full_path size (sys.opens full_path)

  unfoldable pub full_path_of : List ℕ → List ℕ
  full_path_of decoded = sys.root_dir ++ (47 ∷ decoded)

  unfoldable pub serve_decoded : Connection → List ℕ → Connection
  serve_decoded conn decoded =
      let full_path = full_path_of decoded in
      if not (is_safe_path decoded)
      then send_error conn 403 "Forbidden"
      else if leb sys.path_max (length full_path)
      then send_error conn 414 "URI Too Long"
      else serve_path conn full_path (sys.stat full_path)

  unfoldable pub serve_request : Connection → Option (List ℕ × (List ℕ × List ℕ)) → Connection
  serve_request conn none = send_error conn 400 "Bad Request"
  serve_request conn (some (method, (path, version))) =
      if not (same method (codes "GET"))
      then send_error conn 405 "Method Not Allowed"
      else serve_decoded conn (c_string (url_decode 1023 path))

  unfoldable pub handle_request : Connection → Connection
  handle_request conn = serve_request conn (sys.sscanf (c_string conn.recv_buf))

  unfoldable pub after_received : Connection → Connection
  after_received conn =
      if has_end (c_string conn.recv_buf)
      then handle_request conn
      else if leb (recv_buf_size - 1) (length conn.recv_buf)
      then send_error conn 413 "Payload Too Large"
      else conn

  -- No bytes are the end of the connection, or a buffer without room.
  unfoldable pub append_received : Connection → List ℕ → Connection
  append_received conn [] = close_connection conn
  append_received conn (b ∷ bs) = after_received (with_received conn (conn.recv_buf ++ (b ∷ bs)))

  -- handle_read on an open connection; recv returns at most what there is room for.
  unfoldable pub read_open : Connection → Received → Connection
  read_open conn (bytes b) =
      append_received conn (take (recv_buf_size - length conn.recv_buf - 1) b)
  read_open conn not_yet = conn
  read_open conn gone = close_connection conn

  unfoldable pub if_connected : Connection → Option ℕ → Connection → Connection
  if_connected conn none done = conn
  if_connected conn (some fd) done = done

  unfoldable pub handle_read : Connection → Received → Connection
  handle_read conn r = if_connected conn conn.fd (read_open conn r)
