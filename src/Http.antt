-- ===== src/Http.antt =====
-- crates/nlx-http/src/server.rs: the accept loop, the header loop, the routes and their responses.
-- A read or an accept is an entry of a script. The validation of UTF-8 and the ports behind the
-- routes are parameters; `Exporter` fills the ports with the scrape service and the text registry.
pub mod Headers
pub mod Paths
pub mod Routes
pub mod Backoff
use netlink_exporter.Base.{
  ℕ, ◌+◌, ◌*◌, Bool, true, false, List, [], ◌∷◌, ◌++◌, Option, none, some, min, ltb, leb, ◌==◌,
  if◌then◌else◌, ◌&&◌, ◌||◌, length,
}
use mathlib.Core.Option
use netlink_exporter.Base.Order.{text_eq}
use netlink_exporter.Base.Text.{Text, codes, decimal}
use netlink_exporter.Wire.{Bytes}

abbrev pub http_200_plain : Bytes
http_200_plain =
    codes
      "HTTP/1.1 200 OK\r\nContent-Type: text/plain\r\nContent-Length: 2\r\nConnection: close\r\n\r\nOK"

abbrev pub http_503_plain : Bytes
http_503_plain =
    codes "HTTP/1.1 503 Service Unavailable\r\nContent-Length: 0\r\nConnection: close\r\n\r\n"

abbrev pub http_500 : Bytes
http_500 =
    codes "HTTP/1.1 500 Internal Server Error\r\nContent-Length: 0\r\nConnection: close\r\n\r\n"

abbrev pub http_404 : Bytes
http_404 = codes "HTTP/1.1 404 Not Found\r\nContent-Length: 0\r\nConnection: close\r\n\r\n"

abbrev pub metrics_content_type : Text
metrics_content_type = codes "text/plain; version=0.0.4; charset=utf-8"

abbrev pub accept_backoff_initial_ms : ℕ
accept_backoff_initial_ms = 10

abbrev pub accept_backoff_max_ms : ℕ
accept_backoff_max_ms = 1000

abbrev pub request_header_cap : ℕ
request_header_cap = 8 * 1024

-- What `listener.accept()` gives, and what the loop does about it.
pub data Accept : Type 0 where
  accepted accept_error : Accept

pub data ServeEvent : Type 0 where
  spawns : ServeEvent
  sleeps : ℕ → ServeEvent

-- The loop of `serve`.
unfoldable pub serve_loop : ℕ → List Accept → List ServeEvent
serve_loop backoff_ms [] = []
serve_loop backoff_ms (accepted ∷ script) = spawns ∷ serve_loop accept_backoff_initial_ms script
serve_loop backoff_ms (accept_error ∷ script) =
    sleeps backoff_ms ∷ serve_loop (min (backoff_ms * 2) accept_backoff_max_ms) script

-- `serve`: the error of the bind, or what the loop does.
pub data Served : Type 0 where
  serve_error : Text → Served
  serves : List ServeEvent → Served

unfoldable pub serve : Option Text → List Accept → Served
serve (some e) script = serve_error (codes "HTTP server bind/serve error: " ++ e)
serve none script = serves (serve_loop accept_backoff_initial_ms script)

-- What one read gives: the bytes, none at the end of the stream, or an error.
pub data Read : Type 0 where
  chunk : Bytes → Read
  read_error : Read

-- How the header loop ends; `reading` waits for the peer.
pub data HeaderLoop : Type 0 where
  headers : Bytes → HeaderLoop
  discarded reading : HeaderLoop

-- `windows(4).any(|w| w == b"\r\n\r\n")`
abbrev pub has_sentinel : Bytes → Bool
has_sentinel (a ∷ b ∷ c ∷ d ∷ rest) =
    (a == 13 && (b == 10 && (c == 13 && d == 10))) || has_sentinel (b ∷ c ∷ d ∷ rest)
has_sentinel _ = false

unfoldable pub read_headers : List Read → Bytes → HeaderLoop
read_headers [] header_buf = reading
read_headers (read_error ∷ script) header_buf = discarded
read_headers (chunk [] ∷ script) header_buf = discarded
read_headers (chunk (b ∷ bytes) ∷ script) header_buf =
    let header_buf = header_buf ++ b ∷ bytes in
    elim (has_sentinel header_buf) [
      | true ↦ headers header_buf
      | false ↦ elim (leb request_header_cap (length header_buf)) [
        | true ↦ discarded
        | false ↦ read_headers script header_buf
      ]
    ]

-- `lines().next()`: up to the first newline, less one carriage return before it.
unfoldable pub first_line : Text → Text
first_line [] = []
first_line (c ∷ s) =
    if c == 10 then [] else if c == 13 && starts_newline s then [] else c ∷ first_line s
  where
    starts_newline : Text → Bool
    starts_newline [] = false
    starts_newline (c ∷ s) = c == 10

-- What `splitn(_, ' ')` gives next, and what is left for it, if anything.
unfoldable pub next_part : Text → Text × Option Text
next_part [] = ([], none)
next_part (c ∷ s) = if c == 32 then ([], some s) else (c ∷ (next_part s).0, (next_part s).1)

unfoldable pub second_part : Option Text → Text
unfolding next_part
second_part none = codes "/"
second_part (some s) = (next_part s).0

unfoldable pub parse_path : (Bytes → Option Text) → Bytes → Text
unfolding first_line next_part second_part
parse_path from_utf8 buf = second_part (next_part (first_line (Option.get_or (from_utf8 buf) []))).1

abbrev pub metrics_response : Bytes → Bytes
metrics_response body =
    codes "HTTP/1.1 200 OK\r\nContent-Type: "
    ++ (metrics_content_type
        ++ (codes "\r\nContent-Length: "
            ++ (decimal (length body) ++ (codes "\r\nConnection: close\r\n\r\n" ++ body))))

-- The ports behind the routes: `scrape` tells whether it succeeded, `encode_text` gives the body.
pub record Ports (S : Type 0) : Type 0 where
  pub scrape : S → S × Bool
  pub encode_text : S → Option Bytes
  pub is_healthy : S → Bool
  pub is_ready : S → Bool

module _ {S : Type 0} (ports : Ports S) where
  unfoldable pub handle_metrics : S → S × Bytes
  handle_metrics s =
      let (s', scraped) = ports.scrape s in
      elim scraped [
        | false ↦ (s', http_500)
        | true ↦ elim (ports.encode_text s') [
          | some body ↦ (s', metrics_response body)
          | none ↦ (s', http_500)
        ]
      ]

  unfoldable pub handle_healthz : S → S × Bytes
  handle_healthz s = (s, if ports.is_healthy s then http_200_plain else http_503_plain)

  unfoldable pub handle_ready : S → S × Bytes
  handle_ready s = (s, if ports.is_ready s then http_200_plain else http_503_plain)

  unfoldable pub route : Text → S → S × Bytes
  unfolding handle_metrics handle_healthz handle_ready
  route path s =
      if text_eq path (codes "/metrics")
      then handle_metrics s
      else if text_eq path (codes "/healthz")
      then handle_healthz s
      else if text_eq path (codes "/ready")
      then handle_ready s
      else (s, http_404)

  -- The dispatch, once the header loop has ended; no response if the connection is dropped.
  abbrev pub respond : (Bytes → Option Text) → HeaderLoop → S → S × Option Bytes
  respond from_utf8 (headers header_buf) s =
      let r = route (parse_path from_utf8 header_buf) s in (r.0, some r.1)
  respond from_utf8 discarded s = (s, none)
  respond from_utf8 reading s = (s, none)

  -- The state and the response after one connection.
  unfoldable pub handle_conn : (Bytes → Option Text) → List Read → S → S × Option Bytes
  unfolding read_headers parse_path route
  handle_conn from_utf8 script s = respond from_utf8 (read_headers script []) s
