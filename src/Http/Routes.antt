-- ===== src/Http/Routes.antt =====
-- The responses of crates/nlx-http/src/server.rs.
use netlink_exporter.Base.{
  ◌≡◌, refl, inl, inr, Bool, true, false, List, [], ◌++◌, Option, none, some, Bool-cases,
  Option-cases, length, if◌then◌else◌,
}
use netlink_exporter.Base.Order.{text_eq}
use netlink_exporter.Base.Text.{Text, codes, decimal, value, value-decimal}
use netlink_exporter.Http.{
  http_200_plain, http_503_plain, http_500, http_404, metrics_content_type, metrics_response, Ports,
  handle_metrics, handle_healthz, handle_ready, route, respond, handle_conn, Read, HeaderLoop,
  headers, discarded, reading, read_headers, parse_path,
}
use netlink_exporter.Wire.{Bytes}

-- A response whose `Content-Length` is the number of bytes after its header.
abbrev pub IsFramed : Bytes → Type 0
IsFramed r =
    (head : Bytes) × ((digits : Text) × ((body : Bytes) × ((r
            ≡ head
              ++ (codes "\r\nContent-Length: "
                  ++ (digits ++ (codes "\r\nConnection: close\r\n\r\n" ++ body))))
          × (value digits ≡ length body))))

IsFramed-200 : IsFramed http_200_plain
IsFramed-200 =
    (codes "HTTP/1.1 200 OK\r\nContent-Type: text/plain", (codes "2", (codes "OK", (refl, refl))))

IsFramed-503 : IsFramed http_503_plain
IsFramed-503 = (codes "HTTP/1.1 503 Service Unavailable", (codes "0", ([], (refl, refl))))

IsFramed-500 : IsFramed http_500
IsFramed-500 = (codes "HTTP/1.1 500 Internal Server Error", (codes "0", ([], (refl, refl))))

IsFramed-404 : IsFramed http_404
IsFramed-404 = (codes "HTTP/1.1 404 Not Found", (codes "0", ([], (refl, refl))))

abbrev pub IsFramedOption : Option Bytes → Type 0
IsFramedOption none = Unit
IsFramedOption (some r) = IsFramed r

module _ {S : Type 0} (ports : Ports S) where
  IsFramed-metrics_response : (body : Bytes) → IsFramed (metrics_response body)
  IsFramed-metrics_response body = (
    codes "HTTP/1.1 200 OK\r\nContent-Type: " ++ metrics_content_type,
    (decimal (length body), (body, (refl, value-decimal (length body)))),
  )

  handle_metrics-IsFramed : (s : S) → IsFramed (handle_metrics ports s).1
  unfolding handle_metrics
  handle_metrics-IsFramed s = elim (Bool-cases (ports.scrape s).1) [
    | inr fails ↦ rw (fails, handle_metrics) IsFramed-500
    | inl works ↦ elim (Option-cases (ports.encode_text (ports.scrape s).0)) [
      | inl nothing ↦ rw (works, nothing, handle_metrics) IsFramed-500
      | inr (body, e) ↦ rw (works, e, handle_metrics) (IsFramed-metrics_response body)
    ]
  ]

  if_IsFramed : (b : Bool) → IsFramed (if b then http_200_plain else http_503_plain)
  if_IsFramed true = IsFramed-200
  if_IsFramed false = IsFramed-503

  route-IsFramed : (path : Text) (s : S) → IsFramed (route ports path s).1
  unfolding route handle_healthz handle_ready
  route-IsFramed path s = elim (Bool-cases (text_eq path (codes "/metrics"))) [
    | inl a ↦ rw a (handle_metrics-IsFramed s)
    | inr a ↦ elim (Bool-cases (text_eq path (codes "/healthz"))) [
      | inl b ↦ rw (a, b) (if_IsFramed (ports.is_healthy s))
      | inr b ↦ elim (Bool-cases (text_eq path (codes "/ready"))) [
        | inl c ↦ rw (a, b, c) (if_IsFramed (ports.is_ready s))
        | inr c ↦ rw (a, b, c) IsFramed-404
      ]
    ]
  ]

  respond-IsFramed :
      (from_utf8 : Bytes → Option Text) (h : HeaderLoop) (s : S)
      → IsFramedOption (respond ports from_utf8 h s).1
  respond-IsFramed from_utf8 (headers buf) s = route-IsFramed (parse_path from_utf8 buf) s
  respond-IsFramed from_utf8 discarded s = tt
  respond-IsFramed from_utf8 reading s = tt

  -- Every response, on every route and whatever the ports answer, has a `Content-Length` that is the
  -- number of bytes of its body.
  pub handle_conn-IsFramed :
      (from_utf8 : Bytes → Option Text) (script : List Read) (s : S)
      → IsFramedOption (handle_conn ports from_utf8 script s).1
  unfolding handle_conn
  handle_conn-IsFramed from_utf8 script s = respond-IsFramed from_utf8 (read_headers script []) s
