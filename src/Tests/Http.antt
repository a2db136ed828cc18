-- ===== src/Tests/Http.antt =====
-- Inputs for the theorems about crates/nlx-http/src/server.rs and the exporter behind it.
use netlink_exporter.Base.{
  ℕ, ◌≡◌, ◌≢◌, refl, List, [], ◌∷◌, ◌++◌, map, replicate, Option, none, some, true, false, arith,
}
use netlink_exporter.Base.Text.{Text, codes}
use netlink_exporter.Exporter.{Exporter, start, run_scrape, exporter_ports}
use netlink_exporter.Exporter.Requests.{handle_conn-metrics}
use netlink_exporter.Http.{
  Ports, chunk, accepted, accept_error, spawns, headers, serve_loop, accept_backoff_initial_ms,
  read_headers, metrics_response, handle_conn,
}
use netlink_exporter.Http.Backoff.{waits, serve_loop-backoff}
use netlink_exporter.Http.Headers.{read_headers-segments}
use netlink_exporter.Http.Paths.{IsToken}
use netlink_exporter.Http.Routes.{IsFramedOption, handle_conn-IsFramed}
use netlink_exporter.Metric.{gauge_sample}
use netlink_exporter.Registry.{encode_samples}
use netlink_exporter.Scrape.{Collector, collected, in_time}
use netlink_exporter.Tests.Registry.{whole}
use netlink_exporter.Wire.{Bytes}

-- ASCII alone.
abbrev ascii : Bytes → Option Text
ascii s = some s

abbrev first_part : Bytes
first_part = codes "GET /metrics HT"

abbrev second_part : Bytes
second_part = codes "TP/1.1\r\n\r\n"

abbrev all_but_last : Bytes
all_but_last = codes "GET /metrics HTTP/1.1\r\n\r"

IsNonEmpty : (b : ℕ) (c : Bytes) → (b ∷ c) ≢ []
IsNonEmpty b c e = cc

read_headers-segments_example :
    read_headers (map chunk (first_part ∷ second_part ∷ []) ++ []) []
    ≡ headers (all_but_last ++ 10 ∷ [])
read_headers-segments_example =
    read_headers-segments first_part (second_part ∷ []) [] all_but_last 10
      (IsNonEmpty _ _, (IsNonEmpty _ _, tt)) refl refl refl (omega arith)

plain : (false ≡ false) × ((false ≡ false) × (false ≡ false))
plain = (refl, (refl, refl))

get_IsToken : IsToken (codes "GET")
get_IsToken = (plain, (plain, (plain, tt)))

ready_IsToken : IsToken (codes "/ready")
ready_IsToken = (plain, (plain, (plain, (plain, (plain, (plain, tt))))))

serve_loop-backoff_example :
    serve_loop accept_backoff_initial_ms (replicate 8 accept_error ++ accepted ∷ accept_error ∷ [])
    ≡ waits 0 8 ++ spawns ∷ serve_loop accept_backoff_initial_ms (accept_error ∷ [])
serve_loop-backoff_example = serve_loop-backoff 8 (accept_error ∷ [])

-- Ports whose scrapes succeed and whose registry does not.
abbrev no_body : Ports ℕ
no_body = record {
  scrape = λ n. (n, true);
  encode_text = λ n. none;
  is_healthy = λ n. true;
  is_ready = λ n. false;
}

handle_conn-IsFramed_example :
    IsFramedOption (handle_conn no_body ascii (chunk first_part ∷ chunk second_part ∷ []) 0).1
handle_conn-IsFramed_example =
    handle_conn-IsFramed no_body ascii (chunk first_part ∷ chunk second_part ∷ []) 0

abbrev collectors : ℕ → List (Collector ℕ)
collectors round =
    record {
      name = codes "one";
      run = in_time (collected (gauge_sample (codes "m") (codes "M.") [] round ∷ []));
      seconds = 1;
    }
    ∷ []

abbrev exporter : Exporter
exporter = start 0 1 (codes "1.0") whole (λ s. s) collectors ((codes "one", true) ∷ []) 50

handle_conn-metrics_example :
    handle_conn
      (exporter_ports 0 1 (codes "1.0") whole (λ s. s) collectors)
      ascii
      (map chunk (first_part ∷ second_part ∷ []) ++ [])
      exporter
    ≡ (
      (run_scrape 0 1 (codes "1.0") whole (λ s. s) collectors exporter).0,
      some (
          metrics_response (
            encode_samples whole
              (run_scrape 0 1 (codes "1.0") whole (λ s. s) collectors exporter).1)),
    )
handle_conn-metrics_example =
    handle_conn-metrics 0 1 (codes "1.0") whole (λ s. s) collectors ascii first_part
      (second_part ∷ []) [] all_but_last 10 (codes "GET") (codes "HTTP/1.1\r\n\r\n") exporter
      (IsNonEmpty _ _, (IsNonEmpty _ _, tt)) refl refl refl (omega arith) get_IsToken refl
