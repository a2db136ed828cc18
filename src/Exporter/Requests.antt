-- ===== src/Exporter/Requests.antt =====
-- A request to the exporter of crates/netlink_exporter/src/main.rs, from its bytes to the response.
use netlink_exporter.Base.{
  ℕ, ◌≤◌, ◌≡◌, ◌≢◌, refl, ap, ◌∙◌, true, false, List, [], ◌∷◌, ◌++◌, map, Option, some, length, All,
}
use netlink_exporter.Base.Text.{Text, codes}
use netlink_exporter.Exporter.{Exporter, run_scrape, exporter_ports}
use netlink_exporter.Http.{
  Read, chunk, has_sentinel, request_header_cap, metrics_response, handle_metrics, route,
  handle_conn, respond,
}
use netlink_exporter.Http.Headers.{bytes_of, read_headers-segments}
use netlink_exporter.Http.Paths.{IsToken, parse_path-request_line}
use netlink_exporter.Registry.{Float, encode_samples, update_samples}
use netlink_exporter.Scrape.{Collector, scrape}
use netlink_exporter.Wire.{Bytes}

metrics_IsToken : IsToken (codes "/metrics")
metrics_IsToken =
    let p : (false ≡ false) × ((false ≡ false) × (false ≡ false)) = (refl, (refl, refl)) in
    (p, (p, (p, (p, (p, (p, (p, (p, tt))))))))

module _ {F64 : Type 0} (zero_f64 one_f64 : F64) (version : Text) (float : Float F64)
    (utf8 : Text → Bytes) (collectors : ℕ → List (Collector F64)) where
  -- The body that the registry holds after a scrape is the encoding of the samples of that scrape.
  run_scrape-encoded :
      (e : Exporter)
      → (run_scrape zero_f64 one_f64 version float utf8 collectors e).0.encoded
        ≡ encode_samples float (run_scrape zero_f64 one_f64 version float utf8 collectors e).1
  unfolding run_scrape scrape update_samples
  run_scrape-encoded e = refl

  -- A request line for `/metrics`, in UTF-8, with a method that holds no space or line end, of at
  -- most 8192 bytes whose headers end with its last byte and not before, however it is cut into
  -- non-empty reads, is answered with the encoding of the samples of one scrape, and the exporter has
  -- then done that scrape.
  pub handle_conn-metrics :
      (from_utf8 : Bytes → Option Text) (c : Bytes) (cs : List Bytes) (rest : List Read) (s : Bytes)
      (x : ℕ) (method version_text : Text) (e : Exporter)
      → All (λ c. c ≢ []) (c ∷ cs)
      → bytes_of (c ∷ cs) ≡ s ++ x ∷ []
      → has_sentinel s ≡ false
      → has_sentinel (s ++ x ∷ []) ≡ true
      → length (s ++ x ∷ []) ≤ request_header_cap
      → IsToken method
      → from_utf8 (s ++ x ∷ []) ≡ some (method ++ 32 ∷ (codes "/metrics" ++ 32 ∷ version_text))
      → let after = run_scrape zero_f64 one_f64 version float utf8 collectors e in
        let ports = exporter_ports zero_f64 one_f64 version float utf8 collectors in
        handle_conn ports from_utf8 (map chunk (c ∷ cs) ++ rest) e
        ≡ (after.0, some (metrics_response (utf8 (encode_samples float after.1))))
  unfolding handle_conn route handle_metrics exporter_ports
  handle_conn-metrics from_utf8 c cs rest s x method version_text e all whole before found cap hm
        decoded =
      let path =
        parse_path-request_line from_utf8 (s ++ x ∷ []) method (codes "/metrics") version_text hm
          metrics_IsToken decoded in
      ap
        (λ h. respond (exporter_ports zero_f64 one_f64 version float utf8 collectors) from_utf8 h e)
        (read_headers-segments c cs rest s x all whole before found cap)
      ∙ ap (λ (p : Text). respond_path p) path
      ∙ ap
          (λ (t : Text). (
            (run_scrape zero_f64 one_f64 version float utf8 collectors e).0,
            some (metrics_response (utf8 t)),
          ))
          (run_scrape-encoded e)
    where
      respond_path : Text → Exporter × Option Bytes
      respond_path p =
          let r = route (exporter_ports zero_f64 one_f64 version float utf8 collectors) p e in
          (r.0, some r.1)
