-- ===== src/Http/Backoff.antt =====
-- The backoff of the accept loop of crates/nlx-http/src/server.rs.
use native.Mathlib.Omega.{pow_step}
use netlink_exporter.Base.{
  ℕ, zero, suc, ◌*◌, ◌^◌, ◌≡◌, refl, ap, ◌∙◌, List, [], ◌∷◌, ◌++◌, min, replicate, arith,
}
use netlink_exporter.Http.{
  Accept, accepted, accept_error, ServeEvent, spawns, sleeps, serve_loop, accept_backoff_initial_ms,
}

-- The waits for `n` failures in a row, the first of them the `k`-th after the last accept.
abbrev pub waits : ℕ → ℕ → List ServeEvent
waits k zero = []
waits k (suc n) = sleeps (min (10 * 2 ^ k) 1000) ∷ waits (suc k) n

serve_loop-waits :
    (k n : ℕ) (rest : List Accept)
    → serve_loop (min (10 * 2 ^ k) 1000) (replicate n accept_error ++ accepted ∷ rest)
      ≡ waits k n ++ spawns ∷ serve_loop 10 rest
unfolding serve_loop
serve_loop-waits k zero rest = refl
serve_loop-waits k (suc n) rest =
    let double : min (min (10 * 2 ^ k) 1000 * 2) 1000 ≡ min (10 * 2 ^ suc k) 1000 =
      omega (arith, pow_step 2 k) in
    ap (◌∷◌ (sleeps (min (10 * 2 ^ k) 1000))) (
      ap (λ (b : ℕ). serve_loop b (replicate n accept_error ++ accepted ∷ rest)) double
      ∙ serve_loop-waits (suc k) n rest)

-- After an accept, the k-th failure in a row (from 0) is followed by a wait of
-- min(10 * 2 ^ k, 1000) ms, and the next accept spawns a handler and starts the waits from 10 ms again.
pub serve_loop-backoff :
    (n : ℕ) (rest : List Accept)
    → serve_loop accept_backoff_initial_ms (replicate n accept_error ++ accepted ∷ rest)
      ≡ waits 0 n ++ spawns ∷ serve_loop accept_backoff_initial_ms rest
serve_loop-backoff n rest = serve_loop-waits 0 n rest
