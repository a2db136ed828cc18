-- ===== src/Http/Paths.antt =====
-- `parse_path` of crates/nlx-http/src/server.rs.
use netlink_exporter.Base.{
  ℕ, ◌≡◌, refl, ap, ◌∙◌, false, List, [], ◌∷◌, ◌++◌, Option, some, ◌==◌, All, arith,
}
use mathlib.Core.Option
use netlink_exporter.Base.Text.{Text}
use netlink_exporter.Http.{first_line, next_part, second_part, parse_path}

-- No carriage return, newline or space: a method or a path of a request line.
abbrev pub IsToken : Text → Type 0
IsToken = All (λ c. ((c == 10) ≡ false) × (((c == 13) ≡ false) × ((c == 32) ≡ false)))

first_line-append : (s t : Text) → IsToken s → first_line (s ++ t) ≡ s ++ first_line t
unfolding first_line
first_line-append [] t h = refl
first_line-append (c ∷ s) t ((a, (b, d)), h) = ground (arith, first_line-append s t h)

next_part-append : (s t : Text) → IsToken s → next_part (s ++ 32 ∷ t) ≡ (s, some t)
unfolding next_part
next_part-append [] t h = refl
next_part-append (c ∷ s) t ((b, (d, a)), h) = rw (a, next_part-append s t h) refl

-- A request line with a method and a path that hold no space, carriage return or newline, in a buffer
-- that is valid UTF-8, has that path, whatever follows the space behind it.
pub parse_path-request_line :
    (from_utf8 : List ℕ → Option Text) (buf : List ℕ) (method path rest : Text)
    → IsToken method
    → IsToken path
    → from_utf8 buf ≡ some (method ++ 32 ∷ (path ++ 32 ∷ rest))
    → parse_path from_utf8 buf ≡ path
unfolding parse_path second_part first_line
parse_path-request_line from_utf8 buf method path rest hm hp e =
    ap (λ (o : Option Text). second_part (next_part (first_line (Option.get_or o []))).1) e
    ∙ ap (λ (l : Text). second_part (next_part l).1)
        (first_line-append method (32 ∷ (path ++ 32 ∷ rest)) hm
          ∙ ap (λ (l : Text). method ++ 32 ∷ l) (first_line-append path (32 ∷ rest) hp))
    ∙ ap (λ (r : Text × Option Text). second_part r.1)
        (next_part-append method (path ++ 32 ∷ first_line rest) hm)
    ∙ ap (λ (r : Text × Option Text). r.0) (next_part-append path (first_line rest) hp)
