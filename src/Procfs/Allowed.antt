-- ===== src/Procfs/Allowed.antt =====
-- Which paths the guard of crates/nlx-procfs/src/lib.rs lets through.
use netlink_exporter.Base.{
  ℕ, ◌≡◌, refl, ap, ◌⊎◌, inl, inr, Bool, true, false, Bool-cases, List, [], ◌∷◌, ◌++◌, Option, none,
  some, ==_iff, if◌then◌else◌, arith,
}
use mathlib.Core.Path.{subst}
use netlink_exporter.Base.Order.{text_eq, text_eq_iff}
use netlink_exporter.Base.Text.{Text}
use netlink_exporter.Procfs.{
  allowed_prefixes, contains_dots, strip_prefix, any_below, path_allowed, ReadResult, safe_read,
  starts_slash,
}

-- A path is a root of the list, or a root, a slash and more.
abbrev pub IsBelow : Text → List Text → Type 0
IsBelow path [] = ⊥
IsBelow path (root ∷ roots) =
    ((path ≡ root) ⊎ ((rest : Text) × (path ≡ root ++ b'/' ∷ rest))) ⊎ IsBelow path roots

strip_prefix-some :
    (root path rest : Text) → strip_prefix root path ≡ some rest → path ≡ root ++ rest
strip_prefix-some [] path rest e = cc e
strip_prefix-some (c ∷ root) [] rest e = cc
strip_prefix-some (c ∷ root) (d ∷ path) rest e = ground (arith, strip_prefix-some root path rest)

strip_prefix-slash :
    (root path : Text)
    → starts_slash (strip_prefix root path) ≡ true
    → (rest : Text) × (path ≡ root ++ b'/' ∷ rest)
strip_prefix-slash root path h =
    let (rest, e) = slash_cases (strip_prefix root path) h in
    (rest, strip_prefix-some root path (b'/' ∷ rest) e)
  where
    slash_cases :
        (o : Option Text) → starts_slash o ≡ true → (rest : Text) × (o ≡ some (b'/' ∷ rest))
    slash_cases none e = cc
    slash_cases (some []) e = cc
    slash_cases (some (c ∷ s)) e = (s, ap (λ (d : ℕ). some (d ∷ s)) ((==_iff c b'/').0 e))

any_below-IsBelow :
    (path : Text) (roots : List Text) → any_below path roots ≡ true → IsBelow path roots
any_below-IsBelow path [] e = cc
any_below-IsBelow path (root ∷ roots) e = elim (Bool-cases (text_eq path root)) [
  | inl same ↦ inl (inl ((text_eq_iff path root).0 same))
  | inr other ↦ elim (Bool-cases (starts_slash (strip_prefix root path))) [
    | inl slash ↦ inl (inr (strip_prefix-slash root path slash))
    | inr none_here ↦ inr (any_below-IsBelow path roots (cc (e, other, none_here)))
  ]
]

-- The guard lets a path through only if it has no `..` and is one of the six roots or lies below one,
-- past a slash: `/sys/class/network` is not below `/sys/class/net`.
pub path_allowed-IsBelow :
    (path : Text)
    → path_allowed path ≡ true
    → (contains_dots path ≡ false) × IsBelow path allowed_prefixes
unfolding path_allowed
path_allowed-IsBelow path h = elim (Bool-cases (contains_dots path)) [
  | inl dots ↦ absurd (
      no_true (
        subst (λ (b : Bool). (if b then false else any_below path allowed_prefixes) ≡ true) dots h))
  | inr clean ↦ (
    clean,
    any_below-IsBelow path allowed_prefixes (
        subst (λ (b : Bool). (if b then false else any_below path allowed_prefixes) ≡ true) clean
          h),
  )
]
  where
    no_true : false ≡ true → ⊥
    no_true e = cc

-- Nothing outside the roots is read: what `safe_read` gives for a path that is not allowed does not
-- depend on the file system.
pub safe_read-denied :
    {A : Type 0} (read other : Text → ReadResult A) (path : Text)
    → path_allowed path ≡ false
    → safe_read read path ≡ safe_read other path
unfolding safe_read
safe_read-denied read other path h = rw (h, safe_read) refl
