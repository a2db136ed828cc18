-- ===== src/Wire/Names.antt =====
-- Names in attributes, which end at the first zero byte.
use netlink_exporter.Base.{[], ◌∷◌, ◌++◌, ◌≡◌, ◌≢◌, refl, All, ◌==◌, if◌then◌else◌, arith}
use netlink_exporter.Wire.{Bytes}

-- The bytes up to the first zero.
abbrev pub before_nul : Bytes → Bytes
before_nul [] = []
before_nul (b ∷ bytes) = if b == 0 then [] else b ∷ before_nul bytes

-- The bytes less one zero at the end.
abbrev pub strip_nul : Bytes → Bytes
strip_nul [] = []
strip_nul (b ∷ []) = if b == 0 then [] else b ∷ []
strip_nul (b ∷ (c ∷ rest)) = b ∷ strip_nul (c ∷ rest)

-- A name that is followed by a zero byte is read whole.
pub before_nul-append :
    (name rest : Bytes) → All (λ b. b ≢ 0) name → before_nul (name ++ 0 ∷ rest) ≡ name
before_nul-append [] rest h = refl
before_nul-append (b ∷ name) rest (h, hs) = ground (arith, before_nul-append name rest hs)
