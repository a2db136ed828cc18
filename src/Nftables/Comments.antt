-- ===== src/Nftables/Comments.antt =====
-- The comment that `extract_rule_comment` of crates/nlx-netlink/src/collectors/nftables.rs finds.
use netlink_exporter.Base.{
  ℕ, ◌&&◌, List, [], ◌∷◌, ◌++◌, Option, none, some, ltb, ◌==◌, if◌then◌else◌, length, is_empty,
}
use netlink_exporter.Base.Text.{Text}
use netlink_exporter.Wire.{Bytes}
use netlink_exporter.Wire.Names.{strip_nul}

-- Records of the user data, and their bytes.
abbrev pub encode_records : List (ℕ × Bytes) → Bytes
encode_records [] = []
encode_records ((ty, payload) ∷ records) = ty ∷ length payload ∷ (payload ++ encode_records records)

module _ (lossy : Bytes → Text) where
  -- The first record of type 0 whose text is not empty.
  abbrev pub first_comment : List (ℕ × Bytes) → Option Text
  first_comment [] = none
  first_comment ((ty, payload) ∷ records) =
      let later = first_comment records in
      let comment = lossy (strip_nul payload) in
      if (ty == 0) && ltb 0 (length payload)
      then (if is_empty comment then later else some comment)
      else later
