-- ===== src/Tests/Wire.antt =====
-- Inputs for the theorems about crates/nlx-netlink/src/wire.rs.
use netlink_exporter.Base.{◌+◌, ◌^◌, ◌≡◌, refl, List, [], ◌∷◌, map, none, some, arith}
use netlink_exporter.Wire.{Bytes, IsBytes, Nla, parse_attrs, next}
use netlink_exporter.Wire.Attrs.{Cuts, next-Cuts, parse_attrs-next}
use netlink_exporter.Wire.RoundTrip.{masked, push_all, parse_attrs-push_nla}

-- Two attributes, the first with the nested flag and padding.
abbrev two_attrs : List Nla
two_attrs =
    record { ty = 2 ^ 15 + 7; payload = 1 ∷ 2 ∷ 3 ∷ [] } ∷ record { ty = 4; payload = [] } ∷ []

parse_attrs-push_nla_example : parse_attrs (push_all [] two_attrs) ≡ map masked two_attrs
parse_attrs-push_nla_example = parse_attrs-push_nla two_attrs (
  record {
    ty_fits = omega arith;
    len_fits = omega arith;
    are_bytes = (omega arith, (omega arith, (omega arith, tt)));
  },
  (record { ty_fits = omega arith; len_fits = omega arith; are_bytes = tt }, tt),
)

-- One attribute of a byte, its padding, and a byte too many.
abbrev one_attr : Bytes
one_attr = 5 ∷ 0 ∷ 3 ∷ 0 ∷ 9 ∷ 0 ∷ 0 ∷ 0 ∷ 8 ∷ []

abbrev one_attr_bytes : IsBytes one_attr
one_attr_bytes = (
  omega arith,
  (
    omega arith,
    (
      omega arith,
      (omega arith, (omega arith, (omega arith, (omega arith, (omega arith, (omega arith, tt)))))),
    ),
  ),
)

parse_attrs-next_example :
    parse_attrs one_attr
    ≡ (elim (next one_attr) [ none ↦ [] | some (a, rest) ↦ a ∷ parse_attrs rest ])
parse_attrs-next_example = parse_attrs-next one_attr one_attr_bytes

next-one_attr : next one_attr ≡ some (record { ty = 3; payload = 9 ∷ [] }, 8 ∷ [])
unfolding next
next-one_attr = refl

next-Cuts_example : Cuts one_attr (record { ty = 3; payload = 9 ∷ [] }) (8 ∷ [])
next-Cuts_example = next-Cuts one_attr one_attr_bytes next-one_attr
