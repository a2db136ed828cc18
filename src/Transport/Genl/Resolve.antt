-- ===== src/Transport/Genl/Resolve.antt =====
-- The request and the reply of family resolution, as attributes.
use netlink_exporter.Base.{
  ℕ, ◌^◌, ◌<◌, List, [], ◌∷◌, ◌++◌, some, ◌≡◌, ◌≢◌, refl, ap, ◌∙◌, arith, length, All, map,
  append_assoc, drop, length-append, All-append, map-append, ltb-false,
}
use netlink_exporter.Transport.{ok}
use netlink_exporter.Transport.Genl.{family_request, family_reply, find_family_id}
use netlink_exporter.Wire.{Bytes, IsBytes, Nla, mask_type, parse_attrs}
use netlink_exporter.Wire.Scalars.{read-to_bytes}
use netlink_exporter.Wire.Build.{push_nla, to_ne_bytes}
use netlink_exporter.Wire.RoundTrip.{Fits, masked, push_all, parse_attrs-push_nla}

-- The request for a name of fewer than 65000 bytes carries exactly one attribute, the name and its
-- terminating zero.
pub parse_attrs-family_request :
    (name : Bytes)
    → IsBytes name
    → length name < 65000
    → parse_attrs (drop 4 (family_request name)) ≡ record { ty = 2; payload = name ++ 0 ∷ [] } ∷ []
unfolding family_request push_nla
parse_attrs-family_request name h fits =
    let l : List Nla = record { ty = 2; payload = name ++ 0 ∷ [] } ∷ [] in
    rw (length-append name (0 ∷ []), append_assoc name (0 ∷ [])) refl
    ∙ parse_attrs-push_nla l (
      (record {
        ty_fits = omega arith;
        len_fits = omega (arith, length-append name (0 ∷ []));
        are_bytes = All-append _ name _ h (omega arith);
      }),
      tt,
    )

find_family_id-skip :
    (before : List Nla) (id : Nla) (after : List Nla)
    → All (λ a. a.ty ≢ 1) before
    → find_family_id (before ++ id ∷ after) ≡ find_family_id (id ∷ after)
unfolding find_family_id
find_family_id-skip [] id after h = refl
find_family_id-skip (a ∷ before) id after (ne, h) =
    ground (arith, ne, find_family_id-skip before id after h)

All-masked : (l : List Nla) → All (λ a. mask_type a.ty ≢ 1) l → All (λ a. a.ty ≢ 1) (map masked l)
All-masked [] h = tt
All-masked (a ∷ l) (ne, h) = (ne, All-masked l h)

-- A reply of a four-byte header and attributes that fit their length fields resolves to the identifier
-- of sixteen bits that its first `CTRL_ATTR_FAMILY_ID` holds, whatever attributes of other types stand
-- before it and whatever attributes after it.
pub family_reply-id :
    (h0 h1 h2 h3 v : ℕ) (more : Bytes) (before after : List Nla)
    → v < 2 ^ 16
    → let id : Nla = record { ty = 1; payload = to_ne_bytes 2 v ++ more } in
      All Fits (before ++ id ∷ after)
      → All (λ a. mask_type a.ty ≢ 1) before
      → family_reply (ok (some (h0 ∷ h1 ∷ h2 ∷ h3 ∷ push_all [] (before ++ id ∷ after))))
        ≡ ok (some v)
unfolding family_reply
family_reply-id h0 h1 h2 h3 v more before after hv fits others =
    let id : Nla = record { ty = 1; payload = to_ne_bytes 2 v ++ more } in
    let attrs : List Nla = before ++ id ∷ after in
    rw (ltb-false (length (h0 ∷ h1 ∷ h2 ∷ h3 ∷ push_all [] attrs)) 4 (omega arith)) (
      ap find_family_id (parse_attrs-push_nla attrs fits ∙ map-append masked before (id ∷ after))
      ∙ find_family_id-skip (map masked before) (masked id) (map masked after)
          (All-masked before others)
      ∙ rw (find_family_id, ((read-to_bytes v more).0 hv).0))
