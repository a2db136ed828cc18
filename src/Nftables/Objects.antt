-- ===== src/Nftables/Objects.antt =====
-- `parse_counter`, `parse_quota` and `parse_limit` of crates/nlx-netlink/src/collectors/nftables.rs:
-- three loops that differ in what they read of an object's data.
use mathlib.Core.List.{foldl}
use mathlib.Core.Option
use netlink_exporter.Base.{
  ℕ, ◌/◌, ◌%◌, Bool, ◌||◌, not, [], Option, none, some, ltb, ◌==◌, if◌then◌else◌, length, is_empty,
  drop,
}
use netlink_exporter.Base.Text.{Text, codes}
use netlink_exporter.Nftables.{cstr_to_string, nfgenmsg_len, first_u32_be}
use netlink_exporter.Wire.{Bytes, Nla, parse_attrs, nested_attrs, read_u32_be, read_u64_be}

pub record NftCounter : Type 0 where
  pub table : Text
  pub name : Text
  pub bytes : ℕ
  pub packets : ℕ

pub record NftQuota : Type 0 where
  pub table : Text
  pub name : Text
  pub bytes_ceiling : ℕ
  pub bytes_consumed : ℕ
  pub depleted : Bool

pub record NftLimit : Type 0 where
  pub table : Text
  pub name : Text
  pub rate : ℕ
  pub unit_secs : ℕ
  pub burst : ℕ
  pub limit_type : Text

-- The variables of the three loops; `object_data` is what one of them reads of the data.
pub record Object (D : Type 0) : Type 0 where
  pub table : Text
  pub name : Text
  pub obj_type : ℕ
  pub object_data : D

pub record QuotaData : Type 0 where
  pub ceiling : ℕ
  pub consumed : ℕ
  pub quota_flags : ℕ

pub record LimitData : Type 0 where
  pub limit_rate : ℕ
  pub limit_unit : ℕ
  pub limit_burst : ℕ
  pub limit_type_raw : ℕ

unfoldable pub limit_type_label : ℕ → Text
limit_type_label limit_type =
    if limit_type == 0
    then codes "pkts"
    else if limit_type == 1
    then codes "bytes"
    else codes "other"

-- `NFTA_OBJ_TYPE` is 3.
unfoldable pub parse_obj_type : Bytes → Option ℕ
unfolding first_u32_be
parse_obj_type frame =
    if ltb (length frame) nfgenmsg_len
    then none
    else first_u32_be 3 (parse_attrs (drop nfgenmsg_len frame))

-- The matches on one attribute of the data.
unfoldable pub counter_attr : ℕ × ℕ → Nla → ℕ × ℕ
counter_attr (bytes, packets) a =
    if a.ty == 1
    then (Option.get_or (read_u64_be a.payload) 0, packets)
    else if a.ty == 2
    then (bytes, Option.get_or (read_u64_be a.payload) 0)
    else (bytes, packets)

unfoldable pub quota_attr : QuotaData → Nla → QuotaData
quota_attr q a =
    if a.ty == 1
    then record q { ceiling = Option.get_or (read_u64_be a.payload) 0 }
    else if a.ty == 2
    then record q { quota_flags = Option.get_or (read_u32_be a.payload) 0 }
    else if a.ty == 4
    then record q { consumed = Option.get_or (read_u64_be a.payload) 0 }
    else q

unfoldable pub limit_attr : LimitData → Nla → LimitData
limit_attr l a =
    if a.ty == 1
    then record l { limit_rate = Option.get_or (read_u64_be a.payload) 0 }
    else if a.ty == 2
    then record l { limit_unit = Option.get_or (read_u64_be a.payload) 1 }
    else if a.ty == 3
    then record l { limit_burst = Option.get_or (read_u32_be a.payload) 0 }
    else if a.ty == 4
    then record l { limit_type_raw = Option.get_or (read_u32_be a.payload) 0 }
    else l

module _ (lossy : Bytes → Text) where
  module _ {D : Type 0} (data_attr : D → Nla → D) where
    -- The match on one attribute of an object: 1 is the table, 2 the name, 3 the type, 4 the data.
    unfoldable pub object_attr : Object D → Nla → Object D
    object_attr o a =
        if a.ty == 1
        then record o { table = cstr_to_string lossy a.payload }
        else if a.ty == 2
        then record o { name = cstr_to_string lossy a.payload }
        else if a.ty == 3
        then record o { obj_type = Option.get_or (read_u32_be a.payload) 0 }
        else if a.ty == 4
        then record o { object_data = foldl data_attr o.object_data (nested_attrs a.payload) }
        else o

    -- The object in a frame, if it is of the type `wanted` and has a name.
    unfoldable pub parse_object : ℕ → D → Bytes → Option (Object D)
    unfolding object_attr
    parse_object wanted start frame =
        if ltb (length frame) nfgenmsg_len
        then none
        else let o : Object D =
            foldl object_attr (record { table = []; name = []; obj_type = 0; object_data = start })
              (parse_attrs (drop nfgenmsg_len frame)) in
          if not (o.obj_type == wanted) || is_empty o.name then none else some o

  unfoldable pub parse_counter : Bytes → Option NftCounter
  unfolding parse_object counter_attr
  parse_counter frame =
      Option.map
        (λ o. record {
          table = o.table;
          name = o.name;
          bytes = o.object_data.0;
          packets = o.object_data.1;
        })
        (parse_object counter_attr 1 (0, 0) frame)

  -- `NFT_QUOTA_F_DEPLETED` is 2.
  unfoldable pub parse_quota : Bytes → Option NftQuota
  unfolding parse_object quota_attr
  parse_quota frame =
      Option.map
        (λ o. record {
          table = o.table;
          name = o.name;
          bytes_ceiling = o.object_data.ceiling;
          bytes_consumed = o.object_data.consumed;
          depleted = o.object_data.quota_flags / 2 % 2 == 1;
        })
        (parse_object quota_attr 2 (record { ceiling = 0; consumed = 0; quota_flags = 0 }) frame)

  unfoldable pub parse_limit : Bytes → Option NftLimit
  unfolding parse_object limit_attr limit_type_label
  parse_limit frame =
      Option.map
        (λ o. record {
          table = o.table;
          name = o.name;
          rate = o.object_data.limit_rate;
          unit_secs = o.object_data.limit_unit;
          burst = o.object_data.limit_burst;
          limit_type = limit_type_label o.object_data.limit_type_raw;
        })
        (parse_object limit_attr 4
          (record { limit_rate = 0; limit_unit = 1; limit_burst = 0; limit_type_raw = 0 }) frame)
