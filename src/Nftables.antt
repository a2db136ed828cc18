-- ===== src/Nftables.antt =====
-- crates/nlx-netlink/src/collectors/nftables.rs: the labels, and the parsers of tables, chains, sets,
-- generations and flow tables. `lossy` is `String::from_utf8_lossy`; an `i32` is its bit pattern.
pub mod Rules
pub mod Comments
pub mod Objects
pub mod Metrics
pub mod Series
pub mod Collect
use mathlib.Core.List.{foldl}
use mathlib.Core.Option
use netlink_exporter.Base.{
  ℕ, ◌+◌, ◌*◌, ◌%◌, Bool, true, false, ◌||◌, List, [], ◌∷◌, Option, none, some, ltb, ◌==◌,
  if◌then◌else◌, length, is_empty, drop, get_or,
}
use netlink_exporter.Base.Text.{Text, codes}
use netlink_exporter.Wire.{Bytes, Nla, parse_attrs, nested_attrs, read_u32_be}
use netlink_exporter.Wire.Names.{strip_nul}

abbrev pub nfgenmsg_len : ℕ
nfgenmsg_len = 4

unfoldable pub family_label : ℕ → Text
family_label family =
    if family == 0
    then codes "unspec"
    else if family == 1
    then codes "inet"
    else if family == 2
    then codes "ip"
    else if family == 3
    then codes "arp"
    else if family == 5
    then codes "netdev"
    else if family == 7
    then codes "bridge"
    else if family == 10
    then codes "ip6"
    else codes "other"

unfoldable pub hook_label : ℕ → Text
hook_label hooknum =
    if hooknum == 0
    then codes "prerouting"
    else if hooknum == 1
    then codes "input"
    else if hooknum == 2
    then codes "forward"
    else if hooknum == 3
    then codes "output"
    else if hooknum == 4
    then codes "postrouting"
    else if hooknum == 5
    then codes "ingress"
    else if hooknum == 6
    then codes "egress"
    else codes "other"

unfoldable pub policy_label : ℕ → Text
policy_label policy =
    if policy == 0 then codes "drop" else if policy == 1 then codes "accept" else codes "other"

unfoldable pub key_type_label : ℕ → Text
key_type_label key_type =
    if key_type == 0xc
    then codes "ipv4_addr"
    else if key_type == 0xd
    then codes "ipv6_addr"
    else if key_type == 0xb
    then codes "inet_service"
    else if key_type == 5
    then codes "ether_addr"
    else if key_type == 9
    then codes "mark"
    else codes "other"

abbrev pub nfgenmsg : ℕ → Bytes
nfgenmsg family = family ∷ 0 ∷ 0 ∷ 0 ∷ []

pub record NftTable : Type 0 where
  pub name : Text
  pub family : Text

pub record NftChain : Type 0 where
  pub table : Text
  pub chain : Text
  pub chain_type : Text
  pub hook : Text
  pub priority : ℕ
  pub policy : Text

pub record NftSet : Type 0 where
  pub table : Text
  pub name : Text
  pub key_type : Text
  pub element_count : ℕ

pub record NftFlowtable : Type 0 where
  pub table : Text
  pub name : Text
  pub hook : Text
  pub priority : ℕ
  pub hw_offload : Bool

-- The variables of the loops in `parse_set_frame` and `parse_flowtable_frame`.
pub record SetState : Type 0 where
  pub table : Text
  pub name : Text
  pub set_flags : ℕ
  pub key_type_raw : ℕ
  pub element_count : ℕ

pub record FlowtableState : Type 0 where
  pub table : Text
  pub name : Text
  pub hook : Text
  pub priority : ℕ
  pub ft_flags : ℕ

-- The match on one attribute of a hook: 1 is its number, 2 its priority.
unfoldable pub hook_attr : Text × ℕ → Nla → Text × ℕ
unfolding hook_label
hook_attr (hook, priority) a =
    if a.ty == 1
    then (Option.get_or (Option.map hook_label (read_u32_be a.payload)) hook, priority)
    else if a.ty == 2
    then (hook, Option.get_or (read_u32_be a.payload) priority)
    else (hook, priority)

-- The first attribute of a type, read as a big-endian `u32`.
unfoldable pub first_u32_be : ℕ → List Nla → Option ℕ
first_u32_be ty [] = none
first_u32_be ty (a ∷ attrs) =
    let rest = first_u32_be ty attrs in if a.ty == ty then read_u32_be a.payload else rest

-- `NFTA_GEN_ID` is 1.
unfoldable pub parse_gen_frame : Bytes → Option ℕ
unfolding first_u32_be
parse_gen_frame frame =
    if ltb (length frame) nfgenmsg_len
    then none
    else first_u32_be 1 (parse_attrs (drop nfgenmsg_len frame))

-- `NFTA_SET_DESC_SIZE` is 1.
unfoldable pub desc_attr : ℕ → Nla → ℕ
desc_attr count a = if a.ty == 1 then Option.get_or (read_u32_be a.payload) 0 else count

module _ (lossy : Bytes → Text) where
  abbrev pub cstr_to_string : Bytes → Text
  cstr_to_string payload = lossy (strip_nul payload)

  unfoldable pub table_attr : Text → Nla → Text
  table_attr name a = if a.ty == 1 then cstr_to_string a.payload else name

  unfoldable pub parse_table_frame : Bytes → Option NftTable
  unfolding table_attr family_label
  parse_table_frame frame =
      if ltb (length frame) nfgenmsg_len
      then none
      else let name = foldl table_attr [] (parse_attrs (drop nfgenmsg_len frame)) in
        if is_empty name
        then none
        else some (record { name = name; family = family_label (get_or frame 0 0) })

  -- The match on one attribute of a chain: 1 is the table, 3 the name, 7 the type, 5 the policy, 4 the
  -- hook.
  unfoldable pub chain_attr : NftChain → Nla → NftChain
  unfolding hook_attr policy_label
  chain_attr c a =
      if a.ty == 1
      then record c { table = cstr_to_string a.payload }
      else if a.ty == 3
      then record c { chain = cstr_to_string a.payload }
      else if a.ty == 7
      then record c { chain_type = cstr_to_string a.payload }
      else if a.ty == 5
      then record c {
        policy = Option.get_or (Option.map policy_label (read_u32_be a.payload)) c.policy;
      }
      else if a.ty == 4
      then (let (hook, priority) = foldl hook_attr (c.hook, c.priority) (nested_attrs a.payload) in
          record c { hook = hook; priority = priority })
      else c

  abbrev no_chain : NftChain
  no_chain = record {
    table = [];
    chain = [];
    chain_type = [];
    hook = [];
    priority = 0;
    policy = [];
  }

  unfoldable pub parse_chain_frame : Bytes → Option NftChain
  unfolding chain_attr
  parse_chain_frame frame =
      if ltb (length frame) nfgenmsg_len
      then none
      else let c = foldl chain_attr no_chain (parse_attrs (drop nfgenmsg_len frame)) in
        if is_empty c.chain then none else some c

  -- The match on one attribute of a set: 1 is the table, 2 the name, 3 the flags, 4 the key's type, 20
  -- the number of elements, 9 the description.
  unfoldable pub set_attr : SetState → Nla → SetState
  unfolding desc_attr
  set_attr s a =
      if a.ty == 1
      then record s { table = cstr_to_string a.payload }
      else if a.ty == 2
      then record s { name = cstr_to_string a.payload }
      else if a.ty == 3
      then record s { set_flags = Option.get_or (read_u32_be a.payload) 0 }
      else if a.ty == 4
      then record s { key_type_raw = Option.get_or (read_u32_be a.payload) 0 }
      else if a.ty == 20
      then record s { element_count = Option.get_or (read_u32_be a.payload) 0 }
      else if a.ty == 9
      then (if s.element_count == 0
          then record s { element_count = foldl desc_attr s.element_count (nested_attrs a.payload) }
          else s)
      else s

  -- `NFT_SET_ANONYMOUS` is the lowest bit of the flags.
  unfoldable pub parse_set_frame : Bytes → Option NftSet
  unfolding set_attr key_type_label
  parse_set_frame frame =
      if ltb (length frame) nfgenmsg_len
      then none
      else let s : SetState =
          foldl set_attr
            (record { table = []; name = []; set_flags = 0; key_type_raw = 0; element_count = 0 })
            (parse_attrs (drop nfgenmsg_len frame)) in
        if (s.set_flags % 2 == 1) || is_empty s.name
        then none
        else some (record {
          table = s.table;
          name = s.name;
          key_type = key_type_label s.key_type_raw;
          element_count = s.element_count;
        })

  -- The match on one attribute of a flow table: 1 is the table, 2 the name, 7 the flags, 3 the hook.
  unfoldable pub flowtable_attr : FlowtableState → Nla → FlowtableState
  unfolding hook_attr
  flowtable_attr f a =
      if a.ty == 1
      then record f { table = cstr_to_string a.payload }
      else if a.ty == 2
      then record f { name = cstr_to_string a.payload }
      else if a.ty == 7
      then record f { ft_flags = Option.get_or (read_u32_be a.payload) 0 }
      else if a.ty == 3
      then (let (hook, priority) = foldl hook_attr (f.hook, f.priority) (nested_attrs a.payload) in
          record f { hook = hook; priority = priority })
      else f

  unfoldable pub parse_flowtable_frame : Bytes → Option NftFlowtable
  unfolding flowtable_attr
  parse_flowtable_frame frame =
      if ltb (length frame) nfgenmsg_len
      then none
      else let f : FlowtableState =
          foldl flowtable_attr
            (record { table = []; name = []; hook = []; priority = 0; ft_flags = 0 })
            (parse_attrs (drop nfgenmsg_len frame)) in
        if is_empty f.name
        then none
        else some (record {
          table = f.table;
          name = f.name;
          hook = f.hook;
          priority = f.priority;
          hw_offload = f.ft_flags % 2 == 1;
        })
