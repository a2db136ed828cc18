-- ===== src/Nftables/Rules.antt =====
-- `extract_rule_comment` and `parse_rule_frame` of crates/nlx-netlink/src/collectors/nftables.rs.
use mathlib.Core.List.{foldl}
use netlink_exporter.Base.{
  ℕ, zero, suc, ◌&&◌, List, [], ◌∷◌, Option, none, some, ltb, ◌==◌, if◌then◌else◌, length, is_empty,
  take, drop,
}
use netlink_exporter.Base.Order.{text_eq}
use netlink_exporter.Base.Text.{Text, codes}
use netlink_exporter.Nftables.{cstr_to_string, nfgenmsg_len}
use netlink_exporter.Wire.{Bytes, Nla, parse_attrs, nested_attrs, read_u64_be}
use netlink_exporter.Wire.Names.{strip_nul}

pub record NftRuleCounter : Type 0 where
  pub table : Text
  pub chain : Text
  pub comment : Text
  pub bytes : ℕ
  pub packets : ℕ

-- The variables of the loop over the attributes of a rule.
pub record RuleState : Type 0 where
  pub table : Text
  pub chain : Text
  pub comment : Option Text
  pub counter_bytes : Option ℕ
  pub counter_packets : Option ℕ

-- An expression of a rule.
pub record ExprState : Type 0 where
  pub expr_name : Text
  pub expr_bytes : Option ℕ
  pub expr_packets : Option ℕ

-- The match on one attribute of a counter: 1 is the bytes, 2 the packets.
unfoldable pub counter_expr_attr : ExprState → Nla → ExprState
counter_expr_attr e a =
    if a.ty == 1
    then record e { expr_bytes = read_u64_be a.payload }
    else if a.ty == 2
    then record e { expr_packets = read_u64_be a.payload }
    else e

module _ (lossy : Bytes → Text) where
  -- The loop over the records `type, length, data` of the user data, on fuel: `blob` is what is left
  -- from `pos` on. A record takes two bytes at least, so the length of the blob is enough.
  unfoldable pub comment_from : ℕ → Bytes → Option Text
  comment_from zero blob = none
  comment_from (suc fuel) [] = none
  comment_from (suc fuel) (ty ∷ []) = none
  comment_from (suc fuel) (ty ∷ (len ∷ rest)) =
      let later = comment_from fuel (drop len rest) in
      let comment = lossy (strip_nul (take len rest)) in
      if ltb (length rest) len
      then none
      else if (ty == 0) && ltb 0 len
      then (if is_empty comment then later else some comment)
      else later

  unfoldable pub extract_rule_comment : Bytes → Option Text
  unfolding comment_from
  extract_rule_comment blob = comment_from (length blob) blob

  -- The match on one attribute of an expression: 1 is the name, 2 the data.
  unfoldable pub expr_attr : ExprState → Nla → ExprState
  unfolding counter_expr_attr
  expr_attr e a =
      if a.ty == 1
      then record e { expr_name = cstr_to_string lossy a.payload }
      else if a.ty == 2
      then foldl counter_expr_attr e (nested_attrs a.payload)
      else e

  -- The loop over the expressions, up to the first counter. `NFTA_LIST_ELEM` is 1.
  unfoldable pub find_counter : List Nla → RuleState → RuleState
  unfolding expr_attr
  find_counter [] r = r
  find_counter (l ∷ rest) r =
      let later = find_counter rest r in
      let e : ExprState =
        foldl expr_attr (record { expr_name = []; expr_bytes = none; expr_packets = none })
          (nested_attrs l.payload) in
      if l.ty == 1
      then (if text_eq e.expr_name (codes "counter")
          then record r { counter_bytes = e.expr_bytes; counter_packets = e.expr_packets }
          else later)
      else later

  -- The match on one attribute of a rule: 1 is the table, 2 the chain, 7 the user data, 4 the
  -- expressions.
  unfoldable pub rule_attr : RuleState → Nla → RuleState
  unfolding extract_rule_comment find_counter
  rule_attr r a =
      if a.ty == 1
      then record r { table = cstr_to_string lossy a.payload }
      else if a.ty == 2
      then record r { chain = cstr_to_string lossy a.payload }
      else if a.ty == 7
      then record r { comment = extract_rule_comment a.payload }
      else if a.ty == 4
      then find_counter (nested_attrs a.payload) r
      else r

  abbrev no_rule : RuleState
  no_rule = record {
    table = [];
    chain = [];
    comment = none;
    counter_bytes = none;
    counter_packets = none;
  }

  -- The three `?` at the end, in their order.
  abbrev finish_rule : RuleState → Option NftRuleCounter
  finish_rule r = elim r.comment [
    | none ↦ none
    | some comment ↦ elim r.counter_bytes [
      | none ↦ none
      | some bytes ↦ elim r.counter_packets [
        | none ↦ none
        | some packets ↦ some (record {
          table = r.table;
          chain = r.chain;
          comment = comment;
          bytes = bytes;
          packets = packets;
        })
      ]
    ]
  ]

  unfoldable pub parse_rule_frame : Bytes → Option NftRuleCounter
  unfolding rule_attr
  parse_rule_frame frame =
      if ltb (length frame) nfgenmsg_len
      then none
      else finish_rule (foldl rule_attr no_rule (parse_attrs (drop nfgenmsg_len frame)))
