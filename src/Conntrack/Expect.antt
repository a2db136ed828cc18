-- ===== src/Conntrack/Expect.antt =====
-- crates/nlx-netlink/src/collectors/conntrack_expect.rs: the expectations of connections.
use mathlib.Core.List.{foldl}
use mathlib.Core.Option
use netlink_exporter.Base.{
  ℕ, zero, suc, ◌+◌, min, Bool-cases, inl, inr, ◌≡◌, ap, ◌∙◌, ◌||◌, List, [], ◌∷◌, Option, none,
  some, ◌==◌, if◌then◌else◌, ltb, length, take, drop, arith,
}
use netlink_exporter.Base.Text.{Text, codes}
use netlink_exporter.Conntrack.{nfgenmsg_len, nfgenmsg_unspec}
use netlink_exporter.Metric.{gauge_sample}
use netlink_exporter.Scrape.{Outcome, collected, failed}
use netlink_exporter.Sockdiag.Collect.{to_collect_error}
use netlink_exporter.Transport.{Result, ok, err, kernel_error, max_dump_restarts}
use netlink_exporter.Transport.Dump.{Ends, returns, waiting, Kernel, Socket}
use netlink_exporter.Transport.Retries.{Session, dump_attempts}
use netlink_exporter.Wire.{Bytes, Nla, parse_attrs, nested_attrs, read_u8}
use netlink_exporter.Wire.Names.{strip_nul}

unfoldable pub expect_proto_label : ℕ → Text
expect_proto_label proto =
    if proto == 6
    then codes "tcp"
    else if proto == 17
    then codes "udp"
    else if proto == 1
    then codes "icmp"
    else if proto == 58
    then codes "icmpv6"
    else if proto == 132
    then codes "sctp"
    else codes "other"

pub record ConntrackExpectEntry : Type 0 where
  pub l4proto : Text
  pub helper : Text

-- `CTA_PROTO_NUM` (1) in `CTA_TUPLE_PROTO` (2).
unfoldable pub num_attr : ℕ → Nla → ℕ
num_attr proto a = if a.ty == 1 then Option.get_or (read_u8 a.payload) 0 else proto

unfoldable pub expect_tuple_attr : ℕ → Nla → ℕ
unfolding num_attr
expect_tuple_attr proto a =
    if a.ty == 2 then foldl num_attr proto (nested_attrs a.payload) else proto

abbrev pub cardinality_cap : ℕ
cardinality_cap = 256

-- The number of frames that hold an expectation.
abbrev pub expectations : List Bytes → ℕ
expectations [] = 0
expectations (frame ∷ frames) = (if ltb (length frame) 4 then 0 else 1) + expectations frames

module _ (lossy : Bytes → Text) where
  -- The match on one attribute: 2 is the tuple, 6 the helper's name.
  unfoldable pub expect_attr : ℕ × Text → Nla → ℕ × Text
  unfolding expect_tuple_attr
  expect_attr (proto, helper) a =
      if a.ty == 2
      then (foldl expect_tuple_attr proto (nested_attrs a.payload), helper)
      else if a.ty == 6
      then (proto, lossy (take 64 (strip_nul a.payload)))
      else (proto, helper)

  unfoldable pub parse_expect_frame : Bytes → Option ConntrackExpectEntry
  unfolding expect_attr expect_proto_label
  parse_expect_frame frame =
      if ltb (length frame) nfgenmsg_len
      then none
      else let (proto, helper) =
          foldl expect_attr (0, []) (parse_attrs (drop nfgenmsg_len frame)) in
        some (record { l4proto = expect_proto_label proto; helper = helper })

  -- The loop over the frames, up to the cap; `room` is what is left of it.
  unfoldable pub expect_entries : ℕ → List Bytes → List ConntrackExpectEntry
  unfolding parse_expect_frame
  expect_entries room [] = []
  expect_entries zero (frame ∷ frames) = []
  expect_entries (suc room) (frame ∷ frames) = elim (parse_expect_frame frame) [
    | none ↦ expect_entries (suc room) frames
    | some entry ↦ entry ∷ expect_entries room frames
  ]

  length-entries :
      (frames : List Bytes) (room : ℕ)
      → length (expect_entries room frames) ≡ min room (expectations frames)
  unfolding expect_entries
  length-entries [] room = omega arith
  length-entries (frame ∷ frames) zero = omega arith
  length-entries (frame ∷ frames) (suc room) = elim (Bool-cases (ltb (length frame) 4)) [
    | inl short ↦ rw (short, expect_entries) (length-entries frames (suc room) ∙ omega arith)
    | inr long ↦ rw (long, expect_entries) (omega (arith, length-entries frames room))
  ]

-- `ENOENT` and `EPERM` mean that there is no such subsystem.
abbrev pub expect_result : {A : Type 0} → (List Bytes → A) → Result (List Bytes) → Result (Option A)
expect_result f (ok frames) = ok (some (f frames))
expect_result f (err (kernel_error errno)) =
    if (errno == 2) || (errno == 1) then ok none else err (kernel_error errno)
expect_result f (err e) = err e

module _ (os_error : ℕ → Text) (lossy : Bytes → Text) where
  -- `IPCTNL_MSG_EXP_GET` is 0x201.
  unfoldable pub dump_expectations_raw :
      Session → Ends (Result (Option (List ConntrackExpectEntry)))
  unfolding expect_entries
  dump_expectations_raw s =
      elim (dump_attempts os_error 0x201 (suc max_dump_restarts) nfgenmsg_unspec s) [
        | waiting ↦ waiting
        | returns (s', r) ↦ returns (expect_result (expect_entries lossy cardinality_cap) r)
      ]

  -- `collect` of the expectations' collector: a socket that cannot be opened is no error.
  unfoldable pub collect :
      {F64 : Type 0} → (ℕ → F64) → Result Socket → ℕ → List Kernel → Ends (Outcome F64)
  unfolding dump_expectations_raw
  collect of_u64 (err e) counter kernels = returns (collected [])
  collect of_u64 (ok sock) counter kernels =
      elim (dump_expectations_raw (record { sock = sock; counter = counter; kernels = kernels })) [
        | waiting ↦ waiting
        | returns (err e) ↦ returns (failed (to_collect_error e))
        | returns (ok none) ↦ returns (collected [])
        | returns (ok (some entries)) ↦ returns (
            collected (
              gauge_sample (codes "nft_conntrack_expectations")
                (codes "Number of active conntrack expectations.") [] (of_u64 (length entries))
              ∷ []))
      ]

  -- A collection whose dump of expectations returns, after any interruptions that it restarts from,
  -- gives one sample: the gauge `nft_conntrack_expectations`, whose value is the number of frames with
  -- an expectation, but never more than 256.
  pub collect-expectations :
      {F64 : Type 0} (of_u64 : ℕ → F64) (sock : Socket) (counter : ℕ) (kernels : List Kernel)
      (s : Session) (frames : List Bytes)
      → dump_attempts os_error 0x201
          (suc max_dump_restarts)
          nfgenmsg_unspec
          (record { sock = sock; counter = counter; kernels = kernels })
        ≡ returns (s, ok frames)
      → collect of_u64 (ok sock) counter kernels
        ≡ returns (
            collected (
              gauge_sample
                (codes "nft_conntrack_expectations")
                (codes "Number of active conntrack expectations.")
                []
                (of_u64 (min 256 (expectations frames)))
              ∷ []))
  unfolding collect dump_expectations_raw
  collect-expectations of_u64 sock counter kernels s frames e =
      rw (collect, dump_expectations_raw, e)
        (ap
          (λ (n : ℕ). returns (
            collected (
              gauge_sample (codes "nft_conntrack_expectations")
                (codes "Number of active conntrack expectations.") [] (of_u64 n)
              ∷ [])))
          (length-entries lossy frames 256))
