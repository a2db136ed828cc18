-- ===== src/Conntrack/Sums.antt =====
-- What the statistics of crates/nlx-netlink/src/collectors/conntrack.rs are the sums of.
use mathlib.Core.List.{foldl}
use netlink_exporter.Base.{
  ℕ, ◌+◌, ◌%◌, ◌^◌, ◌≡◌, refl, sym, ap, ◌∙◌, inl, inr, Bool, true, false, ◌||◌, List, [], ◌∷◌, ◌++◌,
  Option, none, some, ◌==◌, if◌then◌else◌, ltb, length, drop, flat_map, Bool-cases, arith,
}
use netlink_exporter.Conntrack.{
  CpuStatSum, ConntrackStat, no_sum, stat_value, cpu_attr, accumulate_cpu_stat, sum_frames,
  cpu_stats,
}
use netlink_exporter.Wire.{Bytes, Nla, parse_attrs}

-- All attributes of all frames, of those that are long enough.
abbrev pub frame_attrs : Bytes → List Nla
frame_attrs frame = if ltb (length frame) 4 then [] else parse_attrs (drop 4 frame)

abbrev pub all_attrs : List Bytes → List Nla
all_attrs frames = flat_map frame_attrs frames

-- The sum of the values of a type, and whether there is one.
abbrev value_if : ℕ → Nla → ℕ
value_if ty a = if a.ty == ty then stat_value a else 0

abbrev pub total : ℕ → List Nla → ℕ
total ty [] = 0
total ty (a ∷ attrs) = value_if ty a + total ty attrs

abbrev pub occurs : ℕ → List Nla → Bool
occurs ty [] = false
occurs ty (a ∷ attrs) = (a.ty == ty) || occurs ty attrs

abbrev pub optional : Bool → ℕ → Option ℕ
optional false n = none
optional true n = some (n % 2 ^ 64)

foldl-append :
    (xs ys : List Nla) (s : CpuStatSum)
    → foldl cpu_attr s (xs ++ ys) ≡ foldl cpu_attr (foldl cpu_attr s xs) ys
foldl-append [] ys s = refl
foldl-append (x ∷ xs) ys s = foldl-append xs ys (cpu_attr s x)

sum_frames-all_attrs :
    (frames : List Bytes) (s : CpuStatSum)
    → sum_frames s frames ≡ foldl cpu_attr s (all_attrs frames)
unfolding sum_frames accumulate_cpu_stat
sum_frames-all_attrs [] s = refl
sum_frames-all_attrs (frame ∷ frames) s = elim (Bool-cases (ltb (length frame) 4)) [
  | inl short ↦ rw short (sum_frames-all_attrs frames s)
  | inr long ↦ rw long (
      sum_frames-all_attrs frames (foldl cpu_attr s (parse_attrs (drop 4 frame)))
      ∙ sym (foldl-append (parse_attrs (drop 4 frame)) (all_attrs frames) s))
]

-- A field that grows by the values of one type.
module _ (field : CpuStatSum → ℕ) (ty : ℕ)
    (step : (s : CpuStatSum) (a : Nla) (n : ℕ)
      → field s ≡ n % 2 ^ 64
      → field (cpu_attr s a) ≡ (n + value_if ty a) % 2 ^ 64) where
  field-foldl :
      (attrs : List Nla) (s : CpuStatSum) (n : ℕ)
      → field s ≡ n % 2 ^ 64
      → field (foldl cpu_attr s attrs) ≡ (n + total ty attrs) % 2 ^ 64
  field-foldl [] s n e = omega (arith, e)
  field-foldl (a ∷ attrs) s n e =
      field-foldl attrs (cpu_attr s a) (n + value_if ty a) (step s a n e) ∙ omega arith

  from_zero :
      (frames : List Bytes)
      → field no_sum ≡ 0
      → field (sum_frames no_sum frames) ≡ total ty (all_attrs frames) % 2 ^ 64
  from_zero frames e =
      ap field (sum_frames-all_attrs frames no_sum)
      ∙ field-foldl (all_attrs frames) no_sum 0 (omega (arith, e))
      ∙ omega arith

found-cpu_attr :
    (s : CpuStatSum) (a : Nla) (n : ℕ)
    → s.found ≡ n % 2 ^ 64
    → (cpu_attr s a).found ≡ (n + value_if 2 a) % 2 ^ 64
unfolding cpu_attr
found-cpu_attr s a n e = ground (arith, e)

invalid-cpu_attr :
    (s : CpuStatSum) (a : Nla) (n : ℕ)
    → s.invalid ≡ n % 2 ^ 64
    → (cpu_attr s a).invalid ≡ (n + value_if 4 a) % 2 ^ 64
unfolding cpu_attr
invalid-cpu_attr s a n e = ground (arith, e)

inserted-cpu_attr :
    (s : CpuStatSum) (a : Nla) (n : ℕ)
    → s.inserted ≡ n % 2 ^ 64
    → (cpu_attr s a).inserted ≡ (n + value_if 8 a) % 2 ^ 64
unfolding cpu_attr
inserted-cpu_attr s a n e = ground (arith, e)

dropped-cpu_attr :
    (s : CpuStatSum) (a : Nla) (n : ℕ)
    → s.dropped ≡ n % 2 ^ 64
    → (cpu_attr s a).dropped ≡ (n + value_if 10 a) % 2 ^ 64
unfolding cpu_attr
dropped-cpu_attr s a n e = ground (arith, e)

early_drop-cpu_attr :
    (s : CpuStatSum) (a : Nla) (n : ℕ)
    → s.early_drop ≡ n % 2 ^ 64
    → (cpu_attr s a).early_drop ≡ (n + value_if 11 a) % 2 ^ 64
unfolding cpu_attr
early_drop-cpu_attr s a n e = ground (arith, e)

clash_resolve-cpu_attr :
    (s : CpuStatSum) (a : Nla) (p : Bool) (n : ℕ)
    → s.clash_resolve ≡ optional p n
    → (p ≡ false → n ≡ 0)
    → (cpu_attr s a).clash_resolve ≡ optional (p || (a.ty == 14)) (n + value_if 14 a)
unfolding cpu_attr
clash_resolve-cpu_attr s a p n e h = ground (arith, e, h)

chaintoolong-cpu_attr :
    (s : CpuStatSum) (a : Nla) (p : Bool) (n : ℕ)
    → s.chaintoolong ≡ optional p n
    → (p ≡ false → n ≡ 0)
    → (cpu_attr s a).chaintoolong ≡ optional (p || (a.ty == 15)) (n + value_if 15 a)
unfolding cpu_attr
chaintoolong-cpu_attr s a p n e h = ground (arith, e, h)

still_zero :
    (p : Bool) (ty : ℕ) (a : Nla) (n : ℕ)
    → (p ≡ false → n ≡ 0)
    → (p || (a.ty == ty)) ≡ false
    → n + value_if ty a ≡ 0
still_zero p ty a n h e = ground (arith, h, e)

or_assoc : (p q r : Bool) → ((p || q) || r) ≡ (p || (q || r))
or_assoc true q r = refl
or_assoc false q r = refl

-- A field that is there once a type has occurred.
module _ (field : CpuStatSum → Option ℕ) (ty : ℕ)
    (step : (s : CpuStatSum) (a : Nla) (p : Bool) (n : ℕ)
      → field s ≡ optional p n
      → (p ≡ false → n ≡ 0)
      → field (cpu_attr s a) ≡ optional (p || (a.ty == ty)) (n + value_if ty a)) where
  optional-foldl :
      (attrs : List Nla) (s : CpuStatSum) (p : Bool) (n : ℕ)
      → field s ≡ optional p n
      → (p ≡ false → n ≡ 0)
      → field (foldl cpu_attr s attrs) ≡ optional (p || occurs ty attrs) (n + total ty attrs)
  optional-foldl [] s p n e h = e ∙ (λ i. optional (or_false p i) (plus_zero n i))
    where
      or_false : (p : Bool) → p ≡ (p || false)
      or_false true = refl
      or_false false = refl

      plus_zero : (n : ℕ) → n ≡ n + 0
      plus_zero n = omega arith
  optional-foldl (a ∷ attrs) s p n e h =
      let sum : n + value_if ty a + total ty attrs ≡ n + (value_if ty a + total ty attrs) =
        omega arith in
      optional-foldl attrs (cpu_attr s a) (p || (a.ty == ty)) (n + value_if ty a) (step s a p n e h)
        (still_zero p ty a n h)
      ∙ (λ i. optional (or_assoc p (a.ty == ty) (occurs ty attrs) i) (sum i))

  from_none :
      (frames : List Bytes)
      → field no_sum ≡ none
      → field (sum_frames no_sum frames)
        ≡ optional (occurs ty (all_attrs frames)) (total ty (all_attrs frames))
  from_none frames e =
      let zero_plus : 0 + total ty (all_attrs frames) ≡ total ty (all_attrs frames) = omega arith in
      ap field (sum_frames-all_attrs frames no_sum)
      ∙ optional-foldl (all_attrs frames) no_sum false 0 e (λ _. refl)
      ∙ ap (optional (occurs ty (all_attrs frames))) zero_plus

-- The sums over the attributes of a list, from nothing.
abbrev pub sums_of : List Nla → ConntrackStat
sums_of attrs = record {
  found = total 2 attrs % 2 ^ 64;
  inserted = total 8 attrs % 2 ^ 64;
  dropped = total 10 attrs % 2 ^ 64;
  early_drop = total 11 attrs % 2 ^ 64;
  invalid = total 4 attrs % 2 ^ 64;
  clash_resolve = optional (occurs 14 attrs) (total 14 attrs);
  chaintoolong = optional (occurs 15 attrs) (total 15 attrs);
}

-- The statistics of a dump are the sums over all attributes of all frames of four bytes or more,
-- modulo 2 ^ 64, each type apart; a statistic that older kernels lack is there exactly if some frame
-- has it.
pub cpu_stats-sums_of : (frames : List Bytes) → cpu_stats frames ≡ sums_of (all_attrs frames)
unfolding cpu_stats
cpu_stats-sums_of frames = λ i. record {
  found = from_zero (λ s. s.found) 2 found-cpu_attr frames refl i;
  inserted = from_zero (λ s. s.inserted) 8 inserted-cpu_attr frames refl i;
  dropped = from_zero (λ s. s.dropped) 10 dropped-cpu_attr frames refl i;
  early_drop = from_zero (λ s. s.early_drop) 11 early_drop-cpu_attr frames refl i;
  invalid = from_zero (λ s. s.invalid) 4 invalid-cpu_attr frames refl i;
  clash_resolve = from_none (λ s. s.clash_resolve) 14 clash_resolve-cpu_attr frames refl i;
  chaintoolong = from_none (λ s. s.chaintoolong) 15 chaintoolong-cpu_attr frames refl i;
}
