-- ===== src/Registry/Escape.antt =====
-- A reader of the label block of the text format, and what it gives back of written labels.
use netlink_exporter.Base.{
  ℕ, zero, suc, Bool, true, false, [], ◌∷◌, ◌++◌, Option, none, some, ltb, ◌==◌, if◌then◌else◌, map,
  ◌≡◌, ◌≢◌, refl, sym, ap, ◌∙◌, arith, All, append_assoc, length,
}
use netlink_exporter.Base.Text.{Text}
use netlink_exporter.Metric.{Labels}
use netlink_exporter.Registry.{escape_char, escape_label_value, write_labels, write_braces}

-- What is left of a value: control characters other than the newline are gone.
abbrev pub printable : Text → Text
printable [] = []
printable (c ∷ s) =
    if c == b'\n' then c ∷ printable s else if ltb c 0x20 then printable s else c ∷ printable s

-- The rest of a quoted value, up to the quote that closes it; the flag says that a backslash was
-- read.
read_quoted : Bool → Text → Option (Text × Text)
read_quoted escaped [] = none
read_quoted true (c ∷ s) = elim (read_quoted false s) [
  | none ↦ none
  | some (v, rest) ↦ some ((if c == b'n' then b'\n' else c) ∷ v, rest)
]
read_quoted false (c ∷ s) =
    if c == b'"'
    then some ([], s)
    else if c == b'\\'
    then read_quoted true s
    else (elim (read_quoted false s) [ none ↦ none | some (v, rest) ↦ some (c ∷ v, rest) ])

read_quoted-char :
    (c : ℕ) (s : Text) (v rest : Text)
    → read_quoted false s ≡ some (v, rest)
    → read_quoted false (escape_char c ++ s) ≡ some (printable (c ∷ []) ++ v, rest)
unfolding read_quoted
read_quoted-char c s v rest h = ground arith

printable-cons : (c : ℕ) (s : Text) → printable (c ∷ s) ≡ printable (c ∷ []) ++ printable s
printable-cons c s = ground arith

read_quoted-escape :
    (v rest : Text)
    → read_quoted false (escape_label_value v ++ b'"' ∷ rest) ≡ some (printable v, rest)
unfolding escape_label_value
read_quoted-escape [] rest = unfold read_quoted in refl
read_quoted-escape (c ∷ v) rest =
    ap (λ (t : Text). read_quoted false t)
      (append_assoc (escape_char c) (escape_label_value v) (b'"' ∷ rest))
    ∙ read_quoted-char c (escape_label_value v ++ b'"' ∷ rest) (printable v) rest
        (read_quoted-escape v rest)
    ∙ ap (λ (t : Text). some (t, rest)) (sym (printable-cons c v))

infixl 5 ◌>>=◌
abbrev ◌>>=◌ : {A B : Type 0} → Option A → (A → Option B) → Option B
none >>= f = none
some a >>= f = f a

-- A label's name, up to the sign that ends it.
read_name : Text → Option (Text × Text)
read_name [] = none
read_name (c ∷ s) =
    if c == b'='
    then some ([], s)
    else (elim (read_name s) [ none ↦ none | some (k, rest) ↦ some (c ∷ k, rest) ])

-- One character that must stand there.
expect : ℕ → Text → Option Text
expect c [] = none
expect c (d ∷ s) = if d == c then some s else none

read_label : Text → Option ((Text × Text) × Text)
read_label s = do
  (k, s1) ← read_name s
  s2 ← expect b'"' s1
  (v, s3) ← read_quoted false s2
  some ((k, v), s3)

-- The labels after the opening brace, at most `n` of them, through the closing brace.
read_labels : ℕ → Text → Option (Labels × Text)
read_labels zero s = none
read_labels (suc n) s = do
  (l, s1) ← read_label s
  elim (expect b'}' s1) [
    | some rest ↦ some (l ∷ [], rest)
    | none ↦ do s2 ← expect b',' s1; (labels, rest) ← read_labels n s2; some (l ∷ labels, rest)
  ]

-- A block of at most `n` labels, with its braces.
pub read_braces : ℕ → Text → Option (Labels × Text)
read_braces n s = do s1 ← expect b'{' s; read_labels n s1

-- A name that no reader can mistake the end of.
abbrev pub IsKey : Text → Type 0
IsKey k = All (λ c. c ≢ b'=') k

read_name-append : (k rest : Text) → IsKey k → read_name (k ++ b'=' ∷ rest) ≡ some (k, rest)
unfolding read_name
read_name-append [] rest h = refl
read_name-append (c ∷ k) rest (ne, h) = ground (arith, read_name-append k rest h)

read_label-write :
    (k v rest : Text)
    → IsKey k
    → read_label (k ++ (b'=' ∷ b'"' ∷ (escape_label_value v ++ (b'"' ∷ rest))))
      ≡ some ((k, printable v), rest)
unfolding read_label expect
read_label-write k v rest h =
    rw (read_name-append k (b'"' ∷ (escape_label_value v ++ (b'"' ∷ rest))) h)
      (rw (read_quoted-escape v rest))

abbrev pub printed : Labels → Labels
printed = map (λ l. (l.0, printable l.1))

regroup :
    (k e x s : Text)
    → (k ++ (b'=' ∷ b'"' ∷ (e ++ (b'"' ∷ x)))) ++ s ≡ k ++ (b'=' ∷ b'"' ∷ (e ++ (b'"' ∷ (x ++ s))))
regroup k e x s =
    append_assoc k (b'=' ∷ b'"' ∷ (e ++ (b'"' ∷ x))) s
    ∙ ap (λ (t : Text). k ++ (b'=' ∷ b'"' ∷ t)) (append_assoc e (b'"' ∷ x) s)

-- The last label, and one with another behind it.
read_labels_last :
    (n : ℕ) (k v rest : Text)
    → IsKey k
    → read_labels (suc n) (k ++ (b'=' ∷ b'"' ∷ (escape_label_value v ++ (b'"' ∷ b'}' ∷ rest))))
      ≡ some ((k, printable v) ∷ [], rest)
unfolding read_labels expect
read_labels_last n k v rest h = rw (read_label-write k v (b'}' ∷ rest) h)

read_labels_more :
    (n : ℕ) (k v s : Text) {labels : Labels} {rest : Text}
    → IsKey k
    → read_labels n s ≡ some (labels, rest)
    → read_labels (suc n) (k ++ (b'=' ∷ b'"' ∷ (escape_label_value v ++ (b'"' ∷ b',' ∷ s))))
      ≡ some ((k, printable v) ∷ labels, rest)
unfolding read_labels expect
read_labels_more n k v s h later = rw (read_label-write k v (b',' ∷ s) h) (rw later)

read_labels-write :
    (k v : Text) (labels : Labels) (rest : Text)
    → All (λ l. IsKey l.0) ((k, v) ∷ labels)
    → read_labels (suc (length labels)) (write_labels true ((k, v) ∷ labels) ++ b'}' ∷ rest)
      ≡ some (printed ((k, v) ∷ labels), rest)
unfolding write_labels
read_labels-write k v [] rest (h, hs) =
    ap (λ (t : Text). read_labels 1 t) (regroup k (escape_label_value v) [] (b'}' ∷ rest))
    ∙ read_labels_last 0 k v rest h
read_labels-write k v ((j, w) ∷ labels) rest (h, hs) =
    ap (λ (t : Text). read_labels (suc (suc (length labels))) t)
      (regroup k (escape_label_value v) (write_labels false ((j, w) ∷ labels)) (b'}' ∷ rest))
    ∙ read_labels_more (suc (length labels)) k v
        (write_labels true ((j, w) ∷ labels) ++ b'}' ∷ rest) h
        (read_labels-write j w labels rest hs)

-- The block that `write_sample_line` writes for labels reads back as the same names in the same order,
-- each with its value less the control characters other than newline, and leaves what follows the
-- closing brace. No value, whatever quotes, backslashes, braces or newlines it holds, can end its
-- quotes early; the names must hold no equals sign.
pub read_braces-write_braces :
    (l : Text × Text) (labels : Labels) (rest : Text)
    → All (λ x. IsKey x.0) (l ∷ labels)
    → read_braces (suc (length labels)) (write_braces (l ∷ labels) ++ rest)
      ≡ some (printed (l ∷ labels), rest)
unfolding write_braces read_braces expect
read_braces-write_braces (k, v) labels rest h =
    ap (λ (t : Text). read_labels (suc (length labels)) t)
      (append_assoc (write_labels true ((k, v) ∷ labels)) (b'}' ∷ []) rest)
    ∙ read_labels-write k v labels rest h
