-- ===== src/Procfs.antt =====
-- crates/nlx-procfs/src/lib.rs: the guard on the paths that the procfs collectors read. A path is its
-- bytes; the file system is a parameter, the result of a read.
pub mod Allowed
use netlink_exporter.Base.{
  ℕ, Bool, true, false, ◌||◌, ◌&&◌, not, List, [], ◌∷◌, ◌++◌, Option, none, some, ◌==◌,
  if◌then◌else◌,
}
use netlink_exporter.Base.Order.{text_eq}
use netlink_exporter.Base.Text.{Text, codes}

abbrev pub allowed_prefixes : List Text
allowed_prefixes =
    codes "/proc/net"
    ∷ codes "/proc/softirqs"
    ∷ codes "/proc/interrupts"
    ∷ codes "/proc/irq"
    ∷ codes "/sys/class/net"
    ∷ codes "/sys/bus/pci/devices"
    ∷ []

abbrev starts_dot : Text → Bool
starts_dot [] = false
starts_dot (c ∷ s) = c == b'.'

-- `path.contains("..")`
abbrev pub contains_dots : Text → Bool
contains_dots [] = false
contains_dots (c ∷ s) = (c == b'.' && starts_dot s) || contains_dots s

abbrev pub strip_prefix : Text → Text → Option Text
strip_prefix [] s = some s
strip_prefix (c ∷ root) [] = none
strip_prefix (c ∷ root) (d ∷ s) = if c == d then strip_prefix root s else none

abbrev pub starts_slash : Option Text → Bool
starts_slash none = false
starts_slash (some []) = false
starts_slash (some (c ∷ s)) = c == b'/'

-- The test of one root.
abbrev pub is_below : Text → Text → Bool
is_below path root = text_eq path root || starts_slash (strip_prefix root path)

abbrev pub any_below : Text → List Text → Bool
any_below path [] = false
any_below path (root ∷ roots) = is_below path root || any_below path roots

unfoldable pub path_allowed : Text → Bool
path_allowed path = if contains_dots path then false else any_below path allowed_prefixes

-- What a read gives: a text or a directory's sorted names, or an error; `denied` is the guard's.
pub data ReadResult (A : Type 0) : Type 0 where
  read_ok : A → ReadResult A
  denied : Text → ReadResult A
  io_error : Text → ReadResult A

-- `safe_read` and `safe_read_dir`: `read` is `fs::read_to_string`, or the sorted `fs::read_dir`.
unfoldable pub safe_read : {A : Type 0} → (Text → ReadResult A) → Text → ReadResult A
unfolding path_allowed
safe_read read path =
    if path_allowed path
    then read path
    else denied (codes "path not in procfs/sysfs allowlist (ADR-0027): " ++ path)

unfoldable pub readable : (Text → ReadResult Text) → Text → Bool
unfolding safe_read
readable read path = is_ok (safe_read read path)
  where
    is_ok : ReadResult Text → Bool
    is_ok (read_ok s) = true
    is_ok (denied e) = false
    is_ok (io_error e) = false
