-- ===== src/Migrations/Names.antt =====
-- `_table_for` of backend/alembic/versions/6a1c2e3f9b4d_temporary_history.py: the name of a trigger is
-- made of the name of its table.
use Prim.Native.String.{len, slice, ◌++◌ as append}
use text.Mathlib.Text.{starts_with}
use text.Mathlib.TextPositions.{
  len-append, slice-append_left, slice-append_right, starts_with-append,
}
use organization_ai.Base.{
  Bool, String, ◌-◌, leb, str_eq, eq_refl, ◌&&◌, if◌then◌else◌, ◌≡◌, arith, le→leb,
}

-- `text.removeprefix(prefix)`
unfoldable pub removeprefix : String → String → String
removeprefix s prefix = if starts_with s prefix then slice s (len prefix) (len s) else s

-- `text.endswith(suffix)`
unfoldable pub ends_with : String → String → Bool
ends_with s suffix =
    leb (len suffix) (len s) && str_eq (slice s (len s - len suffix) (len s)) suffix

-- `text.removesuffix(suffix)`
unfoldable pub removesuffix : String → String → String
unfolding ends_with
removesuffix s suffix = if ends_with s suffix then slice s 0 (len s - len suffix) else s

-- `_table_for`
unfoldable pub table_for : String → String
unfolding removeprefix removesuffix
table_for trigger = removesuffix (removeprefix trigger "trg_") "_immutable"

pub removeprefix-append : (p t : String) → removeprefix (append p t) p ≡ t
unfolding removeprefix
removeprefix-append p t = rw (starts_with-append p t, len-append p t) (slice-append_right p t)

pub removesuffix-append : (t s : String) → removesuffix (append t s) s ≡ t
unfolding removesuffix ends_with
removesuffix-append t s =
    let back : len (append t s) - len s ≡ len t = rw (len-append t s) (omega arith) in
    rw
      (
        back,
        le→leb (len s) (len (append t s)) (rw (len-append t s) (omega arith)),
        len-append t s,
        slice-append_right t s,
        eq_refl s,
      )
      (slice-append_left t s)

-- Whatever the table, its name is recovered from that of its trigger, `trg_<table>_immutable`.
pub table_for-append :
    (table : String) → table_for (append "trg_" (append table "_immutable")) ≡ table
unfolding table_for
table_for-append table =
    rw (removeprefix-append "trg_" (append table "_immutable"))
      (removesuffix-append table "_immutable")
