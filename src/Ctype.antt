-- ===== src/Ctype.antt =====
-- hlibc/ctype.c and include/hlibc/ctype.h: character classes by tables.
mod Tables
pub mod Ranges
mod Examples
use Tables.{
  isalpha_table, isalnum_table, isdigit_table, isxdigit_table, toupper_table, tolower_table,
}
use hlibc.Base.{ℕ, ◌%◌, Bool, not, get_or, ◌==◌}

-- The argument is cast to `unsigned char`, and the entry to the returned `bool`.
to_bool : ℕ → Bool
to_bool entry = not (entry == 0)

unfoldable pub hlib_isalpha : ℕ → Bool
unfolding to_bool
hlib_isalpha c = to_bool (get_or isalpha_table (c % 256) 0)

unfoldable pub hlib_isalnum : ℕ → Bool
unfolding to_bool
hlib_isalnum c = to_bool (get_or isalnum_table (c % 256) 0)

unfoldable pub hlib_isdigit : ℕ → Bool
unfolding to_bool
hlib_isdigit c = to_bool (get_or isdigit_table (c % 256) 0)

unfoldable pub hlib_isxdigit : ℕ → Bool
unfolding to_bool
hlib_isxdigit c = to_bool (get_or isxdigit_table (c % 256) 0)

-- These two are declared to return a `bool` too.
unfoldable pub hlib_toupper : ℕ → Bool
unfolding to_bool
hlib_toupper c = to_bool (get_or toupper_table (c % 256) 0)

unfoldable pub hlib_tolower : ℕ → Bool
unfolding to_bool
hlib_tolower c = to_bool (get_or tolower_table (c % 256) 0)
