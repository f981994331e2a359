-- ===== src/Path.antt =====
-- src/evs.c: the table `_allowed_chars`, `evs_clean_path` and `evs_make_path`.
pub mod Clean
pub mod Examples
use quick_io.Common.{
  ℕ, Bool, true, false, not, ◌&&◌, ◌||◌, ◌==◌, if◌then◌else◌, List, [], ◌∷◌, ◌++◌, Option, none,
  some, Bytes, get_or,
}

-- The initialiser, row by row; C fills the rest of the 256 entries with 0.
abbrev allowed_chars : List ℕ
allowed_chars =
    0 ∷ 0 ∷ 0 ∷ 0 ∷ 0 ∷ 0 ∷ 0 ∷ 0 ∷ 0 ∷ 0 ∷ 0 ∷ 0 ∷ 0 ∷ 0 ∷ 0 ∷ 0 ∷ 0 ∷ 0 ∷ 0 ∷ 0 ∷ 0 ∷ 0 ∷ 0 ∷ 0
    ∷ 0 ∷ 0 ∷ 0 ∷ 0 ∷ 0 ∷ 0 ∷ 0 ∷ 0 ∷ 0 ∷ 0 ∷ 0 ∷ 0 ∷ 0 ∷ 0 ∷ 0 ∷ 0 ∷ 0 ∷ 0 ∷ 0 ∷ 0 ∷ 0 ∷ 1 ∷ 0 ∷ 1
    ∷ 1 ∷ 1 ∷ 1 ∷ 1 ∷ 1 ∷ 1 ∷ 1 ∷ 1 ∷ 1 ∷ 1 ∷ 0 ∷ 0 ∷ 0 ∷ 0 ∷ 0 ∷ 0 ∷ 0 ∷ 1 ∷ 1 ∷ 1 ∷ 1 ∷ 1 ∷ 1 ∷ 1
    ∷ 1 ∷ 1 ∷ 1 ∷ 1 ∷ 1 ∷ 1 ∷ 1 ∷ 1 ∷ 1 ∷ 1 ∷ 1 ∷ 1 ∷ 1 ∷ 1 ∷ 1 ∷ 1 ∷ 1 ∷ 1 ∷ 1 ∷ 0 ∷ 0 ∷ 0 ∷ 0 ∷ 1
    ∷ 0 ∷ 1 ∷ 1 ∷ 1 ∷ 1 ∷ 1 ∷ 1 ∷ 1 ∷ 1 ∷ 1 ∷ 1 ∷ 1 ∷ 1 ∷ 1 ∷ 1 ∷ 1 ∷ 1 ∷ 1 ∷ 1 ∷ 1 ∷ 1 ∷ 1 ∷ 1 ∷ 1
    ∷ 1 ∷ 1 ∷ 1 ∷ []

-- `_allowed_chars[(guchar)c]` as a condition.
unfoldable pub is_allowed : ℕ → Bool
is_allowed c = not (get_or allowed_chars c 0 == 0)

-- The `while` loop over `*curr`, one byte at a time. `inner` says that the byte is read by the
-- condition of the `do … while`, and `out` is what stands between `ev_path` and `writing`.
clean_loop : Bool → Bytes → Bytes → Bytes
clean_loop inner out [] = out
clean_loop inner out (c ∷ cs) =
    let skipped = inner && (c == b'/' || not (is_allowed c)) in
    clean_loop (skipped || c == b'/')
      (if skipped then out else if is_allowed c then out ++ c ∷ [] else out) cs

-- `if (writing != ev_path && *(writing - 1) == '/') writing--;`
trim_slash : Bytes → Bytes
trim_slash [] = []
trim_slash (c ∷ []) = if c == b'/' then [] else c ∷ []
trim_slash (c ∷ d ∷ cs) = c ∷ trim_slash (d ∷ cs)

-- The string that is left in the buffer; the function returns its length.
unfoldable pub evs_clean_path : Bytes → Bytes
unfolding clean_loop trim_slash is_allowed
evs_clean_path ev_path = trim_slash (clean_loop false [] ev_path)

-- `x == NULL ? "" : x`.
abbrev pub or_empty : Option Bytes → Bytes
or_empty none = []
or_empty (some s) = s

-- `if (p->str[0] != '/') g_string_prepend_c(p, '/');`
prepend_slash : Bytes → Bytes
prepend_slash [] = b'/' ∷ []
prepend_slash (c ∷ cs) = if not (c == b'/') then b'/' ∷ c ∷ cs else c ∷ cs

-- `g_string_printf(p, "%s/%s/%s", …)`.
abbrev pub print_path : Option Bytes → Option Bytes → Option Bytes → Bytes
print_path ev_prefix ev_path ev_extra =
    or_empty ev_prefix ++ (b'/' ∷ (or_empty ev_path ++ (b'/' ∷ or_empty ev_extra)))

unfoldable pub evs_make_path : Option Bytes → Option Bytes → Option Bytes → Bytes
unfolding prepend_slash evs_clean_path
evs_make_path ev_prefix ev_path ev_extra =
    evs_clean_path (prepend_slash (print_path ev_prefix ev_path ev_extra))
