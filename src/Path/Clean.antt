-- ===== src/Path/Clean.antt =====
-- What `evs_clean_path` and `evs_make_path` of src/evs.c leave in the buffer.
use quick_io.Common.{
  ℕ, suc, ◌≤◌, ◌≡◌, ◌⊎◌, inl, inr, refl, sym, ap, Bool, true, false, not, ◌&&◌, ◌||◌, ◌==◌, leb,
  if◌then◌else◌, List, [], ◌∷◌, ◌++◌, Option, Bytes, length, get_or, zero, ltb, ltb→lt, Bool-cases,
  All, append-nil, append_assoc, passes_below, passes_below-lt, arith,
}
use quick_io.Path.{
  allowed_chars, is_allowed, clean_loop, trim_slash, evs_clean_path, prepend_slash, evs_make_path,
  print_path,
}

-- Only allowed bytes, no slash next to another, and none at the end.
abbrev pub IsCleanFrom : Bool → Bytes → Type 0
IsCleanFrom after_slash [] = after_slash ≡ false
IsCleanFrom after_slash (c ∷ cs) =
    (is_allowed c ≡ true) × ((after_slash && c == b'/') ≡ false) × IsCleanFrom (c == b'/') cs

abbrev pub IsClean : Bytes → Type 0
IsClean = IsCleanFrom false

-- The same, but a slash may end the path.
abbrev NoDouble : Bool → Bytes → Type 0
NoDouble after_slash [] = Unit {0}
NoDouble after_slash (c ∷ cs) =
    (is_allowed c ≡ true) × ((after_slash && c == b'/') ≡ false) × NoDouble (c == b'/') cs

-- What the loop appends, with no accumulator.
kept : Bool → Bytes → Bytes
kept inner [] = []
kept inner (c ∷ cs) =
    let skipped = inner && (c == b'/' || not (is_allowed c)) in
    let rest = kept (skipped || c == b'/') cs in
    if not skipped && is_allowed c then c ∷ rest else rest

clean_loop-kept : (inner : Bool) (out s : Bytes) → clean_loop inner out s ≡ out ++ kept inner s
unfolding clean_loop kept
clean_loop-kept inner out [] = sym (append-nil out)
clean_loop-kept inner out (c ∷ cs) = ground (
  arith,
  clean_loop-kept (c == b'/') out cs,
  clean_loop-kept true out cs,
  clean_loop-kept (c == b'/') (out ++ c ∷ []) cs,
  append_assoc out (c ∷ []) (kept (c == b'/') cs),
)

-- After an allowed byte that is no slash, disallowed bytes do not matter: a slash is allowed.
slash_allowed : is_allowed b'/' ≡ true
unfolding is_allowed
slash_allowed = refl

kept-NoDouble : (inner : Bool) (s : Bytes) → NoDouble inner (kept inner s)
unfolding kept
kept-NoDouble inner [] = tt
kept-NoDouble inner (c ∷ cs) =
    ground (arith, kept-NoDouble (c == b'/') cs, kept-NoDouble true cs, slash_allowed)

trim_slash-IsCleanFrom :
    (b : Bool) (s : Bytes) → NoDouble b s → (s ≡ [] → b ≡ false) → IsCleanFrom b (trim_slash s)
unfolding trim_slash
trim_slash-IsCleanFrom b [] h e = e refl
trim_slash-IsCleanFrom b (c ∷ []) h e = ground arith
trim_slash-IsCleanFrom b (c ∷ d ∷ cs) h e =
    (h.0, h.1, trim_slash-IsCleanFrom (c == b'/') (d ∷ cs) h.2 (λ x. cc))

-- Whatever the input, the result of `evs_clean_path` has only allowed bytes, never two slashes
-- in a row, and no slash at its end.
pub evs_clean_path-IsClean : (s : Bytes) → IsClean (evs_clean_path s)
unfolding evs_clean_path
evs_clean_path-IsClean s =
    rw (clean_loop-kept false [] s)
      (trim_slash-IsCleanFrom false (kept false s) (kept-NoDouble false s) (λ _. refl))

kept_lem : (b : Bool) (s : Bytes) → IsCleanFrom b s → kept b s ≡ s
unfolding kept
kept_lem b [] h = refl
kept_lem b (c ∷ cs) h = ground (arith, kept_lem (c == b'/') cs h.2, kept_lem true cs)

trim_slash_lem : (b : Bool) (s : Bytes) → IsCleanFrom b s → trim_slash s ≡ s
unfolding trim_slash
trim_slash_lem b [] h = refl
trim_slash_lem b (c ∷ []) h = ground arith
trim_slash_lem b (c ∷ d ∷ cs) h = ap (◌∷◌ c) (trim_slash_lem (c == b'/') (d ∷ cs) h.2)

-- A clean path is left as it is, so cleaning twice is cleaning once.
pub evs_clean_path_clean : (s : Bytes) → IsClean s → evs_clean_path s ≡ s
unfolding evs_clean_path
evs_clean_path_clean s h =
    rw (clean_loop-kept false [] s, kept_lem false s h) (trim_slash_lem false s h)

length-kept : (b : Bool) (s : Bytes) → length (kept b s) ≤ length s
unfolding kept
length-kept b [] = omega arith
length-kept b (c ∷ cs) = ground (arith, length-kept (c == b'/') cs, length-kept true cs)

length-trim_slash : (s : Bytes) → length (trim_slash s) ≤ length s
unfolding trim_slash
length-trim_slash [] = omega arith
length-trim_slash (c ∷ []) = ground arith
length-trim_slash (c ∷ d ∷ cs) = omega (arith, length-trim_slash (d ∷ cs))

-- The result of `evs_clean_path` is never longer than its input, in whose place it is written.
pub length-evs_clean_path : (s : Bytes) → length (evs_clean_path s) ≤ length s
unfolding evs_clean_path
length-evs_clean_path s =
    rw (clean_loop-kept false [] s)
      (omega (arith, length-trim_slash (kept false s), length-kept false s))

abbrev pub StartsWithSlash : Bytes → Type 0
StartsWithSlash [] = ⊥
StartsWithSlash (c ∷ cs) = c ≡ b'/'

prepend_slash_lem : (s : Bytes) → StartsWithSlash (prepend_slash s)
unfolding prepend_slash
prepend_slash_lem [] = refl
prepend_slash_lem (c ∷ cs) = ground arith

trim_slash_head :
    (s : Bytes) → StartsWithSlash s → (trim_slash s ≡ []) ⊎ StartsWithSlash (trim_slash s)
unfolding trim_slash
trim_slash_head [] h = elim h [ ]
trim_slash_head (c ∷ []) h = ground arith
trim_slash_head (c ∷ d ∷ cs) h = inr h

kept_head : (s : Bytes) → StartsWithSlash s → StartsWithSlash (kept false s)
unfolding kept
kept_head [] h = elim h [ ]
kept_head (c ∷ cs) h = ground (arith, slash_allowed)

evs_clean_path_head :
    (s : Bytes) → StartsWithSlash s → (evs_clean_path s ≡ []) ⊎ StartsWithSlash (evs_clean_path s)
unfolding evs_clean_path
evs_clean_path_head s h = rw (clean_loop-kept false []) (trim_slash_head _ (kept_head s h))

-- `evs_make_path` gives a clean path, which is empty or begins with a slash.
pub evs_make_path-IsClean :
    (ev_prefix ev_path ev_extra : Option Bytes)
    → IsClean (evs_make_path ev_prefix ev_path ev_extra)
      × ((evs_make_path ev_prefix ev_path ev_extra ≡ [])
          ⊎ StartsWithSlash (evs_make_path ev_prefix ev_path ev_extra))
unfolding evs_make_path
evs_make_path-IsClean ev_prefix ev_path ev_extra =
    let p = prepend_slash (print_path ev_prefix ev_path ev_extra) in
    (
      evs_clean_path-IsClean p,
      evs_clean_path_head p (prepend_slash_lem (print_path ev_prefix ev_path ev_extra)),
    )

-- The bytes that may stand in a path lie between '-' and 'z'.
abbrev pub InTable : ℕ → Type 0
InTable c = (b'-' ≤ c) × (c ≤ b'z')

get_or-drop : (l : List ℕ) (i d : ℕ) → length l ≤ i → get_or l i d ≡ d
get_or-drop [] i d h = refl
get_or-drop (x ∷ l) zero d h = absurd (omega arith)
get_or-drop (x ∷ l) (suc i) d h = get_or-drop l i d (omega arith)

allowed_table : passes_below (λ c. not (is_allowed c) || leb b'-' c && leb c b'z') 123 ≡ true
unfolding passes_below is_allowed
allowed_table = refl

is_allowed_above : (c : ℕ) → 123 ≤ c → is_allowed c ≡ false
unfolding is_allowed
is_allowed_above c h = rw (get_or-drop allowed_chars c 0 h)

pub is_allowed-InTable : (c : ℕ) → is_allowed c ≡ true → InTable c
is_allowed-InTable c h = elim (Bool-cases (ltb c 123)) [
  | inl lt ↦ ground (
    arith,
    passes_below-lt (λ d. not (is_allowed d) || leb b'-' d && leb d b'z') c 123 (ltb→lt c 123 lt)
        allowed_table,
  )
  | inr ge ↦ ground (arith, is_allowed_above c)
]

pub IsCleanFrom-InTable : (b : Bool) (s : Bytes) → IsCleanFrom b s → All InTable s
IsCleanFrom-InTable b [] h = tt
IsCleanFrom-InTable b (c ∷ cs) h =
    (is_allowed-InTable c h.0, IsCleanFrom-InTable (c == b'/') cs h.2)
