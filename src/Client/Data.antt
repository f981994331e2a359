-- ===== src/Client/Data.antt =====
-- The data of a client: `data` of `struct client`, and `client_set`, `client_get`, `client_has` and
-- `client_del` of src/client.c.
--
-- A value is a GVariant, so an address with a count of references; a new one is floating until
-- somebody takes it. A key is the number of a GQuark.
pub mod Counts
pub mod Examples
use quick_io.Common.{
  ℕ, ◌+◌, ◌-◌, Bool, true, false, ◌==◌, if◌then◌else◌, List, [], ◌∷◌, Option, none, some,
}
use quick_io.Client.Subs.Table.{lookup, put, erase}

-- The table, or NULL; and of all variants the references and whether they float.
pub record Data : Type 0 where
  pub table : Option (List (ℕ × ℕ))
  pub refs : ℕ → ℕ
  pub floating : ℕ → Bool

abbrev pub entries : Option (List (ℕ × ℕ)) → List (ℕ × ℕ)
entries none = []
entries (some t) = t

-- `g_variant_ref` and `g_variant_unref`.
abbrev pub variant_ref : ℕ → Data → Data
variant_ref v d = record d { refs = λ q. if q == v then d.refs q + 1 else d.refs q }

abbrev pub variant_unref : ℕ → Data → Data
variant_unref v d = record d { refs = λ q. if q == v then d.refs q - 1 else d.refs q }

-- `g_variant_ref_sink`: the reference of a floating variant is taken over.
pub variant_ref_sink : ℕ → Data → Data
variant_ref_sink v d =
    if d.floating v
    then record d { floating = λ q. if q == v then false else d.floating q }
    else variant_ref v d

-- What the table gives up when an entry is replaced or removed.
abbrev pub unref_old : Option ℕ → Data → Data
unref_old none d = d
unref_old (some v) d = variant_unref v d

-- `val` is `none` for NULL.
unfoldable pub client_set : Data → ℕ → Option ℕ → Data
unfolding variant_ref_sink lookup put
client_set d key none = d
client_set d key (some v) =
    let t = entries d.table in
    let e = unref_old (lookup key t) (variant_ref_sink v d) in
    record e { table = some (put key v t) }

-- Under the lock the value is read.
unfoldable pub client_get_locked : Data → ℕ → Option ℕ
unfolding lookup
client_get_locked d key = lookup key (entries d.table)

abbrev pub ref_found : Option ℕ → Data → Data
ref_found none d = d
ref_found (some v) d = variant_ref v d

-- Whether there is a value and its last reference is gone, so that it is freed.
abbrev pub is_freed : Option ℕ → Data → Bool
is_freed none d = false
is_freed (some v) d = d.refs v == 0

-- The data behind `client_get`, what it returns, and whether it took its reference of a value that is
-- freed.
pub record Got : Type 0 where
  pub data' : Data
  pub value : Option ℕ
  pub too_late : Bool

-- `between` is what other threads do to the data when the lock is released and the reference not yet
-- taken.
unfoldable pub client_get : (Data → Data) → Data → ℕ → Got
unfolding client_get_locked
client_get between d key =
    let v = client_get_locked d key in
    let e = between d in record { data' = ref_found v e; value = v; too_late = is_freed v e }

-- No other thread.
abbrev pub alone : Data → Data
alone d = d

abbrev pub is_there : Option ℕ → Bool
is_there none = false
is_there (some v) = true

unfoldable pub client_has : Data → ℕ → Bool
unfolding lookup
client_has d key = is_there (lookup key (entries d.table))

-- A table that is empty is freed.
abbrev pub or_freed : List (ℕ × ℕ) → Option (List (ℕ × ℕ))
or_freed [] = none
or_freed (x ∷ t) = some (x ∷ t)

unfoldable pub client_del : Data → ℕ → Data
unfolding lookup erase
client_del d key =
    let t = entries d.table in
    let e = unref_old (lookup key t) d in record e { table = or_freed (erase key t) }

-- What freeing a table does with its values.
abbrev pub unref_all : List (ℕ × ℕ) → Data → Data
unref_all [] d = d
unref_all ((k, v) ∷ t) d = unref_all t (variant_unref v d)

-- The data's part of `client_free_all`.
unfoldable pub client_free_data : Data → Data
client_free_data d = record (unref_all (entries d.table) d) { table = none }
