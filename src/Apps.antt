-- ===== src/Apps.antt =====
-- src/apps.c: the applications that the server loads as it reads its configuration, and ends at
-- its exit. Loading a shared object and calling what it holds are arguments.
pub mod Whole
pub mod Examples
use quick_io.Common.{
  ℕ, ◌+◌, Bool, true, false, not, ◌&&◌, ◌||◌, ◌==◌, if◌then◌else◌, List, [], ◌∷◌, ◌++◌, Option,
  none, some, Bytes, codes,
}

-- What GLib does to a module: `g_module_open` of a path, the number that `__qio_is_app` leads to,
-- and the address of a symbol. A module that is open already is found again.
pub record Modules : Type 0 where
  pub open_module : Bytes → Option ℕ
  pub magic_of : ℕ → Option ℕ
  pub symbol : ℕ → Bytes → Option ℕ

-- `struct app`
pub record App : Type 0 where
  pub name : Bytes
  pub mod' : ℕ
  pub init : ℕ
  pub exit : ℕ

-- What happens, in order: the functions that are called, and applications whose memory is freed.
pub data AppEvent : Type 0 where
  calls : ℕ → AppEvent
  frees : Bytes → AppEvent

-- An ASSERT that fails ends the process.
pub data Outcome {ℓ} (A : Type ℓ) : Type ℓ where
  ok : A → Outcome A
  aborted : Outcome A

infixl 5 ◌>>=◌ ◌>>◌
abbrev pub ◌>>=◌ {ℓ κ} : {A : Type ℓ} {B : Type κ} → Outcome A → (A → Outcome B) → Outcome B
ok a >>= f = f a
aborted >>= f = aborted

abbrev pub required {ℓ} : {A : Type ℓ} → Option A → Outcome A
required none = aborted
required (some a) = ok a

abbrev pub assert : Bool → Outcome (Unit {0})
assert true = ok tt
assert false = aborted

abbrev pub ◌>>◌ {ℓ} : {B : Type ℓ} → Outcome (Unit {0}) → Outcome B → Outcome B
m >> k = m >>= λ _. k

-- `QIO_MAGIC_NUM`
abbrev pub magic_num : ℕ
magic_num = 0xfc63e18a

-- The applications in the order of the array, and what has happened.
pub record Loaded : Type 0 where
  pub apps : List App
  pub events : List AppEvent

-- `strspn(path, PATH_STARTERS) == 0`
abbrev pub is_plain : Bytes → Bool
is_plain [] = true
is_plain (c ∷ s) = not (c == b'.' || c == b'/' || c == 0x5c || c == b'~')

abbrev pub full_path : Bytes → Bytes
full_path path = if is_plain path then codes "/usr/lib/quickio/" ++ path else path

abbrev pub is_magic : Option ℕ → Bool
is_magic none = false
is_magic (some n) = n == magic_num

-- Whether one of the applications has the module.
abbrev pub has_module : ℕ → List App → Bool
has_module m [] = false
has_module m (a ∷ as') = a.mod' == m || has_module m as'

module _ (modules : Modules) (answers : ℕ → Bool) where
  -- `_add_app`; `answers` is what a function that is called returns.
  unfoldable pub add_app : Loaded → Bytes → Bytes → Outcome Loaded
  add_app l name path = do
    m ← required (modules.open_module (full_path path))
    assert (not (has_module m l.apps))
    assert (is_magic (modules.magic_of m))
    init ← required (modules.symbol m (codes "__qio_app_init"))
    exit ← required (modules.symbol m (codes "__qio_app_exit"))
    assert (answers init)
    ok (record {
      apps = l.apps ++ record { name = name; mod' = m; init = init; exit = exit } ∷ [];
      events = l.events ++ calls init ∷ [];
    })

  -- The applications of a configuration, as quick-event hands them to `_add_app`.
  unfoldable pub add_all : Loaded → List (Bytes × Bytes) → Outcome Loaded
  unfolding add_app
  add_all l [] = ok l
  add_all l ((name, path) ∷ rest) = do l' ← add_app l name path; add_all l' rest

  exit_all : List App → Outcome (List AppEvent)
  exit_all [] = ok []
  exit_all (a ∷ as') = do
    assert (answers a.exit)
    events ← exit_all as'
    ok (calls a.exit ∷ (frees a.name ∷ events))

  -- `_cleanup`
  unfoldable pub cleanup : Loaded → Outcome Loaded
  unfolding exit_all
  cleanup l = do events ← exit_all l.apps; ok (record { apps = []; events = l.events ++ events })

  test_all : List App → Outcome (List AppEvent)
  test_all [] = ok []
  test_all (a ∷ as') = do
    test ← required (modules.symbol a.mod' (codes "__qio_app_test"))
    assert (answers test)
    events ← test_all as'
    ok (calls test ∷ events)

  -- `apps_test`
  unfoldable pub apps_test : Loaded → Outcome Loaded
  unfolding test_all
  apps_test l = do events ← test_all l.apps; ok (record l { events = l.events ++ events })

-- `apps_init` makes an empty array.
abbrev pub no_apps : Loaded
no_apps = record { apps = []; events = [] }
