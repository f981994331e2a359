-- ===== src/Apps/Examples.antt =====
-- Two applications that share a directory with a third file that is none.
use quick_io.Common.{
  ℕ, ◌+◌, ◌*◌, ◌≡◌, ◌↔◌, true, ◌==◌, equal, if◌then◌else◌, Bool, List, [], ◌∷◌, none, some, Bytes,
  codes,
}
use quick_io.Apps.{Modules, App, ok, magic_num}
use quick_io.Apps.Whole.{Loads, Ends, whole, ended, whole-Loads}

abbrev modules : Modules
modules = record {
  open_module = λ path.
      if equal path (codes "/usr/lib/quickio/chat.so")
      then some 1
      else if equal path (codes "./poll.so")
      then some 2
      else if equal path (codes "./notes")
      then some 3
      else none;
  magic_of = λ m. if m == 3 then some 7 else some magic_num;
  symbol = λ m name.
      if equal name (codes "__qio_app_init")
      then some (10 * m)
      else if equal name (codes "__qio_app_exit")
      then some (10 * m + 1)
      else none;
}

abbrev conf : List (Bytes × Bytes)
conf = (codes "chat", codes "chat.so") ∷ ((codes "poll", codes "./poll.so") ∷ [])

abbrev chat_and_poll : List App
chat_and_poll =
    record { name = codes "chat"; mod' = 1; init = 10; exit = 11 }
    ∷ (record { name = codes "poll"; mod' = 2; init = 20; exit = 21 } ∷ [])

abbrev agrees : ℕ → Bool
agrees f = true

whole-Loads_example : (whole modules agrees conf ≡ ok (ended modules agrees chat_and_poll)) ↔ (
    (as' : List App) × Loads modules agrees [] conf as'
    × Ends modules agrees as'
    × (ended modules agrees chat_and_poll ≡ ended modules agrees as'))
whole-Loads_example = whole-Loads modules agrees conf (ended modules agrees chat_and_poll)
