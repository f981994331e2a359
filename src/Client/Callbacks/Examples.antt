-- ===== src/Client/Callbacks/Examples.antt =====
-- A client without callbacks, and one with the callback that a first registration makes.
use quick_io.Common.{refl, some, arith}
use quick_io.Common.Int.{pos}
use quick_io.Client.Callbacks.Fire.{IsValid, client_cb_new-IsValid}
use quick_io.Client.Callbacks.{
  ClientCb, Callbacks, EvsStatus, evs_status_ok, no_callbacks, client_cb_new,
}

no_callbacks-IsValid : IsValid no_callbacks
unfolding no_callbacks
no_callbacks-IsValid = record { slots = refl; id_fits = omega arith; counted = refl }

-- The function 11 on the data 70, which 12 frees, registered in the third second.
abbrev one_callback : Callbacks
one_callback = (client_cb_new no_callbacks (some 11) (some 70) (some 12) 0 (pos 3_000_000)).0

one_callback-IsValid : IsValid one_callback
one_callback-IsValid =
    client_cb_new-IsValid no_callbacks (some 11) (some 70) (some 12) 0 (pos 3_000_000)
      no_callbacks-IsValid (omega arith)

abbrev leave : ClientCb → Callbacks → EvsStatus × Callbacks
leave cb c = (evs_status_ok, c)
