-- ===== src/Evs/Examples.antt =====
-- An answer and an event with a callback on the function 11, whose data 70 the function 12 frees.
use quick_io.Common.{
  true, ◌∷◌, ◌==◌, ◌≡◌, refl, false, Option, none, some, [], ◌++◌, if◌then◌else◌, Bytes, codes,
  arith,
}
use quick_io.Common.Int.{pos}
use quick_io.Wire.Examples.{decimal, digits}
use quick_io.Client.Callbacks.Fire.{IsValid}
use quick_io.Client.Callbacks.{no_callbacks}
use quick_io.Client.Subs.{Client}
use quick_io.Evs.{Reply, evs_cb}

empty-IsValid : IsValid no_callbacks
unfolding no_callbacks
empty-IsValid = record { slots = refl; id_fits = omega arith; counted = refl }

abbrev reply_11 : Reply
reply_11 = record { cb_fn = some 11; cb_data = some 70; free_fn = some 12 }

-- The JSON of an error text without special characters.
abbrev quoted : Option Bytes → Bytes
quoted none = codes "null"
quoted (some s) = codes "\"" ++ (s ++ codes "\"")

answered_pending :
    (evs_cb decimal quoted no_callbacks 7 none 0 (pos 1)).1
    ≡ some (record {
      ev_path = codes "/qio/callback/7";
      ev_extra = [];
      server_cb = 0;
      json = codes "{\"code\":200,\"data\":null}";
    })
unfolding evs_cb digits
answered_pending = refl

-- A client whose subscription 9 waits for its answer.
abbrev waiting_client : Client
waiting_client = record {
  closing = false;
  subs = some ((9, record { idx = false; pending = true; tombstone = false }) ∷ []);
  refs = λ p. if p == 9 then 1 else 0;
  fair_used = 1;
  offs = [];
}
