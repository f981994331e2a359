-- ===== src/Evs/Broadcast/Examples.antt =====
-- Two broadcasts in the queue, and a raw client that subscribes to the first.
use quick_io.Common.{ℕ, ◌==◌, ◌≡◌, refl, if◌then◌else◌, List, none, some, [], ◌∷◌, ◌++◌, map, codes}
use quick_io.Common.Int.{pos}
use quick_io.Wire.Examples.{decimal}
use quick_io.Protocols.Dispatch.Table.{protocols, flash, raw}
use quick_io.Protocols.Dispatch.Session.{connected, shaken_hands}
use quick_io.Evs.Broadcast.{
  Casting, evs_broadcast_tick, sub_of, sent_each, evs_broadcast_tick-protocols_send,
}

abbrev two_casts : Casting
two_casts = record {
  queue =
      record { sub = 7; ev_path = codes "/news"; ev_extra = codes "/de"; json = codes "1" }
      ∷ (record { sub = 9; ev_path = codes "/mail"; ev_extra = []; json = codes "2" } ∷ []);
  links = λ i. shaken_hands (pos 5);
  released = [];
}

-- Client 0 subscribes to the first.
abbrev one_subscriber : ℕ → List ℕ
one_subscriber sub = if sub == 7 then 0 ∷ [] else []

evs_broadcast_tick-protocols_send_example :
    (d : Casting) × (evs_broadcast_tick (protocols decimal flash) (pos 9) one_subscriber two_casts
      ≡ some d)
    × (d.queue ≡ [])
    × (d.released ≡ [] ++ map sub_of two_casts.queue)
    × ((i : ℕ)
        → d.links i
          ≡ sent_each
              (protocols decimal flash)
              (pos 9)
              one_subscriber
              i
              two_casts.queue
              (shaken_hands (pos 5)))
evs_broadcast_tick-protocols_send_example =
    evs_broadcast_tick-protocols_send (protocols decimal flash) (pos 9) one_subscriber two_casts
      (((raw decimal, refl), tt), (tt, tt))

-- A subscriber that has no protocol is read through NULL.
no_protocol :
    evs_broadcast_tick
      (protocols decimal flash)
      (pos 9)
      one_subscriber
      (record two_casts { links = λ i. connected })
    ≡ none
unfolding evs_broadcast_tick
no_protocol = refl
