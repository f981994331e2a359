-- ===== src/Qev/Examples.antt =====
-- A client with two callbacks and a subscription, which goes away.
use quick_io.Common.{◌≡◌, refl, true, false, List, [], ◌∷◌, none, some, arith}
use quick_io.Common.Int.{pos}
use quick_io.Wire.{http_done}
use quick_io.Client.Callbacks.Owned.{count}
use quick_io.Client.Subs.Shares
use quick_io.Qev.{qev_client_new}
use quick_io.Qev.Life.{act, registers, takes, returns}
use quick_io.Qev.Whole.{LifeEvent, calls, requests, live_all, born, gone, asked_all, gone-returns}

-- Both callbacks have the data 70, which the function 12 frees; the first is called.
abbrev events : List LifeEvent
events =
    calls (registers (some 11) (some 70) (some 12) 0 (pos 1))
    ∷ (calls (registers (some 13) (some 70) (some 12) 0 (pos 2))
        ∷ (requests (Shares.adds (λ n. true) 9)
            ∷ (calls (takes 1) ∷ (requests (Shares.accepts 9 true) ∷ (calls (returns 0) ∷ [])))))

gone-returns_example :
    let x = gone [] (live_all (born (λ v. 0) (λ v. false)) events).client http_done in
    (count (12, 70) x.callbacks.freed ≡ asked_all (12, 70) events)
    × (x.subs.refs 9 ≡ 0)
    × (x.subs.fair_used ≡ 0)
    × (x.subs.subs ≡ none)
unfolding live_all act qev_client_new
gone-returns_example =
    gone-returns [] (λ v. 0) (λ v. false) events http_done (12, 70) 9
      (omega arith, (omega arith, (tt, (tt, (tt, (tt, tt)))))) refl
