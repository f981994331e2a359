-- ===== src/Evs/Shared/Examples.antt =====
-- A client that subscribes, is refused once, and unsubscribes, beside another with a subscription.
use quick_io.Common.{
  ℕ, refl, true, false, ◌&&◌, ◌==◌, if◌then◌else◌, equal, equal_iff, List, [], ◌∷◌, none, some,
  codes, arith,
}
use quick_io.Client.Subs.{sub_get, client_sub_accept, client_sub_reject, client_sub_remove}
use quick_io.Client.Subs.Table.{lookup, put, erase}
use quick_io.Sub.Invariant.{Inv}
use quick_io.Evs.Shared.{System}
use quick_io.Evs.Shared.Books.{Books, Keeps}
use quick_io.Evs.Shared.Serve.{Ask, subscribes, unsubscribes, serve, serve_all, serve_all-Keeps}

-- The other client's subscription to the extra "/a" of the event 1.
abbrev others : ℕ → ℕ
others q = if q == 5 then 1 else 0

abbrev shared : System
shared = record {
  store = record {
    heap = λ p. if p == 5 then some (record { ev = 1; ev_extra = codes "/a"; refs = 1 }) else none;
    table = λ e x. if e == 1 && equal x (codes "/a") then some 5 else none;
    total = 1;
    added = 1;
    removed = 0;
  };
  client = record { closing = false; subs = none; refs = λ p. 0; fair_used = 0; offs = [] };
}

shared-Inv : Inv shared.store
shared-Inv = record {
  entry = λ e x p h. (
    record { ev = 1; ev_extra = codes "/a"; refs = 1 },
    ground arith,
    ground arith,
    ground (arith, equal_iff x (codes "/a")),
  );
  live = λ p sub h l. ground (arith, equal_iff sub.ev_extra (codes "/a"));
}

shared-Books : Books others shared
unfolding sub_get lookup
shared-Books = record {
  inv = shared-Inv;
  balanced = record { held = λ p. refl; used = refl; distinct = tt };
  counts = λ q. ground arith;
}

abbrev asks : List Ask
asks =
    subscribes 1 (some (codes "/a")) 6 (λ n. true) (some (true, true))
    ∷ (subscribes 1 none 7 (λ n. true) (some (false, true))
        ∷ (unsubscribes 1 (some (codes "/a")) 8 ∷ []))

serve_all-Keeps_example : Keeps others (serve_all shared asks)
unfolding serve equal lookup client_sub_accept put client_sub_reject client_sub_remove erase
serve_all-Keeps_example =
    serve_all-Keeps others shared asks (λ q. ground arith) (refl, (refl, (refl, tt))) shared-Books
