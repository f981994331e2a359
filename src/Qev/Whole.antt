-- ===== src/Qev/Whole.antt =====
-- A client from the connection to the end: whatever it did, closing and freeing it returns all.
use quick_io.Common.{ℕ, ◌+◌, ◌≡◌, refl, ap, List, [], ◌∷◌, none, All, Bool, arith}
use quick_io.Wire.{CloseReason}
use quick_io.Protocols.Dispatch.{Protocol, Link}
use quick_io.Client.Callbacks.{ClientCb, no_callbacks}
use quick_io.Client.Callbacks.Fire.{IsValid}
use quick_io.Client.Callbacks.Owned.{count}
use quick_io.Client.Subs.Table.{lookup}
use quick_io.Client.Subs.{sub_get}
use quick_io.Client.Subs.Shares.{Balanced, run, run-Balanced, client_closed-Balanced}
use quick_io.Client.Subs.Shares
use quick_io.Qev.Life.{
  Calls, Act, act, IsFair, asked, open_calls, running_due, act-IsValid, act-open_calls,
  client_free_cbs-open_calls,
}
use quick_io.Qev.{ServerClient, qev_client_new, qev_on_close, qev_client_free}

-- A client with the functions that run for its callbacks.
pub record Living : Type 0 where
  pub client : ServerClient
  pub running : List ClientCb

-- What may happen to a client: its bytes are read or written, its callbacks, its subscriptions.
pub data LifeEvent : Type 0 where
  moves : (Link → Link) → LifeEvent
  calls : Act → LifeEvent
  requests : Shares.Call → LifeEvent

abbrev pub calls_of : Living → Calls
calls_of x = record { callbacks = x.client.callbacks; running = x.running }

unfoldable pub live : Living → LifeEvent → Living
live x (moves f) = record x { client = record x.client { link = f x.client.link } }
live x (calls a) = record {
  client = record x.client { callbacks = (act (calls_of x) a).callbacks };
  running = (act (calls_of x) a).running;
}
live x (requests r) = record x { client = record x.client { subs = run x.client.subs r } }

unfoldable pub live_all : Living → List LifeEvent → Living
unfolding live
live_all x [] = x
live_all x (e ∷ es) = live_all (live x e) es

abbrev pub IsFairEvent : LifeEvent → Type 0
IsFairEvent (calls a) = IsFair a
IsFairEvent other = Unit

-- How many calls of `f` on `d` the registrations ask for.
abbrev pub asked_all : ℕ × ℕ → List LifeEvent → ℕ
asked_all p [] = 0
asked_all p (calls a ∷ es) = asked a p + asked_all p es
asked_all p (moves f ∷ es) = asked_all p es
asked_all p (requests r ∷ es) = asked_all p es

record Sound (x : Living) : Type 0 where
  valid : IsValid x.client.callbacks
  books : Balanced x.client.subs

live-Sound : (x : Living) (e : LifeEvent) → IsFairEvent e → Sound x → Sound (live x e)
unfolding live
live-Sound x (moves f) h s = record { valid = s.valid; books = s.books }
live-Sound x (calls a) h s = record {
  valid = act-IsValid (calls_of x) a h s.valid;
  books = s.books;
}
live-Sound x (requests r) h s = record {
  valid = s.valid;
  books = run-Balanced x.client.subs r s.books;
}

live-open_calls :
    (p : ℕ × ℕ) (x : Living) (e : LifeEvent)
    → IsFairEvent e
    → Sound x
    → open_calls p (calls_of (live x e)) ≡ open_calls p (calls_of x) + asked_all p (e ∷ [])
unfolding live
live-open_calls p x (moves f) h s = omega arith
live-open_calls p x (calls a) h s = omega (arith, act-open_calls p (calls_of x) a h s.valid)
live-open_calls p x (requests r) h s = omega arith

live_all-Sound :
    (x : Living) (es : List LifeEvent) → All IsFairEvent es → Sound x → Sound (live_all x es)
unfolding live_all
live_all-Sound x [] h s = s
live_all-Sound x (e ∷ es) h s = live_all-Sound (live x e) es h.1 (live-Sound x e h.0 s)

asked_all-cons :
    (p : ℕ × ℕ) (e : LifeEvent) (es : List LifeEvent)
    → asked_all p (e ∷ es) ≡ asked_all p (e ∷ []) + asked_all p es
asked_all-cons p (moves f) es = omega arith
asked_all-cons p (calls a) es = omega arith
asked_all-cons p (requests r) es = omega arith

live_all-open_calls :
    (p : ℕ × ℕ) (x : Living) (es : List LifeEvent)
    → All IsFairEvent es
    → Sound x
    → open_calls p (calls_of (live_all x es)) ≡ open_calls p (calls_of x) + asked_all p es
unfolding live_all
live_all-open_calls p x [] h s = omega arith
live_all-open_calls p x (e ∷ es) h s = omega (
  arith,
  live_all-open_calls p (live x e) es h.1 (live-Sound x e h.0 s),
  live-open_calls p x e h.0 s,
  asked_all-cons p e es,
)

-- A client that has just been made.
abbrev pub born : (ℕ → ℕ) → (ℕ → Bool) → Living
born variant_refs floating = record { client = qev_client_new variant_refs floating; running = [] }

born-Sound : (variant_refs : ℕ → ℕ) (floating : ℕ → Bool) → Sound (born variant_refs floating)
unfolding qev_client_new no_callbacks sub_get lookup
born-Sound variant_refs floating = record {
  valid = record { slots = refl; id_fits = omega arith; counted = refl };
  books = record { held = λ p. refl; used = refl; distinct = tt };
}

born-open_calls :
    (p : ℕ × ℕ) (variant_refs : ℕ → ℕ) (floating : ℕ → Bool)
    → open_calls p (calls_of (born variant_refs floating)) ≡ 0
unfolding qev_client_new no_callbacks
born-open_calls p variant_refs floating = omega arith

-- The client after it was closed and freed.
unfoldable pub gone : List Protocol → ServerClient → CloseReason → ServerClient
unfolding qev_on_close qev_client_free
gone ps x reason = qev_client_free (qev_on_close ps x reason)

-- A client is made, and then in any order: its link changes, callbacks are registered, taken to be
-- called and, when their function returns, freed, old ones are pruned, and subscriptions are
-- requested, answered and given up. If no function of a callback is running when it is closed and
-- freed, for whatever reason: each function that frees the data of callbacks has been called on
-- each data exactly as often as registrations asked for, the client holds no reference to any
-- subscription and no unit of the share, and it has no table of subscriptions.
pub gone-returns :
    (ps : List Protocol) (variant_refs : ℕ → ℕ) (floating : ℕ → Bool) (events : List LifeEvent)
    (reason : CloseReason) (p : ℕ × ℕ) (sub : ℕ)
    → All IsFairEvent events
    → (live_all (born variant_refs floating) events).running ≡ []
    → let x = gone ps (live_all (born variant_refs floating) events).client reason in
      (count p x.callbacks.freed ≡ asked_all p events)
      × (x.subs.refs sub ≡ 0)
      × (x.subs.fair_used ≡ 0)
      × (x.subs.subs ≡ none)
unfolding gone qev_on_close qev_client_free
gone-returns ps variant_refs floating events reason p sub fair idle =
    let first = born variant_refs floating in
    let x = live_all first events in
    let s = live_all-Sound first events fair (born-Sound variant_refs floating) in
    let (refs, used, offs, none', books) = client_closed-Balanced x.client.subs s.books in
    (
      omega (
        arith,
        client_free_cbs-open_calls p x.client.callbacks s.valid,
        live_all-open_calls p first events fair (born-Sound variant_refs floating),
        born-open_calls p variant_refs floating,
        ap (running_due p) idle,
      ),
      refs sub,
      used,
      none',
    )
