-- ===== src/Qev/Life.antt =====
-- What a client's callbacks may do between src/client.c's functions: a call of an application's
-- function takes time, and other functions run before it returns.
use quick_io.Common.{ℕ, zero, suc, ◌+◌, ◌<◌, ◌≡◌, refl, List, [], ◌∷◌, Option, none, some, arith}
use quick_io.Common.Int.{ℤ}
use quick_io.Client.Callbacks.{
  ClientCb, Callbacks, cb_data_free, slot, client_cb_new, take_cb, client_cb_prune, client_free_cbs,
}
use quick_io.Client.Callbacks.Fire.{IsValid, client_cb_new-IsValid}
use quick_io.Client.Callbacks.Owned.{
  due, due_in, count, held, owed, client_cb_new-owed, take_cb-owed, count-cb_data_free,
}
use quick_io.Client.Callbacks.Valid.{take_cb-IsValid, client_cb_prune-IsValid}
use quick_io.Client.Callbacks.Sweep.{client_cb_prune-slot, client_free_cbs-slot}

-- The callbacks of a client, and those that were taken out and whose function has not returned.
pub record Calls : Type 0 where
  pub callbacks : Callbacks
  pub running : List ClientCb

-- `client_cb_new`, the two halves of `client_cb_fire` around the application's function, and
-- `client_cb_prune`. Which of the running functions returns is a place in the list.
pub data Act : Type 0 where
  registers : Option ℕ → Option ℕ → Option ℕ → ℕ → ℤ → Act
  takes returns : ℕ → Act
  prunes : ℤ → Act

abbrev pub nth : List ClientCb → ℕ → Option ClientCb
nth [] i = none
nth (cb ∷ cbs) zero = some cb
nth (cb ∷ cbs) (suc i) = nth cbs i

abbrev pub without : List ClientCb → ℕ → List ClientCb
without [] i = []
without (cb ∷ cbs) zero = cbs
without (cb ∷ cbs) (suc i) = cb ∷ without cbs i

abbrev pub started : Option ClientCb → List ClientCb → List ClientCb
started none running = running
started (some cb) running = cb ∷ running

abbrev pub freed_with : Option ClientCb → Callbacks → Callbacks
freed_with none c = c
freed_with (some cb) c = record c { freed = cb_data_free cb.cb_data cb.free_fn c.freed }

unfoldable pub act : Calls → Act → Calls
unfolding client_cb_new take_cb client_cb_prune
act x (registers cb_fn cb_data free_fn random now) = record x {
  callbacks = (client_cb_new x.callbacks cb_fn cb_data free_fn random now).0;
}
act x (takes key) = record {
  callbacks = (take_cb x.callbacks key).0;
  running = started (take_cb x.callbacks key).1 x.running;
}
act x (returns i) = record {
  callbacks = freed_with (nth x.running i) x.callbacks;
  running = without x.running i;
}
act x (prunes before) = record x { callbacks = client_cb_prune x.callbacks before }

-- The slot that is picked at random is one of four.
abbrev pub IsFair : Act → Type 0
IsFair (registers cb_fn cb_data free_fn random now) = random < 4
IsFair other = Unit

-- What an act adds to the calls of `f` on `d` that have to be made.
abbrev pub asked : Act → ℕ × ℕ → ℕ
asked (registers cb_fn cb_data free_fn random now) p = due cb_data free_fn p
asked other p = 0

abbrev pub running_due : ℕ × ℕ → List ClientCb → ℕ
running_due p [] = 0
running_due p (cb ∷ cbs) = due_in (some cb) p + running_due p cbs

-- The calls that were made, are owed, or wait for a function to return.
abbrev pub open_calls : ℕ × ℕ → Calls → ℕ
open_calls p x = owed p x.callbacks + running_due p x.running

running_due-started :
    (p : ℕ × ℕ) (o : Option ClientCb) (cbs : List ClientCb)
    → running_due p (started o cbs) ≡ due_in o p + running_due p cbs
running_due-started p none cbs = omega arith
running_due-started p (some cb) cbs = refl

running_due-without :
    (p : ℕ × ℕ) (cbs : List ClientCb) (i : ℕ)
    → running_due p (without cbs i) + due_in (nth cbs i) p ≡ running_due p cbs
running_due-without p [] i = refl
running_due-without p (cb ∷ cbs) zero = omega arith
running_due-without p (cb ∷ cbs) (suc i) = omega (arith, running_due-without p cbs i)

owed-freed_with :
    (p : ℕ × ℕ) (o : Option ClientCb) (c : Callbacks)
    → owed p (freed_with o c) ≡ owed p c + due_in o p
owed-freed_with p none c = omega arith
owed-freed_with p (some cb) c = omega (arith, count-cb_data_free p cb.cb_data cb.free_fn c.freed)

freed_with-IsValid : (o : Option ClientCb) (c : Callbacks) → IsValid c → IsValid (freed_with o c)
freed_with-IsValid none c v = v
freed_with-IsValid (some cb) c v = record {
  slots = v.slots;
  id_fits = v.id_fits;
  counted = v.counted;
}

pub act-IsValid :
    (x : Calls) (a : Act) → IsFair a → IsValid x.callbacks → IsValid (act x a).callbacks
unfolding act
act-IsValid x (registers cb_fn cb_data free_fn random now) h v =
    client_cb_new-IsValid x.callbacks cb_fn cb_data free_fn random now v h
act-IsValid x (takes key) h v = take_cb-IsValid x.callbacks key v
act-IsValid x (returns i) h v = freed_with-IsValid (nth x.running i) x.callbacks v
act-IsValid x (prunes before) h v = client_cb_prune-IsValid x.callbacks before v

-- Each act opens the calls that it asks for, and closes none but by making it.
pub act-open_calls :
    (p : ℕ × ℕ) (x : Calls) (a : Act)
    → IsFair a
    → IsValid x.callbacks
    → open_calls p (act x a) ≡ open_calls p x + asked a p
unfolding act
act-open_calls p x (registers cb_fn cb_data free_fn random now) h v =
    omega (arith, client_cb_new-owed p x.callbacks cb_fn cb_data free_fn random now v h)
act-open_calls p x (takes key) h v = omega (
  arith,
  take_cb-owed p x.callbacks key v.slots,
  running_due-started p (take_cb x.callbacks key).1 x.running,
)
act-open_calls p x (returns i) h v =
    omega
      (arith, owed-freed_with p (nth x.running i) x.callbacks, running_due-without p x.running i)
act-open_calls p x (prunes before) h v =
    omega (arith, (client_cb_prune-slot x.callbacks before 0 v).1 p)

held_none : (p : ℕ × ℕ) (xs : List (Option ClientCb)) → ((j : ℕ) → slot xs j ≡ none) → held p xs ≡ 0
held_none p [] h = refl
held_none p (none ∷ xs) h = omega (arith, held_none p xs (λ j. h (suc j)))
held_none p (some cb ∷ xs) h = absurd (none_ne (h 0))
  where
    none_ne : ◌≡◌ {A = Option ClientCb} (some cb) none → ⊥
    none_ne e = cc

-- When the client is freed and no function runs, every call that was open has been made.
pub client_free_cbs-open_calls :
    (p : ℕ × ℕ) (c : Callbacks) → IsValid c → count p (client_free_cbs c).freed ≡ owed p c
client_free_cbs-open_calls p c v = omega (
  arith,
  (client_free_cbs-slot c 0 v).1 p,
  held_none p (client_free_cbs c).cbs (λ j. (client_free_cbs-slot c j v).0),
)
