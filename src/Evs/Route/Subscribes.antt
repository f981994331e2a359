-- ===== src/Evs/Route/Subscribes.antt =====
-- `evs_on` of src/evs.c: what a client is told of the subscription that it asks for.
use mathlib.Core.Path.{subst}
use quick_io.Common.{
  ℕ, ◌≡◌, ◌↔◌, refl, sym, ap, ◌∙◌, Bool, true, false, Option, none, some, Bytes, codes, length,
}
use quick_io.Common.Int.{ℤ}
use quick_io.Wire.{Platform}
use quick_io.Client.Callbacks.{EvsStatus, evs_status_ok, evs_status_err, evs_status_handled}
use quick_io.Client.Subs.Life.{
  Life, unknown, waiting, leaving, active, life_of, Settled, next_life, add, add_answer,
  accept_answer, accept,
}
use quick_io.Client.Subs.States.{
  client_sub_add-Moves, client_sub_accept-Moves, client_sub_reject-Moves,
}
use quick_io.Client.Subs.{
  Client, ClientSubState, table_of, sub_get, client_sub_add, client_sub_accept, client_sub_reject,
}
use quick_io.Evs.{EvsCode, code_ok, code_accepted, code_enhance_calm, evs_cb, evs_err_cb}
use quick_io.Evs.Subscribe.{evs_on_cb, accept_code, reject_code}
use quick_io.Evs.Route.{EventClient, tell, tell_ok, on_state, finish_on, call_on, answer_on, evs_on}

abbrev pub Answer : Type 0
Answer = Option (EvsCode × Option Bytes)

-- OK exactly if the subscription is active, and accepted exactly if it waits; no answer only where
-- `on_fn` said that it gives one itself.
abbrev pub AnswersLife : EvsStatus → Answer → Life → Type 0
AnswersLife status none l = (status ≡ evs_status_handled) × (l ≡ waiting)
AnswersLife status (some (code, err_msg)) l =
    ((code ≡ code_ok) ↔ (l ≡ active)) × ((code ≡ code_accepted) ↔ (l ≡ waiting))

accepted-AnswersLife :
    (status : EvsStatus) (added : Bool)
    → AnswersLife status
        (some (accept_code (accept_answer waiting added), none))
        (next_life waiting (accept added))
accepted-AnswersLife status true = (((λ e. refl), λ e. refl), ((λ e. cc), λ e. cc))
accepted-AnswersLife status false = (((λ e. cc), λ e. cc), ((λ e. cc), λ e. cc))

rejected-AnswersLife :
    (status : EvsStatus) (handle_children : Bool)
    → AnswersLife status (some (reject_code handle_children, none)) unknown
rejected-AnswersLife status true = (((λ e. cc), λ e. cc), ((λ e. cc), λ e. cc))
rejected-AnswersLife status false = (((λ e. cc), λ e. cc), ((λ e. cc), λ e. cc))

module _ (pf : Platform) (json_string : Option Bytes → Bytes) (random : ℕ) (now : ℤ) where
  abbrev pub told : EventClient → ℕ → Answer → EventClient
  unfolding tell
  told x client_cb none = x
  told x client_cb (some (code, err_msg)) = tell pf json_string random now x client_cb code err_msg

  -- The client was told what became of the subscription, and else only its subscriptions changed.
  abbrev pub Told : EvsStatus → EventClient → ℕ → ℕ → EventClient → Type 0
  Told status x p client_cb y =
      (a : Answer) × (y ≡ told (record x { subs = y.subs }) client_cb a)
      × AnswersLife status a (life_of y.subs p)

  told-Told :
      (status : EvsStatus) (x : EventClient) (subs : Client) (p client_cb : ℕ) (a : Answer)
      (l : Life)
      → life_of subs p ≡ l
      → AnswersLife status a l
      → Told status x p client_cb (told (record x { subs = subs }) client_cb a)
  unfolding tell
  told-Told status x subs p client_cb none l e h = (none, refl, rw e h)
  told-Told status x subs p client_cb (some (code, err_msg)) l e h =
      (some (code, err_msg), refl, rw e h)

  finish_on-Told :
      (status : EvsStatus) (handle_children added : Bool) (x : EventClient) (subs : Client)
      (p client_cb : ℕ)
      → life_of subs p ≡ waiting
      → Settled (sub_get subs p)
      → Told status x p client_cb (
          finish_on pf json_string random now p client_cb handle_children added
            (record x { subs = subs }, status))
  unfolding finish_on answer_on evs_on_cb
  finish_on-Told evs_status_ok handle_children added x subs p client_cb w s =
      let (m, answer) = client_sub_accept-Moves subs p added s in
      let r = client_sub_accept subs p added in
      let l' = next_life waiting (accept added) in
      told-Told evs_status_ok x r.0 p client_cb (some (accept_code r.1, none)) l'
        (m.lives ∙ ap (λ (l : Life). next_life l (accept added)) w)
        (subst
          (λ (state : ClientSubState).
            AnswersLife evs_status_ok (some (accept_code state, none)) l')
          (sym (answer ∙ ap (λ (l : Life). accept_answer l added) w))
          (accepted-AnswersLife evs_status_ok added))
  finish_on-Told evs_status_err handle_children added x subs p client_cb w s =
      let m = client_sub_reject-Moves subs p s in
      told-Told evs_status_err x (client_sub_reject subs p) p client_cb
        (some (reject_code handle_children, none)) unknown m.lives
        (rejected-AnswersLife evs_status_err handle_children)
  finish_on-Told evs_status_handled handle_children added x subs p client_cb w s =
      told-Told evs_status_handled x subs p client_cb none waiting w (refl, refl)

  -- What `client_sub_add` left, with its answer, for each state that the subscription was in.
  on_state-Told :
      (status : EvsStatus) (handle_children added : Bool) (x : EventClient) (subs : Client)
      (p client_cb : ℕ) (l : Life) (granted : Bool)
      → life_of subs p ≡ next_life l (add granted)
      → Settled (sub_get subs p)
      → Told status x p client_cb (
          on_state pf json_string random now
            (some (λ y. (y, status)))
            handle_children
            added
            (record x { subs = subs })
            p
            client_cb
            (add_answer l granted))
  unfolding on_state call_on tell tell_ok evs_cb evs_err_cb
  on_state-Told status handle_children added x subs p client_cb unknown true e s =
      finish_on-Told status handle_children added x subs p client_cb e s
  on_state-Told status handle_children added x subs p client_cb unknown false e s =
      told-Told status x subs p client_cb (some (code_enhance_calm, none)) unknown e
        (((λ e. cc), λ e. cc), ((λ e. cc), λ e. cc))
  on_state-Told status handle_children added x subs p client_cb waiting granted e s =
      told-Told status x subs p client_cb
        (some (code_accepted, some (codes "subscription pending"))) waiting e
        (((λ e. cc), λ e. cc), ((λ e. refl), λ e. refl))
  on_state-Told status handle_children added x subs p client_cb leaving granted e s =
      told-Told status x subs p client_cb
        (some (code_accepted, some (codes "subscription pending"))) waiting e
        (((λ e. cc), λ e. cc), ((λ e. refl), λ e. refl))
  on_state-Told status handle_children added x subs p client_cb active granted e s =
      told-Told status x subs p client_cb (some (code_ok, none)) active e
        (((λ e. refl), λ e. refl), ((λ e. cc), λ e. cc))

  -- Where the client is not closing and only a pending subscription has a tombstone, and `on_fn`
  -- returns `status` and does nothing else: `evs_on` gives at most one answer and else changes
  -- only the client's subscriptions. It tells OK exactly if the subscription is active afterwards,
  -- accepted exactly if it waits, and it is silent only where `on_fn` has taken over.
  pub evs_on-Told :
      (status : EvsStatus) (handle_children : Bool) (fair_use : ℕ → Bool) (added : Bool)
      (x : EventClient) (p client_cb : ℕ)
      → x.subs.closing ≡ false
      → Settled (sub_get x.subs p)
      → Told status x p client_cb (
          evs_on pf json_string random now
            (some (λ y. (y, status)))
            handle_children
            fair_use
            added
            x
            p
            client_cb)
  unfolding evs_on
  evs_on-Told status handle_children fair_use added x p client_cb still s =
      let (m, answer) = (client_sub_add-Moves fair_use x.subs p s).1 still in
      let r = client_sub_add fair_use x.subs p in
      let granted = fair_use (length (table_of x.subs.subs)) in
      subst
        (λ (state : ClientSubState). Told status x p client_cb (
          on_state pf json_string random now (some (λ y. (y, status))) handle_children added
            (record x { subs = r.0 }) p client_cb state))
        (sym answer)
        (on_state-Told status handle_children added x r.0 p client_cb (life_of x.subs p) granted
          m.lives m.settled)
