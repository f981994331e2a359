-- ===== src/Evs/Subscribe.antt =====
-- `evs_on_cb` of src/evs.c: the answer to a subscription, and what becomes of the subscription.
use mathlib.Core.Path.{subst, subst₂}
use quick_io.Common.{sym, ℕ, ◌≡◌, refl, Bool, true, false, if◌then◌else◌, ◌⊎◌, inl, inr}
use quick_io.Client.Subs.Life.{
  life_of, Settled, Life, leaving, waiting, next_life, unknown, active, accept, accept_answer,
}
use quick_io.Client.Subs.States.{client_sub_accept-Moves, client_sub_reject-Moves}
use quick_io.Client.Subs.{
  Client, ClientSubState, sub_null, sub_get, client_sub_accept, client_sub_reject,
}
use quick_io.Evs.{EvsCode, code_ok, code_not_found, code_unauth, code_enhance_calm}

-- The `switch` on what `client_sub_accept` returns.
abbrev pub accept_code : ClientSubState → EvsCode
accept_code sub_null = code_enhance_calm
accept_code state = code_ok

abbrev pub reject_code : Bool → EvsCode
reject_code handle_children = if handle_children then code_not_found else code_unauth

-- The client, and the code of the answer. `added` is what `qev_list_add` returns.
unfoldable pub evs_on_cb : Client → ℕ → Bool → Bool → Bool → Client × EvsCode
unfolding client_sub_accept client_sub_reject
evs_on_cb c p true handle_children added =
    let (c', state) = client_sub_accept c p added in (c', accept_code state)
evs_on_cb c p false handle_children added = (client_sub_reject c p, reject_code handle_children)

-- What the answer says of a subscription whose life was `l` and is `l'`.
abbrev pub TellsLife : EvsCode → Life → Life → Type 0
TellsLife code l l' =
    (code ≡ code_ok → (l' ≡ active) ⊎ (l ≡ leaving)) × (l' ≡ active → code ≡ code_ok)

accepted-TellsLife :
    (l : Life) (added : Bool)
    → TellsLife (accept_code (accept_answer l added)) l (next_life l (accept added))
accepted-TellsLife unknown added = ((λ e. cc), λ e. cc)
accepted-TellsLife waiting true = ((λ e. inl refl), λ e. refl)
accepted-TellsLife waiting false = ((λ e. cc), λ e. cc)
accepted-TellsLife leaving true = ((λ e. inr refl), λ e. cc)
accepted-TellsLife leaving false = ((λ e. cc), λ e. cc)
accepted-TellsLife active true = ((λ e. inl refl), λ e. refl)
accepted-TellsLife active false = ((λ e. cc), λ e. cc)

rejected-TellsLife :
    (handle_children : Bool) (l : Life) → TellsLife (reject_code handle_children) l unknown
rejected-TellsLife true l = ((λ e. cc), λ e. cc)
rejected-TellsLife false l = ((λ e. cc), λ e. cc)

-- Where only a pending subscription has a tombstone: a client that is told OK has the subscription active, unless it had unsubscribed while the answer
-- was awaited; and whoever has it active after the answer was told OK. Any refusal is told as an
-- error.
pub evs_on_cb-TellsLife :
    (c : Client) (p : ℕ) (success handle_children added : Bool)
    → Settled (sub_get c p)
    → let r = evs_on_cb c p success handle_children added in
      TellsLife r.1 (life_of c p) (life_of r.0 p)
unfolding evs_on_cb
evs_on_cb-TellsLife c p true handle_children added s =
    let (moves, answer) = client_sub_accept-Moves c p added s in
    subst₂ (λ (state : ClientSubState) (l : Life). TellsLife (accept_code state) (life_of c p) l)
      (sym answer) (sym moves.lives) (accepted-TellsLife (life_of c p) added)
evs_on_cb-TellsLife c p false handle_children added s =
    let moves = client_sub_reject-Moves c p s in
    subst (TellsLife (reject_code handle_children) (life_of c p)) (sym moves.lives)
      (rejected-TellsLife handle_children (life_of c p))
