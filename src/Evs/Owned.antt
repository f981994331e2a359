-- ===== src/Evs/Owned.antt =====
-- What becomes of the data that an application gives with an answer or an event (src/evs.c).
use quick_io.Common.{ℕ, ◌+◌, ◌<◌, ◌≡◌, ◌==◌, Option, none, Bytes, Bool-cases, inl, inr, arith}
use quick_io.Common.Int.{ℤ, pos}
use quick_io.Wire.{Platform}
use quick_io.Client.Callbacks.Fire.{IsValid}
use quick_io.Client.Callbacks.Owned.{owed, due, client_cb_new-owed}
use quick_io.Client.Callbacks.{Callbacks}
use quick_io.Evs.{EvsCode, Reply, free_reply, new_reply, answer_cb, is_ok, evs_cb_full}

module _ (p : ℕ × ℕ) (c : Callbacks) (reply : Reply) (random : ℕ) (now : ℤ) (v : IsValid c)
    (lt : random < 4) where
  abbrev Owes : Callbacks → Type 0
  Owes c' = owed p c' ≡ owed p c + due reply.cb_data reply.free_fn p

  new_reply-owed : Owes (new_reply c reply random now).0
  unfolding new_reply
  new_reply-owed = client_cb_new-owed p c reply.cb_fn reply.cb_data reply.free_fn random now v lt

  free_reply-owed : Owes (free_reply c reply)
  unfolding free_reply
  free_reply-owed =
      client_cb_new-owed p c none reply.cb_data reply.free_fn 0 (pos 0) v (omega arith)

  answer_cb-owed : (code : EvsCode) → Owes (answer_cb c code reply random now).0
  unfolding answer_cb
  answer_cb-owed code = elim (Bool-cases (is_ok code)) [
    | inl fine ↦ rw fine new_reply-owed
    | inr failed ↦ rw failed free_reply-owed
  ]

-- In a valid state, whatever the answer, with or without a callback of the client to answer to, and an error or not,
-- the data are taken over: one call of their `free_fn` is made or owed.
evs_cb_full-owed :
    (pf : Platform) (json_string : Option Bytes → Bytes) (p : ℕ × ℕ) (c : Callbacks) (client_cb : ℕ)
    (code : EvsCode) (err_msg json : Option Bytes) (reply : Reply) (random : ℕ) (now : ℤ)
    → IsValid c
    → random < 4
    → owed p (evs_cb_full pf json_string c client_cb code err_msg json reply random now).0
      ≡ owed p c + due reply.cb_data reply.free_fn p
unfolding evs_cb_full
evs_cb_full-owed pf json_string p c client_cb code err_msg json reply random now v lt =
    elim (Bool-cases (client_cb == 0)) [
      | inl silent ↦ rw silent (free_reply-owed p c reply random now v lt)
      | inr asked ↦ rw asked (answer_cb-owed p c reply random now v lt code)
    ]
