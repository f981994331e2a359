-- ===== src/Client/Subs/Refines.antt =====
-- The functions on a client's subscriptions (src/client.c) against the life cycle as a step relation.
use mathlib.Core.Path.{subst, subst₂}
use quick_io.Common.{
  ℕ, ◌+◌, ◌≡◌, ◌≢◌, refl, sym, ap, ◌∙◌, Bool, true, false, ◌==◌, ==_iff, Bool-cases, inl, inr,
  if◌then◌else◌, List, [], ◌∷◌, Option, none, some, length, arith,
}
use quick_io.Client.Subs.Table.{one_if_some, length-others}
use quick_io.Client.Subs.{
  Client, ClientSub, ClientSubState, sub_null, table_of, sub_get, store_sub, sub_cleanup, add_open,
  accept_found, remove_found, client_sub_add, client_sub_accept, client_sub_reject,
  client_sub_remove,
}
use quick_io.Client.Subs.Life.{
  Life, unknown, life, add, accept, reject, remove, next_life, add_answer, accept_answer,
  remove_answer, life_of, Settled, Moves, stays-Moves,
}
use quick_io.Client.Subs.Branches.{add_closing, add_still}
use quick_io.Client.Subs.States.{
  client_sub_add-Moves, client_sub_accept-Moves, client_sub_reject-Moves, client_sub_remove-Moves,
}
use quick_io.Client.Subs.Shares.{Call, adds, accepts, rejects, removes, run, Balanced, run-Balanced}

abbrev pub subject : Call → ℕ
subject (adds fair_use p) = p
subject (accepts p added) = p
subject (rejects p) = p
subject (removes p) = p

-- What may be seen of a client: whether it is closing, the life of each subscription, and how many it
-- has.
pub record View : Type 0 where
  pub closing : Bool
  pub lives : ℕ → Life
  pub size : ℕ

abbrev pub view : Client → View
view c = record { closing = c.closing; lives = life_of c; size = length (table_of c.subs) }

-- What a call returns.
pub data Answer : Type 0 where
  state : ClientSubState → Answer
  removed : Bool → Answer
  nothing : Answer

-- The life that a call moves its subscription to, and what it returns. A closing client takes no new
-- request to subscribe; else quick-event is asked with the number of subscriptions.
abbrev pub next : View → Call → Life
next v (adds fair_use p) =
    if v.closing then v.lives p else next_life (v.lives p) (add (fair_use v.size))
next v (accepts p added) = next_life (v.lives p) (accept added)
next v (rejects p) = next_life (v.lives p) reject
next v (removes p) = next_life (v.lives p) remove

abbrev pub answer : View → Call → Answer
answer v (adds fair_use p) =
    state (if v.closing then sub_null else add_answer (v.lives p) (fair_use v.size))
answer v (accepts p added) = state (accept_answer (v.lives p) added)
answer v (rejects p) = nothing
answer v (removes p) = removed (remove_answer (v.lives p))

abbrev pub counts : Life → ℕ
counts unknown = 0
counts l = 1

-- The step of one call: its subscription moves, no other does, and the size follows.
pub record Step (v m : View) (call : Call) : Type 0 where
  pub open_as_before : m.closing ≡ v.closing
  pub moved : m.lives (subject call) ≡ next v call
  pub others : (q : ℕ) → subject call ≢ q → m.lives q ≡ v.lives q
  pub sized : m.size + counts (v.lives (subject call)) ≡ v.size + counts (m.lives (subject call))

-- Calls one after the other, with what each returns.
pub data Allowed : List Call → List Answer → View → View → Type 0 where
  done : (v : View) → Allowed [] [] v v
  step :
      (call : Call) (calls : List Call) (answers : List Answer) (v m v' : View)
      → Step v m call
      → Allowed calls answers m v'
      → Allowed (call ∷ calls) (answer v call ∷ answers) v v'

abbrev pub AllSettled : Client → Type 0
AllSettled c = (q : ℕ) → Settled (sub_get c q)

Moves-AllSettled : (c d : Client) (p : ℕ) (l : Life) → Moves c d p l → AllSettled c → AllSettled d
Moves-AllSettled c d p l m s q = elim (Bool-cases (p == q)) [
  | inl same ↦ subst (λ (k : ℕ). Settled (sub_get d k)) ((==_iff p q).0 same) m.settled
  | inr other ↦ subst Settled (sym (m.others q (λ e. ground (arith, e)))) (s q)
]

-- The calls one after the other, and what they return.
pub run_each : Client → List Call → Client
unfolding run
run_each c [] = c
run_each c (call ∷ calls) = run_each (run c call) calls

pub returned : Client → Call → Answer
unfolding client_sub_add client_sub_accept client_sub_remove
returned c (adds fair_use p) = state (client_sub_add fair_use c p).1
returned c (accepts p added) = state (client_sub_accept c p added).1
returned c (rejects p) = nothing
returned c (removes p) = removed (client_sub_remove c p).1

pub all_returned : Client → List Call → List Answer
unfolding returned run
all_returned c [] = []
all_returned c (call ∷ calls) = returned c call ∷ all_returned (run c call) calls

counts-life : (o : Option ClientSub) → counts (life o) ≡ one_if_some o
counts-life none = refl
counts-life (some csub) = ground arith

moved-Step :
    (c d : Client) (call : Call)
    → Balanced c
    → Balanced d
    → d.closing ≡ c.closing
    → Moves c d (subject call) (next (view c) call)
    → Step (view c) (view d) call
unfolding sub_get
moved-Step c d call b b' same m =
    let p = subject call in
    record {
      open_as_before = same;
      moved = m.lives;
      others = λ q ne. ap life (m.others q ne);
      sized = omega (
        arith,
        length-others (table_of d.subs) (table_of c.subs) p b'.distinct b.distinct
            (λ q ne. m.others q ne),
        counts-life (sub_get c p),
        counts-life (sub_get d p),
      );
    }

accept_found-closing :
    (c : Client) (p : ℕ) (o : Option ClientSub) (added : Bool)
    → (accept_found c p o added).0.closing ≡ c.closing
unfolding accept_found store_sub sub_cleanup
accept_found-closing c p none added = refl
accept_found-closing c p (some csub) added = ground arith

remove_found-closing :
    (c : Client) (p : ℕ) (o : Option ClientSub) (rejected : Bool)
    → (remove_found c p o rejected).0.closing ≡ c.closing
unfolding remove_found store_sub sub_cleanup
remove_found-closing c p none rejected = refl
remove_found-closing c p (some csub) rejected = ground arith

add_open-closing :
    (c : Client) (p : ℕ) (o : Option ClientSub) (granted : Bool)
    → (add_open c p o granted).0.closing ≡ c.closing
unfolding add_open store_sub
add_open-closing c p (some csub) granted = refl
add_open-closing c p none granted = ground arith

run-closing : (c : Client) (call : Call) → (run c call).closing ≡ c.closing
unfolding run client_sub_accept client_sub_reject client_sub_remove
run-closing c (adds fair_use p) = elim (Bool-cases c.closing) [
  | inl shut ↦ ap (λ (r : Client × ClientSubState). r.0.closing) (add_closing fair_use c p shut)
  | inr still ↦
      ap (λ (r : Client × ClientSubState). r.0.closing) (add_still fair_use c p still)
      ∙ add_open-closing c p (sub_get c p) (fair_use (length (table_of c.subs)))
]
run-closing c (accepts p added) = accept_found-closing c p (sub_get c p) added
run-closing c (rejects p) = remove_found-closing c p (sub_get c p) true
run-closing c (removes p) = remove_found-closing c p (sub_get c p) false

-- What a call does, in one piece.
record Does (c : Client) (call : Call) : Type 0 where
  moves : Moves c (run c call) (subject call) (next (view c) call)
  returns : returned c call ≡ answer (view c) call

run-Does : (c : Client) (call : Call) → Settled (sub_get c (subject call)) → Does c call
unfolding run returned
run-Does c (adds fair_use p) s =
    let (shut, still) = client_sub_add-Moves fair_use c p s in
    elim (Bool-cases c.closing) [
      | inl closing ↦
          let same = shut closing in
          record {
            moves =
                subst₂ (λ (d : Client) (l : Life). Moves c d p l)
                  (sym (ap (λ (r : Client × ClientSubState). r.0) same)) (rw closing refl)
                  (stays-Moves c p (sub_get c p) refl s);
            returns = ap (λ (r : Client × ClientSubState). state r.1) same ∙ rw closing refl;
          }
      | inr open' ↦
          let (m, a) = still open' in
          record {
            moves = subst (Moves c (client_sub_add fair_use c p).0 p) (rw open' refl) m;
            returns = ap state a ∙ rw open' refl;
          }
    ]
run-Does c (accepts p added) s =
    let (m, a) = client_sub_accept-Moves c p added s in record { moves = m; returns = ap state a }
run-Does c (rejects p) s = record { moves = client_sub_reject-Moves c p s; returns = refl }
run-Does c (removes p) s =
    let (m, a) = client_sub_remove-Moves c p s in record { moves = m; returns = ap removed a }

-- Over any sequence of requests to a client whose books are right and in which only pending
-- subscriptions have a tombstone, what may be seen of it follows the life cycle step by step: each
-- request moves the subscription that it is about as its life, the closing of the client and the
-- share that quick-event grants for the number of subscriptions say, it touches no other, and it
-- returns what the life cycle says.
pub run_each-Allowed :
    (c : Client) (calls : List Call)
    → Balanced c
    → AllSettled c
    → Allowed calls (all_returned c calls) (view c) (view (run_each c calls))
unfolding run_each all_returned
run_each-Allowed c [] b s = done (view c)
run_each-Allowed c (call ∷ calls) b s =
    let d = run c call in
    let does = run-Does c call (s (subject call)) in
    let b' = run-Balanced c call b in
    let rest = run_each-Allowed d calls b' (Moves-AllSettled c d (subject call) _ does.moves s) in
    subst
      (λ (a : Answer).
        Allowed (call ∷ calls) (a ∷ all_returned d calls) (view c) (view (run_each d calls)))
      (sym does.returns)
      (step call calls (all_returned d calls) (view c) (view d) (view (run_each d calls))
        (moved-Step c d call b b' (run-closing c call) does.moves) rest)
