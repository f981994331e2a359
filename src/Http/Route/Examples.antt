-- ===== src/Http/Route/Examples.antt =====
-- A surrogate (0), the poller that waits for it (1), and a second request for the surrogate (2).
use quick_io.Common.{
  ℕ, zero, suc, ◌≡◌, refl, true, false, ◌&&◌, ◌==◌, ltb, if◌then◌else◌, [], ◌∷◌, ◌++◌, List, some,
  Bytes, codes, equal, none, Option, arith,
}
use quick_io.Common.Int.{ℤ, pos}
use quick_io.Wire.{Effect, routes, closes, http_bad_request}
use quick_io.Wire.Examples.{decimal, decimal-Lawful, digits}
use quick_io.Raw.{protocol_raw_format}
use quick_io.Protocols.Events.{Message, routed}
use quick_io.Protocols.Stream.{all_effects}
use quick_io.Client.Subs.Table.{lookup}
use quick_io.Http.Text.{strstr, lines, status_responses}
use quick_io.Http.Session.{World, surr_find, url_sid}
use quick_io.Http.Session.Ids.{hex_digits, url_sid-hex_digits}
use quick_io.Http.Session.Filed.{Filed, Answers, surr_find-Filed}
use quick_io.Http.Poll.{
  Peers, nobody, peer, points_at, protocol_http_send, surr_send, close_peer, change, touch,
}
use quick_io.Http.Poll.Counts.{Counted}
use quick_io.Http.Poll.Calls.{Call, sends, ends, answers, run_calls, run_calls-Counted}
use quick_io.Http.Poll.Due.{due}
use quick_io.Http.Poll.Owed.{run_calls-due}
use quick_io.Http.Poll.Measures.{only_if}
use quick_io.Http.Poll.Delivery.{taker, is_none, protocol_http_send-Delivers, surr_send-asked}
use quick_io.Http.Route.{handle_lines, run_all}
use quick_io.Http.Route.Request.{HttpRequest}
use quick_io.Http.Route.Request.Refs.{Serves}
use quick_io.Http.Route.Request.Turns.{Turn, requests, run_turns, run_turns-Serves}
use quick_io.Http.Poll.Within.{Alive}
use quick_io.Http.Poll.Sound.{Sound, change-Sound, protocol_http_send-Sound}
use quick_io.Http.Route.Events.{http_body, handle_lines-http_body}

abbrev waiting : Peers
waiting =
    record nobody { http_client = some 1; refs = 3 }
    ∷ (record nobody { http_client = some 0; in_request = true; keep_alive = true; refs = 2 }
        ∷ (record nobody { http_client = some 0; in_request = true; is_post = true; refs = 1 }
            ∷ []))

-- quick-event's reference to each.
abbrev base : ℕ → ℕ
base p = if ltb p 3 then 1 else 0

waiting-Counted : Counted base waiting
waiting-Counted zero = refl
waiting-Counted (suc zero) = refl
waiting-Counted (suc (suc zero)) = refl
waiting-Counted (suc (suc (suc p))) = ground arith

abbrev event : Bytes
event = codes "/test:0=null"

abbrev calls : List (ℤ × Call)
calls =
    (pos 5, sends 0 (codes "OK") event)
    ∷ ((pos 6, answers 0 2 (codes "OK")) ∷ ((pos 7, ends 2 false http_bad_request) ∷ []))

abbrev empty_responses : Bytes → Bytes
empty_responses page = page

run_calls-Counted_example :
    Counted base (run_calls (status_responses decimal (codes "no")) waiting calls)
run_calls-Counted_example =
    run_calls-Counted (status_responses decimal (codes "no")) base waiting calls
      (tt, ((omega arith, omega arith), (tt, tt))) waiting-Counted

run_calls-due_example :
    due (peer (run_calls (status_responses decimal (codes "no")) waiting calls) 2)
    ≡ due (peer waiting 2)
run_calls-due_example = run_calls-due (status_responses decimal (codes "no")) waiting calls 2

protocol_http_send-Delivers_example :
    let t = protocol_http_send (pos 5) (status_responses decimal []) waiting 0 (codes "OK") event in
    ((peer t 1).out ≡ (peer waiting 1).out ++ only_if (points_at (taker waiting 0) 1) (codes "OK"))
    × ((peer t 1).pending
        ≡ (peer waiting 1).pending ++ only_if (is_none (taker waiting 0) && 0 == 1) event)
protocol_http_send-Delivers_example =
    protocol_http_send-Delivers (pos 5) (status_responses decimal []) waiting 0 (codes "OK") event
      (omega arith) 1

surr_send-asked_example :
    (surr_send (pos 5) (status_responses decimal []) waiting 0 2 (codes "OK")).1 ≡ true
surr_send-asked_example =
    surr_send-asked (pos 5) (status_responses decimal []) waiting 0 2 (codes "OK") refl

abbrev poll_url : Bytes
poll_url = codes "/?sid=" ++ (hex_digits 32 0xc0ffee ++ codes "&connect=true")

url_sid-hex_digits_example : url_sid poll_url ≡ some 0xc0ffee
unfolding strstr
url_sid-hex_digits_example =
    url_sid-hex_digits poll_url (codes "&connect=true") 0xc0ffee refl (omega arith)

abbrev no_sessions : World
no_sessions = record { peers = []; clients = λ i. [] }

surr_find-Filed_example :
    let r = surr_find no_sessions 0xc0ffee true true (pos 5) in Filed r.0 × Answers r.0 0xc0ffee r.1
surr_find-Filed_example =
    surr_find-Filed no_sessions 0xc0ffee true true (pos 5) (λ i sid q e. unfold lookup in cc)

-- An event is answered with another; a close is noted.
abbrev echo : Peers → ℕ → Effect → Peers
echo s q (routes path cb json) =
    protocol_http_send (pos 5) (status_responses decimal []) s q (codes "OK") event
echo s q (closes reason) = change s q (close_peer reason)
echo s q call = s

echo-Sound :
    (base : ℕ → ℕ) (s : Peers) (q : ℕ) (e : Effect) → Sound base s → Sound base (echo s q e)
echo-Sound base s q (routes path cb json) c =
    protocol_http_send-Sound (pos 5) (status_responses decimal []) base s q (codes "OK") event c
echo-Sound base s q (closes reason) c =
    change-Sound base s q (close_peer reason) (λ x. (refl, refl)) c
echo-Sound base s q (Effect.writes bytes) c = c
echo-Sound base s q Effect.challenges c = c

waiting-Sound : Sound base waiting
waiting-Sound = record { counted = waiting-Counted; within = at }
  where
    at : (p : ℕ) → Alive base (peer waiting p).http_client
    at zero q e = ground arith
    at (suc zero) q e = ground arith
    at (suc (suc zero)) q e = ground arith
    at (suc (suc (suc p))) q e = cc

-- A request for a session that is not there yet, which it asks to create.
abbrev connect : HttpRequest
connect = record {
  parsed = true;
  headers_incomplete = false;
  method = codes "POST";
  url = poll_url;
  version = 1;
  header = λ name. if equal name (codes "Content-Length") then some (codes "13") else none;
  body = 4;
}

abbrev waiting_world : World
waiting_world = record { peers = waiting; clients = λ i. [] }

abbrev to_13 : Bytes → Option ℕ
to_13 text = some 13

-- The second poller's body, then a request for a new session of the first poller, and what may come
-- between them.
abbrev turns : List (ℤ × Turn)
turns =
    (pos 5, requests 2 (codes "POST/test:1=null\n") 0 true)
    ∷ ((pos 6, Turn.sends 0 (codes "OK") event)
        ∷ ((pos 7, Turn.ends 0 true http_bad_request)
            ∷ ((pos 8, requests 1 (codes "POST/test:2=null\n") 0 true) ∷ [])))

run_turns-Serves_example : Serves base (
    run_turns decimal
      (status_responses decimal [])
      (λ now. echo)
      (λ bytes. connect)
      to_13
      (λ now s p key. change s p (touch now))
      (some (codes "page"))
      waiting_world
      turns)
run_turns-Serves_example =
    run_turns-Serves decimal (status_responses decimal []) (λ now. echo) (λ bytes. connect) to_13
      (λ now s p key. change s p (touch now)) (some (codes "page"))
      (λ now base s p key c. change-Sound base s p (touch now) (λ x. (refl, refl)) c)
      (λ now. echo-Sound) base waiting_world turns (omega arith, (tt, (tt, (omega arith, tt))))
      (record { sound = waiting-Sound; live = λ i sid q e. unfold lookup in cc })

abbrev ping : Message
ping = record { path = codes "/qio/ping"; extra = []; cb = 1; json = codes "null" }

abbrev subscribe : Message
subscribe = record { path = codes "/qio"; extra = codes "/on"; cb = 2; json = codes "\"/test\"" }

handle_lines-http_body_example :
    handle_lines
      (pos 5)
      decimal
      (status_responses decimal [])
      echo
      waiting
      0
      (lines (http_body decimal (ping ∷ subscribe ∷ [])))
    ≡ (
      run_all
          (pos 5)
          decimal
          (status_responses decimal [])
          echo
          waiting
          0
          (all_effects routed (ping ∷ subscribe ∷ [])),
      true,
    )
unfolding protocol_raw_format digits
handle_lines-http_body_example =
    handle_lines-http_body decimal decimal-Lawful (pos 5) (status_responses decimal []) echo waiting
      0 (ping ∷ subscribe ∷ []) (omega arith)
