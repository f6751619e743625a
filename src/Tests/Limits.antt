-- ===== src/Tests/Limits.antt =====
-- The limits on requests and on open streams.
use apod.Base.{◌≤◌, ◌≡◌, refl, false, none, List, [], ◌∷◌, count, arith, ltb, ◌==◌, string_eq}
use apod.Access.{Request}
use apod.Access.RateLimit.{new_rate_limiter, allow, is_recent, Network}
use apod.Access.RateLimit.Window.{
  Event, request, sweep, run_events, admitted, InOrder, allow-run_events,
}
use apod.Access.RateLimit.Bound.{is_within, admitted_le_limit}
use apod.Access.Streams.{Streams, no_streams, acquire_sse, release_sse}
use apod.Access.Streams.Limits.{Reachable, started, opened, closed}

-- Two requests of one client, one of another, and a round of cleaning.
abbrev events : List Event
events = request "10.0.0.1" 1 ∷ request "10.0.0.2" 2 ∷ request "10.0.0.1" 3 ∷ sweep 5 ∷ []

events-InOrder : InOrder 0 events 6
events-InOrder = (omega arith, (omega arith, (omega arith, (omega arith, omega arith))))

allow-run_events_example :
    (allow (run_events (new_rate_limiter 2 10) events) "10.0.0.1" 6).1
    ≡ ltb (count (is_recent 10 6) (admitted "10.0.0.1" (new_rate_limiter 2 10) events)) 2
allow-run_events_example = allow-run_events 2 10 6 "10.0.0.1" events events-InOrder

admitted_le_limit_example :
    count (is_within 10 6) (admitted "10.0.0.1" (new_rate_limiter 2 10) events) ≤ 2
admitted_le_limit_example = admitted_le_limit 2 10 6 6 "10.0.0.1" events events-InOrder

abbrev network : Network
network = record { host = λ s. s; is_trusted_proxy = λ ip. ip == "127.0.0.1" }

abbrev stranger : Request
stranger = record {
  method = "POST";
  path = "/api/v1/auth/login";
  authorization = "";
  apod_proxied = "";
  forwarded_for = "";
  remote_addr = "10.0.0.1";
  is_unix = false;
  peer_uid = none;
}

-- Two streams of alice, of which the first ends.
abbrev two : Streams
two = (acquire_sse (acquire_sse no_streams "alice").0 "alice").0

one_left : Reachable (release_sse two "alice") ("alice" ∷ [])
unfolding acquire_sse
one_left = closed [] "alice" ("alice" ∷ []) (opened "alice" (opened "alice" started refl) refl)
