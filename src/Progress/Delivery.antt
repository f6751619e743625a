-- ===== src/Progress/Delivery.antt =====
-- What a subscriber receives.
use apod.Base.{
  ℕ, ◌+◌, ◌≤◌, ◌<◌, ◌≡◌, refl, sym, ap, ◌∙◌, Bool, false, String, Option, some, List, [], ◌∷◌, ◌++◌,
  append-nil, append_assoc, ◌==◌, nat_eq, string_eq, nat_beq_iff, find, any, length, length-append,
  arith, find-none_of_any, find-append_none,
}
use mathlib.Core.Option
use apod.Progress.{
  ProgressEvent, Subscription, ProgressHub, keep_last, stamped, send, send_all, emit, subscribe,
}
use apod.Progress.Buffer.{emit_all, stamp_all, emit-frame, emit_all-buffers}

abbrev has_id : ℕ → Subscription → Bool
has_id id s = s.id == id

-- The queue of a channel.
abbrev pub queue_of : ℕ → List Subscription → Option Subscription
queue_of id subs = find (has_id id) subs

send-id : (ev : ProgressEvent) (s : Subscription) → (send ev s).id ≡ s.id
unfolding send
send-id ev s = ground arith

find-send_all :
    (id : ℕ) (ev : ProgressEvent) (subs : List Subscription)
    → find (has_id id) (send_all ev subs) ≡ Option.map (send ev) (find (has_id id) subs)
unfolding find send_all
find-send_all id ev [] = refl
find-send_all id ev (s ∷ subs) = ground (arith, send-id ev s, find-send_all id ev subs)

send-room :
    (ev : ProgressEvent) (s : Subscription)
    → length s.queue < 256
    → send ev s ≡ record s { queue = s.queue ++ ev ∷ [] }
unfolding send
send-room ev s h = ground arith

-- A channel with room for all the events has them all behind what it had.
emit_all-queue :
    (domain : String) (evs : List (ProgressEvent × ℕ)) (h : ProgressHub) (s : Subscription)
    → queue_of s.id (h.subs domain) ≡ some s
    → length s.queue + length evs ≤ 256
    → queue_of s.id ((emit_all domain evs h).subs domain)
      ≡ some (record s { queue = s.queue ++ stamp_all (h.gen domain) evs })
unfolding emit_all stamp_all
emit_all-queue domain [] h s e l =
    e ∙ ap (λ q. some (record s { queue = q })) (sym (append-nil s.queue))
emit_all-queue domain ((ev, now) ∷ evs) h s e l =
    let h' : ProgressHub = (emit domain ev now h).0 in
    let (_, g, sent) = emit-frame domain ev now h in
    let ev' = stamped (h.gen domain) ev now in
    let s' : Subscription = record s { queue = s.queue ++ ev' ∷ [] } in
    let step : queue_of s.id (h'.subs domain) ≡ some s' =
      ap (find (has_id s.id)) sent
      ∙ find-send_all s.id ev' (h.subs domain)
      ∙ ap (Option.map (send ev')) e
      ∙ ap some (send-room ev' s (omega arith)) in
    emit_all-queue domain evs h' s' step (omega (arith, length-append s.queue (ev' ∷ [])))
    ∙ ap
        (λ (x : String → ℕ).
          some (record s { queue = (s.queue ++ ev' ∷ []) ++ stamp_all (x domain) evs }))
        g
    ∙ ap (λ q. some (record s { queue = q }))
        (append_assoc s.queue (ev' ∷ []) (stamp_all (h.gen domain) evs))

queue-new :
    (id : ℕ)
    → queue_of id (record { id = id; queue = [] } ∷ []) ≡ some (record { id = id; queue = [] })
unfolding find
queue-new id = ground (arith, nat_beq_iff id id)

subscribe-subs :
    (domain : String) (h : ProgressHub)
    → (subscribe domain h).0.subs domain
      ≡ h.subs domain ++ record { id = h.next_id; queue = [] } ∷ []
unfolding subscribe
subscribe-subs domain h = ground (arith, string_eq.beq_iff domain domain)

subscribed :
    (domain : String) (h : ProgressHub)
    → any (has_id h.next_id) (h.subs domain) ≡ false
    → queue_of h.next_id ((subscribe domain h).0.subs domain)
      ≡ some (record { id = h.next_id; queue = [] })
subscribed domain h fresh =
    ap (queue_of h.next_id) (subscribe-subs domain h)
    ∙ find-append_none (has_id h.next_id) (h.subs domain)
        (record { id = h.next_id; queue = [] } ∷ [])
        (find-none_of_any (has_id h.next_id) (h.subs domain) fresh)
    ∙ queue-new h.next_id

-- A subscriber whose channel is new gets every later event of the run, once and in order, if at most 256
-- come before it reads; and the replay with these events ends in exactly what the hub keeps, so none
-- is lost or doubled between the replay and the channel.
pub subscribe-emit_all :
    (domain : String) (evs : List (ProgressEvent × ℕ)) (h : ProgressHub)
    → any (λ s. s.id == h.next_id) (h.subs domain) ≡ false
    → length (h.buffers domain) ≤ 200
    → length evs ≤ 256
    → let (h', (replay, id)) = subscribe domain h in
      let last = emit_all domain evs h' in
      (queue_of id (last.subs domain)
        ≡ some (record { id = id; queue = stamp_all (h.gen domain) evs }))
      × (last.buffers domain ≡ keep_last (replay ++ stamp_all (h.gen domain) evs))
unfolding subscribe
subscribe-emit_all domain evs h fresh short room = (
  emit_all-queue domain evs (subscribe domain h).0 (record { id = h.next_id; queue = [] })
      (subscribed domain h fresh) (omega arith),
  emit_all-buffers domain evs (subscribe domain h).0 short,
)
