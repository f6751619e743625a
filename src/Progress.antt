-- ===== src/Progress.antt =====
-- internal/engine/progress.go: the hub that streams the progress of operations. Its maps are functions
-- from domains, on which a missing key is an empty list or 0; its mutex makes each call one step. A
-- subscriber's channel is the queue of what was sent to it.
pub mod Buffer
pub mod Delivery
pub mod Runs
use apod.Base.{
  ℕ, ◌+◌, ◌-◌, ◌%◌, Bool, not, ◌||◌, String, Option, none, some, List, [], ◌∷◌, ◌++◌, ◌==◌, nat_eq,
  string_eq, if◌then◌else◌, delete_where, length, drop, ltb, leb,
}

-- `ProgressEvent`. A percentage is never negative.
pub record ProgressEvent : Type 0 where
  pub step : String
  pub status : String
  pub detail : String
  pub percent : ℕ
  pub run : ℕ
  pub time : ℕ

-- `Terminal`.
unfoldable pub terminal : ProgressEvent → Bool
terminal ev = ev.status == "error" || leb 100 ev.percent

pub record Subscription : Type 0 where
  pub id : ℕ
  pub queue : List ProgressEvent

-- `progressHub`, with a number for each channel.
pub record ProgressHub : Type 0 where
  pub buffers : String → List ProgressEvent
  pub subs : String → List Subscription
  pub gen : String → ℕ
  pub next_id : ℕ

-- `newProgressHub`.
abbrev pub new_progress_hub : ProgressHub
new_progress_hub = record { buffers = λ k. []; subs = λ k. []; gen = λ k. 0; next_id = 0 }

abbrev pub u64 : ℕ
u64 = 18446744073709551616

-- A map with another value at a key.
abbrev pub at_key {ℓ} : {A : Type ℓ} → (String → A) → String → A → String → A
at_key m key a k = if k == key then a else m k

-- `Begin`.
unfoldable pub begin : String → ProgressHub → ProgressHub
begin domain h = record h {
  buffers = at_key h.buffers domain [];
  gen = at_key h.gen domain ((h.gen domain + 1) % u64);
}

-- The bound on a buffer: the last 200 events.
unfoldable pub keep_last : List ProgressEvent → List ProgressEvent
keep_last buf = drop (length buf - 200) buf

-- The send that never blocks, on a channel for 256 events.
unfoldable pub send : ProgressEvent → Subscription → Subscription
send ev s = if ltb (length s.queue) 256 then record s { queue = s.queue ++ ev ∷ [] } else s

unfoldable pub send_all : ProgressEvent → List Subscription → List Subscription
unfolding send
send_all ev [] = []
send_all ev (s ∷ subs) = send ev s ∷ send_all ev subs

-- The event as it is recorded in a run.
unfoldable pub stamped : ℕ → ProgressEvent → ℕ → ProgressEvent
stamped run ev now = record ev {
  time = if ev.time == 0 then now else ev.time;
  status = if ev.status == "" then "running" else ev.status;
  run = run;
}

-- `Emit`, and the generation of the timer that it starts, if any.
unfoldable pub emit : String → ProgressEvent → ℕ → ProgressHub → ProgressHub × Option ℕ
unfolding stamped keep_last send_all terminal
emit domain ev now h =
    let ev' = stamped (h.gen domain) ev now in
    (
      record h {
        buffers = at_key h.buffers domain (keep_last (h.buffers domain ++ ev' ∷ []));
        subs = at_key h.subs domain (send_all ev' (h.subs domain));
      },
      if terminal ev' then some (h.gen domain) else none,
    )

-- `forget`, which the timer of a generation calls.
unfoldable pub forget : String → ℕ → ProgressHub → ProgressHub
forget domain gen h =
    if not (h.gen domain == gen)
    then h
    else record h { buffers = at_key h.buffers domain []; gen = at_key h.gen domain 0 }

-- `Subscribe`: the replay and the number of the channel.
unfoldable pub subscribe : String → ProgressHub → ProgressHub × (List ProgressEvent × ℕ)
subscribe domain h = (
  record h {
    subs = at_key h.subs domain (h.subs domain ++ record { id = h.next_id; queue = [] } ∷ []);
    next_id = h.next_id + 1;
  },
  (h.buffers domain, h.next_id),
)

-- The `cancel` that it returns.
unfoldable pub cancel : String → ℕ → ProgressHub → ProgressHub
unfolding delete_where
cancel domain id h = record h {
  subs = at_key h.subs domain (delete_where (λ s. s.id == id) (h.subs domain));
}
