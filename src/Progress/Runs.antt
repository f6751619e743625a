-- ===== src/Progress/Runs.antt =====
-- When a timer of an earlier run is stale.
use apod.Base.{
  ℕ, ◌+◌, ◌%◌, ◌≤◌, ◌<◌, ◌≡◌, ◌≢◌, sym, ap, subst, ◌∙◌, String, List, [], ◌∷◌, nat_eq, string_eq,
  nat_beq_iff, arith,
}
use apod.Progress.{ProgressEvent, ProgressHub, begin, emit, forget, u64}
use apod.Progress.Buffer.{emit_all, emit_all-gen, begin-frame, emit-frame}

-- What happens to a domain while a timer is pending: a run begins, or an event is emitted.
pub data Op : Type 0 where
  begin_op : Op
  emit_op : ProgressEvent → ℕ → Op

unfoldable pub run_ops : String → List Op → ProgressHub → ProgressHub
run_ops domain [] h = h
run_ops domain (begin_op ∷ ops) h = run_ops domain ops (begin domain h)
run_ops domain (emit_op ev now ∷ ops) h = run_ops domain ops (emit domain ev now h).0

abbrev pub runs_begun : List Op → ℕ
runs_begun [] = 0
runs_begun (begin_op ∷ ops) = 1 + runs_begun ops
runs_begun (emit_op ev now ∷ ops) = runs_begun ops

run_ops-gen :
    (domain : String) (ops : List Op) (h : ProgressHub)
    → h.gen domain < u64
    → (run_ops domain ops h).gen domain ≡ (h.gen domain + runs_begun ops) % u64
unfolding run_ops
run_ops-gen domain [] h l = omega arith
run_ops-gen domain (begin_op ∷ ops) h l =
    let (_, g) = begin-frame domain h in
    omega (arith, run_ops-gen domain ops (begin domain h) (omega (arith, g)), g)
run_ops-gen domain (emit_op ev now ∷ ops) h l =
    let (_, g, _) = emit-frame domain ev now h in
    run_ops-gen domain ops (emit domain ev now h).0
      (subst (λ (x : String → ℕ). x domain < u64) (sym g) l)
    ∙ ap (λ (x : String → ℕ). (x domain + runs_begun ops) % u64) g

forget-other :
    (domain : String) (g : ℕ) (h : ProgressHub) → h.gen domain ≢ g → forget domain g h ≡ h
unfolding forget
forget-other domain g h n = ground (arith, nat_beq_iff (h.gen domain) g)

forget-own :
    (domain : String) (g : ℕ) (h : ProgressHub)
    → h.gen domain ≡ g
    → ((forget domain g h).buffers domain ≡ []) × ((forget domain g h).gen domain ≡ 0)
unfolding forget
forget-own domain g h e = (
  ground (arith, nat_beq_iff (h.gen domain) g, string_eq.beq_iff domain domain),
  ground (arith, nat_beq_iff (h.gen domain) g, string_eq.beq_iff domain domain),
)

-- A timer that a run started does nothing once another run of the domain has begun, whatever runs and
-- events come between, while no other timer fires before it (and fewer than 2^64 runs begin).
pub forget_stale :
    (domain : String) (ops : List Op) (h : ProgressHub)
    → h.gen domain < u64
    → 1 ≤ runs_begun ops
    → runs_begun ops < u64
    → forget domain (h.gen domain) (run_ops domain ops h) ≡ run_ops domain ops h
forget_stale domain ops h l one few =
    forget-other domain (h.gen domain) (run_ops domain ops h)
      (λ e. omega (arith, e, run_ops-gen domain ops h l))

-- Two timers of the first run of a domain: the first frees the buffer and the counter of runs with it, so
-- the run that begins next has the same number, and when the second timer fires it wipes the buffer
-- of that run, whatever events it holds.
pub forget_wipes_later_run :
    (domain : String) (evs : List (ProgressEvent × ℕ)) (h : ProgressHub)
    → h.gen domain ≡ 1
    → (forget domain 1 (emit_all domain evs (begin domain (forget domain 1 h)))).buffers domain ≡ []
forget_wipes_later_run domain evs h first =
    let freed : ProgressHub = forget domain 1 h in
    let (_, reset) = forget-own domain 1 h first in
    let (_, g) = begin-frame domain freed in
    let same : (emit_all domain evs (begin domain freed)).gen domain ≡ 1 =
      ap (λ (x : String → ℕ). x domain) (emit_all-gen domain evs (begin domain freed))
      ∙ g
      ∙ ap (λ n. (n + 1) % u64) reset in
    (forget-own domain 1 (emit_all domain evs (begin domain freed)) same).0
