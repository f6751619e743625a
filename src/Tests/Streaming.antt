-- ===== src/Tests/Streaming.antt =====
-- Progress of operations on one site.
use apod.Base.{ℕ, ◌+◌, ◌%◌, ◌≡◌, refl, String, some, List, [], ◌∷◌, ◌++◌, any, arith}
use apod.Progress.{
  ProgressEvent, ProgressHub, new_progress_hub, begin, emit, forget, subscribe, keep_last, u64,
}
use apod.Progress.Buffer.{emit_all, stamp_all, buffers-begin-emit_all}
use apod.Progress.Delivery.{queue_of, subscribe-emit_all}
use apod.Progress.Runs.{Op, begin_op, emit_op, forget_wipes_later_run}

abbrev pulling : ProgressEvent
pulling = record {
  step = "Pulling images";
  status = "";
  detail = "";
  percent = 10;
  run = 0;
  time = 0;
}

abbrev done : ProgressEvent
done = record { step = "Done"; status = "done"; detail = ""; percent = 100; run = 0; time = 0 }

abbrev evs : List (ProgressEvent × ℕ)
evs = (pulling, 5) ∷ (done, 6) ∷ []

abbrev site : String
site = "a.org"

buffers-begin-emit_all_example :
    (emit_all site evs (begin site new_progress_hub)).buffers site
    ≡ keep_last (stamp_all ((0 + 1) % u64) evs)
buffers-begin-emit_all_example = buffers-begin-emit_all site evs new_progress_hub

subscribe-emit_all_example :
    let (h', (replay, id)) = subscribe site new_progress_hub in
    let last = emit_all site evs h' in
    (queue_of id (last.subs site) ≡ some (record { id = id; queue = stamp_all 0 evs }))
    × (last.buffers site ≡ keep_last (replay ++ stamp_all 0 evs))
unfolding any
subscribe-emit_all_example =
    subscribe-emit_all site evs new_progress_hub refl (omega arith) (omega arith)

-- A timer of the run before waits while a run begins and emits.
abbrev ops : List Op
ops = begin_op ∷ emit_op pulling 7 ∷ []

abbrev finished : ProgressHub
finished = emit_all site evs (begin site new_progress_hub)

first_run : finished.gen site ≡ 1
unfolding emit_all emit begin
first_run = refl

forget_wipes_later_run_example :
    (forget site 1 (emit_all site evs (begin site (forget site 1 finished)))).buffers site ≡ []
forget_wipes_later_run_example = forget_wipes_later_run site evs finished first_run
