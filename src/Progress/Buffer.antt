-- ===== src/Progress/Buffer.antt =====
-- The replay buffer of a run.
use apod.Base.{
  ℕ, zero, suc, ◌+◌, ◌-◌, ◌%◌, ◌≤◌, ◌≡◌, refl, sym, ap, subst, ◌∙◌, String, List, [], ◌∷◌, ◌++◌,
  append-nil, append_assoc, nat_eq, string_eq, length, drop, length-append, length-drop, arith,
}
use apod.Progress.{ProgressEvent, ProgressHub, begin, keep_last, stamped, emit, send_all, u64}

-- Events of one domain, each with the time of its call.
unfoldable pub emit_all : String → List (ProgressEvent × ℕ) → ProgressHub → ProgressHub
emit_all domain [] h = h
emit_all domain ((ev, now) ∷ evs) h = emit_all domain evs (emit domain ev now h).0

-- The events as a run records them.
unfoldable pub stamp_all : ℕ → List (ProgressEvent × ℕ) → List ProgressEvent
unfolding stamped
stamp_all run [] = []
stamp_all run ((ev, now) ∷ evs) = stamped run ev now ∷ stamp_all run evs

drop-append :
    (k : ℕ) (xs ys : List ProgressEvent) → k ≤ length xs → drop k (xs ++ ys) ≡ drop k xs ++ ys
drop-append zero xs ys h = refl
drop-append (suc k) [] ys h = absurd (omega arith)
drop-append (suc k) (x ∷ xs) ys h = drop-append k xs ys (omega arith)

drop-nil : (k : ℕ) → ◌≡◌ {A = List ProgressEvent} (drop k []) []
drop-nil zero = refl
drop-nil (suc k) = refl

drop-drop : (k m : ℕ) (xs : List ProgressEvent) → drop m (drop k xs) ≡ drop (k + m) xs
drop-drop zero m xs = let e : m ≡ 0 + m = omega arith in ap (λ n. drop n xs) e
drop-drop (suc k) m [] = drop-nil m ∙ sym (drop-nil (suc k + m))
drop-drop (suc k) m (x ∷ xs) =
    let e : suc (k + m) ≡ suc k + m = omega arith in
    subst (λ n. drop m (drop k xs) ≡ drop n (x ∷ xs)) e (drop-drop k m xs)

keep_last-keep_last :
    (xs ys : List ProgressEvent) → keep_last (keep_last xs ++ ys) ≡ keep_last (xs ++ ys)
unfolding keep_last
keep_last-keep_last xs ys =
    let k = length xs - 200 in
    let together = drop-append k xs ys (omega arith) in
    let m = length (drop k xs ++ ys) - 200 in
    subst (λ zs. drop (length zs - 200) zs ≡ drop (length (xs ++ ys) - 200) (xs ++ ys)) together
      (drop-drop k (length (drop k (xs ++ ys)) - 200) (xs ++ ys)
        ∙ ap (λ n. drop n (xs ++ ys))
            (omega (arith, length-drop k (xs ++ ys), length-append xs ys)))

keep_last-short : (xs : List ProgressEvent) → length xs ≤ 200 → keep_last xs ≡ xs
unfolding keep_last
keep_last-short xs h = let e : length xs - 200 ≡ 0 = omega arith in ap (λ n. drop n xs) e

pub length-keep_last : (xs : List ProgressEvent) → length (keep_last xs) ≤ 200
unfolding keep_last
length-keep_last xs = omega (arith, length-drop (length xs - 200) xs)

pub emit-frame :
    (domain : String) (ev : ProgressEvent) (now : ℕ) (h : ProgressHub)
    → ((emit domain ev now h).0.buffers domain
        ≡ keep_last (h.buffers domain ++ stamped (h.gen domain) ev now ∷ []))
      × ((emit domain ev now h).0.gen ≡ h.gen)
      × ((emit domain ev now h).0.subs domain
          ≡ send_all (stamped (h.gen domain) ev now) (h.subs domain))
unfolding emit
emit-frame domain ev now h = (
  ground (arith, string_eq.beq_iff domain domain),
  refl,
  ground (arith, string_eq.beq_iff domain domain),
)

pub emit_all-buffers :
    (domain : String) (evs : List (ProgressEvent × ℕ)) (h : ProgressHub)
    → length (h.buffers domain) ≤ 200
    → (emit_all domain evs h).buffers domain
      ≡ keep_last (h.buffers domain ++ stamp_all (h.gen domain) evs)
unfolding emit_all stamp_all
emit_all-buffers domain [] h l =
    sym (ap keep_last (append-nil (h.buffers domain)) ∙ keep_last-short (h.buffers domain) l)
emit_all-buffers domain ((ev, now) ∷ evs) h l =
    let h' : ProgressHub = (emit domain ev now h).0 in
    let (b, g, _) = emit-frame domain ev now h in
    let e = stamped (h.gen domain) ev now in
    let rest =
      emit_all-buffers domain evs h'
        (subst (λ x. length x ≤ 200) (sym b) (length-keep_last (h.buffers domain ++ e ∷ []))) in
    rest
    ∙ ap (λ x. keep_last (x ++ stamp_all (h'.gen domain) evs)) b
    ∙ keep_last-keep_last (h.buffers domain ++ e ∷ []) (stamp_all (h'.gen domain) evs)
    ∙ ap keep_last (append_assoc (h.buffers domain) (e ∷ []) (stamp_all (h'.gen domain) evs))
    ∙ ap (λ (x : String → ℕ). keep_last (h.buffers domain ++ e ∷ stamp_all (x domain) evs)) g

pub begin-frame :
    (domain : String) (h : ProgressHub)
    → ((begin domain h).buffers domain ≡ [])
      × ((begin domain h).gen domain ≡ (h.gen domain + 1) % u64)
unfolding begin
begin-frame domain h = (
  ground (arith, string_eq.beq_iff domain domain),
  ground (arith, string_eq.beq_iff domain domain),
)

-- A run that begins and emits any events keeps exactly the last 200 of them for a replay, in order and
-- under the number of the new run: no event of an earlier run is left.
pub buffers-begin-emit_all :
    (domain : String) (evs : List (ProgressEvent × ℕ)) (h : ProgressHub)
    → (emit_all domain evs (begin domain h)).buffers domain
      ≡ keep_last (stamp_all ((h.gen domain + 1) % u64) evs)
buffers-begin-emit_all domain evs h =
    let (buf, gen) = begin-frame domain h in
    emit_all-buffers domain evs (begin domain h)
      (subst (λ x. length x ≤ 200) (sym buf) (omega arith))
    ∙ ap (λ x. keep_last (x ++ stamp_all ((begin domain h).gen domain) evs)) buf
    ∙ ap (λ n. keep_last (stamp_all n evs)) gen

pub emit_all-gen :
    (domain : String) (evs : List (ProgressEvent × ℕ)) (h : ProgressHub)
    → (emit_all domain evs h).gen ≡ h.gen
unfolding emit_all
emit_all-gen domain [] h = refl
emit_all-gen domain ((ev, now) ∷ evs) h =
    let (_, g, _) = emit-frame domain ev now h in
    emit_all-gen domain evs (emit domain ev now h).0 ∙ g
