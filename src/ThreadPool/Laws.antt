-- ===== src/ThreadPool/Laws.antt =====
-- Every submitted task runs exactly once, and what waitForCompletion means.
use file_sync_tool.Base.{
  ℕ, zero, suc, ◌+◌, ◌-◌, ◌<◌, ◌≡◌, refl, sym, ap, ◌∙◌, subst, none, some, List, [], ◌∷◌, ◌++◌,
  arith, length, length-append, replicate, ◌==◌, if◌then◌else◌, unwrap, none≢some, inl, inr,
  Bool-cases, ==_iff, ◌↔◌, true, All,
}
use file_sync_tool.ThreadPool.{
  Shared, Worker, looking, waiting, doing, gone, Pool, new_pool, submit, stop, take_task,
  worker_step, is_complete, Step, submits, stops, resizes, works, IsGone, Run, here, then_,
}

-- How often a task stands in a list, and whether a worker has it in hand.
abbrev pub count : ℕ → List ℕ → ℕ
count t [] = 0
count t (x ∷ xs) = (if t == x then 1 else 0) + count t xs

abbrev pub in_hand : ℕ → List Worker → ℕ
in_hand t [] = 0
in_hand t (doing x ∷ ws) = (if t == x then 1 else 0) + in_hand t ws
in_hand t (looking ∷ ws) = in_hand t ws
in_hand t (waiting ∷ ws) = in_hand t ws
in_hand t (gone ∷ ws) = in_hand t ws

abbrev pub busy : List Worker → ℕ
busy [] = 0
busy (doing x ∷ ws) = 1 + busy ws
busy (looking ∷ ws) = busy ws
busy (waiting ∷ ws) = busy ws
busy (gone ∷ ws) = busy ws

count-append : (t : ℕ) (xs ys : List ℕ) → count t (xs ++ ys) ≡ count t xs + count t ys
count-append t [] ys = omega arith
count-append t (x ∷ xs) ys = omega (arith, count-append t xs ys)

in_hand-append : (t : ℕ) (xs ys : List Worker) → in_hand t (xs ++ ys) ≡ in_hand t xs + in_hand t ys
in_hand-append t [] ys = omega arith
in_hand-append t (doing x ∷ xs) ys = omega (arith, in_hand-append t xs ys)
in_hand-append t (looking ∷ xs) ys = in_hand-append t xs ys
in_hand-append t (waiting ∷ xs) ys = in_hand-append t xs ys
in_hand-append t (gone ∷ xs) ys = in_hand-append t xs ys

busy-append : (xs ys : List Worker) → busy (xs ++ ys) ≡ busy xs + busy ys
busy-append [] ys = omega arith
busy-append (doing x ∷ xs) ys = omega (arith, busy-append xs ys)
busy-append (looking ∷ xs) ys = busy-append xs ys
busy-append (waiting ∷ xs) ys = busy-append xs ys
busy-append (gone ∷ xs) ys = busy-append xs ys

-- activeTasks counts the queue and the workers in a task, and no task is lost or run twice.
pub record IsSound (p : Pool) : Type 0 where
  pub counted : p.0.active ≡ length p.0.queue + busy p.1
  pub kept :
      (t : ℕ) → count t p.0.accepted ≡ count t p.0.finished + count t p.0.queue + in_hand t p.1

-- What one worker does to the two sums.
record Balanced (w w' : Worker) (s s' : Shared) : Type 0 where
  active :
      s'.active + (length s.queue + busy (w ∷ [])) ≡ s.active + (length s'.queue + busy (w' ∷ []))
  tasks :
      (t : ℕ)
      → count t s'.finished + count t s'.queue + in_hand t (w' ∷ [])
        ≡ count t s.finished + count t s.queue + in_hand t (w ∷ [])
  accepted : s'.accepted ≡ s.accepted

Balanced-refl :
    (w w' : Worker) (s : Shared)
    → busy (w ∷ []) ≡ busy (w' ∷ [])
    → ((t : ℕ) → in_hand t (w' ∷ []) ≡ in_hand t (w ∷ []))
    → Balanced w w' s s
Balanced-refl w w' s e h = record {
  active = omega (arith, e);
  tasks = λ t. ap (λ n. count t s.finished + count t s.queue + n) (h t);
  accepted = refl;
}

abbrev Balances : Worker → Shared → Worker × Shared → Type 0
Balances w s r = Balanced w r.0 s r.1

take_task-Balanced :
    (q : List ℕ) (s : Shared) {r : Worker × Shared}
    → s.queue ≡ q
    → take_task q s ≡ some r
    → Balances waiting s r
take_task-Balanced [] s {r} e h = elim (Bool-cases s.running) [
  | inl on ↦ absurd (none≢some (sym (ap (λ b. if b then none else some (gone, s)) on) ∙ h))
  | inr off ↦
      subst (Balances waiting s)
        (unwrap (sym (ap (λ b. if b then none else some (gone, s)) off) ∙ h))
        (Balanced-refl waiting gone s refl (λ t. refl))
]
take_task-Balanced (task ∷ rest) s e h = subst (Balances waiting s) (unwrap h) (record {
  active = omega (arith, ap length e);
  tasks = λ t. omega (arith, ap (count t) e);
  accepted = refl;
})

worker_step-Balanced :
    (w : Worker) (s : Shared) {r : Worker × Shared}
    → 0 < s.active + (1 - busy (w ∷ []))
    → worker_step w s ≡ some r
    → Balances w s r
unfolding worker_step
worker_step-Balanced looking s g h = elim (Bool-cases s.running) [
  | inl on ↦
      subst (Balances looking s) (ap (λ b. (if b then waiting else gone, s)) (sym on) ∙ unwrap h)
        (Balanced-refl looking waiting s refl (λ t. refl))
  | inr off ↦
      subst (Balances looking s) (ap (λ b. (if b then waiting else gone, s)) (sym off) ∙ unwrap h)
        (Balanced-refl looking gone s refl (λ t. refl))
]
worker_step-Balanced waiting s g h = take_task-Balanced s.queue s refl h
worker_step-Balanced (doing task) s g h = subst (Balances (doing task) s) (unwrap h) (record {
  active = omega arith;
  tasks = λ t. omega (arith, count-append t s.finished (task ∷ []));
  accepted = refl;
})
worker_step-Balanced gone s g h = absurd (none≢some h)

length-one : (q : List ℕ) (t : ℕ) → length (q ++ t ∷ []) ≡ suc (length q)
length-one q t = omega (arith, length-append q (t ∷ []))

works-IsSound :
    (before after : List Worker) (w w' : Worker) (s s' : Shared)
    → worker_step w s ≡ some (w', s')
    → IsSound (s, before ++ w ∷ after)
    → IsSound (s', before ++ w' ∷ after)
works-IsSound before after w w' s s' h i =
    let split = busy-append before (w ∷ after) in
    let one = busy-append (w ∷ []) after in
    let split' = busy-append before (w' ∷ after) in
    let one' = busy-append (w' ∷ []) after in
    let b : Balanced w w' s s' = worker_step-Balanced w s (omega (arith, i.counted)) h in
    record {
      counted = omega (arith, i.counted, b.active);
      kept = λ t. omega (
        arith,
        ap (count t) b.accepted,
        i.kept t,
        b.tasks t,
        in_hand-append t before (w ∷ after),
        in_hand-append t (w ∷ []) after,
        in_hand-append t before (w' ∷ after),
        in_hand-append t (w' ∷ []) after,
      );
    }

in_hand-busy : (t : ℕ) (ws : List Worker) → busy ws ≡ 0 → in_hand t ws ≡ 0
in_hand-busy t [] h = refl
in_hand-busy t (doing x ∷ ws) h = absurd (omega arith)
in_hand-busy t (looking ∷ ws) h = in_hand-busy t ws h
in_hand-busy t (waiting ∷ ws) h = in_hand-busy t ws h
in_hand-busy t (gone ∷ ws) h = in_hand-busy t ws h

busy-IsGone : (ws : List Worker) → All IsGone ws → busy ws ≡ 0
busy-IsGone [] h = refl
busy-IsGone (looking ∷ ws) h = absurd h.0
busy-IsGone (waiting ∷ ws) h = absurd h.0
busy-IsGone (doing t ∷ ws) h = absurd h.0
busy-IsGone (gone ∷ ws) h = busy-IsGone ws h.1

busy-replicate : (n : ℕ) → busy (replicate n looking) ≡ 0
busy-replicate zero = refl
busy-replicate (suc n) = busy-replicate n

in_hand-replicate : (t n : ℕ) → in_hand t (replicate n looking) ≡ 0
in_hand-replicate t zero = refl
in_hand-replicate t (suc n) = in_hand-replicate t n

Step-IsSound : {p q : Pool} → Step p q → IsSound p → IsSound q
unfolding submit stop
Step-IsSound (submits task s ws) i = record {
  counted = omega (arith, i.counted, length-one s.queue task);
  kept = λ t.
      omega (
        arith,
        i.kept t,
        count-append t s.accepted (task ∷ []),
        count-append t s.queue (task ∷ []),
      );
}
Step-IsSound (stops s ws) i = record { counted = i.counted; kept = i.kept }
Step-IsSound (resizes n s ws other all off) i =
    let idle : busy ws ≡ 0 = busy-IsGone ws all in
    record {
      counted = omega (arith, i.counted, idle, busy-replicate n);
      kept = λ t. omega (arith, i.kept t, in_hand-busy t ws idle, in_hand-replicate t n);
    }
Step-IsSound (works before after w w' s s' h) i = works-IsSound before after w w' s s' h i

Run-IsSound : {p q : Pool} → Run p q → IsSound p → IsSound q
Run-IsSound (here p) i = i
Run-IsSound (then_ r s) i = Step-IsSound s (Run-IsSound r i)

-- However callers and workers take turns, activeTasks is the length of the queue and the number of
-- workers in a task, and each task has been submitted as often as it has finished, waits in the
-- queue or is in a worker's hands.
pub reachable-IsSound : (size : ℕ) (p : Pool) → Run (new_pool size) p → IsSound p
unfolding new_pool
reachable-IsSound size p r = Run-IsSound r (record {
  counted = omega (arith, busy-replicate size);
  kept = λ t. omega (arith, in_hand-replicate t size);
})

length-zero : {A : Type 0} (q : List A) → length q ≡ 0 → q ≡ []
length-zero [] h = refl
length-zero (x ∷ q) h = absurd (omega arith)

pub record AllDone (p : Pool) : Type 0 where
  pub empty : p.0.queue ≡ []
  pub idle : busy p.1 ≡ 0
  pub once : (t : ℕ) → count t p.0.finished ≡ count t p.0.accepted

-- After any run, waitForCompletion finds its condition met exactly where the queue is empty, no
-- worker is in a task, and every task has finished as often as it was submitted.
pub complete-AllDone :
    (size : ℕ) (p : Pool) → Run (new_pool size) p → (is_complete p.0 ≡ true) ↔ AllDone p
complete-AllDone size p r =
    let i = reachable-IsSound size p r in
    (
      λ e.
          let h : p.0.active ≡ 0 = (==_iff p.0.active 0).0 e in
          let empty : p.0.queue ≡ [] = length-zero p.0.queue (omega (arith, i.counted)) in
          let idle : busy p.1 ≡ 0 = omega (arith, i.counted) in
          record {
            empty = empty;
            idle = idle;
            once = λ t. omega (arith, i.kept t, ap (count t) empty, in_hand-busy t p.1 idle);
          },
      λ d. (==_iff p.0.active 0).1 (omega (arith, i.counted, ap (λ q. length q) d.empty, d.idle)),
    )
