-- ===== src/ThreadPool/Stuck.antt =====
-- A pool whose workers have all returned.
use file_sync_tool.Base.{
  ◌<◌, ◌≡◌, refl, sym, ◌∙◌, false, none, List, [], ◌∷◌, ◌++◌, arith, none≢some, All,
}
use file_sync_tool.ThreadPool.{
  Shared, Worker, looking, waiting, doing, gone, Pool, submit, stop, worker_step, is_complete,
  IsGone, Step, submits, stops, resizes, works, Run, here, then_,
}

All-middle : (before after : List Worker) (w : Worker) → All IsGone (before ++ w ∷ after) → IsGone w
All-middle [] after w h = h.0
All-middle (x ∷ before) after w h = All-middle before after w h.1

gone_step : (w : Worker) (s : Shared) → IsGone w → worker_step w s ≡ none
unfolding worker_step
gone_step looking s h = absurd h
gone_step waiting s h = absurd h
gone_step (doing t) s h = absurd h
gone_step gone s h = refl

abbrev pub IsStuck : Pool → Type 0
IsStuck p = All IsGone p.1 × (0 < p.0.active)

-- Not a step of setThreadCount that starts new workers.
abbrev pub NoResize : {p q : Pool} → Step p q → Type 0
NoResize (submits task s ws) = Unit {0}
NoResize (stops s ws) = Unit {0}
NoResize (resizes count s ws other all off) = ⊥
NoResize (works before after w w' s s' e) = Unit {0}

abbrev pub NeverResized : {p q : Pool} → Run p q → Type 0
NeverResized (here p) = Unit {0}
NeverResized (then_ r s) = NeverResized r × NoResize s

Step-IsStuck : {p q : Pool} (s : Step p q) → NoResize s → IsStuck p → IsStuck q
unfolding submit stop
Step-IsStuck (submits task s ws) n h = (h.0, omega (arith, h.1))
Step-IsStuck (stops s ws) n h = h
Step-IsStuck (resizes count s ws other all off) n h = absurd n
Step-IsStuck (works before after w w' s s' e) n h =
    absurd (none≢some (sym (gone_step w s (All-middle before after w h.0)) ∙ e))

NeverResized-IsStuck : {p q : Pool} (r : Run p q) → NeverResized r → IsStuck p → IsStuck q
NeverResized-IsStuck (here p) n h = h
NeverResized-IsStuck (then_ r s) n h = Step-IsStuck s n.1 (NeverResized-IsStuck r n.0 h)

-- Once every worker has returned with tasks still counted, no step of submit, stop or a worker
-- makes the condition of waitForCompletion true: it does not return unless setThreadCount starts
-- new workers.
pub Run-IsStuck :
    (p q : Pool) (r : Run p q)
    → NeverResized r
    → All IsGone p.1
    → 0 < p.0.active
    → (is_complete q.0 ≡ false) × All IsGone q.1
Run-IsStuck p q r n all more =
    let (gone', more') = NeverResized-IsStuck r n (all, more) in (ground arith, gone')
