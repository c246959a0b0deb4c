-- ===== src/SyncServer/Accepts.antt =====
-- Which connections a server takes between its start and its stop.
use file_sync_tool.Base.{
  ℕ, ◌≡◌, refl, sym, ap, ◌∙◌, subst, Bool, true, false, not, Option, none, some, List, [], ◌∷◌,
  ◌++◌, append_assoc, append-nil, replicate, if◌then◌else◌,
}
use file_sync_tool.TcpServer.{Binding, start_tcp, stop_tcp, accept_client}
use file_sync_tool.ThreadPool
use file_sync_tool.ThreadPool.{Shared, Worker, Pool, new_pool, submit, looking}
use file_sync_tool.Rpc.Handlers.{with_slash}
use file_sync_tool.SyncServer.{
  SyncServer, Epolls, start_server, stop_server, error, timeout, ready, accept_events, accept_round,
  Moment, polls, stops, run_server,
}

-- The descriptors that accept gave in one round, and in all rounds before the first stop.
abbrev pub accepted_by_poll : List (Bool × Option ℕ) → List ℕ
accepted_by_poll [] = []
accepted_by_poll ((false, answer) ∷ es) = accepted_by_poll es
accepted_by_poll ((true, none) ∷ es) = accepted_by_poll es
accepted_by_poll ((true, some fd) ∷ es) = fd ∷ accepted_by_poll es

abbrev pub accepted_before_stop : List Moment → List ℕ
accepted_before_stop [] = []
accepted_before_stop (stops ∷ ms) = []
accepted_before_stop (polls error ∷ ms) = accepted_before_stop ms
accepted_before_stop (polls timeout ∷ ms) = accepted_before_stop ms
accepted_before_stop (polls (ready es) ∷ ms) = accepted_by_poll es ++ accepted_before_stop ms

abbrev pub is_stopped : List Moment → Bool
is_stopped [] = false
is_stopped (stops ∷ ms) = true
is_stopped (polls poll ∷ ms) = is_stopped ms

abbrev submit_all : List ℕ → Shared → Shared
submit_all [] s = s
submit_all (fd ∷ fds) s = submit_all fds (submit fd s)

submit_all-append :
    (xs ys : List ℕ) (s : Shared) → submit_all ys (submit_all xs s) ≡ submit_all (xs ++ ys) s
submit_all-append [] ys s = refl
submit_all-append (x ∷ xs) ys s = submit_all-append xs ys (submit x s)

submit_all-accepted : (fds : List ℕ) (s : Shared) → (submit_all fds s).accepted ≡ s.accepted ++ fds
unfolding submit
submit_all-accepted [] s = sym (append-nil s.accepted)
submit_all-accepted (fd ∷ fds) s =
    submit_all-accepted fds (submit fd s) ∙ append_assoc s.accepted (fd ∷ []) fds

submit_all-running : (fds : List ℕ) (s : Shared) → (submit_all fds s).running ≡ s.running
unfolding submit
submit_all-running [] s = refl
submit_all-running (fd ∷ fds) s = submit_all-running fds (submit fd s)

-- A server that runs, and one that has been stopped.
module _ (s : SyncServer) (ws : List Worker) where
  abbrev live : Shared → SyncServer
  live shared = record s {
    tcp = some (record { listening = true; running = true });
    pool = some (shared, ws);
    running = true;
    has_accept_thread = true;
  }

  abbrev down : Bool → Shared → SyncServer
  down thread shared = record s {
    tcp = some (record { listening = false; running = false });
    pool = some (file_sync_tool.ThreadPool.stop shared, ws);
    io_running = false;
    running = false;
    has_accept_thread = thread;
  }

  accept_events-live :
      (es : List (Bool × Option ℕ)) (shared : Shared)
      → accept_events es (live shared) ≡ live (submit_all (accepted_by_poll es) shared)
  unfolding accept_events accept_client
  accept_events-live [] shared = refl
  accept_events-live ((false, answer) ∷ es) shared = accept_events-live es shared
  accept_events-live ((true, none) ∷ es) shared = accept_events-live es shared
  accept_events-live ((true, some fd) ∷ es) shared = accept_events-live es (submit fd shared)

  -- After a stop nothing is taken any more.
  run_server-down :
      (ms : List Moment) (thread : Bool) (shared : Shared)
      → (left : Bool) × (run_server ms (down thread shared) ≡ down left shared)
  unfolding run_server accept_round stop_server
  run_server-down [] thread shared = (thread, refl)
  run_server-down (polls poll ∷ ms) thread shared = run_server-down ms false shared
  run_server-down (stops ∷ ms) thread shared = run_server-down ms thread shared

  -- What a run comes to.
  abbrev Ended : Bool → Shared → SyncServer → Type 0
  Ended false shared t = t ≡ live shared
  Ended true shared t = (left : Bool) × (t ≡ down left shared)

  run_server-live :
      (ms : List Moment) (shared : Shared)
      → Ended
          (is_stopped ms)
          (submit_all (accepted_before_stop ms) shared)
          (run_server ms (live shared))
  unfolding run_server accept_round stop_server stop_tcp
  run_server-live [] shared = refl
  run_server-live (stops ∷ ms) shared = run_server-down ms true shared
  run_server-live (polls error ∷ ms) shared = run_server-live ms shared
  run_server-live (polls timeout ∷ ms) shared = run_server-live ms shared
  run_server-live (polls (ready es) ∷ ms) shared =
      let taken : Shared = submit_all (accepted_by_poll es) shared in
      subst
        (λ t.
          Ended (is_stopped ms) (submit_all (accepted_before_stop (polls (ready es) ∷ ms)) shared)
            (run_server ms t))
        (sym (accept_events-live es shared))
        (subst (λ sh. Ended (is_stopped ms) sh (run_server ms (live taken)))
          (submit_all-append (accepted_by_poll es) (accepted_before_stop ms) shared)
          (run_server-live ms taken))

-- The pool of a server, with what it has taken and whether it runs.
pub record Serves (threads : ℕ) (ms : List Moment) (t : SyncServer) : Type 0 where
  pub shared : Shared
  pub pool : t.pool ≡ some (shared, replicate threads looking)
  pub accepted : shared.accepted ≡ accepted_before_stop ms
  pub pool_running : shared.running ≡ not (is_stopped ms)
  pub running : t.running ≡ not (is_stopped ms)
  pub tcp : t.tcp ≡ some (record { listening = not (is_stopped ms); running = not (is_stopped ms) })

Ended-Serves :
    (s : SyncServer) (threads : ℕ) (ms : List Moment) (b : Bool) (shared : Shared) (t : SyncServer)
    → is_stopped ms ≡ b
    → shared.accepted ≡ accepted_before_stop ms
    → shared.running ≡ true
    → Ended s (replicate threads looking) b shared t
    → Serves threads ms t
unfolding file_sync_tool.ThreadPool.stop
Ended-Serves s threads ms false shared t e a r h = record {
  shared = shared;
  pool = ap (λ (u : SyncServer). u.pool) h;
  accepted = a;
  pool_running = r ∙ ap not (sym e);
  running = ap (λ (u : SyncServer). u.running) h ∙ ap not (sym e);
  tcp =
      ap (λ (u : SyncServer). u.tcp) h
      ∙ ap (λ b. some (record { listening = not b; running = not b })) (sym e);
}
Ended-Serves s threads ms true shared t e a r (left, h) = record {
  shared = file_sync_tool.ThreadPool.stop shared;
  pool = ap (λ (u : SyncServer). u.pool) h;
  accepted = a;
  pool_running = ap not (sym e);
  running = ap (λ (u : SyncServer). u.running) h ∙ ap not (sym e);
  tcp =
      ap (λ (u : SyncServer). u.tcp) h
      ∙ ap (λ b. some (record { listening = not b; running = not b })) (sym e);
}

abbrev pub all_bound : Binding
all_bound = record { socket_ok = true; option_ok = true; bind_ok = true; listen_ok = true }

abbrev pub all_created : Epolls
all_created = record { io_ok = true; accept_ok = true; add_ok = true }

-- A server that does not run and whose system calls succeed starts. Then, through any rounds of its
-- accept thread with errors, timeouts and failed accepts among them, and stops at any point, its
-- pool has been given a task for each connection that was accepted before the first stop, in that
-- order, and for no other; pool, server and listening socket are up exactly until that stop.
pub run_server-Serves :
    (s : SyncServer) (threads : ℕ) (ms : List Moment)
    → s.running ≡ false
    → ((start_server all_bound all_created threads s).0 ≡ true)
      × Serves threads ms (run_server ms (start_server all_bound all_created threads s).1)
unfolding start_server start_tcp new_pool
run_server-Serves s threads ms off =
    let first : Shared = record {
      running = true;
      queue = [];
      active = 0;
      accepted = [];
      finished = [];
    } in
    let s1 : SyncServer = record s {
      io_running = true;
      rpc_base = some (with_slash s.base);
      processed = 0;
    } in
    let ws : List Worker = replicate threads looking in
    let started : start_server all_bound all_created threads s ≡ (true, live s1 ws first) =
      ap (λ b. if b then (false, s) else (true, live s1 ws first)) off in
    (
      ap (λ r. r.0) started,
      subst (λ t. Serves threads ms (run_server ms t)) (sym (ap (λ r. r.1) started))
          (Ended-Serves s1 threads ms (is_stopped ms) (submit_all (accepted_before_stop ms) first) _
            refl (submit_all-accepted (accepted_before_stop ms) first)
            (submit_all-running (accepted_before_stop ms) first) (run_server-live s1 ws ms first)),
    )
