-- ===== src/Supervisor/Stopping.antt =====
-- supervisor.py, signals.py and timer.py: a signal stops the supervisor, with its forks.
use Prim.{absurd}
use steady_queue.Prelude.{
  ℕ, ◌⊎◌, ap, ◌≤◌, ◌≡◌, refl, ◌∙◌, String, Bool, true, false, ◌&&◌, ◌||◌, List, [], ◌∷◌, ◌++◌, map,
  arith, ◌==◌, count_if, count_if-append, length, any, Bool-cases, inl, inr,
}
use steady_queue.Db.{Db}
use steady_queue.Env.{Env}
use steady_queue.Timer.{Wait, over, unfinished, raised}
use steady_queue.Supervisor.{Pids, are_all_forks_terminated}
use steady_queue.Supervisor.Replacing.{keyed}
use steady_queue.Supervisor.Control.{
  Signal, sigquit, sigint, sigterm, unexpected, Control, Tick, World, all_terminated,
  quit_remaining, quit_after, term_forks, quit_forks, signal_processes, terminate_gracefully,
  handle_signal, Handling, process_from, arrive,
}
use steady_queue.Supervisor.Reaping.{Fewer, Fewer-refl, OnOver, waited, wait_until-Fewer}

abbrev is_quit : Signal → Bool
is_quit sigquit = true
is_quit _ = false

-- How often SIGQUIT was sent to a process.
abbrev pub quits : ℕ → List (ℕ × Signal) → ℕ
quits pid sent = count_if (λ x. x.0 == pid && is_quit x.1) sent

-- Every fork that is left was sent SIGQUIT.
abbrev pub AllQuit : World → Type 0
AllQuit w = (pid : ℕ) → 1 ≤ keyed pid w.0.supervisor.forks → 1 ≤ quits pid w.0.sent

quits-forks :
    (pid : ℕ) (forks : Pids String) → quits pid (map (λ f. (f.0, sigquit)) forks) ≡ keyed pid forks
quits-forks pid [] = refl
quits-forks pid (f ∷ fs) = ground (arith, quits-forks pid fs)

quit_forks-AllQuit : (c : Control) (db : Db) → AllQuit (quit_forks c, db)
unfolding quit_forks signal_processes
quit_forks-AllQuit c db pid h = ground (
  arith,
  count_if-append (λ x. x.0 == pid && is_quit x.1) c.sent
      (map (λ f. (f.0, sigquit)) c.supervisor.forks),
  quits-forks pid c.supervisor.forks,
  h,
)

none_keyed : (pid : ℕ) (forks : Pids String) → (length forks == 0) ≡ true → keyed pid forks ≡ 0
none_keyed pid [] h = refl
none_keyed pid (f ∷ fs) h = absurd (ground (arith, h))

quit_remaining-AllQuit : (w : World) → AllQuit (quit_remaining w)
unfolding quit_remaining are_all_forks_terminated
quit_remaining-AllQuit w = elim (Bool-cases (all_terminated w)) [
  | inl terminated ↦
      rw (terminated, quit_remaining)
        (λ pid h. absurd (omega (arith, none_keyed pid w.0.supervisor.forks terminated, h)))
  | inr remain ↦ rw (remain, quit_remaining) (quit_forks-AllQuit w.0 w.1)
]

abbrev pub stops : Signal → Bool
stops sigterm = true
stops sigint = true
stops sigquit = true
stops unexpected = false

-- A stopped supervisor has sent SIGQUIT to what is left.
abbrev pub HasQuit : World → Type 0
HasQuit w = w.0.stopped ≡ true → AllQuit w

-- What one call of `handle_signal` establishes.
pub record Handled (s : Signal) (before after : World) : Type 0 where
  pub has_quit : HasQuit before → HasQuit after
  pub queue : after.0.signal_queue ≡ before.0.signal_queue
  pub stopped : (stops s || before.0.stopped) ≡ true → after.0.stopped ≡ true

-- What waiting and quitting establish, from a world on.
abbrev Terminated : World → World → Type 0
Terminated u v = AllQuit v × ((v.0.stopped ≡ u.0.stopped) × (v.0.signal_queue ≡ u.0.signal_queue))

quit_remaining-same :
    (w : World)
    → ((quit_remaining w).0.stopped ≡ w.0.stopped)
      × ((quit_remaining w).0.signal_queue ≡ w.0.signal_queue)
unfolding quit_remaining quit_forks signal_processes
quit_remaining-same w = ground arith

quit_after-Terminated :
    (u : World) (r : Wait World) → OnOver (Fewer u) r → OnOver (Terminated u) (quit_after r)
quit_after-Terminated u (over w) h =
    let (stopped, queue) = quit_remaining-same w in
    (quit_remaining-AllQuit w, (stopped ∙ h.stopped, queue ∙ h.queue))
quit_after-Terminated u (unfinished w) h = tt
quit_after-Terminated u (raised e w) h = tt

module _ (env : Env) (timeout : ℕ) where
  terminate_gracefully-Terminated :
      (start : ℕ) (ticks : List Tick) (w : World)
      → OnOver (Terminated w) (terminate_gracefully env timeout start ticks w)
  unfolding terminate_gracefully term_forks signal_processes waited
  terminate_gracefully-Terminated start ticks w =
      quit_after-Terminated (term_forks w.0, w.1) _
        (wait_until-Fewer env timeout start ticks (term_forks w.0, w.1) (term_forks w.0, w.1)
          (Fewer-refl (term_forks w.0, w.1)))

  Handled-Terminated :
      (s : Signal) (w : World) (r : Wait World)
      → OnOver (Terminated (record w.0 { stopped = true }, w.1)) r
      → OnOver (Handled s w) r
  Handled-Terminated s w (over v) h = record {
    has_quit = λ _ _. h.0;
    queue = h.1.1;
    stopped = λ _. h.1.0;
  }
  Handled-Terminated s w (unfinished v) h = tt
  Handled-Terminated s w (raised e v) h = tt

  pub handle_signal-Handled :
      (s : Signal) (h : Handling) (w : World)
      → OnOver (Handled s w) (handle_signal env timeout s h w)
  unfolding handle_signal quit_forks signal_processes
  handle_signal-Handled sigterm h w =
      Handled-Terminated sigterm w _ (terminate_gracefully-Terminated h.start h.ticks _)
  handle_signal-Handled sigint h w =
      Handled-Terminated sigint w _ (terminate_gracefully-Terminated h.start h.ticks _)
  handle_signal-Handled sigquit h w = record {
    has_quit = λ _ _. quit_forks-AllQuit (record w.0 { stopped = true }) w.1;
    queue = refl;
    stopped = λ _. refl;
  }
  handle_signal-Handled unexpected h w = record {
    has_quit = λ q. q;
    queue = refl;
    stopped = λ stopped. stopped;
  }

any_before : (xs ys : List Signal) → any stops xs ≡ true → any stops (xs ++ ys) ≡ true
any_before [] ys h = absurd (ground (arith, h))
any_before (x ∷ xs) ys h = ground (arith, any_before xs ys)

-- What the whole queue comes to.
pub record Processed (w after : World) : Type 0 where
  pub has_quit : HasQuit w → HasQuit after
  pub stopped : (any stops w.0.signal_queue || w.0.stopped) ≡ true → after.0.stopped ≡ true

Processed-none : (w : World) → w.0.signal_queue ≡ [] → Processed w w
Processed-none w empty = record {
  has_quit = λ q. q;
  stopped = λ stopped. ground (arith, ap (any stops) empty, stopped);
}

module _ (env : Env) (timeout : ℕ) where
  Processed-next :
      (s : Signal) (rest : List Signal) (arrivals : List Signal) (w u : World) (r : Wait World)
      → w.0.signal_queue ≡ s ∷ rest
      → Handled s (record w.0 { signal_queue = rest }, w.1) u
      → OnOver (Processed (arrive env timeout arrivals u)) r
      → OnOver (Processed w) r
  Processed-next s rest arrivals w u (unfinished v) e h p = tt
  Processed-next s rest arrivals w u (raised x v) e h p = tt
  Processed-next s rest arrivals w u (over v) e h p = record {
    has_quit = λ q. p.has_quit (h.has_quit q);
    stopped = λ stopped. p.stopped (still (Bool-cases (stops s || w.0.stopped)) stopped);
  }
    where
      still :
          ((stops s || w.0.stopped) ≡ true) ⊎ ((stops s || w.0.stopped) ≡ false)
          → (any stops w.0.signal_queue || w.0.stopped) ≡ true
          → (any stops (u.0.signal_queue ++ arrivals) || u.0.stopped) ≡ true
      still (inl now) stopped =
          let stopped_now : u.0.stopped ≡ true = h.stopped now in ground (arith, stopped_now)
      still (inr later) stopped =
          let more : any stops rest ≡ true = ground (arith, ap (any stops) e, stopped, later) in
          ground (arith, any_before rest arrivals more, ap (λ q. any stops (q ++ arrivals)) h.queue)

  -- The rest of the queue, after a call of `handle_signal`.
  process_after :
      (s : Signal) (rest : List Signal) (h : Handling) (hs : List Handling) (w : World)
      (r : Wait World)
      → ((v : World) → OnOver (Processed v) (process_from env timeout hs v.0.signal_queue v))
      → w.0.signal_queue ≡ s ∷ rest
      → OnOver (Handled s (record w.0 { signal_queue = rest }, w.1)) r
      → OnOver (Processed w) (elim r as (λ x. Wait World) [
        | over after ↦
            process_from env timeout hs
              (after.0.signal_queue ++ h.arrivals)
              (arrive env timeout h.arrivals after)
        | unfinished after ↦ unfinished after
        | raised e after ↦ raised e after
      ])
  process_after s rest h hs w (over u) again e handled =
      Processed-next s rest h.arrivals w u _ e handled (again (arrive env timeout h.arrivals u))
  process_after s rest h hs w (unfinished u) again e handled = tt
  process_after s rest h hs w (raised x u) again e handled = tt

  pub process_from-Processed :
      (hs : List Handling) (q : List Signal) (w : World)
      → w.0.signal_queue ≡ q
      → OnOver (Processed w) (process_from env timeout hs q w)
  unfolding process_from
  process_from-Processed [] [] w e = Processed-none w e
  process_from-Processed [] (s ∷ rest) w e = tt
  process_from-Processed (h ∷ hs) [] w e = Processed-none w e
  process_from-Processed (h ∷ hs) (s ∷ rest) w e =
      process_after s rest h hs w _ (λ v. process_from-Processed hs v.0.signal_queue v refl) e
        (handle_signal-Handled env timeout s h _)
