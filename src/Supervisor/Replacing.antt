-- ===== src/Supervisor/Replacing.antt =====
-- supervisor.py: replacing terminated forks keeps the processes of the configuration running.
use steady_queue.Prelude.{
  ℕ, ◌+◌, ◌≤◌, String, ◌≡◌, refl, Bool, none, some, [], ◌∷◌, ◌++◌, arith, ◌==◌, if◌then◌else◌,
  count_if, count_if-append, any-eq-ltb-count_if, Bool-cases, Option-cases, inl, inr,
}
use steady_queue.Db.{Db}
use steady_queue.Env.{Env}
use steady_queue.Action.{Result, Action, ok, err, resume}
use steady_queue.Configuration.{Process}
use steady_queue.Supervisor.{
  Pids, at_pid, lookup, pop, put, Supervisor, start_process, Exit, handle_claimed_jobs_by, restart,
  replace_known, replace_fork,
}

-- How often a process id is a key.
abbrev pub keyed : {A : Type 0} → ℕ → Pids A → ℕ
keyed pid es = count_if (at_pid pid) es

-- The two dicts have the same keys, each once.
pub record IsConsistent (s : Supervisor) : Type 0 where
  pub same : (pid : ℕ) → keyed pid s.forks ≡ keyed pid s.configured_processes
  pub once : (pid : ℕ) → keyed pid s.forks ≤ 1

-- The running processes of a kind.
abbrev pub running : (Process → Bool) → Supervisor → ℕ
running p s = count_if (λ e. p e.1) s.configured_processes

pub keyed-pop :
    {A : Type 0} (pid i : ℕ) (es : Pids A)
    → keyed i (pop pid es) ≡ (if pid == i then 0 else keyed i es)
unfolding pop
keyed-pop pid i [] = ground arith
keyed-pop pid i (e ∷ es) = ground (arith, keyed-pop pid i es)

put_new :
    {A : Type 0} (pid : ℕ) (a : A) (es : Pids A)
    → keyed pid es ≡ 0
    → put pid a es ≡ es ++ (pid, a) ∷ []
unfolding put
put_new pid a es new = ground (arith, any-eq-ltb-count_if (at_pid pid) es)

keyed-lookup-none : {A : Type 0} (pid : ℕ) (es : Pids A) → lookup pid es ≡ none → keyed pid es ≡ 0
unfolding lookup
keyed-lookup-none pid [] h = refl
keyed-lookup-none pid (e ∷ es) h = ground (arith, keyed-lookup-none pid es)

keyed-lookup-some :
    {A : Type 0} (pid : ℕ) (a : A) (es : Pids A) → lookup pid es ≡ some a → 1 ≤ keyed pid es
unfolding lookup
keyed-lookup-some pid a [] h = cc
keyed-lookup-some pid a (e ∷ es) h = ground (arith, keyed-lookup-some pid a es)

count_if-pop_none :
    (p : Process → Bool) (pid : ℕ) (es : Pids Process)
    → keyed pid es ≡ 0
    → count_if (λ e. p e.1) (pop pid es) ≡ count_if (λ e. p e.1) es
unfolding pop
count_if-pop_none p pid [] none_at = refl
count_if-pop_none p pid (e ∷ es) none_at = ground (arith, count_if-pop_none p pid es)

count_if-pop :
    (p : Process → Bool) (pid : ℕ) (a : Process) (es : Pids Process)
    → lookup pid es ≡ some a
    → keyed pid es ≤ 1
    → count_if (λ e. p e.1) (pop pid es) + (if p a then 1 else 0) ≡ count_if (λ e. p e.1) es
unfolding pop lookup
count_if-pop p pid a [] found once = cc
count_if-pop p pid a (e ∷ es) found once = elim (Bool-cases (e.0 == pid)) [
  | inl here ↦
      let same : e.1 ≡ a = ground arith in
      rw (here, same) (ground (arith, count_if-pop_none p pid es))
  | inr there ↦ rw there (ground (arith, count_if-pop p pid a es))
]

module _ (e : Exit) (name : String) (a : Process) (s : Supervisor) (ok_before : IsConsistent s)
    (known : lookup e.pid s.configured_processes ≡ some a) (new : keyed e.new_pid s.forks ≡ 0) where
  abbrev replaced : Supervisor
  replaced = start_process e.new_pid e.new_name a (record s {
    forks = pop e.pid s.forks;
    configured_processes = pop e.pid s.configured_processes;
  })

  new_fork : keyed e.new_pid (pop e.pid s.forks) ≡ 0
  new_fork = ground (arith, keyed-pop e.pid e.new_pid s.forks)

  new_process : keyed e.new_pid (pop e.pid s.configured_processes) ≡ 0
  new_process =
      ground (arith, keyed-pop e.pid e.new_pid s.configured_processes, ok_before.same e.new_pid)

  forks-replaced : replaced.forks ≡ pop e.pid s.forks ++ (e.new_pid, e.new_name) ∷ []
  unfolding start_process
  forks-replaced = put_new e.new_pid e.new_name (pop e.pid s.forks) new_fork

  processes-replaced :
      replaced.configured_processes ≡ pop e.pid s.configured_processes ++ (e.new_pid, a) ∷ []
  unfolding start_process
  processes-replaced = put_new e.new_pid a (pop e.pid s.configured_processes) new_process

  replaced-IsConsistent : IsConsistent replaced
  replaced-IsConsistent = record {
    same = λ i.
        rw (forks-replaced, processes-replaced)
          (ground (
            arith,
            count_if-append (at_pid i) (pop e.pid s.forks) ((e.new_pid, e.new_name) ∷ []),
            count_if-append (at_pid i) (pop e.pid s.configured_processes) ((e.new_pid, a) ∷ []),
            keyed-pop e.pid i s.forks,
            keyed-pop e.pid i s.configured_processes,
            ok_before.same i,
          ));
    once = λ i. rw forks-replaced (
        ground (
          arith,
          count_if-append (at_pid i) (pop e.pid s.forks) ((e.new_pid, e.new_name) ∷ []),
          keyed-pop e.pid i s.forks,
          ok_before.once i,
          new,
        ));
  }

  running-replaced : (p : Process → Bool) → running p replaced ≡ running p s
  running-replaced p = rw processes-replaced (
      ground (
        arith,
        count_if-append (λ x. p x.1) (pop e.pid s.configured_processes) ((e.new_pid, a) ∷ []),
        count_if-pop p e.pid a s.configured_processes known,
        ok_before.same e.pid,
        ok_before.once e.pid,
      ))

-- What replacing forks keeps.
abbrev pub Keeps : Supervisor → Supervisor → Type 0
Keeps s after = IsConsistent after × ((p : Process → Bool) → running p after ≡ running p s)

module _ (env : Env) (e : Exit) (s : Supervisor) (ok_before : IsConsistent s)
    (new : keyed e.new_pid s.forks ≡ 0) where
  unfoldable pub handled_jobs : String → Action (Unit {0})
  handled_jobs name =
      handle_claimed_jobs_by env (record s { forks = pop e.pid s.forks }) name e.status

  restart_after :
      (name : String) (r : Result (Unit {0})) (db : Db)
      → 1 ≤ keyed e.pid s.forks
      → r ≡ ok tt
      → (after : Supervisor) × (((resume
              (λ _.
                restart e
                  (lookup e.pid s.configured_processes)
                  (record s { forks = pop e.pid s.forks }))
              r
              db).0
            ≡ ok after)
          × Keeps s after)
  unfolding restart
  restart_after name (err x) db there h = cc
  restart_after name (ok u) db there h = elim (Option-cases (lookup e.pid s.configured_processes)) [
    | inl unknown ↦ absurd (
        omega (arith, keyed-lookup-none e.pid s.configured_processes unknown, ok_before.same e.pid))
    | inr (a, known) ↦ (
      replaced e name a s ok_before known new,
      (
        rw known refl,
        (
          replaced-IsConsistent e name a s ok_before known new,
          running-replaced e name a s ok_before known new,
        ),
      ),
    )
  ]

  -- Where the operating system gives the replacement an id that no fork has, and the jobs of a known
  -- fork are failed without an exception, replacing a terminated fork succeeds. It leaves as many
  -- processes of every kind as before, and the two dicts with the same ids, each once.
  pub replace_fork-Keeps :
      (db : Db)
      → ((name : String) → lookup e.pid s.forks ≡ some name → (handled_jobs name db).0 ≡ ok tt)
      → (after : Supervisor) × (((replace_fork env e s db).0 ≡ ok after) × Keeps s after)
  unfolding replace_fork replace_known handled_jobs
  replace_fork-Keeps db handled = elim (Option-cases (lookup e.pid s.forks)) [
    | inl unknown ↦ (s, (rw unknown refl, (ok_before, λ p. refl)))
    | inr (name, known) ↦ rw known (
        restart_after name (handled_jobs name db).0 (handled_jobs name db).1
          (keyed-lookup-some e.pid name s.forks known) (handled name known))
  ]
