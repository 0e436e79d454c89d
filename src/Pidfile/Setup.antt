-- ===== src/Pidfile/Setup.antt =====
-- pidfile.py: the outcomes of `setup` where nobody else is at the file.
use steady_queue.Prelude.{ℕ, zero, suc, ◌≡◌, refl, true, Option, none, some, arith, ◌==◌}
use steady_queue.Prelude.Int.{ℤ, pos, negsuc}
use steady_queue.Pidfile.{
  Content, number, other, File, Kill, delivered, process_lookup_error, permission_error, Stage,
  reading, done, refused, failed, is_over, check_status, killed, probe, write_file, fill, advance,
  setup,
}

abbrev pub own_file : ℕ → File
own_file pid = record { creator = some pid; content = number (pos pid) }

-- What `setup` promises, by the file that is there.
abbrev pub by_kill : ℕ → File → Kill → Stage × Option File
by_kill pid f delivered = (refused, some f)
by_kill pid f permission_error = (refused, some f)
by_kill pid f process_lookup_error = (done, some (own_file pid))

abbrev pub by_content : (ℕ → Kill) → ℕ → File → Content → Stage × Option File
by_content kill pid f (number (pos (suc n))) = by_kill pid f (kill (suc n))
by_content kill pid f (number (pos zero)) = (refused, some f)
by_content kill pid f (number (negsuc n)) = (refused, some f)
by_content kill pid f other = (failed, some f)

abbrev pub outcome : (ℕ → Kill) → ℕ → Option File → Stage × Option File
outcome kill pid none = (done, some (own_file pid))
outcome kill pid (some f) = by_content kill pid f f.content

same : (pid : ℕ) → (pid == pid) ≡ true
same pid = ground arith

setup-done :
    (more : ℕ) (kill : ℕ → Kill) (pid : ℕ) (file : Option File)
    → setup more kill pid done file ≡ some (done, file)
unfolding setup is_over
setup-done zero kill pid file = refl
setup-done (suc more) kill pid file = refl

module _ (kill : ℕ → Kill) (pid more : ℕ) where
  abbrev enough : ℕ
  enough = suc (suc (suc (suc (suc more))))

  after_probe :
      (creator : Option ℕ) (n : ℕ) (k : Kill)
      → let f : File = record { creator = creator; content = number (pos (suc n)) } in
        setup (suc (suc (suc more))) kill pid (killed k) (some f) ≡ some (by_kill pid f k)
  unfolding setup advance is_over killed write_file fill
  after_probe creator n delivered = refl
  after_probe creator n permission_error = refl
  after_probe creator n process_lookup_error =
      rw (same pid) (setup-done more kill pid (some (own_file pid)))

  setup_number :
      (creator : Option ℕ) (z : ℤ)
      → let f : File = record { creator = creator; content = number z } in
        setup enough kill pid reading (some f) ≡ some (by_content kill pid f (number z))
  unfolding setup advance is_over check_status probe killed write_file fill
  setup_number creator (pos zero) = refl
  setup_number creator (negsuc n) = refl
  setup_number creator (pos (suc n)) = after_probe creator n (kill (suc n))

  setup_content :
      (creator : Option ℕ) (c : Content)
      → let f : File = record { creator = creator; content = c } in
        setup enough kill pid reading (some f) ≡ some (by_content kill pid f c)
  unfolding setup advance is_over check_status
  setup_content creator (number z) = setup_number creator z
  setup_content creator other = refl

  setup-none : setup enough kill pid reading none ≡ some (outcome kill pid none)
  unfolding setup advance is_over check_status probe killed write_file fill
  setup-none = rw (same pid) refl

  -- Five calls are enough for `setup` where nobody else is at the file. It succeeds, and the file is
  -- then the supervisor's own, where there was no file, or one whose process is gone. Otherwise it
  -- leaves the file as it was, and raises `ValueError` where that is no number and `RuntimeError`
  -- where it is one that is not positive, or that of a process that is there.
  pub setup_lem :
      (file : Option File) → setup enough kill pid reading file ≡ some (outcome kill pid file)
  setup_lem none = setup-none
  setup_lem (some f) = setup_content f.creator f.content
