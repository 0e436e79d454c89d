-- ===== src/Pidfile/Moves.antt =====
-- pidfile.py: what one call of `setup` does to the file and to its holder.
use Prim.{absurd}
use steady_queue.Prelude.{
  ℕ, zero, suc, ◌≡◌, refl, Bool, true, false, not, Option, none, some, arith, ◌==◌, Bool-cases, inl,
  inr,
}
use steady_queue.Prelude.Int.{ℤ, pos, negsuc}
use steady_queue.Pidfile.{
  Content, number, other, File, Kill, delivered, process_lookup_error, permission_error, Stage,
  reading, probing, deleting, writing, filling, done, refused, failed, closing, exiting, gone,
  check_status, killed, probe, write_file, fill, made_by, advance,
}

-- A supervisor holds the file from its creation on.
abbrev pub holds : Stage → Bool
holds filling = true
holds done = true
holds stage = false

module _ (kill : ℕ → Kill) where
  abbrev is_gone : Kill → Bool
  is_gone process_lookup_error = true
  is_gone k = false

  -- A pid that `check_status` takes for that of a process that is gone.
  abbrev pub stale : Content → Bool
  stale (number (pos (suc n))) = is_gone (kill (suc n))
  stale c = false

  -- The pid of a process that is there.
  abbrev pub runs : ℕ → Bool
  runs zero = false
  runs (suc n) = not (is_gone (kill (suc n)))

  abbrev pub created_by : ℕ → Option File → Bool
  created_by pid none = false
  created_by pid (some f) = made_by pid f.creator

  abbrev pub stale_file : Option File → Bool
  stale_file none = false
  stale_file (some f) = stale f.content

  -- Before its creation of a file no supervisor deletes one.
  abbrev pub fresh : Stage → Bool
  fresh (probing z) = not (stale (number z))
  fresh deleting = false
  fresh (closing hook) = false
  fresh exiting = false
  fresh stage = true

  same : (pid : ℕ) → (pid == pid) ≡ true
  same pid = ground arith

  check_status-fresh : (f : File) → stale f.content ≡ false → fresh (check_status (some f)) ≡ true
  unfolding check_status
  check_status-fresh f a = by_content f.content a
    where
      by_content :
          (c : Content)
          → stale c ≡ false
          → fresh (elim c as (λ x. Stage) [ number z ↦ probing z | other ↦ failed ]) ≡ true
      by_content (number z) h = rw h refl
      by_content other h = refl

  killed-fresh : (k : Kill) → not (is_gone k) ≡ true → fresh (killed k) ≡ true
  unfolding killed
  killed-fresh delivered a = refl
  killed-fresh permission_error a = refl
  killed-fresh process_lookup_error a = absurd (ground arith)

  probe-fresh : (z : ℤ) → not (stale (number z)) ≡ true → fresh (probe kill z) ≡ true
  unfolding probe
  probe-fresh (pos zero) a = refl
  probe-fresh (pos (suc n)) a = killed-fresh (kill (suc n)) a
  probe-fresh (negsuc n) a = refl

  runs-stale : (pid : ℕ) → runs pid ≡ true → stale (number (pos pid)) ≡ false
  runs-stale zero r = refl
  runs-stale (suc n) r = ground (arith, r)

  fill-fresh :
      (pid : ℕ) (f : File)
      → stale f.content ≡ false
      → runs pid ≡ true
      → stale_file (fill pid (some f)) ≡ false
  unfolding fill
  fill-fresh pid f a r = elim (Bool-cases (made_by pid f.creator)) [
    | inl own ↦ rw own (runs-stale pid r)
    | inr others ↦ rw others a
  ]

  -- what the next call of a supervisor does to a file that is not stale
  pub advance-fresh :
      (pid : ℕ) (s : Stage) (file : Option File)
      → stale_file file ≡ false
      → fresh s ≡ true
      → runs pid ≡ true
      → (fresh (advance kill pid s file).0 ≡ true)
        × (stale_file (advance kill pid s file).1 ≡ false)
  unfolding advance check_status probe killed write_file fill
  advance-fresh pid reading none a b c = (refl, refl)
  advance-fresh pid reading (some f) a b c = (check_status-fresh f a, a)
  advance-fresh pid (probing z) file a b c = (probe-fresh z b, a)
  advance-fresh pid writing none a b c = (refl, refl)
  advance-fresh pid writing (some f) a b c = (refl, a)
  advance-fresh pid filling none a b c = (refl, refl)
  advance-fresh pid filling (some f) a b c = (refl, fill-fresh pid f a c)
  advance-fresh pid done file a b c = (refl, a)
  advance-fresh pid refused file a b c = (refl, a)
  advance-fresh pid failed file a b c = (refl, a)
  advance-fresh pid gone file a b c = (refl, a)
  advance-fresh pid deleting file a b c = absurd (ground arith)
  advance-fresh pid (closing true) file a b c = absurd (ground arith)
  advance-fresh pid (closing false) file a b c = absurd (ground arith)
  advance-fresh pid exiting file a b c = absurd (ground arith)

  -- and who holds it
  pub advance-holder :
      (pid i : ℕ) (s : Stage) (file : Option File)
      → fresh s ≡ true
      → created_by i file ≡ true
      → created_by i (advance kill pid s file).1 ≡ true
  unfolding advance write_file fill
  advance-holder pid i reading file a b = b
  advance-holder pid i (probing z) file a b = b
  advance-holder pid i writing none a b = absurd (ground arith)
  advance-holder pid i writing (some f) a b = b
  advance-holder pid i filling none a b = b
  advance-holder pid i filling (some f) a b = elim (Bool-cases (made_by pid f.creator)) [
    | inl own ↦ rw own b
    | inr others ↦ rw others b
  ]
  advance-holder pid i done file a b = b
  advance-holder pid i refused file a b = b
  advance-holder pid i failed file a b = b
  advance-holder pid i gone file a b = b
  advance-holder pid i deleting file a b = absurd (ground arith)
  advance-holder pid i (closing true) file a b = absurd (ground arith)
  advance-holder pid i (closing false) file a b = absurd (ground arith)
  advance-holder pid i exiting file a b = absurd (ground arith)

  check_status-holds : (file : Option File) → holds (check_status file) ≡ false
  unfolding check_status
  check_status-holds none = refl
  check_status-holds (some f) = by_content f.content
    where
      by_content :
          (c : Content)
          → holds (elim c as (λ x. Stage) [ number z ↦ probing z | other ↦ failed ]) ≡ false
      by_content (number z) = refl
      by_content other = refl

  killed-holds : (k : Kill) → holds (killed k) ≡ false
  unfolding killed
  killed-holds delivered = refl
  killed-holds permission_error = refl
  killed-holds process_lookup_error = refl

  probe-holds : (z : ℤ) → holds (probe kill z) ≡ false
  unfolding probe
  probe-holds (pos zero) = refl
  probe-holds (pos (suc n)) = killed-holds (kill (suc n))
  probe-holds (negsuc n) = refl

  pub advance-own :
      (pid : ℕ) (s : Stage) (file : Option File)
      → fresh s ≡ true
      → (holds s ≡ true → created_by pid file ≡ true)
      → holds (advance kill pid s file).0 ≡ true
      → created_by pid (advance kill pid s file).1 ≡ true
  unfolding advance write_file fill check_status probe killed
  advance-own pid reading file a b h = absurd (cc (check_status-holds file, h))
  advance-own pid (probing z) file a b h = absurd (cc (probe-holds z, h))
  advance-own pid writing none a b h = same pid
  advance-own pid writing (some f) a b h = absurd (ground arith)
  advance-own pid filling file a b h = advance-holder pid pid filling file refl (b refl)
  advance-own pid done file a b h = b h
  advance-own pid refused file a b h = b h
  advance-own pid failed file a b h = b h
  advance-own pid gone file a b h = b h
  advance-own pid deleting file a b h = absurd (ground arith)
  advance-own pid (closing true) file a b h = absurd (ground arith)
  advance-own pid (closing false) file a b h = absurd (ground arith)
  advance-own pid exiting file a b h = absurd (ground arith)
