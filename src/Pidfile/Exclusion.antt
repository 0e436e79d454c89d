-- ===== src/Pidfile/Exclusion.antt =====
-- pidfile.py: of the supervisors that start at the same time, at most one holds the file.
use Prim.{absurd}
use steady_queue.Prelude.{
  ℕ, ◌≡◌, refl, true, false, Option, none, some, arith, ◌==◌, Bool-cases, ◌⊎◌, inl, inr,
}
use steady_queue.Pidfile.{File, Kill, reading, advance, World, at, advances}
use steady_queue.Pidfile.Moves.{
  holds, runs, created_by, stale_file, fresh, advance-fresh, advance-holder, advance-own,
}

module _ (kill : ℕ → Kill) where
  -- Supervisors that run take turns at the calls of `setup`, in any order.
  pub data Reach (w : World) : World → Type 0 where
    here : Reach w w
    next : {v : World} (pid : ℕ) → Reach w v → runs kill pid ≡ true → Reach w (advances kill pid v)

  pub record Inv (w : World) : Type 0 where
    pub file_fresh : stale_file kill w.file ≡ false
    pub stages_fresh : (i : ℕ) → fresh kill (w.stage i) ≡ true
    pub holder : (i : ℕ) → holds (w.stage i) ≡ true → created_by kill i w.file ≡ true

  advances-Inv : (pid : ℕ) (w : World) → Inv w → runs kill pid ≡ true → Inv (advances kill pid w)
  unfolding advances
  advances-Inv pid w inv r = record {
    file_fresh = moved.1;
    stages_fresh = λ i. ground (arith, moved.0, inv.stages_fresh i);
    holder = λ i h. holder_after i h (Bool-cases (i == pid));
  }
    where
      moved :
          (fresh kill (advance kill pid (w.stage pid) w.file).0 ≡ true)
          × (stale_file kill (advance kill pid (w.stage pid) w.file).1 ≡ false)
      moved = advance-fresh kill pid (w.stage pid) w.file inv.file_fresh (inv.stages_fresh pid) r

      holder_after :
          (i : ℕ)
          → holds (at pid (advance kill pid (w.stage pid) w.file).0 w.stage i) ≡ true
          → ((i == pid) ≡ true) ⊎ ((i == pid) ≡ false)
          → created_by kill i (advance kill pid (w.stage pid) w.file).1 ≡ true
      holder_after i h (inl own) =
          let same_one : i ≡ pid = ground arith in
          rw same_one (
            advance-own kill pid (w.stage pid) w.file (inv.stages_fresh pid) (inv.holder pid)
              (ground (arith, own, h)))
      holder_after i h (inr others) =
          advance-holder kill pid i (w.stage pid) w.file (inv.stages_fresh pid)
            (inv.holder i (ground (arith, others, h)))

  pub Reach-Inv : {w v : World} → Inv w → Reach w v → Inv v
  Reach-Inv inv here = inv
  Reach-Inv inv (next pid r runs_now) = advances-Inv pid _ (Reach-Inv inv r) runs_now

  same_creator :
      (i j : ℕ) (file : Option File)
      → created_by kill i file ≡ true
      → created_by kill j file ≡ true
      → i ≡ j
  same_creator i j none hi hj = absurd (ground arith)
  same_creator i j (some f) hi hj = ground (arith, hi, hj)

  -- Of supervisors that start at the same time, with their calls of the operating system in any
  -- order, at most one has created the file and gone on, if none is stopped and the file that they
  -- find, if any, has not the pid of a process that is gone.
  pub Reach-exclusion :
      {v : World} (file : Option File) (i j : ℕ)
      → stale_file kill file ≡ false
      → Reach (record { file = file; stage = λ k. reading }) v
      → holds (v.stage i) ≡ true
      → holds (v.stage j) ≡ true
      → i ≡ j
  Reach-exclusion file i j fresh_file r hi hj =
      let start : Inv (record { file = file; stage = λ k. reading }) = record {
        file_fresh = fresh_file;
        stages_fresh = λ k. refl;
        holder = λ k h. absurd (ground arith);
      } in
      let inv = Reach-Inv start r in same_creator i j _ (inv.holder i hi) (inv.holder j hj)
