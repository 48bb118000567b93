-- ===== src/Producer/Files.antt =====
-- What the producer has open, and that no round of its loop and no exit of `main` leaks any of it.
use linux_device_drivers_hw.Base.{◌+◌, ◌≡◌, ◌<◌, ◌↔◌, ◌&&◌, refl, ◌∙◌, true, arith, List, [], ◌∷◌}
use linux_device_drivers_hw.Producer.Average.{stores}
use linux_device_drivers_hw.Producer.{
  Floats, SampleFloat, Reading, open_failed, fdopen_failed, line_failed, complete, Process, round,
  rounds, Opening, main, cleared,
}

module _ (F : Floats) where
  -- The same descriptors, mappings and semaphores are open, and the semaphore is as free as before.
  record Balanced (p q : Process F) : Type 0 where
    same_fds : q.fds ≡ p.fds
    same_maps : q.maps ≡ p.maps
    same_sems : q.sems ≡ p.sems
    same_semaphore : q.semaphore ≡ p.semaphore

  round-Balanced : (r : Reading F) (p : Process F) → 0 < p.semaphore → Balanced p (round r p)
  unfolding round
  round-Balanced open_failed p h = record {
    same_fds = refl;
    same_maps = refl;
    same_sems = refl;
    same_semaphore = refl;
  }
  round-Balanced fdopen_failed p h = record {
    same_fds = omega arith;
    same_maps = refl;
    same_sems = refl;
    same_semaphore = refl;
  }
  round-Balanced line_failed p h = record {
    same_fds = omega arith;
    same_maps = refl;
    same_sems = refl;
    same_semaphore = refl;
  }
  round-Balanced (complete sample) p h = record {
    same_fds = omega arith;
    same_maps = refl;
    same_sems = refl;
    same_semaphore = omega arith;
  }

  rounds-Balanced :
      (rs : List (Reading F)) (p : Process F) → 0 < p.semaphore → Balanced p (rounds rs p)
  rounds-Balanced [] p h = record {
    same_fds = refl;
    same_maps = refl;
    same_sems = refl;
    same_semaphore = refl;
  }
  rounds-Balanced (r ∷ rs) p h =
      let a = round-Balanced r p h in
      let b = rounds-Balanced rs (round r p) (omega (arith, a.same_semaphore)) in
      record {
        same_fds = b.same_fds ∙ a.same_fds;
        same_maps = b.same_maps ∙ a.same_maps;
        same_sems = b.same_sems ∙ a.same_sems;
        same_semaphore = b.same_semaphore ∙ a.same_semaphore;
      }

  -- The samples that the rounds bring.
  abbrev pub samples_of : List (Reading F) → List (SampleFloat F)
  samples_of [] = []
  samples_of (open_failed ∷ rs) = samples_of rs
  samples_of (fdopen_failed ∷ rs) = samples_of rs
  samples_of (line_failed ∷ rs) = samples_of rs
  samples_of (complete s ∷ rs) = s ∷ samples_of rs

  -- The loop stores the complete samples in their order and nothing else: a round that fails, at
  -- the device, at the stream or at one of the lines, leaves the shared memory alone.
  pub rounds-stores :
      (rs : List (Reading F)) (p : Process F)
      → (rounds rs p).shared_data ≡ stores F (samples_of rs) p.shared_data
  unfolding round
  rounds-stores [] p = refl
  rounds-stores (open_failed ∷ rs) p = rounds-stores rs (round open_failed p)
  rounds-stores (fdopen_failed ∷ rs) p = rounds-stores rs (round fdopen_failed p)
  rounds-stores (line_failed ∷ rs) p = rounds-stores rs (round line_failed p)
  rounds-stores (complete s ∷ rs) p = rounds-stores rs (round (complete s) p)

  -- Whichever of the four openings fails, and whatever the rounds of the loop meet, `main` ends
  -- with as many descriptors, mappings and semaphores open as before it, and its exit code is 0
  -- exactly when all four openings succeed.
  main_closes :
      (o : Opening) (rs : List (Reading F)) (p : Process F)
      → let r = main F o rs p in
        (r.1.fds ≡ p.fds)
        × (r.1.maps ≡ p.maps)
        × (r.1.sems ≡ p.sems)
        × ((r.0 ≡ 0) ↔ ((o.shm_open && (o.ftruncate && (o.mmap && o.sem_open))) ≡ true))
  unfolding main
  main_closes o rs p =
      let opened = record p {
        fds = p.fds + 1;
        maps = p.maps + 1;
        sems = p.sems + 1;
        semaphore = 1;
        shared_data = cleared F;
      } in
      ground (arith, rounds-Balanced rs opened (omega arith))
