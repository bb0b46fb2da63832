-- ===== src/Kernel/Syscall/Lock.antt =====
-- The lock of `__test_and_lock` (kernel/syscall/syscalls.c) under any order of attempts.
use tay_huang_os.Prelude.{
  ℕ, Bool, true, false, Option, none, some, List, [], ◌∷◌, ◌==◌, ◌≡◌, ◌≢◌, refl, ap, ◌∙◌, arith,
}
use mathlib.Core.Option
use tay_huang_os.Kernel.State.{current_task, update}
use tay_huang_os.Kernel.Ready.Chain.{update_self}
use tay_huang_os.Kernel.Syscall.{System, Args, syscall, test_and_lock, running_as, of_bool}

abbrev pub lock_args : ℕ → Args
lock_args val = record { sysno = 6; counter = 0; value = 0; src = 0; dst = val; arg1 = 0 }

abbrev pub prepend : ℕ → List ℕ × System → List ℕ × System
prepend n (ns, s) = (n ∷ ns, s)

-- The result of a call, before those of the calls that come after it.
abbrev pub and_then :
    (System → Option (List ℕ × System)) → Option (ℕ × System) → Option (List ℕ × System)
and_then next none = none
and_then next (some (r, s)) = Option.map (prepend r) (next s)

-- The page table of a thread's task.
abbrev pub pgd_of : System → ℕ → ℕ
pgd_of s thread = (s.machine.kernel.task (s.machine.kernel.thread thread).task).pgd

module _ (pa : ℕ → ℕ → ℕ) where
  -- Calls of TEST_AND_LOCK_SN, each by a thread on its own address of the lock, and their results.
  unfoldable pub attempts : ℕ → ℕ → ℕ → List (ℕ × ℕ) → System → Option (List ℕ × System)
  attempts fuel junk place [] s = some ([], s)
  attempts fuel junk place ((thread, val) ∷ rest) s =
      and_then (attempts fuel junk place rest)
        (syscall pa fuel junk place (lock_args val) (running_as thread s))

  -- All of them try the byte `a`; `pgds` gives the page table of each thread.
  abbrev pub AllAt : (ℕ → ℕ) → ℕ → List (ℕ × ℕ) → Type 0
  AllAt pgds a [] = Unit
  AllAt pgds a ((thread, val) ∷ rest) = (pa (pgds thread) val ≡ a) × AllAt pgds a rest

  abbrev pub zeros : List (ℕ × ℕ) → List ℕ
  zeros [] = []
  zeros (x ∷ xs) = 0 ∷ zeros xs

  test_and_lock-free :
      (val : ℕ) (s : System)
      → s.memory (pa (current_task s.machine.kernel).pgd val) ≡ 0
      → test_and_lock pa val s ≡ (
        true,
        record s { memory = update s.memory (pa (current_task s.machine.kernel).pgd val) 1 },
      )
  unfolding test_and_lock
  test_and_lock-free val s e = rw e refl

  test_and_lock-held :
      (val : ℕ) (s : System)
      → s.memory (pa (current_task s.machine.kernel).pgd val) ≢ 0
      → test_and_lock pa val s ≡ (false, s)
  unfolding test_and_lock
  test_and_lock-held val s ne =
      let z : (s.memory (pa (current_task s.machine.kernel).pgd val) == 0) ≡ false = ground arith in
      rw z refl

  syscall-lock :
      (fuel junk place val : ℕ) (s : System)
      → syscall pa fuel junk place (lock_args val) s
        ≡ some (of_bool (test_and_lock pa val s).0, (test_and_lock pa val s).1)
  unfolding syscall
  syscall-lock fuel junk place val s = refl

  attempts-cons :
      (fuel junk place thread val r : ℕ) (rest : List (ℕ × ℕ)) (ns : List ℕ) (s s1 s2 : System)
      → syscall pa fuel junk place (lock_args val) (running_as thread s) ≡ some (r, s1)
      → attempts fuel junk place rest s1 ≡ some (ns, s2)
      → attempts fuel junk place ((thread, val) ∷ rest) s ≡ some (r ∷ ns, s2)
  unfolding attempts
  attempts-cons fuel junk place thread val r rest ns s s1 s2 e h =
      ap (and_then (attempts fuel junk place rest)) e ∙ ap (Option.map (prepend r)) h

  -- While the lock is held, every attempt fails and leaves it held.
  attempts-held :
      (fuel junk place a : ℕ) (tries : List (ℕ × ℕ)) (s : System)
      → AllAt (pgd_of s) a tries
      → s.memory a ≢ 0
      → (s' : System) × (attempts fuel junk place tries s ≡ some (zeros tries, s'))
        × (s'.memory ≡ s.memory)
  unfolding attempts
  attempts-held fuel junk place a [] s at ne = (s, refl, refl)
  attempts-held fuel junk place a ((thread, val) ∷ rest) s (e, at) ne =
      let s1 = running_as thread s in
      let held : s1.memory (pa (current_task s1.machine.kernel).pgd val) ≢ 0 = rw e ne in
      let (s', done, same) = attempts-held fuel junk place a rest s1 at ne in
      (
        s',
        attempts-cons fuel junk place thread val 0 rest (zeros rest) s s1 s'
            (syscall-lock fuel junk place val s1
              ∙ ap (λ (r : Bool × System). some (of_bool r.0, r.1))
                  (test_and_lock-held val s1 held))
            done,
        same,
      )

  -- However many threads try one byte that is 0, in whatever order and through whatever addresses,
  -- the first attempt alone succeeds, and the byte, which is the only one that changes, is then 1.
  pub attempts-once :
      (fuel junk place a thread val : ℕ) (rest : List (ℕ × ℕ)) (s : System)
      → AllAt (pgd_of s) a ((thread, val) ∷ rest)
      → s.memory a ≡ 0
      → (s' : System) × (attempts fuel junk place ((thread, val) ∷ rest) s
          ≡ some (1 ∷ zeros rest, s'))
        × (s'.memory ≡ update s.memory a 1)
  unfolding attempts
  attempts-once fuel junk place a thread val rest s (e, at) free =
      let s1 = running_as thread s in
      let open1 : s1.memory (pa (current_task s1.machine.kernel).pgd val) ≡ 0 = rw e free in
      let s2 = record s1 { memory = update s.memory a 1 } in
      let first : test_and_lock pa val s1 ≡ (true, s2) =
        test_and_lock-free val s1 open1
        ∙ ap (λ b. (true, record s1 { memory = update s.memory b 1 })) e in
      let set : s2.memory a ≢ 0 = rw (update_self s.memory a 1) (ground arith) in
      let (s', done, same) = attempts-held fuel junk place a rest s2 at set in
      (
        s',
        attempts-cons fuel junk place thread val 1 rest (zeros rest) s s2 s'
            (syscall-lock fuel junk place val s1
              ∙ ap (λ (r : Bool × System). some (of_bool r.0, r.1)) first)
            done,
        same,
      )
