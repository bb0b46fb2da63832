-- ===== src/Kernel/Tasks/Chain.antt =====
-- The task list as a list of tasks: what is found in it, and what adding a task does.
use tay_huang_os.Prelude.{
  ℕ, zero, suc, true, false, some, List, [], ◌∷◌, ◌==◌, if◌then◌else◌, ◌+◌, ◌<◌, ◌≡◌, ◌≢◌, refl,
  sym, subst, ap, ◌∙◌, arith, length, Bool-cases, inl, inr,
}
use tay_huang_os.Prelude.Int.{ℤ, ==ℤ, ==ℤ_refl}
use tay_huang_os.Kernel.State.{Kernel, update}
use tay_huang_os.Kernel.Ready.Chain.{NotIn, Chain, Chain-ext, Chain-update, update_self}
use tay_huang_os.Kernel.Tasks.{walk, get_task_by_pid, add_task}

abbrev pub nexts : Kernel → ℕ → ℕ
nexts k p = (k.task p).next

-- The task list holds the tasks at these addresses, in order.
abbrev pub IsTaskList : Kernel → List ℕ → Type 0
IsTaskList k xs = Chain (nexts k) k.task_list xs

-- The first task with the pid, or NULL.
abbrev pub first_with : Kernel → ℤ → List ℕ → ℕ
first_with k pid [] = 0
first_with k pid (x ∷ xs) = if ==ℤ (k.task x).pid pid then x else first_with k pid xs

walk-first_with :
    (fuel : ℕ) (k : Kernel) (pid : ℤ) (p : ℕ) (xs : List ℕ)
    → length xs < fuel
    → Chain (nexts k) p xs
    → walk fuel k pid p ≡ some (first_with k pid xs)
unfolding walk
walk-first_with zero k pid p xs h c = absurd (omega arith)
walk-first_with (suc fuel) k pid p [] h c = let e : (p == 0) ≡ true = ground arith in rw e refl
walk-first_with (suc fuel) k pid p (x ∷ xs) h (e, n, c) =
    let nz : (x == 0) ≡ false = ground arith in
    let rest = walk-first_with fuel k pid (nexts k x) xs (omega arith) c in
    rw e (elim (Bool-cases (==ℤ (k.task x).pid pid)) [
      | inl eq ↦ rw (nz, eq) refl
      | inr ne ↦ rw (nz, ne) rest
    ])

-- With more fuel than tasks, the lookup ends with the first task that has the pid, or NULL if none
-- has.
pub get_task_by_pid-first_with :
    (fuel : ℕ) (k : Kernel) (pid : ℤ) (xs : List ℕ)
    → length xs < fuel
    → IsTaskList k xs
    → get_task_by_pid fuel k pid ≡ some (first_with k pid xs)
unfolding get_task_by_pid
get_task_by_pid-first_with fuel k pid xs h c = walk-first_with fuel k pid k.task_list xs h c

nexts-add_task :
    (t : ℕ) (k : Kernel) (q : ℕ) → update (nexts k) t k.task_list q ≡ nexts (add_task t k) q
unfolding add_task
nexts-add_task t k q = ground arith

pids-add_task : (t : ℕ) (k : Kernel) (q : ℕ) → ((add_task t k).task q).pid ≡ (k.task q).pid
unfolding add_task
pids-add_task t k q = ground arith

head-add_task : (t : ℕ) (k : Kernel) → (add_task t k).task_list ≡ t
unfolding add_task
head-add_task t k = refl

-- A task that is in no list is put in front, and is then found under its pid.
pub add_task-IsTaskList :
    (fuel t : ℕ) (k : Kernel) (xs : List ℕ)
    → t ≢ 0
    → NotIn t xs
    → IsTaskList k xs
    → length xs + 1 < fuel
    → IsTaskList (add_task t k) (t ∷ xs)
      × (get_task_by_pid fuel (add_task t k) (k.task t).pid ≡ some t)
add_task-IsTaskList fuel t k xs nz ne c h =
    let next = update (nexts k) t k.task_list in
    let rest : Chain next (next t) xs =
      subst (λ q. Chain next q xs) (sym (update_self (nexts k) t k.task_list))
        (Chain-update (nexts k) t k.task_list k.task_list xs ne c) in
    let l : IsTaskList (add_task t k) (t ∷ xs) =
      Chain-ext next (nexts (add_task t k)) (nexts-add_task t k) (add_task t k).task_list (t ∷ xs)
        (head-add_task t k, nz, rest) in
    let same : ==ℤ ((add_task t k).task t).pid (k.task t).pid ≡ true =
      ap (λ i. ==ℤ i (k.task t).pid) (pids-add_task t k t) ∙ ==ℤ_refl (k.task t).pid in
    (
      l,
      get_task_by_pid-first_with fuel (add_task t k) (k.task t).pid (t ∷ xs) (omega (arith, h)) l
          ∙ ap (λ b. some (if b then t else first_with (add_task t k) (k.task t).pid xs)) same,
    )
