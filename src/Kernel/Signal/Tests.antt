-- ===== src/Kernel/Signal/Tests.antt =====
-- Runs of the semaphores of kernel/task/signal.c.
use tay_huang_os.Prelude.{ℕ, ◌≡◌, refl, false, none, some, [], ◌∷◌, arith, ◌==◌, if◌then◌else◌}
use tay_huang_os.Prelude.Int.{pos, negsuc}
use tay_huang_os.Kernel.Samples.{two_ready}
use tay_huang_os.Kernel.Signal.Tree.{Signal, Tree, leaf, node, insert_signal, get_signal}
use tay_huang_os.Kernel.Signal.Tree.Falling.{IsOrdered}
use tay_huang_os.Kernel.Signal.Tree.Balance.{IsBalanced, insert_signal-IsBalanced}
use tay_huang_os.Kernel.Signal.{Signals, new_signal, create_signal, up_signal, down_signal}
use tay_huang_os.Kernel.Signal.Wait.{IsCounted, view, wake_first}
use tay_huang_os.Kernel.Signal.Store.{
  IsTable, create_signal-IsTable, up_signal-IsTable, down_signal-IsTable,
}

-- A mutex with the id, free, and the same held while thread 2 waits.
abbrev mutex : ℕ → Signal
mutex id = new_signal id (pos 1) (pos 1) false

abbrev contended : Signal
contended = record (mutex 1) { signals = negsuc 0; waiters = 2 ∷ [] }

-- Semaphores 0 and 1; the next id is 2.
abbrev pair : Tree
pair = node (node leaf contended (pos 0) leaf) (mutex 0) (negsuc 0) leaf

abbrev table : Signals
table = record { root = pair; cur_id = 2 }

pair-IsOrdered : IsOrdered pair
pair-IsOrdered = ((omega arith, tt), (tt, tt))

pair-IsBalanced : IsBalanced pair
pair-IsBalanced = ((tt, ground arith, tt), ground arith, tt)

table-IsTable : IsTable table
table-IsTable = record {
  ordered = pair-IsOrdered;
  balanced = pair-IsBalanced;
  below = (omega arith, (omega arith, tt));
}

contended-IsCounted : IsCounted contended
contended-IsCounted = record {
  hard = refl;
  roomy = omega arith;
  capped = omega arith;
  counted = refl;
}

mutex-IsCounted : IsCounted (mutex 0)
mutex-IsCounted = record { hard = refl; roomy = omega arith; capped = omega arith; counted = refl }

-- The third semaphore turns the tree to the right.
insert_signal-IsBalanced_example :
    (t' : Tree) × (insert_signal (mutex 2) pair ≡ some t') × IsBalanced t'
insert_signal-IsBalanced_example =
    insert_signal-IsBalanced (mutex 2) pair pair-IsBalanced (omega arith, (omega arith, tt))

abbrev three : Tree
three = node (node leaf (mutex 2) (pos 0) leaf) contended (pos 0) (node leaf (mutex 0) (pos 0) leaf)

create_signal-IsTable_example :
    (get_signal 2 pair ≡ none)
    × ((sg' : Signals) × (create_signal (pos 1) (pos 1) false table ≡ some (2, sg'))
        × IsTable sg'
        × ((j : ℕ)
            → get_signal j sg'.root ≡ (if 2 == j then some (mutex 2) else get_signal j pair)))
create_signal-IsTable_example =
    create_signal-IsTable (pos 1) (pos 1) false table table-IsTable (omega arith)

up_signal-IsTable_example :
    (sg' : Signals) × (up_signal 1 table (two_ready (pos 0))
      ≡ some (sg', wake_first (some 2) (two_ready (pos 0))))
    × IsTable sg'
    × ((s' : Signal) × IsCounted s'
        × (view s' ≡ record { free = 0; queue = [] })
        × ((j : ℕ) → get_signal j sg'.root ≡ (if 1 == j then some s' else get_signal j pair)))
unfolding get_signal
up_signal-IsTable_example =
    up_signal-IsTable 1 table (two_ready (pos 0)) contended table-IsTable refl contended-IsCounted

down_signal-IsTable_example :
    (sg' : Signals) × (down_signal 0 table (two_ready (pos 0)) ≡ some (sg', two_ready (pos 0)))
    × IsTable sg'
    × ((s' : Signal) × IsCounted s'
        × (view s' ≡ record { free = 0; queue = [] })
        × ((j : ℕ) → get_signal j sg'.root ≡ (if 0 == j then some s' else get_signal j pair)))
unfolding get_signal
down_signal-IsTable_example =
    down_signal-IsTable 0 table (two_ready (pos 0)) (mutex 0) table-IsTable refl mutex-IsCounted
