-- ===== src/Kernel/Tostring/Tests.antt =====
-- Runs of the functions that print numbers.
use tay_huang_os.Prelude.{ℕ, some, List, ◌≡◌, arith}
use tay_huang_os.Kernel.Tostring.{ulltoa}
use tay_huang_os.Kernel.Tostring.Digits.{Written, ulltoa-Written}

abbrev dust : ℕ → ℕ
dust q = 7

ulltoa-Written_example :
    (chs : List ℕ) × (mem' : ℕ → ℕ) × (ulltoa 2023 500 10 dust ≡ some mem')
    × Written 10 2023 500 dust mem' chs
ulltoa-Written_example =
    ulltoa-Written 2023 500 10 dust (omega arith) (omega arith) (omega arith) (omega arith)
