-- ===== src/Drivers/Console/Tests.antt =====
-- Runs of the console.
use tay_huang_os.Prelude.{ℕ, ◌≡◌, ◌<◌, inl, arith, [], ◌∷◌}
use tay_huang_os.Drivers.Console.{Console, position, puts}
use tay_huang_os.Drivers.Console.Cursor.{Shows, Elsewhere, puts-Shows}

-- The last column of the first row.
abbrev at_edge : Console
at_edge = record { framebuffer = 1000; framebuffer_id = 1; pos_x = 79; pos_y = 0; color = 15 }

abbrev dark : ℕ → ℕ
dark q = 0

puts-Shows_example :
    let (c', mem') = puts (72 ∷ 105 ∷ []) (at_edge, dark) in
    Shows 1000 15 mem' 79 (72 ∷ 105 ∷ [])
    × (position c' ≡ 81)
    × (c'.pos_x < 80)
    × Elsewhere at_edge 79 2 dark mem'
puts-Shows_example =
    puts-Shows (72 ∷ 105 ∷ []) at_edge dark (inl (omega arith), (inl (omega arith), tt))
      (omega arith)
