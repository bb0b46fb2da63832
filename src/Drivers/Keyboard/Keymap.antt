-- ===== src/Drivers/Keyboard/Keymap.antt =====
-- The table of keys by scan code (module/driver/keyboard/ioman/keymap.c), with the keys that are no
-- characters by their numbers in libs/libkmod/export/keyboard/key_types.h.
use tay_huang_os.Prelude.{ℕ, none, some, List, [], ◌∷◌, get_elem?}

-- The columns NORMAL, SHIFT and E0.
pub record Key : Type 0 where
  pub normal : ℕ
  pub shift : ℕ
  pub e0 : ℕ

abbrev key : ℕ → ℕ → ℕ → Key
key n s e = record { normal = n; shift = s; e0 = e }

unfoldable pub keymap : List Key
keymap =
    key 0 0 0
    ∷ key 256 256 0
    ∷ key 49 33 0
    ∷ key 50 64 0
    ∷ key 51 35 0
    ∷ key 52 36 0
    ∷ key 53 37 0
    ∷ key 54 94 0
    ∷ key 55 38 0
    ∷ key 56 42 0
    ∷ key 57 40 0
    ∷ key 48 41 0
    ∷ key 45 95 0
    ∷ key 61 43 0
    ∷ key 257 257 0
    ∷ key 258 258 0
    ∷ key 113 81 0
    ∷ key 119 87 0
    ∷ key 101 69 0
    ∷ key 114 82 0
    ∷ key 116 84 0
    ∷ key 121 89 0
    ∷ key 117 85 0
    ∷ key 105 73 0
    ∷ key 111 79 0
    ∷ key 112 80 0
    ∷ key 91 123 0
    ∷ key 93 125 0
    ∷ key 259 259 260
    ∷ key 261 261 262
    ∷ key 97 65 0
    ∷ key 115 83 0
    ∷ key 100 68 0
    ∷ key 102 70 0
    ∷ key 103 71 0
    ∷ key 104 72 0
    ∷ key 106 74 0
    ∷ key 107 75 0
    ∷ key 108 76 0
    ∷ key 59 58 0
    ∷ key 39 34 0
    ∷ key 96 126 0
    ∷ key 263 263 0
    ∷ key 92 124 0
    ∷ key 122 90 0
    ∷ key 120 88 0
    ∷ key 99 67 0
    ∷ key 118 86 0
    ∷ key 98 66 0
    ∷ key 110 78 0
    ∷ key 109 77 0
    ∷ key 44 60 0
    ∷ key 46 62 0
    ∷ key 47 63 267
    ∷ key 264 264 0
    ∷ key 42 42 0
    ∷ key 265 265 266
    ∷ key 32 32 0
    ∷ key 268 268 0
    ∷ key 271 271 0
    ∷ key 272 272 0
    ∷ key 273 273 0
    ∷ key 274 274 0
    ∷ key 275 275 0
    ∷ key 276 276 0
    ∷ key 277 277 0
    ∷ key 278 278 0
    ∷ key 279 279 0
    ∷ key 280 280 0
    ∷ key 269 269 0
    ∷ key 270 270 0
    ∷ key 281 55 282
    ∷ key 283 56 284
    ∷ key 285 57 286
    ∷ key 287 45 0
    ∷ key 288 52 289
    ∷ key 290 53 0
    ∷ key 291 54 292
    ∷ key 293 43 0
    ∷ key 294 49 295
    ∷ key 296 50 297
    ∷ key 298 51 299
    ∷ key 300 48 301
    ∷ key 302 46 303
    ∷ key 259 259 259
    ∷ key 0 0 0
    ∷ key 0 0 0
    ∷ key 304 304 0
    ∷ key 305 305 0
    ∷ key 0 0 0
    ∷ key 0 0 0
    ∷ key 0 0 306
    ∷ key 0 0 307
    ∷ key 0 0 308
    ∷ key 0 0 0
    ∷ key 0 0 0
    ∷ key 0 0 0
    ∷ key 0 0 0
    ∷ key 0 0 0
    ∷ key 0 0 0
    ∷ key 0 0 0
    ∷ key 0 0 0
    ∷ key 0 0 0
    ∷ key 0 0 0
    ∷ key 0 0 0
    ∷ key 0 0 0
    ∷ key 0 0 0
    ∷ key 0 0 0
    ∷ key 0 0 0
    ∷ key 0 0 0
    ∷ key 0 0 0
    ∷ key 0 0 0
    ∷ key 0 0 0
    ∷ key 0 0 0
    ∷ key 0 0 0
    ∷ key 0 0 0
    ∷ key 0 0 0
    ∷ key 0 0 0
    ∷ key 0 0 0
    ∷ key 0 0 0
    ∷ key 0 0 0
    ∷ key 0 0 0
    ∷ key 0 0 0
    ∷ key 0 0 0
    ∷ key 0 0 0
    ∷ key 0 0 0
    ∷ key 0 0 0
    ∷ key 0 0 0
    ∷ []

abbrev pub no_key : Key
no_key = record { normal = 0; shift = 0; e0 = 0 }

-- The row of a code below 128; the code masks its index to seven bits.
unfoldable pub key_of : ℕ → Key
key_of code = elim (get_elem? keymap code) [ none ↦ no_key | some k ↦ k ]
