-- ===== src/Kernel/Rpc/Tests.antt =====
-- Runs of the list of functions.
use tay_huang_os.Prelude.{ℕ, List, [], ◌∷◌, ◌≡◌, refl, inl, inr, arith}
use tay_huang_os.Kernel.Rpc.{ProccessInfo, Request, replied, any_size, deal_rpc_request}
use tay_huang_os.Kernel.Rpc.Registry.{register, register_all, deal_rpc_request-register_all}

abbrev echo : ℕ → ℕ → List ℕ → List ℕ
echo caller func args = args

-- Task 4 sends two bytes to function 7.
abbrev call : Request
call = record {
  source = 4;
  msg_id = 11;
  func_no = 7;
  args_size = 2;
  return_size = 2;
  msg = 5 ∷ 6 ∷ [];
}

-- Function 7 with results of two bytes for any arguments, and functions 8 and 9 after it.
abbrev echo_info : ProccessInfo
echo_info = record { func_no = 7; proccess = echo; return_size = 2; args_size = any_size }

abbrev later : List ProccessInfo
later = record echo_info { func_no = 8 } ∷ record echo_info { func_no = 9 } ∷ []

deal_rpc_request-register_all_example :
    deal_rpc_request (register_all later (register echo_info [])) call
    ≡ replied (record { target = 4; msg_id = 11; func_no = 7; return_data = 5 ∷ 6 ∷ [] })
deal_rpc_request-register_all_example =
    (deal_rpc_request-register_all echo_info later [] call
        (replied (record { target = 4; msg_id = 11; func_no = 7; return_data = 5 ∷ 6 ∷ [] })) refl
        ((λ e. absurd (omega (arith, e))), ((λ e. absurd (omega (arith, e))), tt))).1
      (inr refl, inl refl, inl refl, refl)
