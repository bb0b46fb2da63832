-- ===== src/Kernel/Rpc.antt =====
-- The remote calls that the kernel's task serves (kernel/syscall/rpc.c): a list of functions, and the
-- checks of a request.
pub mod Registry
mod Tests
use tay_huang_os.Prelude.{
  ℕ, Bool, true, false, Option, none, some, List, [], ◌∷◌, ◌++◌, ◌==◌, ◌||◌, not, length, take,
  if◌then◌else◌, ◌-◌, ◌^◌,
}

-- -1 as a `rpc_size`: any size is right.
abbrev pub any_size : ℕ
any_size = 2 ^ 32 - 1

-- `proccess_info`. The wrapper gets the caller, the function number and the bytes of the arguments,
-- and gives the bytes of its result.
pub record ProccessInfo : Type 0 where
  pub func_no : ℕ
  pub proccess : ℕ → ℕ → List ℕ → List ℕ
  pub return_size : ℕ
  pub args_size : ℕ

-- The list at `head_node`: numbers and what they lead to, the latest first.
abbrev pub Registry : Type 0
Registry = List (ℕ × ProccessInfo)

unfoldable pub list_find_proccess : ℕ → Registry → Option ProccessInfo
list_find_proccess func_no [] = none
list_find_proccess func_no ((n, info) ∷ nodes) =
    let rest = list_find_proccess func_no nodes in if n == func_no then some info else rest

abbrev pub add_proccess : ℕ → ProccessInfo → Registry → Registry
add_proccess func_no info nodes = (func_no, info) ∷ nodes

unfoldable pub rpc_register : ℕ → (ℕ → ℕ → List ℕ → List ℕ) → ℕ → ℕ → Registry → Registry
rpc_register func process return_size args_size nodes =
    add_proccess func
      (record {
        func_no = func;
        proccess = process;
        return_size = return_size;
        args_size = args_size;
      })
      nodes

-- A request as it is read from the message: the function, the two sizes and the bytes behind them.
pub record Request : Type 0 where
  pub source : ℕ
  pub msg_id : ℕ
  pub func_no : ℕ
  pub args_size : ℕ
  pub return_size : ℕ
  pub msg : List ℕ

-- The message that goes back: MSG_RPC_RESULT with the id of the request, the function and the result.
pub record Reply : Type 0 where
  pub target : ℕ
  pub msg_id : ℕ
  pub func_no : ℕ
  pub return_data : List ℕ

pub data Outcome : Type 0 where
  invalid_function : Outcome
  invalid_args_size : Outcome
  invalid_return_size : Outcome
  return_size_not_match : Outcome
  replied : Reply → Outcome

-- `size != wanted && wanted != -1`.
abbrev pub wrong_size : ℕ → ℕ → Bool
wrong_size size wanted = not (size == wanted || wanted == any_size)

-- From the call of the wrapper on.
unfoldable pub run_proccess : ProccessInfo → Request → Outcome
run_proccess info r =
    let result = info.proccess r.source r.func_no (take r.args_size r.msg) in
    if info.return_size == length result || info.return_size == any_size
    then replied
        (record { target = r.source; msg_id = r.msg_id; func_no = r.func_no; return_data = result })
    else return_size_not_match

-- The checks of a request against what the list has for it.
unfoldable pub answer : Request → Option ProccessInfo → Outcome
answer r none = invalid_function
answer r (some info) =
    if wrong_size r.args_size info.args_size
    then invalid_args_size
    else if wrong_size r.return_size info.return_size
    then invalid_return_size
    else run_proccess info r

unfoldable pub deal_rpc_request : Registry → Request → Outcome
deal_rpc_request nodes r = answer r (list_find_proccess r.func_no nodes)
