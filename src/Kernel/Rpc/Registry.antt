-- ===== src/Kernel/Rpc/Registry.antt =====
-- What registrations change for requests.
use tay_huang_os.Prelude.{
  ℕ, Bool, true, false, some, List, [], ◌∷◌, ◌==◌, ◌||◌, not, length, take, ◌≡◌, ◌≢◌, ◌↔◌, ◌⊎◌, inl,
  inr, refl, sym, ap, subst, ◌∙◌, arith, Bool-cases,
}
use tay_huang_os.Kernel.Rpc.{
  ProccessInfo, answer, Registry, Request, Reply, Outcome, invalid_function, invalid_args_size,
  invalid_return_size, return_size_not_match, replied, any_size, wrong_size, rpc_register,
  list_find_proccess, deal_rpc_request, run_proccess,
}

-- One registration after the other.
abbrev pub register : ProccessInfo → Registry → Registry
register info nodes = rpc_register info.func_no info.proccess info.return_size info.args_size nodes

abbrev pub register_all : List ProccessInfo → Registry → Registry
register_all [] nodes = nodes
register_all (info ∷ later) nodes = register_all later (register info nodes)

-- None of the registrations is for that function.
abbrev pub NoneFor : ℕ → List ProccessInfo → Type 0
NoneFor func [] = Unit
NoneFor func (info ∷ later) = (func ≢ info.func_no) × NoneFor func later

-- Requests for other functions are dealt with as before.
deal_rpc_request-others :
    (info : ProccessInfo) (nodes : Registry) (r : Request)
    → r.func_no ≢ info.func_no
    → deal_rpc_request (register info nodes) r ≡ deal_rpc_request nodes r
unfolding deal_rpc_request rpc_register list_find_proccess
deal_rpc_request-others info nodes r n =
    let e1 : (info.func_no == r.func_no) ≡ false = ground arith in rw e1 refl

deal_rpc_request-later :
    (later : List ProccessInfo) (nodes : Registry) (r : Request)
    → NoneFor r.func_no later
    → deal_rpc_request (register_all later nodes) r ≡ deal_rpc_request nodes r
deal_rpc_request-later [] nodes r n = refl
deal_rpc_request-later (info ∷ later) nodes r (n, ns) =
    deal_rpc_request-later later (register info nodes) r ns ∙ deal_rpc_request-others info nodes r n

-- The latest registration for the function decides.
deal_rpc_request-latest :
    (info : ProccessInfo) (nodes : Registry) (r : Request)
    → r.func_no ≡ info.func_no
    → deal_rpc_request (register info nodes) r ≡ answer r (some info)
unfolding deal_rpc_request rpc_register list_find_proccess
deal_rpc_request-latest info nodes r f =
    let e1 : (info.func_no == r.func_no) ≡ true = ground arith in rw e1 refl

-- A size is the registered one, or any size was registered.
abbrev pub Fits : ℕ → ℕ → Type 0
Fits size wanted = (size ≡ wanted) ⊎ (wanted ≡ any_size)

-- What the wrapper gives for a request.
abbrev pub result_of : ProccessInfo → Request → List ℕ
result_of info r = info.proccess r.source r.func_no (take r.args_size r.msg)

abbrev pub IsServed : ProccessInfo → Request → Reply → Type 0
IsServed info r reply =
    Fits r.args_size info.args_size
    × Fits r.return_size info.return_size
    × Fits (length (result_of info r)) info.return_size
    × (reply ≡ record {
      target = r.source;
      msg_id = r.msg_id;
      func_no = r.func_no;
      return_data = result_of info r;
    })

Fits-wrong_size : (size wanted : ℕ) → Fits size wanted → wrong_size size wanted ≡ false
Fits-wrong_size size wanted h = ground arith

wrong_size-Fits : (size wanted : ℕ) → wrong_size size wanted ≡ false → Fits size wanted
wrong_size-Fits size wanted h = ground arith

NotFits-wrong_size : (size wanted : ℕ) → (Fits size wanted → ⊥) → wrong_size size wanted ≡ true
NotFits-wrong_size size wanted h = elim (Bool-cases (wrong_size size wanted)) [
  | inl e ↦ e
  | inr e ↦ absurd (h (wrong_size-Fits size wanted e))
]

wrong_size-NotFits : (size wanted : ℕ) → wrong_size size wanted ≡ true → Fits size wanted → ⊥
wrong_size-NotFits size wanted e h =
    let e' : wrong_size size wanted ≡ false = Fits-wrong_size size wanted h in cc

-- When each answer is the right one.
abbrev pub IsAnswer : ProccessInfo → Request → Outcome → Type 0
IsAnswer info r invalid_function = ⊥
IsAnswer info r invalid_args_size = Fits r.args_size info.args_size → ⊥
IsAnswer info r invalid_return_size =
    Fits r.args_size info.args_size × (Fits r.return_size info.return_size → ⊥)
IsAnswer info r return_size_not_match =
    Fits r.args_size info.args_size
    × Fits r.return_size info.return_size
    × (Fits (length (result_of info r)) info.return_size → ⊥)
IsAnswer info r (replied reply) = IsServed info r reply

run_size :
    (info : ProccessInfo) (r : Request) (b : Bool)
    → wrong_size (length (result_of info r)) info.return_size ≡ b
    → (info.return_size == length (result_of info r) || info.return_size == any_size) ≡ not b
run_size info r true e = ground arith
run_size info r false e = ground arith

answer-IsAnswer : (info : ProccessInfo) (r : Request) → IsAnswer info r (answer r (some info))
unfolding answer run_proccess
answer-IsAnswer info r = elim (Bool-cases (wrong_size r.args_size info.args_size)) [
  | inl e1 ↦ rw e1 (wrong_size-NotFits r.args_size info.args_size e1)
  | inr e1 ↦ elim (Bool-cases (wrong_size r.return_size info.return_size)) [
    | inl e2 ↦
        rw (e1, e2)
          (
            wrong_size-Fits r.args_size info.args_size e1,
            wrong_size-NotFits r.return_size info.return_size e2,
          )
    | inr e2 ↦
        let n = length (result_of info r) in
        elim (Bool-cases (wrong_size n info.return_size)) [
          | inl e3 ↦
              rw (e1, e2, run_size info r true e3)
                (
                  wrong_size-Fits r.args_size info.args_size e1,
                  wrong_size-Fits r.return_size info.return_size e2,
                  wrong_size-NotFits n info.return_size e3,
                )
          | inr e3 ↦
              rw (e1, e2, run_size info r false e3)
                (
                  wrong_size-Fits r.args_size info.args_size e1,
                  wrong_size-Fits r.return_size info.return_size e2,
                  wrong_size-Fits n info.return_size e3,
                  refl,
                )
        ]
  ]
]

IsAnswer-answer :
    (info : ProccessInfo) (r : Request) (o : Outcome) → IsAnswer info r o → answer r (some info) ≡ o
unfolding answer run_proccess
IsAnswer-answer info r invalid_function h = absurd h
IsAnswer-answer info r invalid_args_size h =
    rw (NotFits-wrong_size r.args_size info.args_size h) refl
IsAnswer-answer info r invalid_return_size (a, h) =
    rw
      (
        Fits-wrong_size r.args_size info.args_size a,
        NotFits-wrong_size r.return_size info.return_size h,
      )
      refl
IsAnswer-answer info r return_size_not_match (a, b, h) =
    rw
      (
        Fits-wrong_size r.args_size info.args_size a,
        Fits-wrong_size r.return_size info.return_size b,
        run_size info r true (NotFits-wrong_size (length (result_of info r)) info.return_size h),
      )
      refl
IsAnswer-answer info r (replied reply) (a, b, c, e) =
    rw
      (
        Fits-wrong_size r.args_size info.args_size a,
        Fits-wrong_size r.return_size info.return_size b,
        run_size info r false (Fits-wrong_size (length (result_of info r)) info.return_size c),
      )
      (ap replied (sym e))

-- After a registration and any later ones for other functions, a request for the function gets each
-- answer exactly when it is the right one: never that there is no such function; that the arguments
-- have the wrong size, when the registration has another one and not -1; that the result asked for has
-- the wrong size, when only that is so; that the wrapper's result has not the registered size, when the
-- wrapper was called and only that is so; and otherwise a reply to the caller, with the request's id and
-- the wrapper's result, is handed over for sending.
pub deal_rpc_request-register_all :
    (info : ProccessInfo) (later : List ProccessInfo) (nodes : Registry) (r : Request) (o : Outcome)
    → r.func_no ≡ info.func_no
    → NoneFor r.func_no later
    → (deal_rpc_request (register_all later (register info nodes)) r ≡ o) ↔ IsAnswer info r o
deal_rpc_request-register_all info later nodes r o f n =
    let e : deal_rpc_request (register_all later (register info nodes)) r ≡ answer r (some info) =
      deal_rpc_request-later later (register info nodes) r n
      ∙ deal_rpc_request-latest info nodes r f in
    (
      λ q. subst (IsAnswer info r) (sym e ∙ q) (answer-IsAnswer info r),
      λ h. e ∙ IsAnswer-answer info r o h,
    )
