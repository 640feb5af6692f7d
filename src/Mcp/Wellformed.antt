-- ===== src/Mcp/Wellformed.antt =====
-- aqr/mcp: the form of every reply, and the calls that are refused.
use pigeon_trade.Common.{
  String, true, false, Option, none, some, [], ◌∷◌, any, ◌==◌, ◌≡◌, ◌⊎◌, refl, arith, eq_iff,
  Bool-cases, inl, inr, Option-cases,
}
use pigeon_trade.Common.Dict.{Dict, lookup, contains}
use pigeon_trade.Common.Except.{Except, ok, raise}
use pigeon_trade.Mcp.Protocol.{
  Arg, Result, RequestId, Field, text, result, failure, id, RpcResponse, McpError, method_not_found,
  invalid_params, internal_error, error_response, success_response,
}
use pigeon_trade.Mcp.{
  Services, Method, method_of, Signature, signature_of, bound, arguments, all_known, called,
  answer_to, dispatched, params_or_empty, dispatch,
}

abbrev pub given_id : Option RequestId → Option Field
given_id none = none
given_id (some i) = some (id i)

-- A JSON-RPC 2.0 response: the version, the id of the request if it has one, and either a result or
-- one of the three errors.
abbrev pub IsResponse : Option RequestId → RpcResponse → Type 0
IsResponse req_id r =
    (lookup "jsonrpc" r ≡ some (text "2.0"))
    × (lookup "id" r ≡ given_id req_id)
    × (((value : Result) × (lookup "result" r ≡ some (result value)) × (lookup "error" r ≡ none))
        ⊎ ((e : McpError) × (lookup "error" r ≡ some (failure e))
            × (lookup "result" r ≡ none)
            × ((e ≡ method_not_found) ⊎ ((e ≡ invalid_params) ⊎ (e ≡ internal_error)))))

error_response-IsResponse :
    (e : McpError) (req_id : Option RequestId)
    → (e ≡ method_not_found) ⊎ ((e ≡ invalid_params) ⊎ (e ≡ internal_error))
    → IsResponse req_id (error_response e req_id)
unfolding error_response lookup
error_response-IsResponse e none h = (refl, refl, inr (e, refl, refl, h))
error_response-IsResponse e (some i) h = (refl, refl, inr (e, refl, refl, h))

success_response-IsResponse :
    (value : Result) (req_id : Option RequestId) → IsResponse req_id (success_response value req_id)
unfolding success_response lookup
success_response-IsResponse value none = (refl, refl, inl (value, refl, refl))
success_response-IsResponse value (some i) = (refl, refl, inl (value, refl, refl))

module _ (s : Services) where
  answer_to-IsResponse :
      (req_id : Option RequestId) (r : Except Result) → IsResponse req_id (answer_to s req_id r)
  answer_to-IsResponse req_id (ok value) = success_response-IsResponse value req_id
  answer_to-IsResponse req_id (raise e) = elim (Bool-cases (e == "TypeError")) [
    | inl t ↦ rw t (error_response-IsResponse invalid_params req_id (inr (inl refl)))
    | inr t ↦ rw t (error_response-IsResponse internal_error req_id (inr (inr refl)))
  ]

  dispatched-IsResponse :
      (m : Option Method) (params : Dict Arg) (req_id : Option RequestId) (figis : Dict String)
      → IsResponse req_id (dispatched s m params req_id figis).0
  dispatched-IsResponse none params req_id figis =
      error_response-IsResponse method_not_found req_id (inl refl)
  dispatched-IsResponse (some m) params req_id figis =
      answer_to-IsResponse req_id (called s m params figis).0

  -- Whatever the method, its parameters and the services do, dispatch returns a JSON-RPC response.
  pub dispatch-IsResponse :
      (method : String) (params : Option (Dict Arg)) (req_id : Option RequestId)
      (figis : Dict String)
      → IsResponse req_id (dispatch s method params req_id figis).0
  unfolding dispatch
  dispatch-IsResponse method params req_id figis =
      dispatched-IsResponse (method_of method) (params_or_empty params) req_id figis

-- A parameter without a default.
abbrev pub IsRequired : String → Signature → Type 0
IsRequired k [] = ⊥
IsRequired k ((name, none) ∷ sig) = (name ≡ k) ⊎ IsRequired k sig
IsRequired k ((name, some default) ∷ sig) = IsRequired k sig

-- A key that is not a parameter, or a parameter without a default that is not given.
abbrev pub IsUncallable : Dict Arg → Signature → Type 0
IsUncallable params sig =
    ((k : String) × (contains k params ≡ true) × (any (λ p. p.0 == k) sig ≡ false))
    ⊎ ((k : String) × (lookup k params ≡ none) × (IsRequired k sig))

all_known-unknown :
    (k : String) (params : Dict Arg) (sig : Signature)
    → contains k params ≡ true
    → any (λ p. p.0 == k) sig ≡ false
    → all_known params sig ≡ false
unfolding contains all_known
all_known-unknown k [] sig h f = cc
all_known-unknown k ((j, v) ∷ params) sig h f = elim (Bool-cases (j == k)) [
  | inl e ↦ rw ((eq_iff j k).0 e) (rw f refl)
  | inr e ↦ elim (Bool-cases (any (λ p. p.0 == j) sig)) [
    | inl t ↦ rw t (all_known-unknown k params sig (ground (arith, e, h)) f)
    | inr t ↦ rw t refl
  ]
]

arguments-missing :
    (k : String) (params : Dict Arg) (sig : Signature)
    → lookup k params ≡ none
    → IsRequired k sig
    → arguments params sig ≡ raise "TypeError"
unfolding arguments
arguments-missing k params [] h r = elim r [ ]
arguments-missing k params ((name, none) ∷ sig) h (inl e) = rw e (rw h refl)
arguments-missing k params ((name, none) ∷ sig) h (inr r) =
    elim (Option-cases (lookup name params)) [
      | inl t ↦ rw t refl
      | inr (v, t) ↦ rw t (rw (arguments-missing k params sig h r) refl)
    ]
arguments-missing k params ((name, some default) ∷ sig) h r =
    elim (Option-cases (lookup name params)) [
      | inl t ↦ rw t (rw (arguments-missing k params sig h r) refl)
      | inr (v, t) ↦ rw t (rw (arguments-missing k params sig h r) refl)
    ]

bound-IsUncallable :
    (params : Dict Arg) (sig : Signature)
    → IsUncallable params sig
    → bound params sig ≡ raise "TypeError"
unfolding bound
bound-IsUncallable params sig (inl (k, h, f)) = rw (all_known-unknown k params sig h f)
bound-IsUncallable params sig (inr (k, h, r)) = elim (Bool-cases (all_known params sig)) [
  | inl t ↦ rw t (arguments-missing k params sig h r)
  | inr t ↦ rw t
]

-- A call of a known method with a key that is not one of its parameters, or without a parameter that
-- has no default, is answered by the error for invalid parameters, and no service is asked.
pub dispatch-IsUncallable :
    (s : Services) (method : String) (m : Method) (params : Dict Arg) (req_id : Option RequestId)
    (figis : Dict String)
    → method_of method ≡ some m
    → IsUncallable params (signature_of m)
    → dispatch s method (some params) req_id figis ≡ (error_response invalid_params req_id, figis)
unfolding dispatch
dispatch-IsUncallable s method m params req_id figis e u =
    rw e (rw (bound-IsUncallable params (signature_of m) u) refl)
