-- ===== src/Credentials/Override.antt =====
-- What a call sees in the environment, and what it leaves there (llm_env_override).
use pigeon_trade.Common.{
  String, Bool, true, false, Option, none, some, List, [], ◌∷◌, ◌==◌, ◌≡◌, refl, arith, eq_iff,
  if◌then◌else◌, All,
}
use pigeon_trade.Common.Dict.{Dict, lookup, remove, lookup-insert, lookup-remove}
use pigeon_trade.Common.Except.{Except}
use pigeon_trade.Credentials.{
  llm_env_keys, clear_keys, overridden, restored, restore_keys, llm_env_override, env_var_of,
  env_var_in, provider_env_map,
}

abbrev pub mem : String → List String → Bool
mem k [] = false
mem k (x ∷ xs) = if x == k then true else mem k xs

lookup-clear_keys :
    (ks : List String) (k : String) (env : Dict String)
    → lookup k (clear_keys ks env) ≡ (if mem k ks then none else lookup k env)
unfolding clear_keys
lookup-clear_keys [] k env = refl
lookup-clear_keys (x ∷ ks) k env =
    ground (arith, lookup-clear_keys ks k (remove x env), lookup-remove x k env)

-- During the call one variable holds the session's key, and no other LLM key is set, whatever the
-- environment held; variables that hold no LLM key are as they were.
pub lookup-overridden :
    (contains : String → Bool) (api_key k : String) (env : Dict String)
    → lookup k (overridden contains api_key env) ≡ (
        if env_var_of contains == k
        then some api_key
        else if mem k llm_env_keys
        then none
        else lookup k env)
unfolding overridden
lookup-overridden contains api_key k env = ground (
  arith,
  lookup-insert (env_var_of contains) k api_key (clear_keys llm_env_keys env),
  lookup-clear_keys llm_env_keys k env,
)

lookup-restored :
    (o : Option String) (x k : String) (env : Dict String)
    → lookup k (restored o x env) ≡ (if x == k then o else lookup k env)
lookup-restored none x k env = lookup-remove x k env
lookup-restored (some v) x k env = lookup-insert x k v env

lookup-restore_keys :
    (ks : List String) (k : String) (saved env : Dict String)
    → lookup k (restore_keys ks saved env) ≡ (if mem k ks then lookup k saved else lookup k env)
unfolding restore_keys
lookup-restore_keys [] k saved env = refl
lookup-restore_keys (x ∷ ks) k saved env = ground (
  arith,
  lookup-restore_keys ks k saved (restored (lookup x saved) x env),
  lookup-restored (lookup x saved) x k env,
  eq_iff x k,
)

-- Behind the call, whether it returned or raised, every LLM key is as it was before, and every
-- other variable is as the call left it.
pub llm_env_override-restores {ℓ} :
    {A : Type ℓ} (contains : String → Bool) (api_key k : String)
    (body : Dict String → Dict String × Except A) (env : Dict String)
    → lookup k (llm_env_override contains api_key body env).0 ≡ (
        if mem k llm_env_keys
        then lookup k env
        else lookup k (body (overridden contains api_key env)).0)
unfolding llm_env_override
llm_env_override-restores contains api_key k body env =
    lookup-restore_keys llm_env_keys k env (body (overridden contains api_key env)).0

mem-if :
    (c : Bool) (x y : String) (ks : List String)
    → mem x ks ≡ true
    → mem y ks ≡ true
    → mem (if c then x else y) ks ≡ true
mem-if true x y ks h k = h
mem-if false x y ks h k = k

mem-env_var_in :
    (contains : String → Bool) (table : List (String × String))
    → All (λ e. mem e.1 llm_env_keys ≡ true) table
    → mem (env_var_in contains table) llm_env_keys ≡ true
unfolding env_var_in
mem-env_var_in contains [] h = refl
mem-env_var_in contains ((substr, var) ∷ rest) h =
    mem-if (contains substr) var (env_var_in contains rest) llm_env_keys h.0
      (mem-env_var_in contains rest h.1)

-- The variable that is set is one of those that the restoration covers.
pub mem-env_var_of : (contains : String → Bool) → mem (env_var_of contains) llm_env_keys ≡ true
mem-env_var_of contains =
    mem-env_var_in contains provider_env_map (refl, (refl, (refl, (refl, (refl, tt)))))
