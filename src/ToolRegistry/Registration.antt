-- ===== src/ToolRegistry/Registration.antt =====
-- aqr/tools/register.py: what register_all leaves in the registry.
use pigeon_trade.Common.{
  ◌<◌, String, Bool, true, false, Option, none, some, List, [], ◌∷◌, length, leb, ◌==◌, eq_iff,
  if◌then◌else◌, ◌≡◌, refl, sym, ap, ◌∙◌, arith, Option-cases, Bool-cases, inl, inr,
}
use pigeon_trade.Common.Dict.{Dict, lookup, insert, contains, lookup-insert}
use pigeon_trade.Common.Except.{ok}
use pigeon_trade.ToolRegistry.{
  ToolSpec, Registered, get, register, safe_register, register_each, all_tools, register_all,
}

-- The first spec of this name.
abbrev pub named : String → List ToolSpec → Option ToolSpec
named name [] = none
named name (spec ∷ specs) = if spec.name == name then some spec else named name specs

abbrev pub or_else {ℓ} : {A : Type ℓ} → Option A → Option A → Option A
or_else none b = b
or_else (some a) b = some a

or_else-none {ℓ} : {A : Type ℓ} (o : Option A) → o ≡ or_else o none
or_else-none none = refl
or_else-none (some a) = refl

or_else-if {ℓ} :
    {A : Type ℓ} (o : Option A) (b : Bool) (a : A) (c : Option A)
    → or_else (or_else o (if b then some a else none)) c ≡ or_else o (if b then some a else c)
or_else-if none true a c = refl
or_else-if none false a c = refl
or_else-if (some x) b a c = refl

new_step :
    (spec : ToolSpec) (name : String) (tools : Dict ToolSpec)
    → lookup spec.name tools ≡ none
    → (if spec.name == name then some spec else lookup name tools)
      ≡ or_else (lookup name tools) (if spec.name == name then some spec else none)
new_step spec name tools h = elim (Bool-cases (spec.name == name)) [
  | inl e ↦
      let missing : lookup name tools ≡ none =
        ap (λ n. lookup n tools) (sym ((eq_iff spec.name name).0 e)) ∙ h in
      rw e (rw missing refl)
  | inr e ↦ rw e (or_else-none (lookup name tools))
]

old_step :
    (spec found : ToolSpec) (name : String) (tools : Dict ToolSpec)
    → lookup spec.name tools ≡ some found
    → lookup name tools
      ≡ or_else (lookup name tools) (if spec.name == name then some spec else none)
old_step spec found name tools h = elim (Bool-cases (spec.name == name)) [
  | inl e ↦
      let there : lookup name tools ≡ some found =
        ap (λ n. lookup n tools) (sym ((eq_iff spec.name name).0 e)) ∙ h in
      rw there refl
  | inr e ↦ rw e (or_else-none (lookup name tools))
]

contains_of_lookup :
    (name : String) (tools : Dict ToolSpec) → lookup name tools ≡ none → contains name tools ≡ false
unfolding lookup contains
contains_of_lookup name [] h = refl
contains_of_lookup name ((k, t) ∷ tools) h = ground (arith, contains_of_lookup name tools)

-- What a registration leaves under every name.
abbrev Leaves : Dict ToolSpec → List ToolSpec → Dict ToolSpec → Type 0
Leaves tools specs tools' =
    (name : String) → lookup name tools' ≡ or_else (lookup name tools) (named name specs)

safe_register_lem :
    (spec : ToolSpec) (tools : Dict ToolSpec)
    → (tools' : Dict ToolSpec) × (safe_register spec tools ≡ ok tools')
      × Leaves tools (spec ∷ []) tools'
unfolding safe_register register get
safe_register_lem spec tools = elim (Option-cases (lookup spec.name tools)) [
  | inl e ↦ (
    insert spec.name spec tools,
    rw (e, safe_register, get) (rw (contains_of_lookup spec.name tools e, register) refl),
    (λ name. lookup-insert spec.name name spec tools ∙ new_step spec name tools e),
  )
  | inr (found, e) ↦
      (tools, rw (e, safe_register, get) refl, (λ name. old_step spec found name tools e))
]

register_each_lem :
    (specs : List ToolSpec) (tools : Dict ToolSpec)
    → (tools' : Dict ToolSpec) × (register_each specs tools ≡ ok tools') × Leaves tools specs tools'
unfolding register_each
register_each_lem [] tools = (tools, refl, (λ name. or_else-none (lookup name tools)))
register_each_lem (spec ∷ specs) tools =
    let (t, e, l) = safe_register_lem spec tools in
    let (t', e', l') = register_each_lem specs t in
    (
      t',
      rw e e',
      (λ name.
          l' name
          ∙ rw (l name)
              (or_else-if (lookup name tools) (spec.name == name) spec (named name specs))),
    )

-- The registry that register_all leaves where it was not done before.
abbrev pub Completes : Registered → Registered → Type 0
Completes s s' =
    s.registration_done ≡ false
    → length s.tools < 13
    → (name : String) → lookup name s'.tools ≡ or_else (lookup name s.tools) (named name all_tools)

-- register_all never raises, and a second call changes nothing. A registry of fewer than thirteen
-- tools, where it was not done before, has behind it every tool that it had, unchanged, every tool
-- of the program under its name, and no other.
pub register_all-Completes :
    (s : Registered)
    → (s' : Registered) × (register_all s ≡ ok s') × (register_all s' ≡ ok s') × Completes s s'
unfolding register_all
register_all-Completes s = elim (Bool-cases s.registration_done) [
  | inl e ↦
      (s, rw (e, register_all) refl, rw (e, register_all) refl, (λ d l n. absurd (ground arith)))
  | inr e ↦ elim (Bool-cases (leb 13 (length s.tools))) [
    | inl f ↦ (
      record s { registration_done = true },
      rw (e, f, register_all) refl,
      refl,
      (λ d l n. absurd (ground arith)),
    )
    | inr f ↦
        let (tools, p, q) = register_each_lem all_tools s.tools in
        (
          record { tools = tools; registration_done = true },
          rw (e, f, p, register_all) refl,
          refl,
          (λ d l. q),
        )
  ]
]
