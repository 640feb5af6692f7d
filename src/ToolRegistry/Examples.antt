-- ===== src/ToolRegistry/Examples.antt =====
-- The theorem on the registration at a registry with one tool.
use pigeon_trade.Common.{All, arith, true, false, [], ◌∷◌, length, ◌≡◌, refl}
use pigeon_trade.Common.Dict.{contains}
use pigeon_trade.Common.Except.{ok}
use pigeon_trade.ToolRegistry.{Registered, spec, register_all, all_tools}
use pigeon_trade.ToolRegistry.Registration.{Completes, register_all-Completes}

abbrev one_tool : Registered
one_tool = record {
  tools = ("narrate", spec "narrate" [] [] "custom") ∷ [];
  registration_done = false;
}

thirteen : length all_tools ≡ 13
thirteen = refl

register_all-Completes_example :
    (s' : Registered) × (register_all one_tool ≡ ok s')
    × (register_all s' ≡ ok s')
    × Completes one_tool s'
register_all-Completes_example = register_all-Completes one_tool

-- Each required input is a property of its schema.
schemas_run : All (λ t. All (λ k. contains k t.properties ≡ true) t.required) all_tools
unfolding contains
schemas_run = ground arith
