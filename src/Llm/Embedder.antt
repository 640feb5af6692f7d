-- ===== src/Llm/Embedder.antt =====
-- aqr/registry/embeddings.py: the key of an embedder, the text of a hypothesis and its embedding. The
-- client of OpenAI is a parameter of the key, the URL, the model and the text; an embedder that makes a
-- call has made no client before. The import of the context is taken to succeed.
use pigeon_trade.Common.{
  ℕ, String, Bool, true, false, ◌||◌, Option, none, some, List, [], ◌∷◌, ◌++◌, eqb, ltb, ◌==◌,
  if◌then◌else◌,
}
use pigeon_trade.Common.Dict.{Dict, lookup}
use pigeon_trade.Common.Except.{Except, ok, raise, ◌>>=◌}
use pigeon_trade.Research.{ℤ}
use pigeon_trade.Credentials.{Settings}
use pigeon_trade.Llm.Fence.{Letters, strip}

pub record Embedder : Type 0 where
  pub embedding_model : String
  pub api_key : Option String
  pub base_url : Option String

-- _api_key_from_context, for what `current_credentials()` returns
unfoldable pub api_key_from_context : Option Settings → Option String
api_key_from_context none = none
api_key_from_context (some creds) =
    if creds.openai_api_key == "" then none else some creds.openai_api_key

-- The next source, where a value is None.
abbrev pub if_none : Option String → Option String → Option String
if_none none o = o
if_none (some v) o = some v

-- Embedder(model, api_key, base_url)
unfoldable pub make_embedder :
    Option Settings → Dict String → String → Option String → Option String → Embedder
unfolding api_key_from_context
make_embedder session env model key url = record {
  embedding_model = model;
  api_key = if_none (if_none key (api_key_from_context session)) (lookup "OPENAI_API_KEY" env);
  base_url = if_none url (lookup "OPENAI_BASE_URL" env);
}

-- The order of texts by code points.
unfoldable pub precedes : Letters → Letters → Bool
precedes [] [] = false
precedes [] (c ∷ cs) = true
precedes (x ∷ xs) [] = false
precedes (x ∷ xs) (c ∷ cs) = let rest = precedes xs cs in if eqb x c then rest else ltb x c

abbrev pub Items : Type 0
Items = List (Letters × Letters)

-- sorted(params.items()), of a dict, whose keys are distinct
unfoldable pub put_sorted : Letters × Letters → Items → Items
put_sorted e [] = e ∷ []
put_sorted e (x ∷ xs) =
    let rest = put_sorted e xs in if precedes x.0 e.0 then x ∷ rest else e ∷ x ∷ xs

unfoldable pub sort_items : Items → Items
unfolding precedes put_sorted
sort_items [] = []
sort_items (e ∷ es) = put_sorted e (sort_items es)

-- ", ".join(f"{k}={v}" ...)
unfoldable pub params_text : Items → Letters
params_text [] = []
params_text ((k, v) ∷ []) = k ++ 61 ∷ v
params_text ((k, v) ∷ x ∷ xs) = k ++ 61 ∷ v ++ 44 ∷ 32 ∷ params_text (x ∷ xs)

-- A colon or a space.
abbrev pub is_edge : ℕ → Bool
is_edge c = eqb c 58 || eqb c 32

-- f"{family} on {ticker}: {params_str}".strip(": ")
unfoldable pub hypothesis_to_text : Letters → Letters → Items → Letters
unfolding sort_items params_text
hypothesis_to_text family ticker params =
    strip is_edge
      (family ++ 32 ∷ 111 ∷ 110 ∷ 32 ∷ ticker ++ 58 ∷ 32 ∷ params_text (sort_items params))

-- resp.data[0].embedding
abbrev pub first_of : List (List ℤ) → Except (List ℤ)
first_of [] = raise "IndexError"
first_of (e ∷ es) = ok e

-- A URL that is set to a text.
abbrev pub given_url : Option String → Option String
given_url none = none
given_url (some u) = if u == "" then none else some u

module _ (openai : String → Option String → String → Letters → Except (List (List ℤ))) where
  abbrev pub embed_keyed : Embedder → Letters → Option String → Except (List ℤ)
  embed_keyed e text none = raise "RuntimeError"
  embed_keyed e text (some key) =
      if key == ""
      then raise "RuntimeError"
      else openai key (given_url e.base_url) e.embedding_model text >>= first_of

  -- embed
  unfoldable pub embed_openai : Embedder → Letters → Except (List ℤ)
  embed_openai e text = embed_keyed e text e.api_key
