-- ===== src/Registry.antt =====
-- aqr/registry/store.py: RegistryStore. The tables are lists of rows, those with a key dicts, and a
-- SELECT keeps the rows of its WHERE. What ORDER BY makes of equal keys is open: the ordering is an
-- interface. Ids of messages count below 2 ^ 128; a ratio counts thousandths, and DSR is not
-- negative.
pub mod Settings
pub mod History
pub mod Search
pub mod Runs
pub mod Context
pub mod Explore
mod Examples
use mathlib.Core.List.{Perm, reverse}
use pigeon_trade.Common.{
  ℕ, zero, suc, ◌+◌, ◌-◌, ◌*◌, ◌≤◌, String, Bool, true, false, Option, none, some, List, [], ◌∷◌,
  ◌++◌, map, keep, take, drop, length, All, ◌==◌, eqb, leb, ltb, if◌then◌else◌, ◌≡◌,
}
use pigeon_trade.Common.Dict.{Dict, lookup, insert, remove, contains}
use pigeon_trade.Common.Sort.{IsDescending}
use pigeon_trade.Common.Sweep.{mem}
use pigeon_trade.Research.{ℤ}

pub record ChatMessage : Type 0 where
  pub id : ℕ
  pub session_id : String
  pub role : String
  pub content : String
  pub created_at : ℕ

-- The dict summary_metrics of a finished run.
pub record Metrics : Type 0 where
  pub n_tested : ℕ
  pub n_survived_dsr : ℕ
  pub portfolio_pbo : ℕ
  pub elapsed_seconds : ℕ

pub record Run : Type 0 where
  pub goal : String
  pub session_id : String
  pub status : String
  pub summary_metrics : Option Metrics
  pub created_at : ℕ

pub record HypothesisRow : Type 0 where
  pub id : String
  pub run_id : String
  pub family : String
  pub ticker : String
  pub config_json : Dict ℕ
  pub dsr : Option ℕ
  pub cpcv : Option ℤ
  pub sharpe : Option ℤ
  pub max_drawdown : Option ℤ
  pub is_valid : Bool
  pub embedding : Option (List ℤ)
  pub created_at : ℕ

pub record SessionSettings : Type 0 where
  pub llm_model : String
  pub llm_api_key_encrypted : String
  pub openai_api_key_encrypted : String
  pub invest_token_encrypted : String
  pub invest_sandbox : Bool
  pub updated_at : ℕ

pub record Tables : Type 0 where
  pub sessions : List String
  pub messages : List ChatMessage
  pub runs : Dict Run
  pub hypotheses : List HypothesisRow
  pub settings : Dict SessionSettings

-- ORDER BY ... DESC
pub record Ordering : Type 1 where
  pub desc : {A : Type 0} → (A → ℕ) → List A → List A
  pub desc-IsDescending : {A : Type 0} (key : A → ℕ) (xs : List A) → IsDescending key (desc key xs)
  pub desc-perm : {A : Type 0} (key : A → ℕ) (xs : List A) → Perm (desc key xs) xs

-- get_or_create_session
unfoldable pub get_or_create_session : String → Tables → Tables
get_or_create_session session db =
    if mem session db.sessions then db else record db { sessions = session ∷ db.sessions }

-- save_chat_message; `id` and `now` are the defaults of the columns
unfoldable pub save_chat_message : ℕ → ℕ → String → String → String → Tables → Tables
unfolding get_or_create_session
save_chat_message id now session role content db =
    let db' = get_or_create_session session db in
    record db' {
      messages =
          db'.messages
          ++ (record {
            id = id;
            session_id = session;
            role = role;
            content = content;
            created_at = now;
          })
            ∷ [];
    }

-- ORDER BY created_at DESC, id DESC
abbrev pub message_key : ChatMessage → ℕ
message_key m = m.created_at * 340282366920938463463374607431768211456 + m.id

-- The newest messages of the session, the newest first.
abbrev pub newest : Ordering → String → ℕ → Tables → List ChatMessage
newest order session limit db =
    take limit (order.desc message_key (keep (λ m. m.session_id == session) db.messages))

-- list_chat_history
unfoldable pub list_chat_history : Ordering → String → ℕ → Tables → List ChatMessage
list_chat_history order session limit db = reverse (newest order session limit db)

-- create_run, with an id that is new
unfoldable pub create_run : String → ℕ → String → String → String → Tables → Tables
create_run id now goal session status db = record db {
  runs =
      insert id
        (record {
          goal = goal;
          session_id = session;
          status = status;
          summary_metrics = none;
          created_at = now;
        })
        db.runs;
}

-- get_run
unfoldable pub get_run : String → Tables → Option Run
get_run id db = lookup id db.runs

abbrev pub with_metrics : Option Metrics → Run → Run
with_metrics none run = run
with_metrics (some m) run = record run { summary_metrics = some m }

abbrev pub with_status : String → String → Option Metrics → Tables → Option Run → Tables
with_status id status metrics db none = db
with_status id status metrics db (some run) = record db {
  runs = insert id (with_metrics metrics (record run { status = status })) db.runs;
}

-- update_run_status
unfoldable pub update_run_status : String → String → Option Metrics → Tables → Tables
update_run_status id status metrics db = with_status id status metrics db (lookup id db.runs)

-- list_runs_by_session
unfoldable pub list_runs_by_session : Ordering → String → ℕ → ℕ → Tables → List (String × Run)
list_runs_by_session order session limit offset db =
    take limit (
      drop offset
        (order.desc (λ r. r.1.created_at) (keep (λ r. r.1.session_id == session) db.runs)))

-- create_hypothesis
unfoldable pub create_hypothesis : HypothesisRow → Tables → Tables
create_hypothesis row db = record db { hypotheses = db.hypotheses ++ row ∷ [] }

-- dsr DESC NULLS LAST
abbrev pub dsr_key : HypothesisRow → ℕ
dsr_key h = elim h.dsr [ none ↦ 0 | some d ↦ suc d ]

-- list_hypotheses_by_run
unfoldable pub list_hypotheses_by_run : Ordering → String → Tables → List HypothesisRow
list_hypotheses_by_run order id db = order.desc dsr_key (keep (λ h. h.run_id == id) db.hypotheses)

-- by_run.setdefault(h.run_id, []).append(h)
unfoldable pub append_to :
    String → HypothesisRow → Dict (List HypothesisRow) → Dict (List HypothesisRow)
append_to id h [] = (id, h ∷ []) ∷ []
append_to id h ((j, hs) ∷ d) = if j == id then (j, hs ++ h ∷ []) ∷ d else (j, hs) ∷ append_to id h d

-- The loop over the rows of the batch.
unfoldable pub grouped : List HypothesisRow → Dict (List HypothesisRow) → Dict (List HypothesisRow)
unfolding append_to
grouped [] d = d
grouped (h ∷ hs) d = grouped hs (append_to h.run_id h d)

-- {rid: [] for rid in run_ids}
unfoldable pub empty_groups : List String → Dict (List HypothesisRow) → Dict (List HypothesisRow)
empty_groups [] d = d
empty_groups (id ∷ ids) d = empty_groups ids (insert id [] d)

-- list_hypotheses_by_runs
unfoldable pub list_hypotheses_by_runs : Ordering → List String → Tables → Dict (List HypothesisRow)
unfolding grouped empty_groups
list_hypotheses_by_runs order [] db = []
list_hypotheses_by_runs order (id ∷ ids) db =
    grouped (order.desc dsr_key (keep (λ h. mem h.run_id (id ∷ ids)) db.hypotheses))
      (empty_groups (id ∷ ids) [])
