-- ===== src/Chat/Runner.antt =====
-- One run of the agent for a message (_run_agent_for_session, _run_agent_inner).
use pigeon_trade.Common.{
  ◌+◌, ◌-◌, ◌<◌, String, Bool, true, false, List, [], ◌∷◌, ◌++◌, ◌==◌, ◌≡◌, refl, arith,
  if◌then◌else◌, length, append_assoc, append-nil, ◌≤◌, sym, ap, ◌∙◌, Bool-cases, inl, inr,
}
use pigeon_trade.Common.Except.{ok}
use pigeon_trade.Agent.{AgentState}
use pigeon_trade.Agent.Pipeline.{initial}
use pigeon_trade.Chat.{
  Credentials, Sent, progress, Chat, Engine, send, tell, save_history, stream_loop, deliver,
  done_of, run_inner, run_for_session,
}

-- The progress messages for the states that name a step.
abbrev pub progress_of : List AgentState → List Sent
progress_of [] = []
progress_of (ev ∷ evs) =
    let rest = progress_of evs in if ev.step == "" then rest else progress ev.step ∷ rest

-- The state that the run ends in: the last one yielded, or the first.
abbrev pub final_of : AgentState → List AgentState → AgentState
final_of s [] = s
final_of s (ev ∷ evs) = final_of ev evs

send_room :
    (msg : Sent) (c : Chat)
    → 0 < c.room
    → ((send msg c).1 ≡ true)
      × ((tell msg c).sent ≡ c.sent ++ msg ∷ [])
      × ((tell msg c).room ≡ c.room - 1)
      × ((tell msg c).current ≡ c.current)
unfolding send
send_room msg c h = ground arith

-- What the loop over the stream leaves, where the client takes all of its messages.
abbrev LoopEnds : List AgentState → AgentState → Chat → Chat × (AgentState × Bool) → Type 0
LoopEnds evs s c r =
    (r.0.sent ≡ c.sent ++ progress_of evs)
    × (r.1 ≡ (final_of s evs, false))
    × (c.room ≤ r.0.room + length evs)
    × (r.0.current ≡ c.current)

stream_loop-LoopEnds :
    (evs : List AgentState) (s : AgentState) (c : Chat)
    → length evs < c.room
    → LoopEnds evs s c (stream_loop evs s c)
unfolding stream_loop
stream_loop-LoopEnds [] s c h = (sym (append-nil c.sent), refl, omega arith, refl)
stream_loop-LoopEnds (ev ∷ evs) s c h = elim (Bool-cases (ev.step == "")) [
  | inl e ↦
      let (a, b, r, k) = stream_loop-LoopEnds evs ev c (omega arith) in
      rw (e, stream_loop) (a, b, omega (arith, r), k)
  | inr e ↦
      let (went, sent, left, var) = send_room (progress ev.step) c (omega arith) in
      let (a, b, r, k) =
        stream_loop-LoopEnds evs ev (tell (progress ev.step) c) (omega (arith, left)) in
      rw (e, stream_loop)
        (rw went (
          a
              ∙ ap (λ xs. xs ++ progress_of evs) sent
              ∙ append_assoc c.sent (progress ev.step ∷ []) (progress_of evs),
          b,
          omega (arith, r, left),
          k ∙ var,
        ))
]

deliver-sent :
    (last : AgentState) (c : Chat)
    → 0 < c.room
    → (deliver last c).sent ≡ c.sent ++ done_of last ∷ []
unfolding deliver send save_history
deliver-sent last c h = ground arith

-- Where the client takes the messages and the graph's stream ends by itself, a run sends the
-- progress of each state that names a step, in their order, and then the one message "done" of the
-- last state.
pub run_inner-sent :
    (engine : Engine) (session message prompt : String) (c : Chat) (evs : List AgentState)
    → engine.astream c.current (initial message session prompt) ≡ (evs, ok tt)
    → length evs < c.room
    → (run_inner engine session message prompt c).sent
      ≡ (c.sent ++ progress_of evs) ++ done_of (final_of (initial message session prompt) evs) ∷ []
unfolding run_inner
run_inner-sent engine session message prompt c evs e room =
    let s = initial message session prompt in
    let (a, b, r, k) = stream_loop-LoopEnds evs s c room in
    let loop = stream_loop evs s c in
    rw e (
      deliver-sent loop.1.0 loop.0 (omega (arith, r))
      ∙ ap (λ xs. xs ++ done_of loop.1.0 ∷ []) a
      ∙ ap (λ (q : AgentState × Bool). (c.sent ++ progress_of evs) ++ done_of q.0 ∷ []) b)

-- The credentials of a session are set for the run alone: behind it the variable is as before, and
-- the graph sees those of the session, however the stream ends.
pub run_for_session-current :
    (engine : Engine) (session message : String) (creds : Credentials) (c : Chat)
    → (run_for_session engine session message creds c).current ≡ c.current
unfolding run_for_session send
run_for_session-current engine session message creds c = ground arith
