-- ===== src/Posts/Answers.antt =====
-- app/api/public.py with app/services/submissions.py: what a visitor's request is answered.
use flyrank_capstone_widgetp.Base.{ℕ, String, ◌≡◌, refl, ◌⊎◌, some, lookup}
use flyrank_capstone_widgetp.Json.{Json, str}
use flyrank_capstone_widgetp.Config.{Config}
use flyrank_capstone_widgetp.Http.{Outcome, ok, http, crash, HttpError, Exception}
use flyrank_capstone_widgetp.Database.{Database}
use flyrank_capstone_widgetp.Submissions.{Env, State, Moment, Receipt, Payload}
use flyrank_capstone_widgetp.Submissions.Stages.{
  Ends, refused, failed, replayed, accepted, submit-Ends,
}
use flyrank_capstone_widgetp.Submissions.Total.{Unstorable}
use flyrank_capstone_widgetp.Posts.{
  raised, Loads, Post, context_of, read_payload, create_submission,
}

-- A check that complains does so with a 400 and without an exception.
abbrev Says400 : Outcome (Unit {0}) → Type 0
Says400 (ok u) = Unit {0}
Says400 (http e) = e.status ≡ 400
Says400 (crash x) = ⊥

-- What `read_payload` can end in: a payload with a textual id, a 400 or a 413, or the exception of
-- the parser.
abbrev Reads : Loads → Post → Outcome Payload → Type 0
Reads loads post (ok payload) = (id : String) × (lookup "widget_id" payload ≡ some (str id))
Reads loads post (http e) = (e.status ≡ 400) ⊎ (e.status ≡ 413)
Reads loads post (crash x) = loads post.raw ≡ raised x

-- An answer to a visitor: a receipt with 200, 201 or 202, or a refusal with 400, 404, 413 or 429.
abbrev pub IsAnswer : Outcome (Receipt × ℕ) → Type 0
IsAnswer (ok r) = (r.1 ≡ 200) ⊎ ((r.1 ≡ 201) ⊎ (r.1 ≡ 202))
IsAnswer (http e) = (e.status ≡ 400) ⊎ ((e.status ≡ 404) ⊎ ((e.status ≡ 413) ⊎ (e.status ≡ 429)))
IsAnswer (crash x) = ⊥

module _ (env : Env) (loads : Loads) (m : Moment) (post : Post) where
  -- How a visitor's request ends: with an answer, or with the exception of a payload that was read
  -- and whose values the server refuses.
  pub data AnswerEnds (s : State) (r : Outcome (Receipt × ℕ)) : Type 0 where
    answered : IsAnswer r → AnswerEnds s r
    broken :
        (payload : Payload) (id : String) (x : Exception)
        → read_payload env.cfg loads post ≡ ok payload
        → lookup "widget_id" payload ≡ some (str id)
        → Unstorable env payload (context_of env.cfg post) id s.db x
        → r ≡ crash x
        → AnswerEnds s r

  -- A request that is refused, for whatever reason, leaves the tables as they were.
  pub create_submission_refused :
      (s : State) (e : HttpError)
      → (create_submission env loads m post s).1 ≡ http e
      → (create_submission env loads m post s).0.db ≡ s.db
  unfolding create_submission
  create_submission_refused s e h = go (read_payload env.cfg loads post) refl
    where
      kept :
          (payload : Payload) (r : State × Outcome (Receipt × ℕ))
          → Ends env m payload (context_of env.cfg post) s r
          → r.1 ≡ http e
          → r.0.db ≡ s.db
      kept payload r (refused x k b d) g = d
      kept payload r (failed x k) g = cc
      kept payload r (replayed row k) g = cc
      kept payload r (accepted a acc k d) g = cc

      go :
          (r : Outcome Payload)
          → read_payload env.cfg loads post ≡ r
          → (create_submission env loads m post s).0.db ≡ s.db
      go (ok payload) k =
          rw (k, create_submission)
            (kept payload _ (submit-Ends env m payload (context_of env.cfg post) s)
              (rw (k, create_submission) at h))
      go (http x) k = rw (k, create_submission) refl
      go (crash x) k = rw (k, create_submission) refl
