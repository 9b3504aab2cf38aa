-- ===== src/RateLimiter/Script.antt =====
-- The Lua script of src/services/rate-limiter.service.ts implements the sliding window over the
-- whole history of its key.
use mathlib.Core.Path.{ap₂}
use activity_tracker_api.Base.{
  ℕ, ◌+◌, ◌*◌, ◌≤◌, ◌<◌, ◌≡◌, refl, ap, ◌∙◌, fun_ext, String, Bool, not, ◌&&◌, some, List, [], ◌∷◌,
  ◌++◌, arith, leb, if◌then◌else◌, length, filter, head?, All, inl, inr, ◌⊎◌, Bool-cases,
}
use activity_tracker_api.Base.Int.{pos, sub_ℕ, leb_ℤ}
use activity_tracker_api.RateLimiter.{Decision, is_live, or_default, decide}
use activity_tracker_api.RateLimiter.Window.{
  spec_check, decide-eq-spec_check, record_allowed, filter-later, live_again, filter-if,
}
use activity_tracker_api.RateLimiter.Redis.{
  SortedSets, insert_score, member_of, lua_script, read_answer,
}

-- The answers of the specification to requests at the given times.
pub spec_answers : ℕ → ℕ → List ℕ → List (ℕ × String) → List Decision
spec_answers w limit hist [] = []
spec_answers w limit hist ((now, m) ∷ rs) =
    spec_check w limit now hist ∷ spec_answers w limit (record_allowed w limit now hist) rs

-- The clock does not go back.
abbrev pub InOrder : ℕ → List (ℕ × String) → Type 0
InOrder t [] = Unit
InOrder t ((now, m) ∷ rs) = (t ≤ now) × InOrder now rs

-- The scores of a set are times between 1 and `t`.
abbrev pub AreTimes : ℕ → List ℕ → Type 0
AreTimes t = All (λ x. (0 < x) × (x ≤ t))

AreTimes-later : (t now : ℕ) (xs : List ℕ) → t ≤ now → AreTimes t xs → AreTimes now xs
AreTimes-later t now [] h a = tt
AreTimes-later t now (x ∷ xs) h a = ((a.0.0, omega arith), AreTimes-later t now xs h a.1)

pub AreTimes-filter :
    (p : ℕ → Bool) (t : ℕ) (xs : List ℕ) → AreTimes t xs → AreTimes t (filter p xs)
AreTimes-filter p t [] a = tt
AreTimes-filter p t (x ∷ xs) a = ground (arith, AreTimes-filter p t xs a.1)

AreTimes-append : (t : ℕ) (xs ys : List ℕ) → AreTimes t xs → AreTimes t ys → AreTimes t (xs ++ ys)
AreTimes-append t [] ys a b = b
AreTimes-append t (x ∷ xs) ys a b = (a.0, AreTimes-append t xs ys a.1 b)

insert_score-last : (now : ℕ) (xs : List ℕ) → AreTimes now xs → insert_score now xs ≡ xs ++ now ∷ []
insert_score-last now [] a = refl
insert_score-last now (x ∷ xs) a = ground (arith, insert_score-last now xs a.1)

live_iff :
    (w now x : ℕ)
    → not (leb_ℤ (pos 0) (pos x) && leb_ℤ (pos x) (sub_ℕ now (w * 1000))) ≡ is_live w now x
live_iff w now x = ground arith

-- With an entry in the window, the oldest one is its first.
oldest-eq :
    (live : List ℕ) (now : ℕ) {limit : ℕ}
    → 0 < limit
    → AreTimes now live
    → (length live < limit) ⊎ ((x : ℕ) × (head? live ≡ some x) × (or_default (head? live) now ≡ x))
oldest-eq [] now h a = inl h
oldest-eq (x ∷ live) now h a = inr (x, refl, ground arith)

module _ (r : SortedSets) (key : String) where
  open r use {Store, scores, zremrangebyscore, zcard, zrange_first, zadd, expire, IsFresh}

  abbrev pub trimmed : ℕ → ℕ → Store → Store
  trimmed w now s = zremrangebyscore key (pos 0) (sub_ℕ now (w * 1000)) s

  trimmed_scores :
      (w now : ℕ) (s : Store) → scores key (trimmed w now s) ≡ filter (is_live w now) (scores key s)
  trimmed_scores w now s =
      r.zremrangebyscore_scores key (pos 0) (sub_ℕ now (w * 1000)) s
      ∙ ap (λ p. filter p (scores key s)) (fun_ext (live_iff w now))

  -- The script's answer is the decision on the scores that are in the window.
  script-decision :
      (now w limit : ℕ) (m : String) (s : Store)
      → 0 < limit
      → AreTimes now (scores key s)
      → read_answer r limit (lua_script r key now w limit m s).0
        ≡ decide w limit now (filter (is_live w now) (scores key s))
  unfolding read_answer lua_script decide
  script-decision now w limit m s pos_limit a =
      let live = filter (is_live w now) (scores key s) in
      let held = trimmed_scores w now s in
      ground (
        arith,
        r.zcard_scores key (trimmed w now s) ∙ ap length held,
        r.zrange_first_scores key (trimmed w now s) ∙ ap head? held,
        oldest-eq live now pos_limit (AreTimes-filter (is_live w now) now (scores key s) a),
      )

  script-scores :
      (now w limit : ℕ) (m : String) (s : Store)
      → IsFresh key (member_of now m) (trimmed w now s)
      → AreTimes now (scores key s)
      → (let live = filter (is_live w now) (scores key s) in
          scores key (lua_script r key now w limit m s).1
          ≡ (if (decide w limit now live).allowed then live ++ now ∷ [] else live))
  unfolding lua_script decide
  script-scores now w limit m s fresh a =
      let live = filter (is_live w now) (scores key s) in
      let held = trimmed_scores w now s in
      let card = r.zcard_scores key (trimmed w now s) ∙ ap length held in
      let added : scores key
            (expire key (w + 60) (zadd key now (member_of now m) (trimmed w now s)))
          ≡ live ++ now ∷ [] =
        r.expire_scores key (w + 60) (zadd key now (member_of now m) (trimmed w now s))
        ∙ r.zadd_scores key now (member_of now m) (trimmed w now s) fresh
        ∙ ap (insert_score now) held
        ∙ insert_score-last now live (AreTimes-filter (is_live w now) now (scores key s) a) in
      elim (Bool-cases (leb limit (length live))) [
        | inl full ↦ rw (card, full) held
        | inr room ↦ rw (card, room) added
      ]

  module _ (w limit : ℕ) where
    -- The decisions of the script on one key, request after request.
    pub run_script : Store → List (ℕ × String) → List Decision
    run_script s [] = []
    run_script s ((now, m) ∷ rs) =
        let answer = lua_script r key now w limit m s in
        read_answer r limit answer.0 ∷ run_script answer.1 rs

    -- Each member, `now .. '-' .. math.random()`, is new to the set when it is added.
    abbrev pub AreFresh : Store → List (ℕ × String) → Type 0
    AreFresh s [] = Unit
    AreFresh s ((now, m) ∷ rs) =
        IsFresh key (member_of now m) (trimmed w now s)
        × AreFresh (lua_script r key now w limit m s).1 rs

    script-AreTimes :
        (now : ℕ) (m : String) (s : Store)
        → 0 < now
        → IsFresh key (member_of now m) (trimmed w now s)
        → AreTimes now (scores key s)
        → AreTimes now (scores key (lua_script r key now w limit m s).1)
    script-AreTimes now m s h fresh a =
        let live = filter (is_live w now) (scores key s) in
        let times = AreTimes-filter (is_live w now) now (scores key s) a in
        rw (script-scores now w limit m s fresh a)
          (elim (Bool-cases (decide w limit now live).allowed) [
            | inl e ↦ rw e (AreTimes-append now live (now ∷ []) times ((h, omega arith), tt))
            | inr e ↦ rw e times
          ])

    run_script-agrees :
        (t : ℕ) (s : Store) (hist : List ℕ) (rs : List (ℕ × String))
        → 0 < limit
        → 0 < t
        → AreTimes t (scores key s)
        → filter (is_live w t) (scores key s) ≡ filter (is_live w t) hist
        → InOrder t rs
        → AreFresh s rs
        → run_script s rs ≡ spec_answers w limit hist rs
    unfolding run_script spec_answers
    run_script-agrees t s hist [] p h a e o f = refl
    run_script-agrees t s hist ((now, m) ∷ rs) p h a e o f =
        let times = AreTimes-later t now (scores key s) o.0 a in
        let same = live_again w t now (scores key s) hist o.0 e in
        let live = filter (is_live w now) (scores key s) in
        let next : filter (is_live w now) (scores key (lua_script r key now w limit m s).1)
            ≡ filter (is_live w now) (record_allowed w limit now hist) =
          ap (filter (is_live w now)) (script-scores now w limit m s f.0 times)
          ∙ filter-if (is_live w now) (decide w limit now live).allowed now live hist
              (filter-later w now now (scores key s) (omega arith) ∙ same)
          ∙ ap
              (λ l.
                filter (is_live w now)
                  (if (decide w limit now l).allowed then hist ++ now ∷ [] else hist))
              same
          ∙ ap (λ d. filter (is_live w now) (if d.allowed then hist ++ now ∷ [] else hist))
              (decide-eq-spec_check w limit now hist) in
        ap₂ ◌∷◌
          (script-decision now w limit m s p times
            ∙ ap (decide w limit now) same
            ∙ decide-eq-spec_check w limit now hist)
          (run_script-agrees now (lua_script r key now w limit m s).1
            (record_allowed w limit now hist) rs p (omega arith)
            (script-AreTimes now m s (omega arith) f.0 times) next o.1 f.1)

    -- With a limit above 0, a set that is empty at first, a clock that does not go back from a time
    -- after 0, and members that are new, the decisions of the Lua script on one key are those of a
    -- sliding window over the whole history: the answer, what remains, the reset time, the count.
    pub run_script-eq-spec_answers :
        (t : ℕ) (s : Store) (rs : List (ℕ × String))
        → 0 < limit
        → 0 < t
        → scores key s ≡ []
        → InOrder t rs
        → AreFresh s rs
        → run_script s rs ≡ spec_answers w limit [] rs
    run_script-eq-spec_answers t s rs p h e o f =
        run_script-agrees t s [] rs p h (rw e tt) (rw e) o f
