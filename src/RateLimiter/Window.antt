-- ===== src/RateLimiter/Window.antt =====
-- The specification of src/services/rate-limiter.service.ts: a sliding window over the whole
-- history of the requests that were allowed, of which nothing is ever forgotten.
use activity_tracker_api.Base.{
  Bool-cases, inl, inr, head?, ◌-◌, ◌==◌, ℕ, ◌+◌, ◌*◌, ◌≤◌, ◌≡◌, refl, sym, ap, ◌∙◌, filter-append,
  Bool, true, false, ◌&&◌, List, [], ◌∷◌, ◌++◌, arith, ltb, leb, if◌then◌else◌, length, filter,
  count, count-append,
}
use activity_tracker_api.RateLimiter.{Decision, is_live, decide, or_default}

length-filter-eq-count : (p : ℕ → Bool) (xs : List ℕ) → length (filter p xs) ≡ count p xs
length-filter-eq-count p [] = refl
length-filter-eq-count p (x ∷ xs) = ground (arith, length-filter-eq-count p xs)

module _ (w : ℕ) where
  -- Whether a time lies in the window that ends at `t`.
  abbrev pub in_window : (t ts : ℕ) → Bool
  in_window t ts = leb ts t && ltb t (ts + w * 1000)

  count-in_window-le :
      (now t : ℕ) (xs : List ℕ) → now ≤ t → count (in_window t) xs ≤ count (is_live w now) xs
  count-in_window-le now t [] h = omega arith
  count-in_window-le now t (x ∷ xs) h = ground (arith, count-in_window-le now t xs h)

leb_not_ltb : (a b : ℕ) → ltb a b ≡ true → leb b a ≡ false
leb_not_ltb a b h = ground arith

leb_of_not_ltb : (a b : ℕ) → ltb a b ≡ false → leb b a ≡ true
leb_of_not_ltb a b h = ground arith

pub filter-if :
    (p : ℕ → Bool) (b : Bool) (now : ℕ) (xs ys : List ℕ)
    → filter p xs ≡ filter p ys
    → filter p (if b then xs ++ now ∷ [] else xs) ≡ filter p (if b then ys ++ now ∷ [] else ys)
filter-if p true now xs ys e =
    filter-append p xs (now ∷ [])
    ∙ ap (λ l. l ++ filter p (now ∷ [])) e
    ∙ sym (filter-append p ys (now ∷ []))
filter-if p false now xs ys e = e

-- Filters of a window.
module _ (w : ℕ) where
  pub filter-later :
      (t now : ℕ) (xs : List ℕ)
      → t ≤ now
      → filter (is_live w now) (filter (is_live w t) xs) ≡ filter (is_live w now) xs
  filter-later t now [] h = refl
  filter-later t now (x ∷ xs) h = ground (arith, filter-later t now xs h)

  pub live_again :
      (t now : ℕ) (xs ys : List ℕ)
      → t ≤ now
      → filter (is_live w t) xs ≡ filter (is_live w t) ys
      → filter (is_live w now) xs ≡ filter (is_live w now) ys
  live_again t now xs ys h e =
      sym (filter-later t now xs h) ∙ ap (filter (is_live w now)) e ∙ filter-later t now ys h

module _ (w : ℕ) where
  -- Whether a time is in the window that ends now.
  abbrev pub is_recent : (now ts : ℕ) → Bool
  is_recent now ts = ltb now (ts + w * 1000)

  -- The first time of a history that is in the window, or else now; the time 0 counts as none.
  abbrev pub oldest : (now : ℕ) → List ℕ → ℕ
  oldest now [] = now
  oldest now (ts ∷ hist) =
      let later = oldest now hist in
      if is_recent now ts then (if ts == 0 then now else ts) else later

  oldest_lem :
      (now : ℕ) (hist : List ℕ)
      → or_default (head? (filter (is_live w now) hist)) now ≡ oldest now hist
  oldest_lem now [] = refl
  oldest_lem now (ts ∷ hist) = ground (arith, oldest_lem now hist)

module _ (w limit : ℕ) where
  -- The answer to a request, from the history of the client's allowed requests: below the limit it is
  -- allowed and counted, and otherwise it is refused until the oldest request leaves the window.
  abbrev pub spec_check : ℕ → List ℕ → Decision
  spec_check now hist =
      let used = count (is_recent w now) hist in
      if ltb used limit
      then record {
        allowed = true;
        remaining = limit - used - 1;
        reset_at = now + w * 1000;
        current = used + 1;
      }
      else record {
        allowed = false;
        remaining = 0;
        reset_at = oldest w now hist + w * 1000;
        current = used;
      }

  -- The decision on the times in the window is that answer.
  pub decide-eq-spec_check :
      (now : ℕ) (hist : List ℕ)
      → decide w limit now (filter (is_live w now) hist) ≡ spec_check now hist
  unfolding decide
  decide-eq-spec_check now hist =
      rw (length-filter-eq-count (is_live w now) hist, oldest_lem w now hist)
        (elim (Bool-cases (ltb (count (is_recent w now) hist) limit)) [
          | inl room ↦ rw (room, leb_not_ltb _ _ room) refl
          | inr full ↦ rw (full, leb_of_not_ltb _ _ full) refl
        ])

  abbrev pub record_allowed : ℕ → List ℕ → List ℕ
  record_allowed now hist = if (spec_check now hist).allowed then hist ++ now ∷ [] else hist

  -- No window has more than `limit` of the history's times.
  abbrev pub IsLimited : List ℕ → Type 0
  IsLimited hist = (t : ℕ) → count (in_window w t) hist ≤ limit

  -- An allowed request keeps the history within the limit in every window, also in windows that
  -- end before or after it.
  pub record_allowed-IsLimited :
      (now : ℕ) (hist : List ℕ) → IsLimited hist → IsLimited (record_allowed now hist)
  record_allowed-IsLimited now hist h t =
      ground
        (arith, h t, count-in_window-le w now t hist, count-append (in_window w t) hist (now ∷ []))
