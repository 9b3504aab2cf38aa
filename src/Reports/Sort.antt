-- ===== src/Reports/Sort.antt =====
-- The order of the daily usage that src/api/client/clientService.ts answers with.
use activity_tracker_api.Base.{
  ℕ, ◌≤◌, ◌<◌, ◌⊎◌, ◌==◌, leb, ltb, if◌then◌else◌, ◌≡◌, ◌∙◌, ap, refl, sym, subst, Bool, true,
  false, Bool-cases, inl, inr, List, [], ◌∷◌, ◌++◌, arith, All, count, ok, thrown, ◌>>=◌, >>=-eq-ok,
  Result-cases,
}
use activity_tracker_api.Auth.Clients.{Client}
use activity_tracker_api.Base.Numbers.{Number, whole, less}
use activity_tracker_api.Reports.Counts.{HasCount, query_daily_usage-HasCount}
use activity_tracker_api.Reports.{
  DailyUsageResult, Queries, comes_first, insert_row, sort, collect, query_daily_usage,
  find_all_active, fresh_daily_usage,
}

-- A row stands rightly before another one: its date is later, or its date is the same and its count is
-- not lower.
abbrev pub Precedes : DailyUsageResult → DailyUsageResult → Type 0
Precedes a b =
    (b.date < a.date)
    ⊎ ((a.date ≡ b.date)
        × (m : ℕ) × (n : ℕ) × (a.request_count ≡ whole m)
        × (b.request_count ≡ whole n)
        × (n ≤ m))

-- Every row stands rightly before those behind it.
abbrev pub IsSorted : List DailyUsageResult → Type 0
IsSorted [] = Unit
IsSorted (x ∷ xs) = All (Precedes x) xs × IsSorted xs

-- The same by the comparison of the code.
abbrev IsChain : List DailyUsageResult → Type 0
IsChain [] = Unit
IsChain (x ∷ xs) = All (λ y. comes_first x y ≡ true) xs × IsChain xs

comes_first-whole :
    (a b : DailyUsageResult) (m n : ℕ)
    → a.request_count ≡ whole m
    → b.request_count ≡ whole n
    → comes_first a b ≡ (if a.date == b.date then leb n m else ltb b.date a.date)
comes_first-whole a b m n read_a read_b = rw (read_a, read_b, comes_first, less) (ground arith)

comes_first_trans :
    (a b c : DailyUsageResult)
    → HasCount a
    → HasCount b
    → HasCount c
    → comes_first a b ≡ true
    → comes_first b c ≡ true
    → comes_first a c ≡ true
comes_first_trans a b c (l, read_a) (m, read_b) (n, read_c) h k =
    let h' = sym (comes_first-whole a b l m read_a read_b) ∙ h in
    let k' = sym (comes_first-whole b c m n read_b read_c) ∙ k in
    comes_first-whole a c l n read_a read_c ∙ ground (arith, h', k')

comes_first_total :
    (a b : DailyUsageResult)
    → HasCount a
    → HasCount b
    → comes_first a b ≡ false
    → comes_first b a ≡ true
comes_first_total a b (m, read_a) (n, read_b) h =
    let h' = sym (comes_first-whole a b m n read_a read_b) ∙ h in
    comes_first-whole b a n m read_b read_a ∙ ground (arith, h')

All-comes_first :
    (a b : DailyUsageResult) (xs : List DailyUsageResult)
    → HasCount a
    → HasCount b
    → All HasCount xs
    → comes_first a b ≡ true
    → All (λ y. comes_first b y ≡ true) xs
    → All (λ y. comes_first a y ≡ true) xs
All-comes_first a b [] ca cb cs h k = tt
All-comes_first a b (x ∷ xs) ca cb cs h k =
    (comes_first_trans a b x ca cb cs.0 h k.0, All-comes_first a b xs ca cb cs.1 h k.1)

All-insert_row :
    (P : DailyUsageResult → Type 0) (x : DailyUsageResult) (xs : List DailyUsageResult)
    → P x
    → All P xs
    → All P (insert_row x xs)
All-insert_row P x [] p a = (p, tt)
All-insert_row P x (y ∷ ys) p a = elim (Bool-cases (comes_first x y)) [
  | inl first ↦ rw first (p, a)
  | inr later ↦ rw later (a.0, All-insert_row P x ys p a.1)
]

All-sort : (P : DailyUsageResult → Type 0) (xs : List DailyUsageResult) → All P xs → All P (sort xs)
unfolding sort
All-sort P [] a = tt
All-sort P (x ∷ xs) a = All-insert_row P x (sort xs) a.0 (All-sort P xs a.1)

insert_row-IsChain :
    (x : DailyUsageResult) (xs : List DailyUsageResult)
    → HasCount x
    → All HasCount xs
    → IsChain xs
    → IsChain (insert_row x xs)
insert_row-IsChain x [] c cs s = (tt, tt)
insert_row-IsChain x (y ∷ ys) c cs s = elim (Bool-cases (comes_first x y)) [
  | inl first ↦ rw first ((first, All-comes_first x y ys c cs.0 cs.1 first s.0), s)
  | inr later ↦ rw later (
    All-insert_row (λ z. comes_first y z ≡ true) x ys (comes_first_total x y c cs.0 later) s.0,
    insert_row-IsChain x ys c cs.1 s.1,
  )
]

sort-IsChain : (xs : List DailyUsageResult) → All HasCount xs → IsChain (sort xs)
unfolding sort
sort-IsChain [] cs = tt
sort-IsChain (x ∷ xs) cs =
    insert_row-IsChain x (sort xs) cs.0 (All-sort HasCount xs cs.1) (sort-IsChain xs cs.1)

comes_first-Precedes :
    (a b : DailyUsageResult) → HasCount a → HasCount b → comes_first a b ≡ true → Precedes a b
comes_first-Precedes a b (m, read_a) (n, read_b) h =
    let h' = sym (comes_first-whole a b m n read_a read_b) ∙ h in
    elim (Bool-cases (a.date == b.date)) [
      | inl same ↦ inr (ground (arith, same), m, n, read_a, read_b, ground (arith, h', same))
      | inr other ↦ inl (ground (arith, h', other))
    ]

All-Precedes :
    (a : DailyUsageResult) (xs : List DailyUsageResult)
    → HasCount a
    → All HasCount xs
    → All (λ y. comes_first a y ≡ true) xs
    → All (Precedes a) xs
All-Precedes a [] c cs h = tt
All-Precedes a (x ∷ xs) c cs h = (comes_first-Precedes a x c cs.0 h.0, All-Precedes a xs c cs.1 h.1)

IsChain-IsSorted : (xs : List DailyUsageResult) → All HasCount xs → IsChain xs → IsSorted xs
IsChain-IsSorted [] cs h = tt
IsChain-IsSorted (x ∷ xs) cs h = (All-Precedes x xs cs.0 cs.1 h.0, IsChain-IsSorted xs cs.1 h.1)

sort-IsSorted : (xs : List DailyUsageResult) → All HasCount xs → IsSorted (sort xs)
sort-IsSorted xs cs = IsChain-IsSorted (sort xs) (All-sort HasCount xs cs) (sort-IsChain xs cs)

count-insert_row :
    (p : DailyUsageResult → Bool) (x : DailyUsageResult) (xs : List DailyUsageResult)
    → count p (insert_row x xs) ≡ count p (x ∷ xs)
count-insert_row p x [] = refl
count-insert_row p x (y ∷ ys) = ground (arith, count-insert_row p x ys)

count-sort :
    (p : DailyUsageResult → Bool) (xs : List DailyUsageResult) → count p (sort xs) ≡ count p xs
unfolding sort
count-sort p [] = refl
count-sort p (x ∷ xs) = count-insert_row p x (sort xs) ∙ ground (arith, count-sort p xs)

-- Whose rows a collection holds: for the clients in order, what the query of each returned.
pub data Collected (db : Queries) (days : Number)
    : List Client → List DailyUsageResult → Queries.World db → Queries.World db → Type 0 where
  nobody : (w : Queries.World db) → Collected db days [] [] w w
  client_rows :
      {clients : List Client} {more : List DailyUsageResult} {w w' : Queries.World db}
      (client : Client) (rows : List DailyUsageResult)
      → (query_daily_usage db client.client_id days w).outcome ≡ ok rows
      → Collected db days clients more (query_daily_usage db client.client_id days w).state w'
      → Collected db days (client ∷ clients) (rows ++ more) w w'

All-append :
    (P : DailyUsageResult → Type 0) (xs ys : List DailyUsageResult)
    → All P xs
    → All P ys
    → All P (xs ++ ys)
All-append P [] ys a b = b
All-append P (x ∷ xs) ys a b = (a.0, All-append P xs ys a.1 b)

Collected-HasCount :
    {db : Queries} {days : Number} {clients : List Client} {all : List DailyUsageResult}
    {w w' : Queries.World db}
    → Collected db days clients all w w'
    → All HasCount all
Collected-HasCount (nobody w) = tt
Collected-HasCount {db} {days} {w} (client_rows {more} client rows queried others) =
    All-append HasCount rows more
      (query_daily_usage-HasCount db client.client_id days w rows queried)
      (Collected-HasCount others)

module _ (db : Queries) where
  open db use {World}

  collect-Collected :
      (days : Number) (clients : List Client) (w : World) (all : List DailyUsageResult)
      → (collect db days clients w).0 ≡ ok all
      → Collected db days clients all w (collect db days clients w).1
  unfolding collect
  collect-Collected days [] w all e = subst (λ rows. Collected db days [] rows w w) (cc) (nobody w)
  collect-Collected days (client ∷ clients) w all e =
      let run = query_daily_usage db client.client_id days w in
      elim (Result-cases run.outcome) [
        | inr (err, threw) ↦ let h : thrown err ≡ ok all = rw (threw, collect) at e in cc
        | inl (rows, queried) ↦
            let h : ((collect db days clients run.state).0 >>= λ more. ok (rows ++ more)) ≡ ok all =
              rw (queried, collect) at e in
            let (more, collected, joined) =
              >>=-eq-ok (collect db days clients run.state).0 (λ more. ok (rows ++ more)) h in
            rw (queried, collect)
              (subst
                (λ xs.
                  Collected db days (client ∷ clients) xs w (collect db days clients run.state).1)
                (cc)
                (client_rows client rows queried
                  (collect-Collected days clients run.state more collected)))
      ]

  -- When the daily usage is answered, it is sorted, the later dates first and within a date the higher
  -- counts, no count is NaN, and it holds exactly the rows that the query of each active client
  -- returned: each test on rows passes equally often.
  pub fresh_daily_usage-IsSorted :
      (days : Number) (w : World) (rows : List DailyUsageResult)
      → (fresh_daily_usage db days w).0 ≡ ok rows
      → IsSorted rows
        × All HasCount rows
        × (clients : List Client) × (all : List DailyUsageResult) × ((find_all_active db w).outcome
            ≡ ok clients)
        × Collected db days clients all (find_all_active db w).state (fresh_daily_usage db days w).1
        × ((p : DailyUsageResult → Bool) → count p rows ≡ count p all)
  unfolding fresh_daily_usage
  fresh_daily_usage-IsSorted days w rows e =
      let run = find_all_active db w in
      elim (Result-cases run.outcome) [
        | inr (err, threw) ↦
            let h : thrown err ≡ ok rows = rw (threw, fresh_daily_usage) at e in absurd (cc)
        | inl (clients, found) ↦
            let h : ((collect db days clients run.state).0 >>= λ all. ok (sort all)) ≡ ok rows =
              rw (found, fresh_daily_usage) at e in
            let (all, collected, sorted) =
              >>=-eq-ok (collect db days clients run.state).0 (λ all. ok (sort all)) h in
            let same : sort all ≡ rows = cc in
            let origin = collect-Collected days clients run.state all collected in
            (
              subst IsSorted same (sort-IsSorted all (Collected-HasCount origin)),
              subst (All HasCount) same (All-sort HasCount all (Collected-HasCount origin)),
              clients,
              all,
              found,
              rw (found, fresh_daily_usage) origin,
              λ p. ap (count p) (sym same) ∙ count-sort p all,
            )
      ]
