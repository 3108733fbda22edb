-- ===== src/Copilot/Budget/Spending.antt =====
-- Requests of any number of threads over one `BudgetGuard` of v2/src/footballai_v2/copilot/budget.py.
use football_ai.Prelude.{
  ℕ, suc, ◌+◌, ◌-◌, ◌≤◌, ◌≡◌, refl, Option, none, some, List, [], ◌∷◌, ◌++◌, length, arith, subst,
  sym, true, false, Bool, if◌then◌else◌, ◌∙◌, leb, ltb,
}
use football_ai.Prelude.Result.{ok, unless-eq-ok, ok_eq}
use football_ai.Copilot.Pricing.{ModelPrice, TokenUsage, request_cost_usd}
use football_ai.Copilot.Provider.{Outcome, replied, timed_out, failed, crashed, ProviderTelemetry}
use football_ai.Copilot.Budget.{
  BudgetGuard, new_guard, max_requests, max_cost_usd, admit, release, charge, settle, reported,
  telemetry_of, is_not_configured, charge_usage,
}

-- The guard, and the worst case of each request that is admitted and not settled.
pub record Pool : Type 0 where
  pub guard : BudgetGuard
  pub in_flight : List ℕ

pub sum : List ℕ → ℕ
sum [] = 0
sum (x ∷ xs) = x + sum xs

sum-middle : (xs : List ℕ) (w : ℕ) (ys : List ℕ) → sum (xs ++ w ∷ ys) ≡ w + sum (xs ++ ys)
unfolding sum
sum-middle [] w ys = refl
sum-middle (x ∷ xs) w ys = omega (arith, sum-middle xs w ys)

length-middle :
    (xs : List ℕ) (w : ℕ) (ys : List ℕ) → length (xs ++ w ∷ ys) ≡ suc (length (xs ++ ys))
length-middle [] w ys = refl
length-middle (x ∷ xs) w ys = omega (arith, length-middle xs w ys)

-- What the usage that is reported costs over the worst case that was reserved.
abbrev pub excess : ModelPrice → Option TokenUsage → ℕ → ℕ
excess price none w = 0
excess price (some usage) w = request_cost_usd price usage - w

module _ (Reply : Type 0) where
  -- A thread is admitted, or a request in flight ends.
  pub data Step (p q : Pool) : Type 0 where
    admitted :
        (w : ℕ) (g : BudgetGuard)
        → admit p.guard w ≡ ok g
        → q ≡ record { guard = g; in_flight = w ∷ p.in_flight }
        → Step p q
    settled :
        (outcome : Outcome Reply) (before : List ℕ) (w : ℕ) (after : List ℕ)
        → p.in_flight ≡ before ++ w ∷ after
        → q ≡ record { guard = settle p.guard outcome w; in_flight = before ++ after }
        → Step p q

  pub data Reach (p : Pool) : Pool → Type 0 where
    here : Reach p p
    next : {q r : Pool} → Reach p q → Step q r → Reach p r

  abbrev step_excess : {p q : Pool} → Step p q → ℕ
  step_excess (admitted w g h e) = 0
  step_excess {p} (settled outcome before w after h e) =
      excess p.guard.price (reported (telemetry_of outcome)) w

  -- What all the usages that were reported cost over the worst cases that were reserved for them.
  unfoldable pub total_excess : {p q : Pool} → Reach p q → ℕ
  total_excess here = 0
  total_excess (next r s) = total_excess r + step_excess s

pub record IsCovered (limit requests over : ℕ) (p : Pool) : Type 0 where
  pub reserved : p.guard.reserved_usd ≡ sum p.in_flight
  pub money : p.guard.spent_usd + p.guard.reserved_usd ≤ limit + over
  pub sent : length p.in_flight ≤ p.guard.requests_sent
  pub counted : p.guard.requests_sent ≤ requests
  pub limit_kept : p.guard.max_cost_usd ≡ limit
  pub requests_kept : p.guard.max_requests ≡ requests

-- What `charge` and `release` do to the amounts.
record Moves (g g' : BudgetGuard) (w over : ℕ) : Type 0 where
  reserved : g'.reserved_usd ≡ g.reserved_usd - w
  spent : g'.spent_usd ≤ g.spent_usd + w + over
  sent : g.requests_sent ≤ suc g'.requests_sent
  not_more : g'.requests_sent ≤ g.requests_sent
  limit_kept : g'.max_cost_usd ≡ g.max_cost_usd
  requests_kept : g'.max_requests ≡ g.max_requests

charge_usage-Moves :
    (g : BudgetGuard) (u : Option TokenUsage) (w : ℕ)
    → Moves g
        (charge_usage (record g { reserved_usd = g.reserved_usd - w }) u w)
        w
        (excess g.price u w)
charge_usage-Moves g none w = record {
  reserved = refl;
  spent = omega arith;
  sent = omega arith;
  not_more = omega arith;
  limit_kept = refl;
  requests_kept = refl;
}
charge_usage-Moves g (some u) w = record {
  reserved = refl;
  spent = omega arith;
  sent = omega arith;
  not_more = omega arith;
  limit_kept = refl;
  requests_kept = refl;
}

charge-Moves :
    (g : BudgetGuard) (t : Option ProviderTelemetry) (w : ℕ)
    → Moves g (charge g t w) w (excess g.price (reported t) w)
unfolding charge
charge-Moves g t w = charge_usage-Moves g (reported t) w

release-Moves : (g : BudgetGuard) (w over : ℕ) → Moves g (release g w) w over
unfolding release
release-Moves g w over = record {
  reserved = refl;
  spent = omega arith;
  sent = omega arith;
  not_more = omega arith;
  limit_kept = refl;
  requests_kept = refl;
}

-- A failure: released if it was never sent, and charged otherwise.
failure-Moves :
    (g : BudgetGuard) (b : Bool) (t : Option ProviderTelemetry) (w : ℕ)
    → Moves g (if b then release g w else charge g t w) w (excess g.price (reported t) w)
failure-Moves g true t w = release-Moves g w (excess g.price (reported t) w)
failure-Moves g false t w = charge-Moves g t w

settle-Moves :
    {Reply : Type 0} (g : BudgetGuard) (o : Outcome Reply) (w : ℕ)
    → Moves g (settle g o w) w (excess g.price (reported (telemetry_of o)) w)
unfolding settle
settle-Moves g (replied r t) w = charge-Moves g t w
settle-Moves g (timed_out k t) w = failure-Moves g (is_not_configured k) t w
settle-Moves g (failed k t) w = failure-Moves g (is_not_configured k) t w
settle-Moves g crashed w = charge-Moves g none w

-- What an admission checks, and what it does.
admitted_inv :
    (g g' : BudgetGuard) (w : ℕ)
    → admit g w ≡ ok g'
    → (suc g.requests_sent ≤ g.max_requests)
      × (g.spent_usd + g.reserved_usd + w ≤ g.max_cost_usd)
      × (record g { requests_sent = g.requests_sent + 1; reserved_usd = g.reserved_usd + w } ≡ g')
unfolding admit
admitted_inv g g' w h =
    let (more, rest) = unless-eq-ok (leb g.max_requests g.requests_sent) max_requests _ h in
    let (cheap, done) =
      unless-eq-ok (ltb g.max_cost_usd (g.spent_usd + g.reserved_usd + w)) max_cost_usd _ rest in
    (ground (arith, more), ground (arith, cheap), ok_eq done)

module _ (limit requests : ℕ) where
  admit-IsCovered :
      (over : ℕ) (p : Pool) (w : ℕ) (g : BudgetGuard)
      → admit p.guard w ≡ ok g
      → IsCovered limit requests over p
      → IsCovered limit requests (over + 0) (record { guard = g; in_flight = w ∷ p.in_flight })
  unfolding sum
  admit-IsCovered over p w g h c =
      let (room, affordable, done) = admitted_inv p.guard g w h in
      subst
        (λ x.
          IsCovered limit requests (over + 0) (record { guard = x; in_flight = w ∷ p.in_flight }))
        done
        (record {
          reserved = omega (arith, c.reserved);
          money = omega (arith, c.limit_kept);
          sent = omega (arith, c.sent);
          counted = omega (arith, c.requests_kept);
          limit_kept = c.limit_kept;
          requests_kept = c.requests_kept;
        })

  settle-IsCovered :
      (over extra : ℕ) (p : Pool) (g : BudgetGuard) (before after : List ℕ) (w : ℕ)
      → Moves p.guard g w extra
      → p.in_flight ≡ before ++ w ∷ after
      → IsCovered limit requests over p
      → IsCovered limit requests (over + extra) (record { guard = g; in_flight = before ++ after })
  settle-IsCovered over extra p g before after w m e c =
      let total : sum p.in_flight ≡ w + sum (before ++ after) = rw e (sum-middle before w after) in
      let count : length p.in_flight ≡ suc (length (before ++ after)) =
        rw e (length-middle before w after) in
      record {
        reserved = omega (arith, c.reserved, m.reserved);
        money = omega (arith, c.money, c.reserved, m.spent, m.reserved);
        sent = omega (arith, c.sent, m.sent);
        counted = omega (arith, c.counted, m.not_more);
        limit_kept = m.limit_kept ∙ c.limit_kept;
        requests_kept = m.requests_kept ∙ c.requests_kept;
      }

-- From a new guard, whatever requests are admitted and settled in any order: what is spent and what
-- is reserved stay within the limit, but for what reported usages cost over their worst cases; the
-- reserved amount is the sum of the worst cases of the requests in flight; and the requests that
-- were sent stay within their limit.
pub new_guard-IsCovered :
    (Reply : Type 0) (limit requests : ℕ) (price : ModelPrice) (p : Pool)
    (r : Reach Reply (record { guard = new_guard requests limit price; in_flight = [] }) p)
    → IsCovered limit requests (total_excess Reply r) p
unfolding sum total_excess
new_guard-IsCovered Reply limit requests price p here = record {
  reserved = refl;
  money = omega arith;
  sent = omega arith;
  counted = omega arith;
  limit_kept = refl;
  requests_kept = refl;
}
new_guard-IsCovered Reply limit requests price p (next {q} r (admitted w g h e)) =
    subst (IsCovered limit requests (total_excess Reply r + 0)) (sym e) (
      admit-IsCovered limit requests _ q w g h (new_guard-IsCovered Reply limit requests price q r))
new_guard-IsCovered Reply limit requests price p (next {q} r (settled o before w after h e)) =
    subst (IsCovered limit requests _) (sym e) (
      settle-IsCovered limit requests _ _ q _ before after w (settle-Moves q.guard o w) h
        (new_guard-IsCovered Reply limit requests price q r))
