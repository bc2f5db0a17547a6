-- ===== src/Seed/Signups.antt =====
-- internal/seed/generator.go: `buildCustomers`, without the float weights that give the number of
-- customers of a day. Names and streets are random numbers that nothing here reads and are left out.
pub mod Consistent
use duckstore.Prelude.{
  ℕ, zero, suc, ◌+◌, ◌-◌, ◌*◌, Bool, true, false, List, [], ◌∷◌, ◌++◌, length, ltb, ◌==◌, min, max,
  if◌then◌else◌,
}
use duckstore.Seed.Emit.{Emit, pure, ◌>>=◌, int_n, coin, pick}

-- `customer`; no referrer and no account manager are 0.
pub record Signup : Type 0 where
  pub created_at : ℕ
  pub country : ℕ
  pub segment : ℕ
  pub account_mgr : ℕ
  pub referred_by : ℕ
  pub addr_id : ℕ
  pub addr_count : ℕ

-- `g.customers`, `g.firstCustOfDay` and `addrID`.
pub record Signups : Type 0 where
  pub customers : List Signup
  pub first_of_day : List ℕ
  pub addr : ℕ

abbrev pub day_length : ℕ
day_length = 86400

-- `g.firstCustOfDay[d] = len(g.customers) + 1`
abbrev pub mark_day : Signups → Signups
mark_day s = record s { first_of_day = s.first_of_day ++ ((length s.customers + 1) ∷ []) }

module _ {O : Type 0} (countries : ℕ) (execs_of : ℕ → List ℕ) where
  -- `c.accountMgr`, of the executives of the country's region.
  abbrev pub manager : ℕ → ℕ → Emit O ℕ
  manager segment country = if segment == 0 then pure 0 else pick (execs_of country)

  abbrev pub referrer : ℕ → Bool → Emit O ℕ
  referrer id is_referred =
      if is_referred
      then (int_n (min (id - 1) 50000) >>= λ k. pure (max 1 (id - 1 - k)))
      else pure 0

  -- The body of the loop over the sign-ups of a day.
  unfoldable pub sign_up : ℕ → Signups → Emit O Signups
  sign_up created_at s =
      let id = length s.customers + 1 in
      int_n countries >>= λ country. int_n 3 >>= λ segment.
      manager segment country >>= λ account_mgr.
      (if ltb 500 id then coin else pure false) >>= λ is_referred.
      referrer id is_referred >>= λ referred_by. int_n 3 >>= λ more. pure (record s {
        customers =
            s.customers
            ++ record {
              created_at = created_at;
              country = country;
              segment = segment;
              account_mgr = account_mgr;
              referred_by = referred_by;
              addr_id = s.addr + 1;
              addr_count = 1 + more;
            }
              ∷ [];
        addr = s.addr + (1 + more);
      })

  unfoldable pub sign_ups : ℕ → List ℕ → Signups → Emit O Signups
  unfolding sign_up
  sign_ups start [] s = pure s
  sign_ups start (sec ∷ secs) s = sign_up (start + sec) s >>= λ s'. sign_ups start secs s'

  -- The loop over the days from `d` on, each with the sorted seconds of its sign-ups.
  unfoldable pub sign_up_days : ℕ → ℕ → List (List ℕ) → Signups → Emit O Signups
  unfolding sign_ups
  sign_up_days start d [] s = pure (mark_day s)
  sign_up_days start d (secs ∷ days) s =
      sign_ups (start + d * day_length) secs (mark_day s) >>= λ s'.
      sign_up_days start (d + 1) days s'

  -- `buildCustomers`
  unfoldable pub build_customers : ℕ → List (List ℕ) → Emit O Signups
  unfolding sign_up_days
  build_customers start days =
      sign_up_days start 0 days (record { customers = []; first_of_day = []; addr = 0 })
