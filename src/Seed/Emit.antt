-- ===== src/Seed/Emit.antt =====
-- internal/seed/orders.go: the state in which the generator of orders runs. The random numbers, and
-- which rows a stream refuses because the context is done, are sequences that come from outside;
-- what a random number is compared with only decides how often a branch is taken, so a test of
-- `Float64()` is a coin.
pub mod Triple
pub mod Reads
use duckstore.Prelude.{
  ℕ, ◌+◌, ◌/◌, ◌%◌, Bool, true, false, List, [], ◌∷◌, Option, none, some, get_elem?, length, ◌==◌,
  if◌then◌else◌,
}
use duckstore.Prelude.Int.{ℤ, pos, negsuc}

-- What is written is in `out`.
pub record Emitting (O : Type 0) : Type 0 where
  pub ints : List ℕ
  pub coins : List Bool
  pub faults : List Bool
  pub out : O

-- A part of the generator: none is an error, or a panic.
abbrev pub Emit : Type 0 → Type 0 → Type 0
Emit O A = Emitting O → Option A × Emitting O

abbrev pub head_or {ℓ} : {A : Type ℓ} → A → List A → A
head_or d [] = d
head_or d (x ∷ _) = x

abbrev pub rest {ℓ} : {A : Type ℓ} → List A → List A
rest [] = []
rest (_ ∷ l) = l

infixl 5 ◌>>=◌ ◌>>◌
unfoldable pub ◌>>=◌ : {O A B : Type 0} → Emit O A → (A → Emit O B) → Emit O B
◌>>=◌ m f s = let (r, s') = m s in elim r [ none ↦ (none, s') | some a ↦ f a s' ]

abbrev pub ◌>>◌ : {O A B : Type 0} → Emit O A → Emit O B → Emit O B
m >> k = m >>= λ _. k

unfoldable pub pure : {O A : Type 0} → A → Emit O A
pure a s = (some a, s)

unfoldable pub stop : {O A : Type 0} → Emit O A
stop s = (none, s)

-- An index out of range, or no price: a panic.
abbrev pub must : {O A : Type 0} → Option A → Emit O A
must none = stop
must (some a) = pure a

module _ {O : Type 0} where
  -- `IntN(n)`, and `weighted` of `n` weights, which gives one of their indices.
  unfoldable pub int_n : ℕ → Emit O ℕ
  int_n n s = (some (head_or 0 s.ints % n), record s { ints = rest s.ints })

  -- A random number without a bound that matters.
  unfoldable pub any_int : Emit O ℕ
  any_int s = (some (head_or 0 s.ints), record s { ints = rest s.ints })

  -- `Float64() < p`
  unfoldable pub coin : Emit O Bool
  coin s = (some (head_or false s.coins), record s { coins = rest s.coins })

  -- `add` on a stream: `refused` is what is kept when there is an error.
  unfoldable pub add_row : (O → O) → (O → O) → Emit O (Unit {0})
  add_row refused added s =
      let s' = record s { faults = rest s.faults } in
      if head_or false s.faults
      then (none, record s' { out = refused s.out })
      else (some tt, record s' { out = added s.out })

abbrev pub as_int : ℕ → ℤ
as_int n = if n % 2 == 0 then pos (n / 2) else negsuc (n / 2)

-- A rounded number of the normal distribution.
unfoldable pub normal : {O : Type 0} → Emit O ℤ
normal = any_int >>= λ n. pure (as_int n)

-- `list[IntN(len(list))]`
unfoldable pub pick : {O A : Type 0} → List A → Emit O A
pick l = int_n (length l) >>= λ i. must (get_elem? l i)
