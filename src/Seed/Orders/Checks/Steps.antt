-- ===== src/Seed/Orders/Checks/Steps.antt =====
-- internal/seed/orders.go: each row that a stream takes or refuses keeps what the tables want.
use duckstore.Prelude.{
  ℕ, ◌+◌, ◌≡◌, refl, ap, ◌∙◌, Bool, true, false, ◌||◌, List, [], ◌∷◌, map, arith, All, ◌==◌,
  Bool-cases, inl, inr,
}
use duckstore.Seed.Orders.{Gen, ReturnRow, ReviewRow, Out, has}
use duckstore.Seed.Orders.Checks.Items.{All-imp}
use duckstore.Seed.Orders.Checks.{
  PaymentFits, ShipmentFits, ReturnFits, ReviewFits, key_of, Sound, IsFresh-more, IsFresh-next,
}
use duckstore.Store.Tables.{Payment, Shipment}

clash : (x y : Bool) → x ≡ true → x ≡ false → y ≡ false
clash x y e f = ground arith

equal_of : (a b : ℕ) → (a == b) ≡ true → a ≡ b
equal_of a b h = ground arith

same_key : (a b : ℕ) (c : Bool) → b ≡ a → (a == b || c) ≡ true
same_key a b c e = ground arith

module _ {F : Type 0} (g : Gen F) where
  module _ (last : ℕ) (o : Out) (s : Sound g last o) where
    -- A number that is taken and whose row is refused.
    pub skip_payment : Sound g last (record o { payment = o.payment + 1 })
    skip_payment = record {
      orders = s.orders;
      older = s.older;
      items = s.items;
      payments = (s.payments.0, IsFresh-more o.payment _ _ (omega arith) s.payments.1);
      shipments = s.shipments;
      returns = s.returns;
      reviews = s.reviews;
    }

    pub next_payment :
        (p : Payment)
        → PaymentFits o.orders p
        → Sound g last
            (record o { payment = o.payment + 1; payments = (o.payment + 1, p) ∷ o.payments })
    next_payment p fits = record {
      orders = s.orders;
      older = s.older;
      items = s.items;
      payments = ((fits, s.payments.0), IsFresh-next o.payment _ s.payments.1);
      shipments = s.shipments;
      returns = s.returns;
      reviews = s.reviews;
    }

    pub skip_shipment : Sound g last (record o { shipment = o.shipment + 1 })
    skip_shipment = record {
      orders = s.orders;
      older = s.older;
      items = s.items;
      payments = s.payments;
      shipments = (s.shipments.0, IsFresh-more o.shipment _ _ (omega arith) s.shipments.1);
      returns = s.returns;
      reviews = s.reviews;
    }

    pub next_shipment :
        (p : Shipment)
        → ShipmentFits g o.orders p
        → Sound g last
            (record o { shipment = o.shipment + 1; shipments = (o.shipment + 1, p) ∷ o.shipments })
    next_shipment p fits = record {
      orders = s.orders;
      older = s.older;
      items = s.items;
      payments = s.payments;
      shipments = ((fits, s.shipments.0), IsFresh-next o.shipment _ s.shipments.1);
      returns = s.returns;
      reviews = s.reviews;
    }

    pub skip_return : Sound g last (record o { ret = o.ret + 1 })
    skip_return = record {
      orders = s.orders;
      older = s.older;
      items = s.items;
      payments = s.payments;
      shipments = s.shipments;
      returns = (s.returns.0, s.returns.1, IsFresh-more o.ret _ _ (omega arith) s.returns.2);
      reviews = s.reviews;
    }

    pub next_return :
        (r : ReturnRow)
        → r.id ≡ o.ret + 1
        → r.order ≡ last
        → ReturnFits g.end o.items r
        → Sound g last (record o { ret = o.ret + 1; returns = r ∷ o.returns })
    next_return r id same fits = record {
      orders = s.orders;
      older = s.older;
      items = s.items;
      payments = s.payments;
      shipments = s.shipments;
      returns = (
        (fits, s.returns.0),
        (omega arith, s.returns.1),
        rw id (IsFresh-next o.ret _ s.returns.2),
      );
      reviews = s.reviews;
    }

    noted-more :
        (key : ℕ) (rs : List ReviewRow)
        → All (λ (r : ReviewRow). has o.reviewed (key_of r) ≡ true) rs
        → All (λ (r : ReviewRow). has (key ∷ o.reviewed) (key_of r) ≡ true) rs
    noted-more key rs h = All-imp _ _ rs (λ r e. or_right (key == key_of r) _ e) h
      where
        or_right : (a b : Bool) → b ≡ true → (a || b) ≡ true
        or_right a b e = ground arith

    -- The key of the review is kept, and its number, whether its row is.
    pub skip_review :
        (key : ℕ) → Sound g last (record o { reviewed = key ∷ o.reviewed; review = o.review + 1 })
    skip_review key = record {
      orders = s.orders;
      older = s.older;
      items = s.items;
      payments = s.payments;
      shipments = s.shipments;
      returns = s.returns;
      reviews = (
        s.reviews.0,
        IsFresh-more o.review _ _ (omega arith) s.reviews.1,
        s.reviews.2,
        noted-more key o.reviews s.reviews.3,
      );
    }

    -- A key that is not noted is none of the rows'.
    not_noted :
        (key : ℕ) (rs : List ReviewRow)
        → has o.reviewed key ≡ false
        → All (λ (r : ReviewRow). has o.reviewed (key_of r) ≡ true) rs
        → has (map key_of rs) key ≡ false
    not_noted key [] new h = refl
    not_noted key (r ∷ rs) new h =
        neither (key_of r == key) _ (other (key_of r) key o.reviewed h.0 new)
          (not_noted key rs new h.1)
      where
        neither : (a b : Bool) → a ≡ false → b ≡ false → (a || b) ≡ false
        neither a b e f = ground arith

        other : (a b : ℕ) (l : List ℕ) → has l a ≡ true → has l b ≡ false → (a == b) ≡ false
        other a b l e f = elim (Bool-cases (a == b)) [
          | inl t ↦ clash (has l a) (a == b) e (ap (has l) (equal_of a b t) ∙ f)
          | inr n ↦ n
        ]

    pub next_review :
        (key : ℕ) (r : ReviewRow)
        → r.id ≡ o.review + 1
        → key_of r ≡ key
        → has o.reviewed key ≡ false
        → ReviewFits g r
        → Sound g last (record o {
          reviewed = key ∷ o.reviewed;
          review = o.review + 1;
          reviews = r ∷ o.reviews;
        })
    next_review key r id same new fits = record {
      orders = s.orders;
      older = s.older;
      items = s.items;
      payments = s.payments;
      shipments = s.shipments;
      returns = s.returns;
      reviews = (
        (fits, s.reviews.0),
        rw id (IsFresh-next o.review _ s.reviews.1),
        (not_noted (key_of r) o.reviews (ap (has o.reviewed) same ∙ new) s.reviews.3, s.reviews.2),
        (
          same_key key (key_of r) (has o.reviewed (key_of r)) same,
          noted-more key o.reviews s.reviews.3,
        ),
      );
    }
