-- ===== src/Store/Orders/Steps.antt =====
-- internal/web/checkout.go: what an action does to an order, in a description of its own: a step
-- relation on the rows. `orderAction` implements it.
use duckstore.Prelude.{
  ℕ, ◌<◌, ◌≡◌, ◌⊎◌, inl, inr, refl, sym, subst, ap, ◌∙◌, Bool, true, false, not, ◌&&◌, [], ◌∷◌,
  ◌++◌, map, some, arith, leb, if_ind,
}
use duckstore.Prelude.Int.{ℤ}
use duckstore.Prelude.Text.Decimal.{parse_int}
use duckstore.Prelude.Text.{Text, codes, equal}
use duckstore.Store.Carts.{View, note, refused, atoi}
use duckstore.Store.Orders.{
  is_status, status_of, set_row, set_order_status, ship_row, ship, deliver_row, deliver,
  restock_rows, restock_allowed, without_shipments, refund_row, cancel, find_item, returned,
  reason_of, refund_of, insert_return, order_page, give_back, run_action, action_tx, action_answer,
  order_action,
}
use duckstore.Store.Tables.{OrderStatus, OrderItem, Return, Db}
use duckstore.Store.Tx.{
  Result, ok, err, Error, user, no_rows, not_found, violation, connection, UserError, World, Tx,
  Begin,
}
use duckstore.Store.Tx.Commits.{Commits}
use duckstore.Store.Tx.Laws.{
  SameClock-trans, bind-eq-ok, fail_if-eq-ok, exec-eq-ok, exec_check-eq-ok, query_or-eq-ok, Pair-eq,
}

-- The row that a return of one unit adds.
abbrev pub return_row : OrderItem → Text → ℕ → Return
return_row i reason now = record {
  order = i.order;
  line_no = i.line_no;
  quantity = 1;
  reason = reason;
  refund = refund_of i;
  requested_at = now;
}

-- What an action makes of the rows `d` at the time `now`, when it succeeds.
pub data Step (id : ℤ) (now : ℕ) (d : Db) : Db → Type 0 where
  ships :
      status_of id d.orders ≡ some OrderStatus.paid
      → Step id now d (record d {
        shipments = map (ship_row id now) d.shipments;
        orders = map (set_row id now OrderStatus.shipped) d.orders;
      })
  delivers :
      status_of id d.orders ≡ some OrderStatus.shipped
      → Step id now d (record d {
        shipments = map (deliver_row id now) d.shipments;
        orders = map (set_row id now OrderStatus.delivered) d.orders;
      })
  cancels :
      (status_of id d.orders ≡ some OrderStatus.pending)
        ⊎ (status_of id d.orders ≡ some OrderStatus.paid)
      → restock_allowed id d.order_items d.inventory ≡ true
      → Step id now d (record d {
        inventory = restock_rows id now d.order_items d.inventory;
        shipments = without_shipments id d.shipments;
        payments = map (refund_row id) d.payments;
        orders = map (set_row id now OrderStatus.cancelled) d.orders;
      })
  returns :
      (line : ℤ) {i : OrderItem} (reason : Text)
      → status_of id d.orders ≡ some OrderStatus.delivered
      → find_item id line d.order_items ≡ some i
      → returned i.order i.line_no d.returns < i.quantity
      → Step id now d (record d { returns = d.returns ++ return_row i reason now ∷ [] })

is_status-eq : (a b : OrderStatus) → is_status a b ≡ true → a ≡ b
is_status-eq OrderStatus.pending OrderStatus.pending h = refl
is_status-eq OrderStatus.paid OrderStatus.paid h = refl
is_status-eq OrderStatus.shipped OrderStatus.shipped h = refl
is_status-eq OrderStatus.delivered OrderStatus.delivered h = refl
is_status-eq OrderStatus.cancelled OrderStatus.cancelled h = refl
is_status-eq _ _ h = absurd cc

not-false : (b : Bool) → not b ≡ false → b ≡ true
not-false true h = refl
not-false false h = absurd cc

-- The statement of `setOrderStatus`.
set_order_status-eq-ok :
    (id : ℤ) (status : OrderStatus) (w : World) {u : Unit {0}} {w' : World}
    → set_order_status id status w ≡ (ok u, w')
    → w'.db ≡ record w.db { orders = map (set_row id w.now status) w.db.orders }
unfolding set_order_status
set_order_status-eq-ok id status w h = (exec-eq-ok _ w h).0

-- That `m` succeeded from `w` in status `status` makes a step.
abbrev Makes : ℤ → OrderStatus → Tx Text → Type 0
Makes id status m =
    (w : World) (msg : Text) (w' : World)
    → status_of id w.db.orders ≡ some status
    → m w ≡ (ok msg, w')
    → Step id w.now w.db w'.db

ship-Step : (id : ℤ) (status : OrderStatus) → Makes id status (ship id status)
unfolding ship
ship-Step id status w msg w' found h =
    let (_, w1, guard, h1) = bind-eq-ok _ _ w h in
    let (_, w2, moved, h2) = bind-eq-ok _ _ w1 h1 in
    let (_, w3, changed, h3) = bind-eq-ok _ _ w2 h2 in
    let (g, e1) = fail_if-eq-ok _ _ w guard in
    let (e2, c2) = exec-eq-ok _ w1 moved in
    let e3 = set_order_status-eq-ok id _ w2 changed in
    let is_paid = is_status-eq status OrderStatus.paid (not-false _ g) in
    let eq = ap (λ p. p.1.db) (sym h3) ∙ e3 ∙ rw (e2, c2.now, e1) in
    subst (Step id w.now w.db) (sym eq) (ships (found ∙ ap some is_paid))

deliver-Step : (id : ℤ) (status : OrderStatus) → Makes id status (deliver id status)
unfolding deliver
deliver-Step id status w msg w' found h =
    let (_, w1, guard, h1) = bind-eq-ok _ _ w h in
    let (_, w2, moved, h2) = bind-eq-ok _ _ w1 h1 in
    let (_, w3, changed, h3) = bind-eq-ok _ _ w2 h2 in
    let (g, e1) = fail_if-eq-ok _ _ w guard in
    let (e2, c2) = exec-eq-ok _ w1 moved in
    let e3 = set_order_status-eq-ok id _ w2 changed in
    let is_shipped = is_status-eq status OrderStatus.shipped (not-false _ g) in
    let eq = ap (λ p. p.1.db) (sym h3) ∙ e3 ∙ rw (e2, c2.now, e1) in
    subst (Step id w.now w.db) (sym eq) (delivers (found ∙ ap some is_shipped))

and-false : (a b : Bool) → (not a && not b) ≡ false → (a ≡ true) ⊎ (b ≡ true)
and-false true b h = inl refl
and-false false true h = inr refl
and-false false false h = absurd cc

cancel-Step : (id : ℤ) (status : OrderStatus) → Makes id status (cancel id status)
unfolding cancel
cancel-Step id status w msg w' found h =
    let (_, w1, guard, h1) = bind-eq-ok _ _ w h in
    let (_, w2, restocked, h2) = bind-eq-ok _ _ w1 h1 in
    let (_, w3, removed, h3) = bind-eq-ok _ _ w2 h2 in
    let (_, w4, refunded, h4) = bind-eq-ok _ _ w3 h3 in
    let (_, w5, changed, h5) = bind-eq-ok _ _ w4 h4 in
    let (g, e1) = fail_if-eq-ok _ _ w guard in
    let (allowed, e2, c2) = exec_check-eq-ok _ _ w1 restocked in
    let (e3, c3) = exec-eq-ok _ w2 removed in
    let (e4, c4) = exec-eq-ok _ w3 refunded in
    let e5 = set_order_status-eq-ok id _ w4 changed in
    let allowed' = rw e1 at allowed in
    let now' = (SameClock-trans c2 (SameClock-trans c3 c4)).now in
    let eq = ap (λ p. p.1.db) (sym h5) ∙ e5 ∙ rw (e4, e3, e2, now', e1) in
    let before : (status_of id w.db.orders ≡ some OrderStatus.pending)
        ⊎ (status_of id w.db.orders ≡ some OrderStatus.paid) =
      elim (and-false _ _ g) [
        | inl p ↦ inl (found ∙ ap some (is_status-eq status OrderStatus.pending p))
        | inr p ↦ inr (found ∙ ap some (is_status-eq status OrderStatus.paid p))
      ] in
    subst (Step id w.now w.db) (sym eq) (cancels before allowed')

leb-false : (a b : ℕ) → leb a b ≡ false → b < a
leb-false a b h = ground arith

give_back-Step :
    (id : ℤ) (status : OrderStatus) (line_value reason_value : Text)
    → Makes id status (give_back id status line_value reason_value)
unfolding give_back insert_return
give_back-Step id status line_value reason_value w msg w' found h =
    let (_, w1, guard, h1) = bind-eq-ok _ _ w h in
    let (i, w2, read, h2) = bind-eq-ok _ _ w1 h1 in
    let (_, w3, guard', h3) = bind-eq-ok _ _ w2 h2 in
    let (_, w4, added, h4) = bind-eq-ok _ _ w3 h3 in
    let (g, e1) = fail_if-eq-ok _ _ w guard in
    let (item, e2, c2) = query_or-eq-ok _ _ w1 read in
    let (g', e3) = fail_if-eq-ok _ _ w2 guard' in
    let (_, e4, _) = exec_check-eq-ok _ _ w3 added in
    let same = e2 ∙ ap (λ (v : World). v.db) e1 in
    let left =
      ap (λ (d : Db). leb i.quantity (returned i.order i.line_no d.returns)) (sym same) ∙ g' in
    let item' =
      ap (λ (v : World). find_item id (atoi line_value) v.db.order_items) (sym e1) ∙ item in
    let now' = ap (λ (v : World). v.now) e3 ∙ c2.now ∙ ap (λ (v : World). v.now) e1 in
    let same' = ap (λ (v : World). v.db) e3 ∙ same in
    let add : ℕ → Db → Db =
      λ n d. record d { returns = d.returns ++ return_row i (reason_of reason_value) n ∷ [] } in
    let eq = ap (λ p. p.1.db) (sym h4) ∙ e4 ∙ ap (λ n. add n w3.db) now' ∙ ap (add w.now) same' in
    let is_delivered = is_status-eq status OrderStatus.delivered (not-false _ g) in
    subst (Step id w.now w.db) (sym eq) (
      returns (atoi line_value) (reason_of reason_value) (found ∙ ap some is_delivered) item'
        (leb-false i.quantity _ left))

run_action-Step :
    (id : ℤ) (action line_value reason_value : Text) (status : OrderStatus)
    → Makes id status (run_action id action line_value reason_value status)
unfolding run_action
run_action-Step id action line_value reason_value status =
    if_ind (Makes id status) (equal action (codes "ship")) (λ _. ship-Step id status)
      (λ _.
        if_ind (Makes id status) (equal action (codes "deliver")) (λ _. deliver-Step id status)
          (λ _.
            if_ind (Makes id status) (equal action (codes "cancel")) (λ _. cancel-Step id status)
              (λ _.
                if_ind (Makes id status) (equal action (codes "return"))
                  (λ _. give_back-Step id status line_value reason_value)
                  (λ _ w msg w' found h. absurd cc))))

-- The function given to `BeginFunc`: when it succeeds, it has made a step.
action_tx-Step :
    (id : ℤ) (action line_value reason_value : Text) (w : World) {msg : Text} {w' : World}
    → action_tx id action line_value reason_value w ≡ (ok msg, w')
    → Step id w.now w.db w'.db
unfolding action_tx
action_tx-Step id action line_value reason_value w {msg} {w'} h =
    let (status, w1, read, h1) = bind-eq-ok _ _ w h in
    let (found, same, clock) = query_or-eq-ok _ _ w read in
    let found' = ap (λ (d : Db). status_of id d.orders) same ∙ found in
    subst (λ (n : ℕ). Step id n w.db w'.db) clock.now
      (subst (λ (d : Db). Step id w1.now d w'.db) same
        (run_action-Step id action line_value reason_value status w1 msg w' found' h1))

-- What `orderAction` may answer, and the rows that go with the answer.
pub data Outcome (id : ℤ) (now : ℕ) (d : Db) : Result View → Db → Type 0 where
  failed : (e : Error) → Outcome id now d (err e) d
  declined :
      (e : UserError)
      → Outcome id now d (ok (record { redirect = order_page id; flash = refused e })) d
  done :
      (msg : Text) {d' : Db}
      → Step id now d d'
      → Outcome id now d (ok (record { redirect = order_page id; flash = note msg })) d'

-- An answer and the rows.
abbrev Answers : ℤ → World → Result View × World → Type 0
Answers id w p = Outcome id w.now w.db p.0 p.1.db

err-Answers :
    (id : ℤ) (w : World) (e : Error) (w' : World)
    → w'.db ≡ w.db
    → Answers id w (action_answer id (err e) w')
err-Answers id w (user e) w' same = subst (Outcome id w.now w.db _) (sym same) (declined e)
err-Answers id w no_rows w' same = subst (Outcome id w.now w.db _) (sym same) (failed no_rows)
err-Answers id w (not_found t) w' same =
    subst (Outcome id w.now w.db _) (sym same) (failed (not_found t))
err-Answers id w violation w' same = subst (Outcome id w.now w.db _) (sym same) (failed violation)
err-Answers id w connection w' same = subst (Outcome id w.now w.db _) (sym same) (failed connection)

-- Whatever the action, the form values and the statements that fail, `orderAction` either answers
-- an error or a refusal and the rows are those of before, or it answers a message and has made one
-- step of the order.
pub order_action-Outcome :
    (begin : Begin)
    → Commits begin
    → (id_value action line_value reason_value : Text) (w : World)
    → Outcome
        (parse_int id_value).value
        w.now
        w.db
        (order_action begin id_value action line_value reason_value w).0
        (order_action begin id_value action line_value reason_value w).1.db
unfolding order_action
order_action-Outcome begin commits id_value action line_value reason_value w =
    let id = (parse_int id_value).value in
    let body = action_tx id action line_value reason_value in
    let end = (begin.run body w).1 in
    let (w0, rows, clock, ends) = commits.once body w in
    if_ind (Answers id w) (parse_int id_value).valid
      (λ _. elim ends [
        | inl (same, (e, failed')) ↦
            subst (λ (r : Result Text). Answers id w (action_answer id r end)) (sym failed')
              (err-Answers id w e _ same)
        | inr (msg, ran, kept, same, _) ↦
            let step =
              action_tx-Step id action line_value reason_value w0 (Pair-eq _ _ _ ran refl) in
            let step' = subst (λ (n : ℕ). Step id n w0.db (body w0).1.db) clock.now step in
            let step'' = subst (λ (d : Db). Step id w.now d (body w0).1.db) rows step' in
            subst (λ (r : Result Text). Answers id w (action_answer id r end)) (sym kept)
              (done msg (subst (Step id w.now w.db) (sym same) step''))
      ])
      (λ _. failed (not_found (codes "order")))
