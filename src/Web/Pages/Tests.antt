-- ===== src/Web/Pages/Tests.antt =====
-- The theorems on the pages at a small table of customers.
use duckstore.Prelude.{List, [], ◌∷◌, none, some}
use duckstore.Prelude.Text.{codes}
use duckstore.Web.Pages.{Person, Site, current_customer}
use duckstore.Web.Pages.Shopping.{After, IsShopping, current_customer-IsShopping}

abbrev three_people : List Person
three_people =
    record { id = 1; country = codes "DE" }
    ∷ record { id = 2; country = codes "FR" }
    ∷ record { id = 5; country = codes "FR" }
    ∷ []

abbrev site_example : Site
site_example = record {
  people = three_people;
  floors = 3 ∷ [];
  faults = [];
  customer_cookie = none;
  flash_cookie = none;
}

current_customer-IsShopping_example :
    After
      (λ p s'. IsShopping (some (codes "9")) site_example p s')
      (current_customer (some (codes "9")) site_example)
current_customer-IsShopping_example = current_customer-IsShopping (some (codes "9")) site_example
