-- ===== src/Repositories/SupportTickets/Report.antt =====
-- The report of app/repositories/support_tickets.py on the employees with the most resolved tickets,
-- against a definition without groups and maximum.
use corebank_api.Repositories.SupportTickets.{
  is_resolved, Resolver, most, resolved_count, resolved_tickets, top_resolvers,
}
use corebank_api.Prelude.{
  ◌+◌, subst, if◌then◌else◌, ◌∙◌, ap, not, refl, ◌==◌, All-map, [], map, ◌&&◌, max, ◌≡◌, arith, ◌≤◌,
  All, ltb, ◌∷◌, List, ℕ, Bool,
}
use corebank_api.Database.Rows.{count, exists, select}
use corebank_api.Database.Engine.{same, Engine}
use corebank_api.Database.Statement.{Session}
use corebank_api.Database.Schema.{resolved, TicketStatus, SupportTicket, Employee, Db}
use corebank_api.Errors.{ok}

-- the maximum of the groups of some employees
abbrev top_of : {A : Type 0} → (A → ℕ) → List A → ℕ
top_of c [] = 0
top_of c (x ∷ xs) = max (c x) (top_of c xs)

module _ {A : Type 0} (c : A → ℕ) where
  -- some resolved ticket, and no one of the list with more
  abbrev pub leads : List A → A → Bool
  leads xs x = ltb 0 (c x) && not (exists (λ y. ltb (c x) (c y)) xs)

  none_above : (xs : List A) (n : ℕ) → exists (λ y. ltb n (c y)) xs ≡ ltb n (top_of c xs)
  none_above [] n = ground arith
  none_above (x ∷ xs) n = ground (arith, none_above xs n)

  below_top : (xs : List A) → All (λ x. c x ≤ top_of c xs) xs
  below_top [] = tt
  below_top (x ∷ xs) = (
    ground arith,
    All-map (λ y. c y ≤ top_of c xs) (λ y. c y ≤ max (c x) (top_of c xs)) xs (λ y h. ground arith)
        (below_top xs),
  )

  leads_lem :
      (xs : List A) (x : A) → c x ≤ top_of c xs → (ltb 0 (c x) && c x == top_of c xs) ≡ leads xs x
  leads_lem xs x below = ground (arith, none_above xs (c x))

module _ {A : Type 0} where
  select_cong : (p q : A → Bool) (xs : List A) → All (λ x. p x ≡ q x) xs → select p xs ≡ select q xs
  select_cong p q [] h = refl
  select_cong p q (x ∷ xs) h = ground (arith, h.0, select_cong p q xs h.1)

module _ {A B : Type 0} (f : A → B) where
  select-select-map :
      (p q : B → Bool) (xs : List A)
      → select p (select q (map f xs)) ≡ map f (select (λ x. q (f x) && p (f x)) xs)
  select-select-map p q [] = refl
  select-select-map p q (x ∷ xs) = ground (arith, select-select-map p q xs)

abbrev pub row_of : (Employee → ℕ) → Employee → Resolver
row_of c m = record {
  employee_id = m.employee_id;
  first_name = m.first_name;
  last_name = m.last_name;
  resolved_tickets = c m;
}

module _ ⦃e : Engine⦄ where
  -- How many tickets of a list are of an employee and have the status RESOLVED.
  abbrev pub resolved_by : List SupportTicket → Employee → ℕ
  resolved_by [] m = 0
  resolved_by (t ∷ ts) m =
      elim t.status [ resolved ↦ (if same t.employee_id m.employee_id then 1 else 0) | _ ↦ 0 ]
      + resolved_by ts m

  one_ticket :
      (status : TicketStatus) (own : Bool)
      → (if is_resolved status && own then 1 else 0)
        ≡ elim status as (λ _. ℕ) [ resolved ↦ (if own then 1 else 0) | _ ↦ 0 ]
  one_ticket resolved own = refl
  one_ticket _ own = refl

  counts :
      (ts : List SupportTicket) (m : Employee)
      → count (λ t. is_resolved t.status && same t.employee_id m.employee_id) ts ≡ resolved_by ts m
  counts [] m = refl
  counts (t ∷ ts) m = cc (one_ticket t.status (same t.employee_id m.employee_id), counts ts m)

  resolved_count_lem : (db : Db) → resolved_count db ≡ resolved_by db.tickets
  unfolding resolved_count
  resolved_count_lem db = λ i m. counts db.tickets m i

  most_top :
      (c : Employee → ℕ) (ms : List Employee)
      → most (select (λ r. ltb 0 r.resolved_tickets) (map (row_of c) ms)) ≡ top_of c ms
  unfolding most
  most_top c [] = refl
  most_top c (m ∷ ms) = ground (arith, most_top c ms)

  reported :
      (s : Session)
      → (top_resolvers s).0
        ≡ ok (
            map
              (row_of (resolved_count s.db))
              (select (leads (resolved_count s.db) s.db.employees) s.db.employees))
  unfolding top_resolvers resolved_tickets
  reported s =
      let c = resolved_count s.db in
      let ms = s.db.employees in
      let tests : All (λ m. (ltb 0 (c m) && c m == top_of c ms) ≡ leads c ms m) ms =
        All-map (λ m. c m ≤ top_of c ms) (λ m. (ltb 0 (c m) && c m == top_of c ms) ≡ leads c ms m)
          ms (λ m h. leads_lem c ms m h) (below_top c ms) in
      rw (most_top c ms) (
        ap ok (
          select-select-map (row_of c) (λ r. r.resolved_tickets == top_of c ms)
            (λ r. ltb 0 r.resolved_tickets) ms
          ∙ ap (map (row_of c)) (select_cong _ _ ms tests)))

  -- The report lists, in the order of the table, exactly the employees who have a ticket with the
  -- status RESOLVED and than whom no employee has more such tickets, each with the number of them.
  pub top_resolvers_lem :
      (s : Session)
      → (top_resolvers s).0
        ≡ ok (
            map
              (row_of (resolved_by s.db.tickets))
              (select (leads (resolved_by s.db.tickets) s.db.employees) s.db.employees))
  top_resolvers_lem s =
      subst
        (λ c.
          (top_resolvers s).0
          ≡ ok (map (row_of c) (select (leads c s.db.employees) s.db.employees)))
        (resolved_count_lem s.db) (reported s)
